-- ===== src/Reads/Log.antt =====
-- The calls of fs_rdma_do_reads of src/c/transport.c but for the buffer and the post.
use rdma_cpp.Common.{ℕ, ◌+◌, ◌≡◌, refl, Bool, true, false, List, [], ◌∷◌, zero, suc}
use rdma_cpp.Common.Cint.{Ptr}
use rdma_cpp.Common.Cmd.{call, call_for, observe, get_mem, put_mem}
use rdma_cpp.Common.Cmd.Keeps.{
  Keeps, Keeps-bind, Keeps-bind_ok, Keeps-if, Keeps-pure, Keeps-crash, keeps_rules,
}
use rdma_cpp.Reads.Foreign.{
  ReadChunk, Iovec, Sge, SendWr, PostEnv, PostCall, iobuf_get2, post_unref, post_send,
}
use rdma_cpp.Reads.{PostCtx, PostWorld, Out, push_vector, build, unref_posts, finish, take_iobref}

-- Neither iobuf_get2 nor ibv_post_send.
abbrev pub is_quiet : PostCall → Bool
is_quiet (post_send _ _) = false
is_quiet (iobuf_get2 _) = false
is_quiet _ = true

-- A quiet call keeps `L`.
pub record Steady (L : List PostCall → Type 0) : Type 0 where
  pub quiet_call : (k : PostCall) (t : List PostCall) → is_quiet k ≡ true → L t → L (k ∷ t)

-- `L` of the calls so far.
pub record Log (L : List PostCall → Type 0) (w : PostWorld) : Type 0 where
  pub log : L w.trace

module _ {L : List PostCall → Type 0} ⦃s : Steady L⦄ where
  pub call-Keeps : (k : PostCall) → is_quiet k ≡ true → Keeps (Log L) (call k)
  unfolding call
  call-Keeps k q = record { at = λ w h. record { log = s.quiet_call k w.trace q h.log } }

  pub call_for-Keeps :
      {A : Type 0} (answer : List PostCall → PostCall → A) (k : PostCall)
      → is_quiet k ≡ true
      → Keeps (Log L) (call_for answer k)
  unfolding call_for
  call_for-Keeps answer k q = record { at = λ w h. record { log = s.quiet_call k w.trace q h.log } }

  pub observe-Keeps : {A : Type 0} (answer : List PostCall → A) → Keeps (Log L) (observe answer)
  unfolding observe
  observe-Keeps answer = record { at = λ w h. h }

  pub get_mem-Keeps : Keeps (Log L) get_mem
  unfolding get_mem
  get_mem-Keeps = record { at = λ w h. h }

  pub put_mem-Keeps : (m : PostCtx) → Keeps (Log L) (put_mem m)
  unfolding put_mem
  put_mem-Keeps m = record { at = λ w h. record { log = h.log } }

  pub ruleset log_rules =
      (keeps_rules, call-Keeps, call_for-Keeps, observe-Keeps, get_mem-Keeps, put_mem-Keeps)

  pub push_vector-Keeps : (v : Iovec) → Keeps (Log L) (push_vector v)
  unfolding push_vector
  push_vector-Keeps v = search log_rules

  pub build-Keeps :
      (env : PostEnv) (post : Ptr) (cs : List ReadChunk) (i : ℕ) (ptr : Ptr) (list : List Sge)
      (wr : List SendWr) (t : ℕ)
      → Keeps (Log L) (build env post cs i ptr list wr t)
  unfolding build
  build-Keeps env post [] i ptr list wr t = search log_rules
  build-Keeps env post (c ∷ cs) i ptr list wr t =
      let rest : (l : List Sge) (ws : List SendWr)
          → Keeps (Log L) (build env post cs (i + 1) (ptr + c.rs_length) l ws (t + 1)) =
        λ l ws. build-Keeps env post cs (i + 1) (ptr + c.rs_length) l ws (t + 1) in
      search (log_rules, push_vector-Keeps, rest) depth 12

  pub take_iobref-Keeps : (env : PostEnv) → Keeps (Log L) (take_iobref env)
  unfolding take_iobref
  take_iobref-Keeps env = search log_rules depth 9

  pub unref_posts-Keeps : (n : ℕ) → Keeps (Log L) (unref_posts n)
  unfolding unref_posts
  unref_posts-Keeps zero = search log_rules
  unref_posts-Keeps (suc n) = Keeps-bind _ _ (call-Keeps post_unref refl) (λ _. unref_posts-Keeps n)

  pub finish-Keeps : (o : Out) → Keeps (Log L) (finish o)
  unfolding finish
  finish-Keeps o = search (log_rules, unref_posts-Keeps) depth 12
