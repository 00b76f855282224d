-- ===== src/Reads/Refs.antt =====
-- What fs_rdma_do_reads of src/c/transport.c returns, and the references that it leaves on the
-- post.
use rdma_cpp.Common.{
  ℕ, ◌+◌, ◌≤◌, ◌≡◌, ◌⊎◌, inl, inr, refl, subst, Bool, some, List, ◌∷◌, length, ◌==◌, Bool-cases,
  arith,
}
use rdma_cpp.Common.Cint.{ℤ, pos, minus_one, Ptr, null, is_null}
use rdma_cpp.Common.Cmd.{ok, pure, call, put_mem, ◌>>=◌}
use rdma_cpp.Common.Cmd.Returns.{Triple, Triple-pure, Triple-if, Triple-bind}
use rdma_cpp.Reads.Foreign.{
  ReadChunk, PostEnv, iobuf_get2, iobuf_unref, iobref_new, iobref_add, calloc_sge, calloc_wr, free,
}
use rdma_cpp.Reads.{
  PostCtx, PostWorld, measure, Out, fail, issue, unless_null, finish, take_iobref, read_chunks,
  do_reads,
}
use rdma_cpp.Reads.Balance.{NamesBadWr, Owes, State, Triple-get, Triple-call, Triple-call_for}
use rdma_cpp.Reads.Build.{build_all_lem}
use rdma_cpp.Reads.Post.{IsOut, posted, failed, unref_posts_lem, post_list_lem}

-- A return before there is a reference.
failed_lem :
    (env : PostEnv) (reads room : ℕ) (list wr : Ptr)
    → Triple (State env 0 reads room) (pure (fail list wr 0)) (IsOut env)
failed_lem env reads room list wr = Triple-pure (fail list wr 0) (λ w s. failed reads room refl s)

module _ (env : PostEnv) (names : NamesBadWr env) (connected : Bool) (post : Ptr)
    (readch : List ReadChunk) where
  issue_lem :
      (n total : ℕ) (ptr : Ptr)
      → measure readch 0 0 ≡ some (n, total)
      → Triple (State env 0 n n) (issue env connected post readch n ptr) (IsOut env)
  unfolding issue
  issue_lem n total ptr h =
      Triple-if connected _ _
        (λ c.
          Triple-bind (Triple-call_for env.ptr_of (calloc_sge n) (refl, refl, λ env t. refl)) (λ l.
            Triple-if (is_null l) _ _ (λ z. failed_lem env n n null null)
              (λ z.
                Triple-bind (Triple-call_for env.ptr_of (calloc_wr n) (refl, refl, λ env t. refl))
                  (λ r.
                    Triple-if (is_null r) _ _ (λ y. failed_lem env n n l null)
                      (λ y.
                        Triple-bind (build_all_lem env post readch n total ptr h)
                          (λ made. post_list_lem env names n l r made))))))
        (λ c. failed_lem env n n null null)

  take_iobref_lem :
      (n room : ℕ) → Triple (State env 0 n room) (take_iobref env) (λ _. State env 0 n room)
  unfolding take_iobref ◌>>=◌
  take_iobref_lem n room = record {
    at = λ w s. elim (Bool-cases (is_null w.mem.iobref)) [
      | inl z ↦
          let made = env.ptr_of w.trace iobref_new in
          (
            made,
            record { trace = iobref_new ∷ w.trace; mem = record (w.mem) { iobref = made } },
            simp z,
            record { owes = omega (arith, s.owes); reads_eq = s.reads_eq; room_le = s.room_le },
          )
      | inr z ↦ (w.mem.iobref, w, simp z, s)
    ];
  }

  set_reads_lem :
      (n reads : ℕ)
      → (p : PostCtx)
      → Triple
          (λ w. State env 0 reads n w × (w.mem ≡ p))
          (put_mem (record p { fs_rdma_reads = n }))
          (λ _. State env 0 n n)
  unfolding put_mem
  set_reads_lem n reads p = record {
    at = λ w (s, e). (
      tt,
      record w { mem = record p { fs_rdma_reads = n } },
      refl,
      record {
        owes = s.owes;
        reads_eq = refl;
        room_le = subst (λ m. m.count + n ≤ length m.vector) e s.room_le;
      },
    );
  }

  read_chunks_lem :
      (n total reads : ℕ)
      → measure readch 0 0 ≡ some (n, total)
      → Triple (State env 0 reads n) (read_chunks env connected post readch n total) (IsOut env)
  unfolding read_chunks
  read_chunks_lem n total reads h =
      Triple-if (n == 0) _ _ (λ z. failed_lem env reads n null null)
        (λ z. Triple-bind Triple-get (λ p. Triple-bind (set_reads_lem n reads p) (λ _.
          Triple-bind (Triple-call_for env.ptr_of (iobuf_get2 total) (refl, refl, λ env t. refl))
            (λ b.
              Triple-if (is_null b) _ _ (λ y. failed_lem env n n null null)
                (λ y. Triple-bind (take_iobref_lem n n) (λ f.
                  Triple-if (is_null f) _ _
                    (λ x.
                      Triple-bind (Triple-call (iobuf_unref b) (refl, refl, λ env t. refl))
                        (λ _. failed_lem env n n null null))
                    (λ x.
                      Triple-bind (Triple-call (iobref_add f b) (refl, refl, λ env t. refl)) (λ _.
                        Triple-bind (Triple-call (iobuf_unref b) (refl, refl, λ env t. refl))
                          (λ _. issue_lem n total (env.iobuf_ptr b) h)))))))))

-- The end of the code, from a state in which it owes `owed`.
abbrev pub IsDone : PostEnv → ℤ → PostWorld → Type 0
IsDone env r w = ((r ≡ pos 0) ⊎ (r ≡ minus_one)) × Owes env 0 w

module _ (env : PostEnv) (reads room : ℕ) where
  free_lem :
      (owed : ℕ) (p : Ptr)
      → Triple
          (State env owed reads room)
          (unless_null p (call (free p)))
          (λ _. State env owed reads room)
  free_lem owed p =
      Triple-if (is_null p) _ _ (λ _. Triple-pure tt (λ w s. s))
        (λ _. Triple-call (free p) (refl, refl, λ env t. refl))

  returns_lem :
      {r : ℤ}
      → (r ≡ pos 0) ⊎ (r ≡ minus_one)
      → Triple (State env 0 reads room) (pure r) (IsDone env)
  returns_lem {r = r} h = Triple-pure r (λ w s. (h, s.owes))

  finish_posted :
      (o : Out) → o.ret ≡ pos 0 → Triple (State env 0 reads room) (finish o) (IsDone env)
  unfolding finish
  finish_posted o e = rw e (
      Triple-bind (free_lem 0 o.list) (λ _.
        Triple-bind (free_lem 0 o.wr)
          (λ _. Triple-bind (Triple-pure tt (λ w s. s)) (λ _. returns_lem (inl refl)))))

  finish_failed :
      (o : Out)
      → o.ret ≡ minus_one
      → Triple (State env o.total_ref reads room) (finish o) (IsDone env)
  unfolding finish
  finish_failed o e = rw e (
      Triple-bind (free_lem o.total_ref o.list) (λ _. Triple-bind (free_lem o.total_ref o.wr) (λ _.
        Triple-bind
          (Triple-bind (unref_posts_lem env o.total_ref reads room) (λ _.
            Triple-if (is_null o.iobuf) _ _ (λ _. Triple-pure tt (λ w s. s))
              (λ _. Triple-call (iobuf_unref o.iobuf) (refl, refl, λ env t. refl))))
          (λ _. returns_lem (inr refl)))))

finish_lem : (env : PostEnv) (o : Out) → Triple (IsOut env o) (finish o) (IsDone env)
finish_lem env o = record { at = λ w h. go w h }
  where
    go :
        (w : PostWorld)
        → IsOut env o w
        → (r : ℤ) × (w' : PostWorld) × (finish o w ≡ ok r w') × IsDone env r w'
    go w (posted reads room e s) = (finish_posted env reads room o e).at w s
    go w (failed reads room e s) = (finish_failed env reads room o e).at w s

-- Let ibv_post_send, when it fails, store in `bad_wr` one of the requests of its list. From a post
-- that has one reference for each request that the hardware has accepted from it, and room in its
-- array `vector` for the chunks, of which there are `n`, fs_rdma_do_reads returns, it returns 0 or
-- -1, and the post again has one reference for each accepted request, whichever step fails.
pub do_reads-Owes :
    (env : PostEnv) (connected : Bool) (post : Ptr) (readch : List ReadChunk) (n size : ℕ)
    (w : PostWorld)
    → NamesBadWr env
    → measure readch 0 0 ≡ some (n, size)
    → w.mem.count + n ≤ length w.mem.vector
    → Owes env 0 w
    → (ret : ℤ) × (w' : PostWorld) × (do_reads env connected post readch w ≡ ok ret w')
      × (((ret ≡ pos 0) ⊎ (ret ≡ minus_one)) × Owes env 0 w')
unfolding do_reads
do_reads-Owes env connected post readch n size w names h room owes = rw h (
    (Triple-bind (read_chunks_lem env names connected post readch n size w.mem.fs_rdma_reads h)
        (λ o. finish_lem env o)).at
      w (record { owes = owes; reads_eq = refl; room_le = room }))
