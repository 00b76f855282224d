-- ===== src/Reads/Posts.antt =====
-- What fs_rdma_do_reads of src/c/transport.c hands to ibv_post_send.
use rdma_cpp.Common.{
  ℕ, ◌+◌, ◌^◌, ◌<◌, ◌≡◌, refl, ◌∙◌, sym, subst, Bool, true, Option, none, some, List, [], ◌∷◌, ◌==◌,
  if◌then◌else◌,
}
use rdma_cpp.Common.Cint.{is_null, Ptr}
use rdma_cpp.Common.Cmd.{ok, final, pure, call, call_for, get_mem, put_mem, ◌>>=◌, ◌>>◌}
use rdma_cpp.Common.Cmd.Keeps.{Keeps, Keeps-bind, Keeps-bind_ok, Keeps-if, Keeps-pure, Keeps-crash}
use rdma_cpp.Reads.Foreign.{
  ReadChunk, Sge, SendWr, PostEnv, PostCall, iobuf_get2, iobuf_unref, iobref_new, iobref_add,
  calloc_sge, calloc_wr, free, register_mr, post_ref, post_unref, post_send,
}
use rdma_cpp.Reads.{
  PostWorld, Built, built, unregistered, measure, build, end_chain, post_list, issue, take_iobref,
  read_chunks, read_measured, do_reads, fail,
}
use rdma_cpp.Reads.Tiles.{local_parts}
use rdma_cpp.Reads.Bounds.{total_length, Inside, build-Inside}
use rdma_cpp.Reads.Chain.{IsChain, build-IsChain}
use rdma_cpp.Reads.Log.{
  is_quiet, Steady, Log, call-Keeps, call_for-Keeps, get_mem-Keeps, build-Keeps, take_iobref-Keeps,
  finish-Keeps,
}

-- The buffer that the latest iobuf_get2 gave, and its size.
abbrev pub latest_buffer : PostEnv → List PostCall → Option (Ptr × ℕ)
latest_buffer env [] = none
latest_buffer env (iobuf_get2 size ∷ t) =
    some (env.iobuf_ptr (env.ptr_of t (iobuf_get2 size)), size)
latest_buffer env (k ∷ t) = latest_buffer env t

abbrev pub WithinBuffer : Option (Ptr × ℕ) → List (Ptr × ℕ) → Type 0
WithinBuffer none ps = ⊥
WithinBuffer (some (p, size)) ps = Inside p (p + size) ps

-- Every list of requests that was posted is a chain, and reads into the latest buffer.
abbrev pub AllWithin : PostEnv → List PostCall → Type 0
AllWithin env [] = Unit {0}
AllWithin env (post_send sges wrs ∷ t) =
    WithinBuffer (latest_buffer env t) (local_parts sges) × IsChain 0 wrs × AllWithin env t
AllWithin env (k ∷ t) = AllWithin env t

-- The latest buffer is the one of `size` bytes at `ptr`, and every post is within its buffer.
record InBuffer (env : PostEnv) (ptr : Ptr) (size : ℕ) (t : List PostCall) : Type 0 where
  latest : latest_buffer env t ≡ some (ptr, size)
  within : AllWithin env t

quiet-latest_buffer :
    (env : PostEnv) (k : PostCall) (t : List PostCall)
    → is_quiet k ≡ true
    → latest_buffer env (k ∷ t) ≡ latest_buffer env t
quiet-latest_buffer env (iobuf_unref p) t q = refl
quiet-latest_buffer env iobref_new t q = refl
quiet-latest_buffer env (iobref_add p b) t q = refl
quiet-latest_buffer env (calloc_sge n) t q = refl
quiet-latest_buffer env (calloc_wr n) t q = refl
quiet-latest_buffer env (free p) t q = refl
quiet-latest_buffer env (register_mr v) t q = refl
quiet-latest_buffer env post_ref t q = refl
quiet-latest_buffer env post_unref t q = refl
quiet-latest_buffer env (iobuf_get2 n) t q = cc
quiet-latest_buffer env (post_send l w) t q = cc

quiet-AllWithin :
    (env : PostEnv) (k : PostCall) (t : List PostCall)
    → is_quiet k ≡ true
    → AllWithin env t
    → AllWithin env (k ∷ t)
quiet-AllWithin env (iobuf_unref p) t q h = h
quiet-AllWithin env iobref_new t q h = h
quiet-AllWithin env (iobref_add p b) t q h = h
quiet-AllWithin env (calloc_sge n) t q h = h
quiet-AllWithin env (calloc_wr n) t q h = h
quiet-AllWithin env (free p) t q h = h
quiet-AllWithin env (register_mr v) t q h = h
quiet-AllWithin env post_ref t q h = h
quiet-AllWithin env post_unref t q h = h
quiet-AllWithin env (iobuf_get2 n) t q h = cc
quiet-AllWithin env (post_send l w) t q h = cc

AllWithin-Steady : (env : PostEnv) → Steady (AllWithin env)
AllWithin-Steady env = record { quiet_call = quiet-AllWithin env }

instance InBuffer-Steady : {env : PostEnv} {ptr : Ptr} {size : ℕ} → Steady (InBuffer env ptr size)
InBuffer-Steady {env} = record {
  quiet_call = λ k t q h. record {
    latest = quiet-latest_buffer env k t q ∙ h.latest;
    within = quiet-AllWithin env k t q h.within;
  };
}

module _ (env : PostEnv) where
  post_list-Keeps :
      (list wr : Ptr) (made : Built) (ptr : Ptr) (size : ℕ)
      → ((sges : List Sge) (wrs : List SendWr) (t : ℕ)
          → made ≡ built sges wrs t
          → Inside ptr (ptr + size) (local_parts sges) × IsChain 0 (end_chain wrs))
      → Keeps (Log (InBuffer env ptr size)) (post_list env list wr made)
  unfolding post_list call_for
  post_list-Keeps list wr (unregistered t) ptr size fits = Keeps-pure _
  post_list-Keeps list wr (built sges wrs t) ptr size fits =
      Keeps-bind _ _ (record { at = λ w h. posted w h })
        (λ got. Keeps-bind _ _ get_mem-Keeps (λ p. Keeps-pure _))
    where
      posted :
          (w : PostWorld)
          → Log (InBuffer env ptr size) w
          → Log
              (InBuffer env ptr size)
              (record w { trace = post_send sges (end_chain wrs) ∷ w.trace })
      posted w h =
          let (inside, chain) = fits sges wrs t refl in
          record {
            log = record {
              latest = h.log.latest;
              within = (
                subst (λ b. WithinBuffer b (local_parts sges)) (sym h.log.latest) inside,
                chain,
                h.log.within,
              );
            };
          }

  module _ (post : Ptr) (readch : List ReadChunk) (count size : ℕ)
      (small : total_length readch < 2 ^ 64)
      (measured : measure readch 0 0 ≡ some (count, size)) where
    made-fits :
        (ptr : Ptr) (w w' : PostWorld) (made : Built)
        → build env post readch 0 ptr [] [] 0 w ≡ ok made w'
        → (sges : List Sge) (wrs : List SendWr) (t : ℕ) → made ≡ built sges wrs t
        → Inside ptr (ptr + size) (local_parts sges) × IsChain 0 (end_chain wrs)
    made-fits ptr w w' made e sges wrs t same =
        let e' : build env post readch 0 ptr [] [] 0 w ≡ ok (built sges wrs t) w' =
          subst (λ b. build env post readch 0 ptr [] [] 0 w ≡ ok b w') same e in
        let (_, chain) = build-IsChain env post readch ptr w w' e' in
        (build-Inside env post readch ptr count size w w' small measured e', chain)

    issue-Keeps :
        (connected : Bool) (n : ℕ) (ptr : Ptr)
        → Keeps (Log (InBuffer env ptr size)) (issue env connected post readch n ptr)
    unfolding issue
    issue-Keeps connected n ptr =
        Keeps-if connected _ _
          (Keeps-bind _ _ (call_for-Keeps env.ptr_of (calloc_sge n) refl) (λ list.
            Keeps-if (is_null list) _ _ (Keeps-pure _) (
              Keeps-bind _ _ (call_for-Keeps env.ptr_of (calloc_wr n) refl) (λ wr.
                Keeps-if (is_null wr) _ _ (Keeps-pure _) (
                  Keeps-bind_ok _ _ (build-Keeps env post readch 0 ptr [] [] 0) (λ made w w' e h.
                    (post_list-Keeps list wr made ptr size (made-fits ptr w w' made e)).at w'
                      h))))))
          (Keeps-pure _)

    -- From iobuf_get2 on, which has given a buffer.
    after_buffer-Keeps :
        (connected : Bool) (n iobuf : ℕ)
        → Keeps (Log (InBuffer env (env.iobuf_ptr iobuf) size)) (
            if is_null iobuf then pure (fail 0 0 0) else do
              iobref ← take_iobref env
              if is_null iobref then (do call (iobuf_unref iobuf); pure (fail 0 0 0)) else do
                call (iobref_add iobref iobuf)
                call (iobuf_unref iobuf)
                issue env connected post readch n (env.iobuf_ptr iobuf))
    after_buffer-Keeps connected n iobuf = Keeps-if (is_null iobuf) _ _ (Keeps-pure _) (
        Keeps-bind _ _ (take_iobref-Keeps env) (λ iobref.
          Keeps-if (is_null iobref) _ _
            (Keeps-bind _ _ (call-Keeps (iobuf_unref iobuf) refl) (λ _. Keeps-pure _))
            (Keeps-bind _ _ (call-Keeps (iobref_add iobref iobuf) refl) (λ _.
              Keeps-bind _ _ (call-Keeps (iobuf_unref iobuf) refl)
                (λ _. issue-Keeps connected n (env.iobuf_ptr iobuf))))))

    read_chunks-Keeps :
        (connected : Bool) (n : ℕ)
        → Keeps (Log (AllWithin env)) (read_chunks env connected post readch n size)
    unfolding read_chunks get_mem put_mem call_for ◌>>=◌
    read_chunks-Keeps connected n = Keeps-if (n == 0) _ _ (Keeps-pure _) (record {
      at = λ w h.
          let t = iobuf_get2 size ∷ w.trace in
          let iobuf = env.ptr_of w.trace (iobuf_get2 size) in
          record {
            log =
                ((after_buffer-Keeps connected n iobuf).at
                  (record { trace = t; mem = record (w.mem) { fs_rdma_reads = n } })
                  (record { log = record { latest = refl; within = h.log } })).log.within;
          };
    })

  read_measured-Keeps :
      (connected : Bool) (post : Ptr) (readch : List ReadChunk) (m : Option (ℕ × ℕ))
      → total_length readch < 2 ^ 64
      → measure readch 0 0 ≡ m
      → Keeps (Log (AllWithin env)) (read_measured env connected post readch m)
  read_measured-Keeps connected post readch none small e = Keeps-crash
  read_measured-Keeps connected post readch (some (n, size)) small e =
      read_chunks-Keeps post readch n size small e connected n

-- Let the chunks come to less than 2^64 bytes, and let every list of requests that was posted so
-- far be a chain that reads into the buffer which iobuf_get2 gave last before it, and nowhere else.
-- However fs_rdma_do_reads ends, and whatever the foreign code answers, that holds of the lists
-- that it posts too.
pub do_reads-AllWithin :
    (env : PostEnv) (connected : Bool) (post : Ptr) (readch : List ReadChunk) (w : PostWorld)
    → total_length readch < 2 ^ 64
    → AllWithin env w.trace
    → AllWithin env (final (do_reads env connected post readch w)).trace
unfolding do_reads
do_reads-AllWithin env connected post readch w small h =
    ((Keeps-bind _ _ (read_measured-Keeps env connected post readch (measure readch 0 0) small refl)
        (λ o. finish-Keeps ⦃s = AllWithin-Steady env⦄ o)).at
      w (record { log = h })).log
