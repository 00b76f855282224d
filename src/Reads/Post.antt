-- ===== src/Reads/Post.antt =====
-- From the call of ibv_post_send to the label `unlock` in fs_rdma_do_reads of src/c/transport.c.
use rdma_cpp.Common.{
  ℕ, zero, suc, ◌+◌, ◌-◌, ◌≤◌, ◌<◌, ◌≡◌, ◌≢◌, inl, inr, refl, subst, List, ◌∷◌, length, ◌==◌,
  Bool-cases, Option-cases, arith,
}
use rdma_cpp.Common.Cint.{pos, minus_one, is_set, eq_zero_of_is_set, Ptr, null}
use rdma_cpp.Common.Cmd.{ok, pure, call_for, get_mem, ◌>>=◌}
use rdma_cpp.Common.Cmd.Returns.{Triple, Triple-pure, Triple-bind}
use rdma_cpp.Reads.Foreign.{Sge, SendWr, PostEnv, post_send}
use rdma_cpp.Reads.{
  PostWorld, Built, built, unregistered, Out, fail, end_chain, forget_posted, post_list,
  unref_posts,
}
use rdma_cpp.Reads.Balance.{NamesBadWr, State, Triple-unref}
use rdma_cpp.Reads.Build.{BuiltState}
use rdma_cpp.Reads.Chain.{length-end_chain}

-- The result is 0 or -1, and every reference is that of an accepted request, or the code still
-- owes it.
pub data IsOut (env : PostEnv) (o : Out) (w : PostWorld) : Type 0 where
  posted : (reads room : ℕ) → o.ret ≡ pos 0 → State env 0 reads room w → IsOut env o w
  failed : (reads room : ℕ) → o.ret ≡ minus_one → State env o.total_ref reads room w → IsOut env o w

-- The loop after a failed post takes off one reference for each request before `bad_wr`.
forget_posted_lem :
    (k i bad total : ℕ) → i ≤ bad → bad < i + k → forget_posted i k bad total ≡ total - (bad - i)
unfolding forget_posted
forget_posted_lem zero i bad total le lt = omega arith
forget_posted_lem (suc k) i bad total le lt = elim (Bool-cases (i == bad)) [
  | inl e ↦ rw e (ground arith)
  | inr e ↦
      let ne : i ≢ bad = ground arith in
      rw e (omega (arith, forget_posted_lem k (i + 1) bad (total - 1) (omega arith) (omega arith)))
]

pub unref_posts_lem :
    (env : PostEnv) (owed n room : ℕ)
    → Triple (State env owed n room) (unref_posts owed) (λ _. State env 0 n room)
unfolding unref_posts
unref_posts_lem env zero n room = Triple-pure tt (λ w s. s)
unref_posts_lem env (suc owed) n room =
    Triple-bind Triple-unref (λ _. unref_posts_lem env owed n room)

module _ (env : PostEnv) (names : NamesBadWr env) (n : ℕ) (l r : Ptr) where
  -- The call of ibv_post_send, on a request list with as many references.
  post_requests_lem :
      (sges : List Sge) (wrs : List SendWr) (w : PostWorld)
      → State env n n 0 w
      → length wrs ≡ n
      → (o : Out) × (w' : PostWorld) × (post_list env l r (built sges wrs n) w ≡ ok o w')
        × IsOut env o w'
  unfolding post_list call_for get_mem pure ◌>>=◌
  post_requests_lem sges wrs w s len =
      let k = post_send sges (end_chain wrs) in
      let w' : PostWorld = record w { trace = k ∷ w.trace } in
      elim (Bool-cases (is_set (env.int_of w.trace k))) [
        | inr z ↦ (
          record { ret = env.int_of w.trace k; list = l; wr = r; total_ref = n; iobuf = null },
          w',
          rw z,
          posted n 0 (eq_zero_of_is_set _ z) (record {
            owes = rw z (omega (arith, s.owes, len, length-end_chain wrs));
            reads_eq = s.reads_eq;
            room_le = s.room_le;
          }),
        )
        | inl z ↦ elim (Option-cases (env.bad_wr_of w.trace k)) [
          | inl e ↦ (
            fail l r n,
            w',
            rw (z, e),
            failed n 0 refl (record {
              owes = rw (z, e) (omega (arith, s.owes));
              reads_eq = s.reads_eq;
              room_le = s.room_le;
            }),
          )
          | inr (bad, e) ↦
              let lt : bad < n =
                omega
                  (arith, names w.trace sges (end_chain wrs) bad e, length-end_chain wrs, len) in
              let left : forget_posted 0 n bad n ≡ n - bad =
                omega (arith, forget_posted_lem n 0 bad n (omega arith) (omega arith)) in
              (
                fail l r (n - bad),
                w',
                simp (z, e, s.reads_eq, left),
                failed n 0 refl (record {
                  owes = rw (z, e) (omega (arith, s.owes));
                  reads_eq = s.reads_eq;
                  room_le = s.room_le;
                }),
              )
        ]
      ]

  pub post_list_lem :
      (made : Built) → Triple (BuiltState env n made) (post_list env l r made) (IsOut env)
  unfolding post_list
  post_list_lem (unregistered t) = Triple-pure (fail l r t) (λ w (room, s). failed n room refl s)
  post_list_lem (built sges wrs t) = record {
    at = λ w (s, len, same).
        rw same (post_requests_lem sges wrs w (subst (λ x. State env x n 0 w) same s) len);
  }
