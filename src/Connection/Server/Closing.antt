-- ===== src/Connection/Server/Closing.antt =====
-- ctx_close_connection of src/Connection.cc, after establish_connection.
use rdma_cpp.Common.{
  ℕ, ◌≡◌, inl, inr, refl, subst, sym, ap, ◌∙◌, Bool, true, false, ◌&&◌, List, [], ◌∷◌, ◌==◌,
  Bool-cases, if◌then◌else◌,
}
use rdma_cpp.Common.Cint.{ℤ, pos, minus_one, is_set, is_zero, is_null}
use rdma_cpp.Common.Cmd.{ok, final, pure, call, call_for, get_mem, ◌>>=◌}
use rdma_cpp.Connection.Foreign.{Env, Call, hand_shake, write_done, close}
use rdma_cpp.Connection.{Params, ConnWorld}
use rdma_cpp.Connection.Flaky.{at}
use rdma_cpp.Connection.State.{fetched_events, acked_events}
use rdma_cpp.Connection.Server.{establish_connection}
use rdma_cpp.Connection.Server.Establish.{
  Established, done, failed, establish_connection-Established,
}
use rdma_cpp.Connection.Retry.{int_eq, ctx_close_connection}

-- The descriptors that were closed.
abbrev pub closed_sockets : List Call → List ℕ
closed_sockets [] = []
closed_sockets (close fd ∷ t) = fd ∷ closed_sockets t
closed_sockets (k ∷ t) = closed_sockets t

-- Neither flag says that librdmacm made the connection.
abbrev pub by_socket : Params → (work : ℕ) → Bool
by_socket param work = (param.use_rdma_cm == 0) && (work == 0)

-- The end of a run from the state `v`: 1 comes with a failed handshake; after one that succeeded the
-- result is 0, but for a connection by the socket that could not be written; and the socket is
-- closed where the result is 0 and the connection is one by the socket.
pub record IsClosed (env : Env) (param : Params) (work : ℕ) (v : ConnWorld) (ret : ℤ)
    (w : ConnWorld) : Type 0 where
  pub same : w.mem ≡ v.mem
  pub refused : is_set (env.int_of v.trace hand_shake) ≡ true → ret ≡ pos 1
  pub agreed :
      is_set (env.int_of v.trace hand_shake) ≡ false
      → (if by_socket param work
          then int_eq (env.int_of (hand_shake ∷ v.trace) (write_done param.sockfd)) (pos 5)
          else true)
        ≡ is_zero ret
  pub closes : closed_sockets w.trace ≡ (
      if is_zero ret && by_socket param work
      then param.sockfd ∷ closed_sockets v.trace
      else closed_sockets v.trace)

close_lem :
    (env : Env) (param : Params) (v : ConnWorld)
    → (ret : ℤ) × (w : ConnWorld) × (ctx_close_connection env param v ≡ ok ret w)
      × IsClosed env param v.mem.work_rdma_cm v ret w
unfolding ctx_close_connection get_mem call_for call pure ◌>>=◌
close_lem env param v =
    let t = hand_shake ∷ v.trace in
    let k = write_done param.sockfd in
    elim (Bool-cases (is_set (env.int_of v.trace hand_shake))) [
      | inl z ↦ (
        pos 1,
        at t v.mem,
        simp z,
        record { same = refl; refused = λ h. refl; agreed = λ h. cc (h, z); closes = refl },
      )
      | inr z ↦ elim (Bool-cases (by_socket param v.mem.work_rdma_cm)) [
        | inr r ↦ (
          pos 0,
          at t v.mem,
          simp (z, r),
          record {
            same = refl;
            refused = λ h. cc (h, z);
            agreed = λ h. rw r refl;
            closes = rw r refl;
          },
        )
        | inl s ↦ elim (Bool-cases (int_eq (env.int_of t k) (pos 5))) [
          | inl e ↦ (
            pos 0,
            at (close param.sockfd ∷ k ∷ t) v.mem,
            simp (z, s, e),
            record {
              same = refl;
              refused = λ h. cc (h, z);
              agreed = λ h. rw (s, e) refl;
              closes = rw s refl;
            },
          )
          | inr e ↦ (
            minus_one,
            at (k ∷ t) v.mem,
            simp (z, s, e),
            record {
              same = refl;
              refused = λ h. cc (h, z);
              agreed = λ h. rw (s, e) refl;
              closes = refl;
            },
          )
        ]
      ]
    ]

-- Let SUCCESS be 0 and FAILURE another number, and let the identifier of every event be set. On a
-- context whose identifier and array `ah` are set and of which every fetched event was
-- acknowledged, let establish_connection return 0. Then ctx_close_connection returns and changes no
-- field: it returns 1 where the handshake fails; otherwise 0, but for a connection that the flags,
-- as they were before establish_connection, leave to the socket, where it returns 0 just where the
-- five bytes were written. The descriptor `sockfd` is closed once where the result is 0 and the
-- connection is one by the socket, and no descriptor is closed elsewhere.
pub close_established :
    (env : Env) (param : Params) (w v : ConnWorld)
    → env.success ≡ pos 0
    → is_set env.failure ≡ true
    → ((t : List Call) (k : Call) → is_null (env.event_of t k).id ≡ false)
    → is_null w.mem.cm_id ≡ false
    → is_null w.mem.ah ≡ false
    → fetched_events env w.trace ≡ acked_events w.trace
    → establish_connection env param w ≡ ok (pos 0) v
    → (ret : ℤ) × (w' : ConnWorld) × (ctx_close_connection env param v ≡ ok ret w')
      × IsClosed env param w.mem.work_rdma_cm v ret w'
close_established env param w v zero bad set id ah settled ran =
    let (r, v', ran', e) =
      establish_connection-Established env param w zero bad set id ah settled in
    let (ret, w', closed, c) = close_lem env param v in
    let same : ok r v' ≡ ok (pos 0) v = sym ran' ∙ ran in
    (ret, w', closed, subst (λ work. IsClosed env param work v ret w') (kept same e) c)
  where
    kept :
        {r : ℤ} {v' : ConnWorld}
        → ok r v' ≡ ok (pos 0) v
        → Established env w.mem.work_rdma_cm r v'
        → v.mem.work_rdma_cm ≡ w.mem.work_rdma_cm
    kept same (done z events work) =
        ap (λ u. (final {W = ConnWorld} u).mem.work_rdma_cm) (sym same) ∙ work
    kept same (failed z events) = cc (same, z)
