-- ===== src/Connection/Loops.antt =====
-- The retry loops of rdma_client_connect of src/Connection.cc.
use rdma_cpp.Common.{ℕ, zero, suc, ◌+◌, ◌≤◌, ◌≡◌, refl, true, not, List, [], ◌∷◌, arith}
use rdma_cpp.Common.Cint.{is_set, Ptr}
use rdma_cpp.Common.Cmd.{pure, call_for}
use rdma_cpp.Common.Cmd.Returns.{Triple, Triple-pure, Triple-if, Triple-weaken, Triple-bind}
use rdma_cpp.Connection.Foreign.{
  EventKind, addr_resolved, addr_error, route_resolved, route_error, SockAddr, Env, Call,
  resolve_addr, resolve_route, get_cm_event,
}
use rdma_cpp.Connection.{
  ConnWorld, Con, is_kind, event_answer, Resolved, gave_up, resolved, await, resolve_addr_loop,
  resolve_route_loop,
}
use rdma_cpp.Connection.State.{
  fetched_events, acked_events, is_attempt, Neutral, State, State-le, IsFetched, Triple-call_for,
  Triple-get, Triple-attempt, Triple-fetch, Triple-ack,
}

-- The commands that follow a read of the context.
module _ {env : Env} {most work : ℕ} {F : Type 0} where
  pub fetch_lem :
      (ch : Ptr)
      → Triple
          (λ w. State env most [] work w × F)
          (call_for (event_answer env) (get_cm_event ch))
          (IsFetched env most work)
  fetch_lem ch = Triple-weaken (Triple-fetch ch) (λ w q. q.0) (λ r w q. q)

  attempt_lem :
      (k : Call)
      → is_attempt k ≡ true
      → ((t : List Call) → fetched_events env (k ∷ t) ≡ fetched_events env t)
      → ((t : List Call) → acked_events (k ∷ t) ≡ acked_events t)
      → Triple
          (λ w. State env most [] work w × F)
          (call_for env.int_of k)
          (λ _. State env (suc most) [] work)
  attempt_lem k a f h = Triple-weaken (Triple-attempt k a f h) (λ w q. q.0) (λ r w q. q)

  pub neutral_lem :
      (k : Call)
      → Neutral k
      → Triple
          (λ w. State env most [] work w × F)
          (call_for env.int_of k)
          (λ _. State env most [] work)
  neutral_lem k h = Triple-weaken (Triple-call_for env.int_of k h) (λ w q. q.0) (λ r w q. q)

-- After a retry loop of at most `total` resolving calls, counted from the start.
pub data AfterLoop (env : Env) (total work : ℕ) (r : Resolved) (w : ConnWorld) : Type 0 where
  lost : r ≡ gave_up → State env total [] work w → AfterLoop env total work r w
  found :
      (n most : ℕ)
      → r ≡ resolved n
      → most ≤ total
      → most + n ≤ total + 1
      → State env most [] work w
      → AfterLoop env total work r w

module _ {env : Env} {most total work : ℕ} (le : most ≤ total) where
  lost_lem : Triple (State env most [] work) (pure gave_up) (AfterLoop env total work)
  lost_lem = Triple-pure gave_up (λ w s. lost refl (State-le w le s))

  await_lem :
      (again done : EventKind) (n : ℕ) (rest : Con Resolved)
      → most + n ≤ total + 1
      → Triple (State env most [] work) rest (AfterLoop env total work)
      → Triple (State env most [] work) (await env again done n rest) (AfterLoop env total work)
  unfolding await
  await_lem again done n rest room next = Triple-bind Triple-get (λ c.
      Triple-bind (fetch_lem c.cm_channel) (λ got.
        Triple-if (is_set (got.0)) _ _ (λ z. Triple-weaken lost_lem (λ w q. q.0 z) (λ r w q. q))
          (λ z.
            Triple-weaken
              (Triple-if (is_kind (got.1.kind) again) _ _
                (λ _. Triple-bind (Triple-ack (got.1)) (λ _. next))
                (λ _.
                  Triple-if (not (is_kind (got.1.kind) done)) _ _
                    (λ _. Triple-bind (Triple-ack (got.1)) (λ _. lost_lem))
                    (λ _.
                      Triple-bind (Triple-ack (got.1))
                        (λ _. Triple-pure (resolved n) (λ w s. found n most refl le room s)))))
              (λ w q. q.1 z) (λ r w q. q))))

module _ {env : Env} {work : ℕ} where
  pub resolve_addr_loop_lem :
      (sin : SockAddr) (n most total : ℕ)
      → most + n ≤ total
      → Triple (State env most [] work) (resolve_addr_loop env sin n) (AfterLoop env total work)
  unfolding resolve_addr_loop
  resolve_addr_loop_lem sin zero most total le = lost_lem (omega arith)
  resolve_addr_loop_lem sin (suc n) most total le = Triple-bind Triple-get (λ c.
      Triple-bind (attempt_lem (resolve_addr c.cm_id sin) refl (λ t. refl) (λ t. refl)) (λ failed.
        Triple-if (is_set failed) _ _ (λ _. lost_lem (omega arith))
          (λ _.
            await_lem (omega arith) addr_error addr_resolved (suc n) _ (omega arith)
              (resolve_addr_loop_lem sin n (suc most) total (omega arith)))))

  pub resolve_route_loop_lem :
      (n most total : ℕ)
      → most + n ≤ total
      → Triple (State env most [] work) (resolve_route_loop env n) (AfterLoop env total work)
  unfolding resolve_route_loop
  resolve_route_loop_lem zero most total le = lost_lem (omega arith)
  resolve_route_loop_lem (suc n) most total le = Triple-bind Triple-get (λ c.
      Triple-bind (attempt_lem (resolve_route c.cm_id) refl (λ t. refl) (λ t. refl)) (λ failed.
        Triple-if (is_set failed) _ _ (λ _. lost_lem (omega arith))
          (λ _.
            await_lem (omega arith) route_error route_resolved (suc n) _ (omega arith)
              (resolve_route_loop_lem n (suc most) total (omega arith)))))
