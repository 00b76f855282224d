-- ===== src/Connection/Server/Establish.antt =====
-- What establish_connection of src/Connection.cc returns and leaves, on both sides.
use rdma_cpp.Common.{
  ℕ, ◌≡◌, ◌⊎◌, inl, inr, refl, ◌∙◌, sym, Bool-cases, true, false, List, ◌∷◌, if◌then◌else◌,
}
use rdma_cpp.Common.Cint.{ℤ, pos, is_null, is_set, eq_zero_of_is_set}
use rdma_cpp.Common.Cmd.{ok, pure}
use rdma_cpp.Common.Cmd.Returns.{Triple, Triple-pure, Triple-if, Triple-bind}
use rdma_cpp.Connection.Foreign.{Event, Call, Env}
use rdma_cpp.Connection.{Params, ConnWorld, client_connect}
use rdma_cpp.Connection.State.{fetched_events, acked_events}
use rdma_cpp.Connection.Client.{client_connect-acks}
use rdma_cpp.Connection.Server.{establish_connection, server_connect}
use rdma_cpp.Connection.Server.Acks.{ServerEnds, server_connect-ServerEnds}

-- 0 with every event acknowledged and the flag as before, or 1 with one event at most that was
-- never acknowledged.
pub data Established (env : Env) (work : ℕ) (ret : ℤ) (w : ConnWorld) : Type 0 where
  done :
      ret ≡ pos 0
      → fetched_events env w.trace ≡ acked_events w.trace
      → w.mem.work_rdma_cm ≡ work
      → Established env work ret w
  failed :
      ret ≡ pos 1
      → (fetched_events env w.trace ≡ acked_events w.trace)
        ⊎ ((e : Event) × (fetched_events env w.trace ≡ e ∷ acked_events w.trace))
      → Established env work ret w

-- The client too ends the way the server does.
client_end :
    (env : Env) (work : ℕ) (ret : ℤ) (w : ConnWorld)
    → env.success ≡ pos 0
    → fetched_events env w.trace ≡ acked_events w.trace
    → (ret ≡ env.success → w.mem.work_rdma_cm ≡ work)
    → ServerEnds env work ret w
client_end env work ret w zero events restores = elim (Bool-cases (is_set ret)) [
  | inl z ↦ inr (z, inl events)
  | inr z ↦
      let r : ret ≡ pos 0 = eq_zero_of_is_set ret z in inl (r, events, restores (r ∙ sym zero))
]

-- The result of the side, turned into 0 or 1.
settle_lem :
    (env : Env) (work : ℕ) (ret : ℤ)
    → Triple
        (ServerEnds env work ret)
        (pure (if is_set ret then pos 1 else pos 0))
        (Established env work)
settle_lem env work ret = Triple-pure _ (λ w h. elim h [
  | inl (r, events, work_eq) ↦ done (rw r refl) events work_eq
  | inr (bad, events) ↦ failed (rw bad refl) events
])

-- Let SUCCESS be 0 and FAILURE another number, and let the identifier of every event be set. On a
-- context whose identifier and array `ah` are set, and of which every fetched event was
-- acknowledged, establish_connection returns 0 or 1 on either side. Where it returns 0, every event
-- that it fetched is acknowledged and the flag `work_rdma_cm` is as before; where it returns 1, at
-- most one event that it fetched was never acknowledged.
pub establish_connection-Established :
    (env : Env) (param : Params) (w : ConnWorld)
    → env.success ≡ pos 0
    → is_set env.failure ≡ true
    → ((t : List Call) (k : Call) → is_null (env.event_of t k).id ≡ false)
    → is_null w.mem.cm_id ≡ false
    → is_null w.mem.ah ≡ false
    → fetched_events env w.trace ≡ acked_events w.trace
    → (ret : ℤ) × (w' : ConnWorld) × (establish_connection env param w ≡ ok ret w')
      × Established env w.mem.work_rdma_cm ret w'
unfolding establish_connection
establish_connection-Established env param w zero bad set id ah settled =
    (Triple-bind (Triple-if param.is_client _ _ (λ _. client) (λ _. server))
        (settle_lem env w.mem.work_rdma_cm)).at
      w refl
  where
    client : Triple (λ v. v ≡ w) (client_connect env param) (ServerEnds env w.mem.work_rdma_cm)
    client = record {
      at = λ v same. rw same (
          let (ret, w', ran, (events, _, restores)) =
            client_connect-acks env param w (λ f. cc (f, zero, bad)) id ah settled in
          (ret, w', ran, client_end env w.mem.work_rdma_cm ret w' zero events restores));
    }

    server : Triple (λ v. v ≡ w) (server_connect env param) (ServerEnds env w.mem.work_rdma_cm)
    server = record {
      at = λ v same. rw same (server_connect-ServerEnds env param w bad set settled);
    }
