-- ===== src/Gf/Halts.antt =====
-- The end of gf_rdma_cm_event_handler of src/Transport.cc.
use rdma_cpp.Common.{
  ℕ, zero, suc, ◌+◌, ◌≤◌, ◌≡◌, refl, true, false, List, [], ◌∷◌, length, Bool-cases, inl, inr,
  arith,
}
use rdma_cpp.Common.Cint.{Ptr, is_null, is_set}
use rdma_cpp.Common.Cmd.{ok, call, ◌>>=◌}
use rdma_cpp.Gf.Foreign.{
  EventKind, addr_resolved, route_resolved, connect_request, established, addr_error, route_error,
  connect_error, unreachable, rejected, disconnected, device_removal, unhandled, Event, Call,
  get_cm_event, ack_cm_event, handle_event_error, handle_disconnect,
}
use rdma_cpp.Gf.Loop.{LoopEnv, LoopWorld, ack_then_handle, gf_round, gf_cm_event_handler}
use rdma_cpp.Gf.Tally.{fetched_events}

late_returns :
    (e : Event) (k : Call) (w : LoopWorld)
    → is_null e.context ≡ false
    → ack_then_handle e k w ≡ ok tt (record w { trace = k ∷ ack_cm_event e ∷ w.trace })
unfolding call ◌>>=◌
late_returns e k w z = rw z

-- A round of an event whose transport is set returns, and fetches nothing.
round_returns :
    (env : LoopEnv) (e : Event) (kind : EventKind) (w : LoopWorld)
    → is_null e.context ≡ false
    → (w' : LoopWorld) × (gf_round e kind w ≡ ok tt w')
      × (fetched_events env w'.trace ≡ fetched_events env w.trace)
unfolding gf_round call ◌>>=◌
round_returns env e addr_resolved w z = (_, refl, refl)
round_returns env e route_resolved w z = (_, refl, refl)
round_returns env e connect_request w z = (_, refl, refl)
round_returns env e established w z = (_, refl, refl)
round_returns env e addr_error w z = (_, late_returns e (handle_event_error e.context) w z, refl)
round_returns env e route_error w z = (_, late_returns e (handle_event_error e.context) w z, refl)
round_returns env e connect_error w z = (_, late_returns e (handle_event_error e.context) w z, refl)
round_returns env e unreachable w z = (_, late_returns e (handle_event_error e.context) w z, refl)
round_returns env e rejected w z = (_, late_returns e (handle_event_error e.context) w z, refl)
round_returns env e disconnected w z = (_, late_returns e (handle_disconnect e.context) w z, refl)
round_returns env e device_removal w z = (_, refl, refl)
round_returns env e (unhandled n) w z = (_, refl, refl)

-- librdmacm delivers at most `n` events on the channel, and then fails.
abbrev pub FailsAfter : LoopEnv → (channel : Ptr) → (n : ℕ) → Type 0
FailsAfter env channel n =
    (t : List Call)
    → n ≤ length (fetched_events env t)
    → is_set (env.int_of t (get_cm_event channel)) ≡ true

-- The identifier of each event belongs to a transport.
abbrev pub HasTransports : LoopEnv → (channel : Ptr) → Type 0
HasTransports env channel =
    (t : List Call) → is_null (env.event_of t (get_cm_event channel)).context ≡ false

module _ (env : LoopEnv) (channel : Ptr) (n : ℕ) (fails : FailsAfter env channel n)
    (set : HasTransports env channel) where
  -- One round, and the rounds after it where there are some.
  halts_step :
      (left : ℕ) (w : LoopWorld)
      → (is_set (env.int_of w.trace (get_cm_event channel)) ≡ false
          → (w2 : LoopWorld)
          → length (fetched_events env w2.trace) ≡ suc (length (fetched_events env w.trace))
          → (w' : LoopWorld) × (gf_cm_event_handler env channel left w2 ≡ ok tt w'))
      → (w' : LoopWorld) × (gf_cm_event_handler env channel (suc left) w ≡ ok tt w')
  unfolding gf_cm_event_handler ◌>>=◌
  halts_step left w next = elim (Bool-cases (is_set (env.int_of w.trace (get_cm_event channel)))) [
    | inl failed ↦ (record w { trace = get_cm_event channel ∷ w.trace }, rw failed)
    | inr got ↦
        let e = env.event_of w.trace (get_cm_event channel) in
        let (w2, ran, same) =
          round_returns env e e.kind (record w { trace = get_cm_event channel ∷ w.trace })
            (set w.trace) in
        let (w3, rest) = next got w2 (rw (same, got)) in (w3, rw (got, ran, rest))
  ]

  halts_from :
      (left : ℕ) (w : LoopWorld)
      → n ≤ length (fetched_events env w.trace) + left
      → (w' : LoopWorld) × (gf_cm_event_handler env channel (suc left) w ≡ ok tt w')
  halts_from zero w room =
      halts_step zero w (λ got w2 more. cc (got, fails w.trace (omega (arith, room))))
  halts_from (suc left) w room =
      halts_step (suc left) w (λ got w2 more. halts_from left w2 (omega (arith, room, more)))

-- If the channel delivers at most `n` events before rdma_get_cm_event fails, and every event is of an
-- identifier that belongs to a transport, then gf_rdma_cm_event_handler returns, after at most
-- `n + 1` rounds from its start.
pub gf_cm_event_handler-returns :
    (env : LoopEnv) (channel : Ptr) (n : ℕ)
    → FailsAfter env channel n
    → HasTransports env channel
    → (w' : LoopWorld) × (gf_cm_event_handler env channel (suc n) (record { trace = []; mem = tt })
        ≡ ok tt w')
gf_cm_event_handler-returns env channel n fails set =
    halts_from env channel n fails set n (record { trace = []; mem = tt }) (omega arith)
