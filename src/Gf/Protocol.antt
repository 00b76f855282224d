-- ===== src/Gf/Protocol.antt =====
-- The protocol of events of librdmacm, as a state machine on calls, and gf_rdma_cm_event_handler of
-- src/Transport.cc against it.
use rdma_cpp.Common.{
  ℕ, zero, suc, ◌≡◌, refl, Bool, true, false, List, [], ◌∷◌, Bool-cases, inl, inr, if◌then◌else◌,
}
use rdma_cpp.Common.Cint.{Ptr, is_null, is_set}
use rdma_cpp.Common.Cmd.{
  Run, ok, fault, exited, out_of_fuel, Cmd, and_then, crash, call, ◌>>=◌, ◌>>◌,
}
use rdma_cpp.Gf.Foreign.{
  EventKind, addr_resolved, route_resolved, connect_request, established, addr_error, route_error,
  connect_error, unreachable, rejected, disconnected, device_removal, unhandled, Event, Call,
  get_cm_event, ack_cm_event, handle_addr_resolved, handle_route_resolved, handle_connect_request,
  handle_connect_init, handle_device_removal, handle_event_error, handle_disconnect,
}
use rdma_cpp.Gf.Loop.{LoopEnv, LoopWorld, gf_round, gf_cm_event_handler}

-- Which handler an event is due, and whether it needs the event (`early`, before the
-- acknowledgement frees it) or only its transport (`late`).
pub data Due : Type 0 where
  nothing : Due
  early : Call → Due
  late : Call → Due

abbrev pub due : Event → EventKind → Due
due e addr_resolved = early (handle_addr_resolved e)
due e route_resolved = early (handle_route_resolved e)
due e connect_request = early (handle_connect_request e)
due e established = early (handle_connect_init e)
due e device_removal = early (handle_device_removal e)
due e disconnected = late (handle_disconnect e.context)
due e (unhandled _) = nothing
due e _ = late (handle_event_error e.context)

-- Where the loop is: between events, with an event that it has just fetched, with one whose handler
-- has run, with a handler due of an event that is gone, or at its end.
pub data Phase : Type 0 where
  waiting : Phase
  holding : Event → Phase
  handled : Event → Phase
  released : (due : Call) → Phase
  finished : Phase

-- The calls that each phase allows.
pub data Step (env : LoopEnv) (t : List Call) : Phase → Call → Phase → Type 0 where
  fetch :
      {ch : Ptr}
      → is_set (env.int_of t (get_cm_event ch)) ≡ false
      → Step env t waiting (get_cm_event ch) (holding (env.event_of t (get_cm_event ch)))
  fail :
      {ch : Ptr}
      → is_set (env.int_of t (get_cm_event ch)) ≡ true
      → Step env t waiting (get_cm_event ch) finished
  handle : {e : Event} {k : Call} → due e e.kind ≡ early k → Step env t (holding e) k (handled e)
  free : {e : Event} → Step env t (handled e) (ack_cm_event e) waiting
  ignore : {e : Event} → due e e.kind ≡ nothing → Step env t (holding e) (ack_cm_event e) waiting
  release :
      {e : Event} {k : Call}
      → due e e.kind ≡ late k
      → Step env t (holding e) (ack_cm_event e) (released k)
  settle : {k : Call} → Step env t (released k) k waiting

-- The calls so far follow the protocol, and have led to a phase.
pub data Follows (env : LoopEnv) : List Call → Phase → Type 0 where
  start : Follows env [] waiting
  later :
      {t : List Call} {p q : Phase} {k : Call}
      → Follows env t p
      → Step env t p k q
      → Follows env (k ∷ t) q

-- An error or a disconnect, whose handler is due after the acknowledgement, and whose transport is
-- `NULL`.
abbrev pub Untied : Event → Type 0
Untied e = (is_null e.context ≡ true) × (k : Call) × (due e e.kind ≡ late k)

-- A round that completes is between events; it is cut short only where the event is one of those,
-- and not acknowledged yet.
abbrev RoundEnds : LoopEnv → Event → {A : Type 0} → Run LoopWorld A → Type 0
RoundEnds env e (ok a w) = Follows env w.trace waiting
RoundEnds env e (fault w) = Follows env w.trace (holding e) × Untied e
RoundEnds env e (exited w) = ⊥
RoundEnds env e (out_of_fuel w) = ⊥

-- How the whole handler ends: after a failed fetch, within a round, or out of fuel between events.
abbrev pub Ends : LoopEnv → {A : Type 0} → Run LoopWorld A → Type 0
Ends env (ok a w) = Follows env w.trace finished
Ends env (fault w) = (e : Event) × Follows env w.trace (holding e) × Untied e
Ends env (exited w) = ⊥
Ends env (out_of_fuel w) = Follows env w.trace waiting

module _ (env : LoopEnv) (e : Event) (w : LoopWorld) (h : Follows env w.trace (holding e)) where
  early_round :
      (k : Call) → due e e.kind ≡ early k → RoundEnds env e ((call k >> call (ack_cm_event e)) w)
  unfolding ◌>>=◌
  early_round k d = later (later h (Step.handle d)) Step.free

  late_round :
      (k : Call) (b : Bool)
      → due e e.kind ≡ late k
      → is_null e.context ≡ b
      → RoundEnds env e ((if b then crash else (call (ack_cm_event e) >> call k)) w)
  unfolding ◌>>=◌
  late_round k true d z = (h, (z, k, d))
  late_round k false d z = later (later h (Step.release d)) Step.settle

  round_lem : (kind : EventKind) → e.kind ≡ kind → RoundEnds env e (gf_round e kind w)
  unfolding gf_round call
  round_lem addr_resolved same = early_round _ (rw same)
  round_lem route_resolved same = early_round _ (rw same)
  round_lem connect_request same = early_round _ (rw same)
  round_lem established same = early_round _ (rw same)
  round_lem addr_error same = late_round _ _ (rw same) refl
  round_lem route_error same = late_round _ _ (rw same) refl
  round_lem connect_error same = late_round _ _ (rw same) refl
  round_lem unreachable same = late_round _ _ (rw same) refl
  round_lem rejected same = late_round _ _ (rw same) refl
  round_lem disconnected same = late_round _ _ (rw same) refl
  round_lem device_removal same = early_round _ (rw same)
  round_lem (unhandled n) same = later h (Step.ignore (rw same refl))

and_then-Ends :
    (env : LoopEnv) (e : Event) {A B : Type 0} (r : Run LoopWorld A) (k : A → Cmd LoopWorld B)
    → RoundEnds env e r
    → ((a : A) (w : LoopWorld) → Follows env w.trace waiting → Ends env (k a w))
    → Ends env (and_then r k)
and_then-Ends env e (ok a w) k h next = next a w h
and_then-Ends env e (fault w) k h next = (e, h.0, h.1)
and_then-Ends env e (exited w) k h next = absurd h
and_then-Ends env e (out_of_fuel w) k h next = absurd h

-- Whatever librdmacm answers and however many rounds run: if the calls before follow the protocol of
-- events and the loop is between events, then all its calls follow the protocol. Where it returns,
-- that is after a failed rdma_get_cm_event; and it can only be cut short in the round of an error or
-- disconnect event whose transport is `NULL`, which it reads for its message.
pub gf_cm_event_handler-Ends :
    (env : LoopEnv) (channel : Ptr) (fuel : ℕ) (w : LoopWorld)
    → Follows env w.trace waiting
    → Ends env (gf_cm_event_handler env channel fuel w)
unfolding gf_cm_event_handler ◌>>=◌
gf_cm_event_handler-Ends env channel zero w h = h
gf_cm_event_handler-Ends env channel (suc fuel) w h =
    elim (Bool-cases (is_set (env.int_of w.trace (get_cm_event channel)))) [
      | inl failed ↦ rw failed (later h (Step.fail failed))
      | inr got ↦
          let e = env.event_of w.trace (get_cm_event channel) in
          let w1 : LoopWorld = record w { trace = get_cm_event channel ∷ w.trace } in
          rw got (
            and_then-Ends env e _ _ (round_lem env e w1 (later h (Step.fetch got)) e.kind refl)
              (λ _ w2 h2. gf_cm_event_handler-Ends env channel fuel w2 h2))
    ]
