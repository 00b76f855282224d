-- ===== src/Gf/Tally.antt =====
-- What gf_rdma_cm_event_handler of src/Transport.cc has done for the events that it fetched.
use rdma_cpp.Common.{ℕ, ◌≡◌, refl, ap, subst, Bool, true, false, List, [], ◌∷◌, ◌++◌, if◌then◌else◌}
use rdma_cpp.Common.Cint.{Ptr, is_set}
use rdma_cpp.Common.Cmd.{ok}
use rdma_cpp.Gf.Foreign.{
  EventKind, addr_resolved, route_resolved, connect_request, established, addr_error, route_error,
  connect_error, unreachable, rejected, disconnected, device_removal, unhandled, Event, Call,
  get_cm_event, ack_cm_event, handle_addr_resolved, handle_route_resolved, handle_connect_request,
  handle_connect_init, handle_device_removal, handle_event_error, handle_disconnect,
}
use rdma_cpp.Gf.Loop.{LoopEnv, LoopWorld, gf_cm_event_handler}
use rdma_cpp.Gf.Protocol.{
  Due, nothing, early, late, due, Phase, waiting, holding, handled, released, finished, Step,
  Follows, start, later, Ends, gf_cm_event_handler-Ends,
}

-- The events fetched and acknowledged, and the handlers called, newest first.
abbrev pub fetched_events : LoopEnv → List Call → List Event
fetched_events env [] = []
fetched_events env (get_cm_event ch ∷ t) =
    if is_set (env.int_of t (get_cm_event ch))
    then fetched_events env t
    else env.event_of t (get_cm_event ch) ∷ fetched_events env t
fetched_events env (k ∷ t) = fetched_events env t

abbrev pub acked_events : List Call → List Event
acked_events [] = []
acked_events (ack_cm_event e ∷ t) = e ∷ acked_events t
acked_events (k ∷ t) = acked_events t

abbrev is_handler : Call → Bool
is_handler (handle_addr_resolved _) = true
is_handler (handle_route_resolved _) = true
is_handler (handle_connect_request _) = true
is_handler (handle_connect_init _) = true
is_handler (handle_device_removal _) = true
is_handler (handle_event_error _) = true
is_handler (handle_disconnect _) = true
is_handler _ = false

abbrev pub handlers : List Call → List Call
handlers [] = []
handlers (k ∷ t) = if is_handler k then k ∷ handlers t else handlers t

-- The handlers that events are due, one for each but those that the switch ignores.
abbrev add_due : Due → List Call → List Call
add_due nothing t = t
add_due (early k) t = k ∷ t
add_due (late k) t = k ∷ t

abbrev pub dues : List Event → List Call
dues [] = []
dues (e ∷ es) = add_due (due e e.kind) (dues es)

-- A call that counts as a handler and as nothing else.
IsHandler : LoopEnv → Call → Type 0
IsHandler env k =
    (t : List Call)
    → (handlers (k ∷ t) ≡ k ∷ handlers t)
      × (acked_events (k ∷ t) ≡ acked_events t)
      × (fetched_events env (k ∷ t) ≡ fetched_events env t)

-- The call that is due of an event, if one is.
abbrev HandlerDue : LoopEnv → Due → Type 0
HandlerDue env nothing = Unit {0}
HandlerDue env (early k) = IsHandler env k
HandlerDue env (late k) = IsHandler env k

due-HandlerDue : (env : LoopEnv) (e : Event) (kind : EventKind) → HandlerDue env (due e kind)
unfolding IsHandler
due-HandlerDue env e addr_resolved = λ t. (refl, refl, refl)
due-HandlerDue env e route_resolved = λ t. (refl, refl, refl)
due-HandlerDue env e connect_request = λ t. (refl, refl, refl)
due-HandlerDue env e established = λ t. (refl, refl, refl)
due-HandlerDue env e addr_error = λ t. (refl, refl, refl)
due-HandlerDue env e route_error = λ t. (refl, refl, refl)
due-HandlerDue env e connect_error = λ t. (refl, refl, refl)
due-HandlerDue env e unreachable = λ t. (refl, refl, refl)
due-HandlerDue env e rejected = λ t. (refl, refl, refl)
due-HandlerDue env e disconnected = λ t. (refl, refl, refl)
due-HandlerDue env e device_removal = λ t. (refl, refl, refl)
due-HandlerDue env e (unhandled n) = tt

-- The handlers called and `owed` are those due of the fetched events, of which all but those in
-- `open_events` are acknowledged.
record Tally (env : LoopEnv) (open_events : List Event) (owed : Due) (t : List Call) : Type 0 where
  acks : open_events ++ acked_events t ≡ fetched_events env t
  calls : add_due owed (handlers t) ≡ dues (fetched_events env t)

-- The tally in each phase.
abbrev TallyOf : LoopEnv → Phase → List Call → Type 0
TallyOf env waiting t = Tally env [] nothing t
TallyOf env finished t = Tally env [] nothing t
TallyOf env (holding e) t = Tally env (e ∷ []) (due e e.kind) t
TallyOf env (handled e) t = Tally env (e ∷ []) nothing t
TallyOf env (released k) t = Tally env [] (late k) t × IsHandler env k

-- A handler that is called is no longer owed.
called :
    (env : LoopEnv) (es : List Event) (k : Call) (t : List Call)
    → IsHandler env k
    → es ++ acked_events t ≡ fetched_events env t
    → k ∷ handlers t ≡ dues (fetched_events env t)
    → Tally env es nothing (k ∷ t)
unfolding IsHandler
called env es k t is acks calls =
    let (h, a, f) = is t in record { acks = rw (a, f) acks; calls = rw (h, f) calls }

Step-TallyOf :
    (env : LoopEnv) (t : List Call) {p q : Phase} {k : Call}
    → Step env t p k q
    → TallyOf env p t
    → TallyOf env q (k ∷ t)
Step-TallyOf env t (Step.fetch {ch} z) h = record {
  acks = rw z (ap (λ es. env.event_of t (get_cm_event ch) ∷ es) h.acks);
  calls = rw z (
      ap
        (λ hs.
          add_due (due (env.event_of t (get_cm_event ch)) (env.event_of t (get_cm_event ch)).kind)
            hs)
        h.calls);
}
Step-TallyOf env t (Step.fail z) h = record { acks = rw z h.acks; calls = rw z h.calls }
Step-TallyOf env t (Step.handle {e} {k} d) h =
    called env (e ∷ []) k t (subst (HandlerDue env) d (due-HandlerDue env e e.kind)) h.acks
      (subst (λ x. add_due x (handlers t) ≡ dues (fetched_events env t)) d h.calls)
Step-TallyOf env t (Step.free {e}) h = record { acks = h.acks; calls = h.calls }
Step-TallyOf env t (Step.ignore {e} d) h = record {
  acks = h.acks;
  calls = subst (λ x. add_due x (handlers t) ≡ dues (fetched_events env t)) d h.calls;
}
Step-TallyOf env t (Step.release {e} {k} d) h = (
  record {
    acks = h.acks;
    calls = subst (λ x. add_due x (handlers t) ≡ dues (fetched_events env t)) d h.calls;
  },
  subst (HandlerDue env) d (due-HandlerDue env e e.kind),
)
Step-TallyOf env t (Step.settle {k}) (h, is) = called env [] k t is h.acks h.calls

Follows-TallyOf : (env : LoopEnv) {t : List Call} {p : Phase} → Follows env t p → TallyOf env p t
Follows-TallyOf env start = record { acks = refl; calls = refl }
Follows-TallyOf env (later {t} h s) = Step-TallyOf env t s (Follows-TallyOf env h)

-- Where gf_rdma_cm_event_handler, started afresh, returns after however many rounds: it has
-- acknowledged the events that it fetched, each once and in order, and it has called for each of
-- them, once and in order, the handler that its kind is due.
pub gf_cm_event_handler-tally :
    (env : LoopEnv) (channel : Ptr) (fuel : ℕ) (w' : LoopWorld)
    → gf_cm_event_handler env channel fuel (record { trace = []; mem = tt }) ≡ ok tt w'
    → (acked_events w'.trace ≡ fetched_events env w'.trace)
      × (handlers w'.trace ≡ dues (fetched_events env w'.trace))
gf_cm_event_handler-tally env channel fuel w' ran =
    let ends =
      subst (Ends env) ran
        (gf_cm_event_handler-Ends env channel fuel (record { trace = []; mem = tt }) start) in
    let tally = Follows-TallyOf env ends in (tally.acks, tally.calls)
