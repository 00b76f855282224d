-- ===== src/Fs/Loop/Acks.antt =====
-- The acknowledgement of events by fs_rdma_cm_event_handler of src/c/transport.c.
use rdma_cpp.Common.{
  ℕ, zero, suc, ◌≡◌, refl, sym, ◌∙◌, ap₂, ◌⊎◌, Option, none, some, inl, inr, true, List, [], ◌∷◌,
  arith, if◌then◌else◌, Bool-cases,
}
use rdma_cpp.Common.Cint.{is_set, Ptr}
use rdma_cpp.Common.Cmd.{
  Cmd, Run, ok, fault, exited, out_of_fuel, and_then, final, call, pure, ◌>>=◌,
}
use rdma_cpp.Fs.Config.{Config}
use rdma_cpp.Fs.Foreign.{
  Call, Event, EventKind, get_cm_event, ack_cm_event, addr_resolved, route_resolved,
  connect_request, established, addr_error, route_error, connect_error, unreachable, rejected,
  disconnected, unhandled,
}
use rdma_cpp.Fs.Context.{Env, FsWorld, Ctx}
use rdma_cpp.Fs.Frame.{quiet, Flag, Framed, Frame, log_frame}
use rdma_cpp.Fs.Frame.Release.{handle_disconnect-Keeps}
use rdma_cpp.Fs.Frame.Handle.{
  handle_addr_resolved-Keeps, handle_route_resolved-Keeps, handle_connect_request-Keeps,
  handle_connect_init-Keeps, handle_event_error-Keeps,
}
use rdma_cpp.Fs.Loop.{
  EventPtr, null_event, freed_event, live_event, dispatch, dispatch_error, copy_event, event_loop,
}

-- The events that were fetched, newest first: what the environment answered to each
-- rdma_get_cm_event that succeeded.
abbrev pub fetched_events : Env → List Call → List Event
fetched_events env [] = []
fetched_events env (get_cm_event ch ∷ t) =
    if is_set (env.int_of t (get_cm_event ch))
    then fetched_events env t
    else env.event_of t (get_cm_event ch) ∷ fetched_events env t
fetched_events env (k ∷ t) = fetched_events env t

-- The events that were acknowledged, newest first.
abbrev pub acked_events : List Call → List Event
acked_events [] = []
acked_events (ack_cm_event e ∷ t) = e ∷ acked_events t
acked_events (k ∷ t) = acked_events t

-- The calls so far fetched and acknowledged just these.
pub record Log (env : Env) (fs es : List Event) (t : List Call) : Type 0 where
  pub fetches : fetched_events env t ≡ fs
  pub acks : acked_events t ≡ es

module _ (env : Env) (fs es : List Event) where
  quiet-Log : (k : Call) (t : List Call) → quiet k ≡ true → Log env fs es t → Log env fs es (k ∷ t)
  quiet-Log (get_cm_event _) t q l = ground arith
  quiet-Log (ack_cm_event _) t q l = ground arith
  quiet-Log _ t q l = record { fetches = l.fetches; acks = l.acks }

abbrev NoFlag : ℕ → Type 0
NoFlag _ = Unit {0}

instance Log-Frame : {env : Env} {fs es : List Event} → Frame (Framed (Log env fs es) NoFlag)
Log-Frame {env} {fs} {es} = log_frame (quiet-Log env fs es) (λ n h. tt)

NoFlag-all : (m : Option Ctx) → Flag NoFlag m
NoFlag-all none = tt
NoFlag-all (some c) = tt

-- Every fetched event was acknowledged once, in order; all, or all but the newest.
abbrev pub Settled : Env → FsWorld → Type 0
Settled env w = fetched_events env w.trace ≡ acked_events w.trace

abbrev pub Pending : Env → FsWorld → Type 0
Pending env w = (e : Event) × (fetched_events env w.trace ≡ e ∷ acked_events w.trace)

-- A round that completes leaves all settled; one that is cut short leaves one event pending at
-- most.
abbrev pub Rounds : {A : Type 0} → Env → Run FsWorld A → Type 0
Rounds env (ok a w) = Settled env w
Rounds env r = Settled env (final r) ⊎ Pending env (final r)

module _ (env : Env) (e : Event) (es : List Event) where
  ack_after :
      {A : Type 0} (r : Run FsWorld A) (p : EventPtr)
      → Framed (Log env (e ∷ es) es) NoFlag (final r)
      → Rounds env (and_then r (λ _. call (ack_cm_event e) >>= λ _. pure p))
  unfolding ◌>>=◌
  ack_after (ok a w) p h = rw (h.log.acks) h.log.fetches
  ack_after (fault w) p h = inr (e, rw (h.log.acks) h.log.fetches)
  ack_after (exited w) p h = inr (e, rw (h.log.acks) h.log.fetches)
  ack_after (out_of_fuel w) p h = inr (e, rw (h.log.acks) h.log.fetches)

  settled_after :
      {A : Type 0} (r : Run FsWorld A) (p : EventPtr)
      → Framed (Log env (e ∷ es) (e ∷ es)) NoFlag (final r)
      → Rounds env (and_then r (λ _. pure p))
  unfolding ◌>>=◌
  settled_after (ok a w) p h = h.log.fetches ∙ sym h.log.acks
  settled_after (fault w) p h = inl (h.log.fetches ∙ sym h.log.acks)
  settled_after (exited w) p h = inl (h.log.fetches ∙ sym h.log.acks)
  settled_after (out_of_fuel w) p h = inl (h.log.fetches ∙ sym h.log.acks)

  -- While the handler has the event, and after it was acknowledged.
  abbrev Handed : FsWorld → Type 0
  Handed = Framed (Log env (e ∷ es) es) NoFlag

  abbrev Acked : FsWorld → Type 0
  Acked = Framed (Log env (e ∷ es) (e ∷ es)) NoFlag

  pending : (w : FsWorld) → Log env (e ∷ es) es w.trace → Handed w
  pending w l = record { log = l; flag = NoFlag-all w.mem }

  acked :
      (w : FsWorld)
      → Log env (e ∷ es) es w.trace
      → Acked (record w { trace = ack_cm_event e ∷ w.trace })
  acked w l = record {
    log = record { fetches = l.fetches; acks = ap₂ ◌∷◌ refl l.acks };
    flag = NoFlag-all w.mem;
  }

  error_round :
      (w : FsWorld)
      → Log env (e ∷ es) es w.trace
      → (config : Config) → Rounds env (dispatch_error config e w)
  unfolding dispatch_error
  error_round w l config =
      settled_after _ null_event ((handle_event_error-Keeps {I = Acked} config).at _ (acked w l))

  pub dispatch-Rounds :
      (config : Config) (kind : EventKind) (w : FsWorld)
      → Log env (e ∷ es) es w.trace
      → Rounds env (dispatch env config e kind w)
  unfolding dispatch
  dispatch-Rounds config addr_resolved w l =
      ack_after _ freed_event
        ((handle_addr_resolved-Keeps {I = Handed} env config e).at w (pending w l))
  dispatch-Rounds config route_resolved w l =
      ack_after _ freed_event
        ((handle_route_resolved-Keeps {I = Handed} env config e).at w (pending w l))
  dispatch-Rounds config connect_request w l =
      ack_after _ freed_event
        ((handle_connect_request-Keeps {I = Handed} env config e).at w (pending w l))
  dispatch-Rounds config established w l =
      ack_after _ freed_event ((handle_connect_init-Keeps {I = Handed} env e).at w (pending w l))
  dispatch-Rounds config disconnected w l = elim (Bool-cases env.null_format) [
    | inl z ↦
        rw z (
          settled_after _ null_event
            ((handle_disconnect-Keeps {I = Acked} config).at _ (acked w l)))
    | inr z ↦ rw z (inr (e, rw (l.acks) l.fetches))
  ]
  dispatch-Rounds config (unhandled _) w l = ack_after (ok tt w) freed_event (pending w l)
  dispatch-Rounds config addr_error w l = error_round w l config
  dispatch-Rounds config route_error w l = error_round w l config
  dispatch-Rounds config connect_error w l = error_round w l config
  dispatch-Rounds config unreachable w l = error_round w l config
  dispatch-Rounds config rejected w l = error_round w l config

and_then-Rounds :
    {A B : Type 0} (env : Env) (r : Run FsWorld A) (k : A → Cmd FsWorld B)
    → Rounds env r
    → ((a : A) (w : FsWorld) → Settled env w → Rounds env (k a w))
    → Rounds env (and_then r k)
and_then-Rounds env (ok a w) k h next = next a w h
and_then-Rounds env (fault w) k h next = h
and_then-Rounds env (exited w) k h next = h
and_then-Rounds env (out_of_fuel w) k h next = h

-- The round in which rdma_get_cm_event fails.
failed_round :
    (env : Env) (p : EventPtr) (w : FsWorld) (k : Event → Cmd FsWorld (Unit {0}))
    → Settled env w
    → ((e : Event) → k e w ≡ ok tt w)
    → Rounds env (and_then (copy_event p w) k)
unfolding copy_event
failed_round env null_event w k s done = inl s
failed_round env freed_event w k s done = inl s
failed_round env (live_event e) w k s done = rw (done e) s

-- Whatever the libraries answer and however many rounds run: if the events acknowledged so far are
-- those fetched so far, each once and in order, that still holds when the handler loop ends, but
-- for the newest event at most where a round is cut short.
pub event_loop-Rounds :
    (env : Env) (config : Config) (channel : Ptr) (fuel : ℕ) (p : EventPtr) (w : FsWorld)
    → Settled env w
    → Rounds env (event_loop env config channel fuel p w)
unfolding event_loop
event_loop-Rounds env config channel zero p w s = inl s
event_loop-Rounds env config channel (suc fuel) p w s =
    elim (Bool-cases (is_set (env.int_of w.trace (get_cm_event channel)))) [
      | inl failed ↦ rw failed (failed_round env p _ _ (rw failed s) (λ e. refl))
      | inr got ↦ rw got (
          and_then-Rounds env _ _
            (dispatch-Rounds env (env.event_of w.trace (get_cm_event channel))
              (acked_events w.trace) config (env.event_of w.trace (get_cm_event channel)).kind
              (record w { trace = get_cm_event channel ∷ w.trace })
              (record { fetches = rw got (ap₂ ◌∷◌ refl s); acks = refl }))
            λ left w' s'. event_loop-Rounds env config channel fuel left w' s')
    ]
