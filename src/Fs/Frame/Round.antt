-- ===== src/Fs/Frame/Round.antt =====
-- The event loop leaves alone every invariant of a frame that the calls of events keep too.
use rdma_cpp.Common.{ℕ, zero, suc, List, ◌∷◌}
use rdma_cpp.Common.Cint.{ℤ, Ptr, is_set}
use rdma_cpp.Common.Cmd.{call, call_for}
use rdma_cpp.Common.Cmd.Keeps.{Keeps, Keeps-bind, Keeps-if, Keeps-pure, keeps_rules}
use rdma_cpp.Fs.Config.{Config}
use rdma_cpp.Fs.Foreign.{Call, Event, EventKind, get_cm_event, ack_cm_event, addr_resolved}
use rdma_cpp.Fs.Context.{Env, FsWorld}
use rdma_cpp.Fs.Frame.{Frame}
use rdma_cpp.Fs.Frame.Release.{handle_disconnect-Keeps}
use rdma_cpp.Fs.Frame.Handle.{
  handle_addr_resolved-Keeps, handle_route_resolved-Keeps, handle_connect_request-Keeps,
  handle_connect_init-Keeps, handle_event_error-Keeps,
}
use rdma_cpp.Fs.Loop.{
  EventPtr, null_event, freed_event, live_event, dispatch, dispatch_error, copy_event, fetched,
  event_loop,
}

copy_event-Keeps : {I : FsWorld → Type 0} (p : EventPtr) → Keeps I (copy_event p)
unfolding copy_event
copy_event-Keeps null_event = search keeps_rules
copy_event-Keeps freed_event = search keeps_rules
copy_event-Keeps (live_event e) = search keeps_rules

-- The calls of events keep the invariant.
pub record EventFrame (I : FsWorld → Type 0) : Type 0 where
  pub get_call : (ch : Ptr) (w : FsWorld) → I w → I (record w { trace = get_cm_event ch ∷ w.trace })
  pub ack_call : (e : Event) (w : FsWorld) → I w → I (record w { trace = ack_cm_event e ∷ w.trace })

module _ {I : FsWorld → Type 0} ⦃f : Frame I⦄ ⦃g : EventFrame I⦄ where
  ack-Keeps : (e : Event) → Keeps I (call (ack_cm_event e))
  unfolding call
  ack-Keeps e = record { at = λ w h. g.ack_call e w h }

  get-Keeps :
      {A : Type 0} (answer : List Call → Call → A) (ch : Ptr)
      → Keeps I (call_for answer (get_cm_event ch))
  unfolding call_for
  get-Keeps answer ch = record { at = λ w h. g.get_call ch w h }

  ruleset round_rules = (
    keeps_rules, ack-Keeps, handle_addr_resolved-Keeps, handle_route_resolved-Keeps,
    handle_connect_request-Keeps, handle_connect_init-Keeps, handle_event_error-Keeps,
    handle_disconnect-Keeps,
  )

  dispatch-Keeps :
      (env : Env) (config : Config) (e : Event) (kind : EventKind)
      → Keeps I (dispatch env config e kind)
  unfolding dispatch dispatch_error
  dispatch-Keeps env config e addr_resolved = search round_rules
  dispatch-Keeps env config e _ = search round_rules

  pub event_loop-Keeps :
      (env : Env) (config : Config) (channel : Ptr) (fuel : ℕ) (p : EventPtr)
      → Keeps I (event_loop env config channel fuel p)
  unfolding event_loop
  event_loop-Keeps env config channel zero p = search keeps_rules
  event_loop-Keeps env config channel (suc fuel) p =
      Keeps-bind {A = ℤ × Event} _ _ (get-Keeps (λ t k. (env.int_of t k, env.event_of t k)) channel)
        λ got. Keeps-bind _ _ (copy_event-Keeps (fetched env p got)) λ e.
          Keeps-if (is_set got.0) _ _ (Keeps-pure tt) (
            Keeps-bind _ _ (dispatch-Keeps env config e e.kind)
              λ left. event_loop-Keeps env config channel fuel left)
