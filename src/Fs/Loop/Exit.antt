-- ===== src/Fs/Loop/Exit.antt =====
-- How fs_rdma_cm_event_handler of src/c/transport.c ends.
use rdma_cpp.Common.{ℕ, zero, suc, ◌≢◌, inl, inr, subst, ◌∷◌, Bool-cases}
use rdma_cpp.Common.Cint.{is_set, Ptr}
use rdma_cpp.Common.Cmd.{Run, Cmd, ok, fault, exited, out_of_fuel, and_then, pure, call, ◌>>=◌}
use rdma_cpp.Fs.Config.{Config}
use rdma_cpp.Fs.Foreign.{
  Event, EventKind, get_cm_event, ack_cm_event, addr_resolved, route_resolved, connect_request,
  established, disconnected, unhandled,
}
use rdma_cpp.Fs.Context.{Env, FsWorld}
use rdma_cpp.Fs.Teardown.{handle_disconnect}
use rdma_cpp.Fs.Handlers.{
  handle_addr_resolved, handle_route_resolved, handle_connect_request, handle_connect_init,
  handle_event_error,
}
use rdma_cpp.Fs.Loop.{
  EventPtr, null_event, freed_event, live_event, dispatch, dispatch_error, copy_event, event_loop,
  cm_event_handler,
}

-- Not a live event, which is all that a round leaves behind.
abbrev pub IsDead : EventPtr → Type 0
IsDead null_event = Unit {0}
IsDead freed_event = Unit {0}
IsDead (live_event e) = ⊥

abbrev pub LeavesDead : Run FsWorld EventPtr → Type 0
LeavesDead (ok p w) = IsDead p
LeavesDead _ = Unit {0}

abbrev NotReturned : {A : Type 0} → Run FsWorld A → Type 0
NotReturned (ok a w) = ⊥
NotReturned _ = Unit {0}

-- The state after the event is acknowledged.
abbrev acked : Event → FsWorld → FsWorld
acked e w = record w { trace = ack_cm_event e ∷ w.trace }

module _ {A : Type 0} where
  ack_last :
      (e : Event) (r : Run FsWorld A)
      → LeavesDead (and_then r (λ _. call (ack_cm_event e) >>= λ _. pure freed_event))
  unfolding ◌>>=◌
  ack_last e (ok a w) = tt
  ack_last e (fault w) = tt
  ack_last e (exited w) = tt
  ack_last e (out_of_fuel w) = tt

  null_last : (r : Run FsWorld A) → LeavesDead (and_then r (λ _. pure null_event))
  unfolding ◌>>=◌
  null_last (ok a w) = tt
  null_last (fault w) = tt
  null_last (exited w) = tt
  null_last (out_of_fuel w) = tt

pub dispatch-LeavesDead :
    (env : Env) (config : Config) (e : Event) (kind : EventKind) (w : FsWorld)
    → LeavesDead (dispatch env config e kind w)
unfolding dispatch dispatch_error
dispatch-LeavesDead env config e addr_resolved w = ack_last e (handle_addr_resolved env config e w)
dispatch-LeavesDead env config e route_resolved w =
    ack_last e (handle_route_resolved env config e w)
dispatch-LeavesDead env config e connect_request w =
    ack_last e (handle_connect_request env config e w)
dispatch-LeavesDead env config e established w = ack_last e (handle_connect_init env e w)
dispatch-LeavesDead env config e disconnected w = elim (Bool-cases env.null_format) [
  | inl z ↦ rw z (null_last (handle_disconnect config (acked e w)))
  | inr z ↦ rw z tt
]
dispatch-LeavesDead env config e (unhandled _) w = tt
dispatch-LeavesDead env config e _ w = null_last (handle_event_error config (acked e w))

and_then-NotReturned :
    (r : Run FsWorld EventPtr) (k : EventPtr → Cmd FsWorld (Unit {0}))
    → LeavesDead r
    → ((p : EventPtr) (w : FsWorld) → IsDead p → NotReturned (k p w))
    → NotReturned (and_then r k)
and_then-NotReturned (ok p w) k h next = next p w h
and_then-NotReturned (fault w) k h next = tt
and_then-NotReturned (exited w) k h next = tt
and_then-NotReturned (out_of_fuel w) k h next = tt

copy_dead :
    (p : EventPtr) (w : FsWorld) (k : Event → Cmd FsWorld (Unit {0}))
    → IsDead p
    → NotReturned (and_then (copy_event p w) k)
unfolding copy_event
copy_dead null_event w k h = tt
copy_dead freed_event w k h = tt
copy_dead (live_event e) w k h = absurd h

event_loop-NotReturned :
    (env : Env) (config : Config) (channel : Ptr) (fuel : ℕ) (p : EventPtr) (w : FsWorld)
    → IsDead p
    → NotReturned (event_loop env config channel fuel p w)
unfolding event_loop
event_loop-NotReturned env config channel zero p w h = tt
event_loop-NotReturned env config channel (suc fuel) p w h =
    elim (Bool-cases (is_set (env.int_of w.trace (get_cm_event channel)))) [
      | inl failed ↦ rw failed (copy_dead p _ _ h)
      | inr got ↦ rw got (
          and_then-NotReturned _ _
            (dispatch-LeavesDead env config (env.event_of w.trace (get_cm_event channel))
              (env.event_of w.trace (get_cm_event channel)).kind
              (record w { trace = get_cm_event channel ∷ w.trace }))
            λ left w'. event_loop-NotReturned env config channel fuel left w')
    ]

-- fs_rdma_cm_event_handler never returns, whatever the libraries answer and however many rounds
-- it is given: where rdma_get_cm_event fails, the copy of the event faults before the test of
-- `ret` is reached.
pub cm_event_handler-ne-ok :
    (env : Env) (config : Config) (channel : Ptr) (fuel : ℕ) (w w' : FsWorld)
    → cm_event_handler env config channel fuel w ≢ ok tt w'
unfolding cm_event_handler
cm_event_handler-ne-ok env config channel fuel w w' h =
    subst NotReturned h (event_loop-NotReturned env config channel fuel null_event w tt)
