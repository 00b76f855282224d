-- ===== src/Gf/Loop.antt =====
-- gf_rdma_cm_event_handler of src/Transport.cc.
use rdma_cpp.Common.{ℕ, zero, suc, List, if◌then◌else◌}
use rdma_cpp.Common.Cint.{ℤ, Ptr, is_null, is_set}
use rdma_cpp.Common.Cmd.{World, Cmd, pure, crash, stop, call, call_for, ◌>>=◌, ◌>>◌}
use rdma_cpp.Gf.Foreign.{
  EventKind, addr_resolved, route_resolved, connect_request, established, addr_error, route_error,
  connect_error, unreachable, rejected, disconnected, device_removal, unhandled, Event, Call,
  get_cm_event, ack_cm_event, handle_addr_resolved, handle_route_resolved, handle_connect_request,
  handle_connect_init, handle_device_removal, handle_event_error, handle_disconnect,
}

-- The answers of librdmacm, each chosen from the calls before.
pub record LoopEnv : Type 0 where
  pub int_of : List Call → Call → ℤ
  pub event_of : List Call → Call → Event

-- The handler has no memory of its own: what its handlers change is not in the repository.
abbrev pub LoopWorld : Type 0
LoopWorld = World Call (Unit {0})

abbrev pub Loop : Type 0 → Type 0
Loop A = Cmd LoopWorld A

-- A case that ends in `break`: the event is acknowledged after its handler.
abbrev pub handle_then_ack : Event → Call → Loop (Unit {0})
handle_then_ack event handler = do call handler; call (ack_cm_event event)

-- A case that ends in `continue`: the message reads `this->name`, and the event is acknowledged
-- before the handler, which gets only the transport.
abbrev pub ack_then_handle : Event → Call → Loop (Unit {0})
ack_then_handle event handler =
    if is_null event.context then crash else do call (ack_cm_event event); call handler

-- The switch, to the end of the round.
unfoldable pub gf_round : Event → EventKind → Loop (Unit {0})
gf_round event addr_resolved = handle_then_ack event (handle_addr_resolved event)
gf_round event route_resolved = handle_then_ack event (handle_route_resolved event)
gf_round event connect_request = handle_then_ack event (handle_connect_request event)
gf_round event established = handle_then_ack event (handle_connect_init event)
gf_round event addr_error = ack_then_handle event (handle_event_error event.context)
gf_round event route_error = ack_then_handle event (handle_event_error event.context)
gf_round event connect_error = ack_then_handle event (handle_event_error event.context)
gf_round event unreachable = ack_then_handle event (handle_event_error event.context)
gf_round event rejected = ack_then_handle event (handle_event_error event.context)
gf_round event disconnected = ack_then_handle event (handle_disconnect event.context)
gf_round event device_removal = handle_then_ack event (handle_device_removal event)
gf_round event (unhandled _) = call (ack_cm_event event)

abbrev pub loop_answer : LoopEnv → List Call → Call → ℤ × Event
loop_answer env t k = (env.int_of t k, env.event_of t k)

-- gf_rdma_cm_event_handler, on fuel: `while (1)` until rdma_get_cm_event fails.
unfoldable pub gf_cm_event_handler : LoopEnv → (event_channel : Ptr) → ℕ → Loop (Unit {0})
gf_cm_event_handler env event_channel zero = stop
gf_cm_event_handler env event_channel (suc fuel) = do
  got ← call_for (loop_answer env) (get_cm_event event_channel)
  if is_set (got.0)
      then pure tt
      else do gf_round (got.1) (got.1.kind); gf_cm_event_handler env event_channel fuel
