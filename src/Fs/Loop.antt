-- ===== src/Fs/Loop.antt =====
-- fs_rdma_cm_event_handler of src/c/transport.c.
pub mod Acks
pub mod Exit
pub mod Client
pub mod Connect
pub mod Session
pub mod Returns
pub mod Phases
pub mod Ends
pub mod Running
pub mod Once
mod Tests
pub mod Order
pub mod Flag
use rdma_cpp.Common.{ℕ, zero, suc, if◌then◌else◌}
use rdma_cpp.Common.Cint.{ℤ, Ptr, is_set}
use rdma_cpp.Common.Cmd.{pure, crash, stop, call, call_for, ◌>>=◌, ◌>>◌}
use rdma_cpp.Fs.Config.{Config}
use rdma_cpp.Fs.Foreign.{
  Event, EventKind, addr_resolved, route_resolved, connect_request, established, addr_error,
  route_error, connect_error, unreachable, rejected, disconnected, unhandled, get_cm_event,
  ack_cm_event,
}
use rdma_cpp.Fs.Context.{Env, Fs}
use rdma_cpp.Fs.Teardown.{handle_disconnect}
use rdma_cpp.Fs.Handlers.{
  handle_addr_resolved, handle_route_resolved, handle_connect_request, handle_connect_init,
  handle_event_error,
}

-- The variable `event`: `NULL`, an event that was acknowledged and so freed, or a live one.
pub data EventPtr : Type 0 where
  null_event : EventPtr
  freed_event : EventPtr
  live_event : Event → EventPtr

-- `fprintf(stdout, 0, "received disconnect ")`, whose format is `NULL`
unfoldable pub print_received : Env → Fs (Unit {0})
print_received env = if env.null_format then pure tt else crash

-- The five error cases.
unfoldable pub dispatch_error : Config → Event → Fs EventPtr
unfolding handle_event_error
dispatch_error config event = do
  call (ack_cm_event event)
  handle_event_error config
  pure null_event

-- The switch, to the end of the round: what it leaves in `event`.
unfoldable pub dispatch : Env → Config → Event → EventKind → Fs EventPtr
unfolding print_received ◌>>=◌
dispatch env config event addr_resolved = do
  handle_addr_resolved env config event
  call (ack_cm_event event)
  pure freed_event
dispatch env config event route_resolved = do
  handle_route_resolved env config event
  call (ack_cm_event event)
  pure freed_event
dispatch env config event connect_request = do
  handle_connect_request env config event
  call (ack_cm_event event)
  pure freed_event
dispatch env config event established = do
  handle_connect_init env event
  call (ack_cm_event event)
  pure freed_event
dispatch env config event disconnected = do
  print_received env
  call (ack_cm_event event)
  handle_disconnect config
  pure null_event
dispatch env config event (unhandled _) = do call (ack_cm_event event); pure freed_event
dispatch env config event addr_error = dispatch_error config event
dispatch env config event route_error = dispatch_error config event
dispatch env config event connect_error = dispatch_error config event
dispatch env config event unreachable = dispatch_error config event
dispatch env config event rejected = dispatch_error config event

-- `memcpy(&event_copy, event, sizeof(*event))`, before `ret` is looked at.
unfoldable pub copy_event : EventPtr → Fs Event
unfolding ◌>>=◌
copy_event (live_event e) = pure e
copy_event _ = crash

-- A successful rdma_get_cm_event stores the new event; a failed one leaves `event` alone.
abbrev pub fetched : Env → EventPtr → ℤ × Event → EventPtr
fetched env p (ret, e) = if is_set ret then p else live_event e

-- `while (1)`, on fuel. The result is the `NULL` that is returned after `break`.
unfoldable pub event_loop : Env → Config → Ptr → ℕ → EventPtr → Fs (Unit {0})
unfolding dispatch copy_event
event_loop env config event_channel zero p = stop
event_loop env config event_channel (suc fuel) p = do
  got ← call_for (λ t k. (env.int_of t k, env.event_of t k)) (get_cm_event event_channel)
  event ← copy_event (fetched env p got)
  if is_set got.0 then pure tt else do
    left ← dispatch env config event event.kind
    event_loop env config event_channel fuel left

unfoldable pub cm_event_handler : Env → Config → Ptr → ℕ → Fs (Unit {0})
unfolding event_loop
cm_event_handler env config event_channel fuel = event_loop env config event_channel fuel null_event
