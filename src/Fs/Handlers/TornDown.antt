-- ===== src/Fs/Handlers/TornDown.antt =====
-- What the handlers of src/c/transport.c leave behind, by the kind of the event.
use rdma_cpp.Common.{◌≡◌, Bool, true, false}
use rdma_cpp.Common.Cint.{ℤ, pos, is_set}
use rdma_cpp.Common.Cmd.{ok, pure, ◌>>=◌, ◌>>◌}
use rdma_cpp.Fs.Config.{Config}
use rdma_cpp.Fs.Foreign.{
  Event, EventKind, addr_resolved, route_resolved, connect_request, established, addr_error,
  route_error, connect_error, unreachable, rejected, disconnected, unhandled,
}
use rdma_cpp.Fs.Context.{Env, FsWorld, Fs}
use rdma_cpp.Fs.Teardown.{handle_disconnect}
use rdma_cpp.Fs.Handlers.{
  handle_addr_resolved, handle_route_resolved, handle_connect_request, handle_connect_init,
  handle_event_error,
}
use rdma_cpp.Fs.Handlers.Failure.{
  IsTornDown, tail-IsTornDown, handle_addr_resolved-IsTornDown, handle_route_resolved-IsTornDown,
  handle_connect_request-IsTornDown,
}

-- The handler that the switch calls, with its result; fs_rdma_cm_handle_disconnect has none.
abbrev pub handler : Env → Config → Event → EventKind → Fs ℤ
handler env config event addr_resolved = handle_addr_resolved env config event
handler env config event route_resolved = handle_route_resolved env config event
handler env config event connect_request = handle_connect_request env config event
handler env config event established = handle_connect_init env event
handler env config event disconnected = do handle_disconnect config; pure (pos 0)
handler env config event (unhandled n) = pure (pos 0)
handler env config event _ = handle_event_error config

-- Whether the connection is over after the handler of the kind returned `r`.
abbrev pub is_over : EventKind → ℤ → Bool
is_over addr_resolved r = is_set r
is_over route_resolved r = is_set r
is_over connect_request r = is_set r
is_over established r = false
is_over (unhandled n) r = false
is_over _ r = true

-- Whenever the handler of an event returns, and it is that of a resolved address, a resolved route
-- or a request and its result is a failure, or it is that of an error or of a disconnect: the
-- context is torn down.
pub handler-IsTornDown :
    (env : Env) (config : Config) (event : Event) (kind : EventKind) (w w' : FsWorld) {r : ℤ}
    → handler env config event kind w ≡ ok r w'
    → is_over kind r ≡ true
    → IsTornDown config w'
unfolding handle_event_error ◌>>=◌
handler-IsTornDown env config event addr_resolved w w' h over =
    handle_addr_resolved-IsTornDown env config event w w' h over
handler-IsTornDown env config event route_resolved w w' h over =
    handle_route_resolved-IsTornDown env config event w w' h over
handler-IsTornDown env config event connect_request w w' h over =
    handle_connect_request-IsTornDown env config event w w' h over
handler-IsTornDown env config event established w w' h over = cc
handler-IsTornDown env config event (unhandled n) w w' h over = cc
handler-IsTornDown env config event disconnected w w' h over = tail-IsTornDown config (pos 0) w h
handler-IsTornDown env config event addr_error w w' h over = tail-IsTornDown config (pos 0) w h
handler-IsTornDown env config event route_error w w' h over = tail-IsTornDown config (pos 0) w h
handler-IsTornDown env config event connect_error w w' h over = tail-IsTornDown config (pos 0) w h
handler-IsTornDown env config event unreachable w w' h over = tail-IsTornDown config (pos 0) w h
handler-IsTornDown env config event rejected w w' h over = tail-IsTornDown config (pos 0) w h
