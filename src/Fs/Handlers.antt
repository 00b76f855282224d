-- ===== src/Fs/Handlers.antt =====
-- The handlers of connection events in src/c/transport.c.
pub mod Failure
pub mod Peers
pub mod TornDown
use rdma_cpp.Common.{◌%◌, ◌==◌, if◌then◌else◌}
use rdma_cpp.Common.Cint.{ℤ, pos, minus_one, is_set, is_neg}
use rdma_cpp.Common.Cmd.{pure, call, call_for, ◌>>=◌, ◌>>◌}
use rdma_cpp.Fs.Config.{Config, timeout_in_ms}
use rdma_cpp.Fs.Foreign.{Event, ConnParam, resolve_route, connect, accept, disconnect}
use rdma_cpp.Fs.Context.{Ctx, Env, Fs, load_ctx, update_ctx}
use rdma_cpp.Fs.Teardown.{handle_disconnect}
use rdma_cpp.Fs.Resources.{create_resources}

-- fs_rdma_cm_handle_addr_resolved
unfoldable pub handle_addr_resolved : Env → Config → Event → Fs ℤ
unfolding handle_disconnect
handle_addr_resolved env config event = do
  ret ← call_for env.int_of (resolve_route event.id timeout_in_ms)
  if is_set ret then (do handle_disconnect config; pure ret) else pure ret

-- The parameters that both sides pass. `retry_count` is a `uint8_t`.
abbrev pub conn_param : Config → ConnParam
conn_param config = record {
  responder_resources = 1;
  initiator_depth = 1;
  retry_count = config.retry_count % 256;
  rnr_retry_count = 7;
}

-- fs_rdma_cm_handle_route_resolved. The event is never `NULL`.
unfoldable pub handle_route_resolved : Env → Config → Event → Fs ℤ
unfolding create_resources handle_disconnect load_ctx
handle_route_resolved env config event = do
  ret ← create_resources env config
  if is_set ret then (do handle_disconnect config; pure ret) else do
    c ← load_ctx
    ret ← call_for env.int_of (connect c.cm_id (conn_param config))
    if is_set ret then (do handle_disconnect config; pure ret) else pure (pos 0)

-- fs_rdma_cm_handle_connect_init. `ret` is declared nowhere: its value on entry is the
-- environment's.
unfoldable pub handle_connect_init : Env → Event → Fs ℤ
unfolding load_ctx update_ctx
handle_connect_init env event = do
  c ← load_ctx
  let ret =
      if event.id == c.cm_id
      then (if c.connected == 1 then minus_one else env.stale_ret)
      else minus_one
  if is_neg ret
      then (do call (disconnect c.cm_id); pure ret)
      else do update_ctx (λ c. record c { connected = 1 }); pure ret

-- fs_rdma_cm_handle_connect_request
unfoldable pub handle_connect_request : Env → Config → Event → Fs ℤ
unfolding create_resources handle_disconnect handle_connect_init load_ctx
handle_connect_request env config event = do
  ret ← create_resources env config
  if is_set ret then (do handle_disconnect config; pure ret) else do
    c ← load_ctx
    ret ← call_for env.int_of (accept c.cm_id (conn_param config))
    if is_neg ret
        then (do handle_disconnect config; pure ret)
        else do handle_connect_init env event; pure (pos 0)

-- fs_rdma_cm_handle_event_error
unfoldable pub handle_event_error : Config → Fs ℤ
unfolding handle_disconnect
handle_event_error config = do handle_disconnect config; pure (pos 0)
