-- ===== src/Connection/Server.antt =====
-- rdma_server_connect and establish_connection of src/Connection.cc.
mod Serving
mod Acks
mod Accepted
mod Establish
mod Closing
mod Tests
use rdma_cpp.Common.{ℕ, ◌%◌, ◌^◌, Bool, not, ◌&&◌, ◌||◌, ◌==◌, if◌then◌else◌}
use rdma_cpp.Common.Cint.{ℤ, pos, Ptr, is_set}
use rdma_cpp.Common.Cmd.{pure, call, call_for, observe, get_mem, put_mem, ◌>>=◌, ◌>>◌}
use rdma_cpp.Connection.Foreign.{
  connect_request, Event, Env, check_add_port, bind_addr, listen, get_cm_event, ack_cm_event,
  ctx_init, alloc_ctx, post_one_recv_wqe, post_recv_to_get_ah, create_ah_from_wc_recv, accept,
  destroy_id, freeaddrinfo,
}
use rdma_cpp.Connection.{
  Params, Con, is_kind, event_answer, port_answer, conn_param, take_context, set_work,
  client_connect,
}

-- `tst == LAT || (tst == BW && duplex)`
abbrev exchanges : Params → Bool
exchanges param = param.is_lat || (param.is_bw && param.duplex)

-- From rdma_accept to the end.
unfoldable accept_request : Env → Params → (event : Event) → (res : Ptr) → (qp_num : ℕ) → Con ℤ
accept_request env param event res qp_num = do
  c ← get_mem
  failed ← call_for env.int_of (accept c.cm_id (conn_param param qp_num))
  if is_set failed then pure (pos 1) else do
    let end = (do
      c ← get_mem
      call (ack_cm_event event)
      call (destroy_id c.cm_id_control)
      call (freeaddrinfo res)
      pure (pos 0))
    if not (c.work_rdma_cm == 0) && (param.is_ud && exchanges param)
        then (do
          failed ← call_for env.int_of create_ah_from_wc_recv
          if is_set failed then pure (pos 1) else end)
        else end

-- The posting of a receive request before rdma_accept.
unfoldable prepare_receive : Env → Params → Con ℤ
prepare_receive env param = do
  c ← get_mem
  if c.work_rdma_cm == env.off
      then call_for env.int_of post_one_recv_wqe
      else if param.is_ud && exchanges param
      then call_for env.int_of post_recv_to_get_ah
      else pure (pos 0)

-- alloc_ctx, which allocates the arrays of the context.
unfoldable allocate_ctx : Env → Con (Unit {0})
allocate_ctx env = do
  call alloc_ctx
  ah ← observe env.ah_of
  c ← get_mem
  put_mem (record c { ah = ah })

-- From the event of a request on.
unfoldable serve_request : Env → Params → (event : Event) → (res : Ptr) → Con ℤ
serve_request env param event res = do
  c ← get_mem
  put_mem (record c { cm_id = event.id })
  take_context env
  if c.work_rdma_cm == env.on then allocate_ctx env else pure tt
  set_work env.on
  failed ← call_for env.int_of ctx_init
  if is_set failed then pure env.failure else do
    qp_num ← if param.is_ud then observe env.first_qp_num else pure 0
    set_work c.work_rdma_cm
    failed ← prepare_receive env param
    if is_set failed then pure (pos 1) else accept_request env param event res qp_num

-- rdma_server_connect
unfoldable server_connect : Env → Params → Con ℤ
server_connect env param = do
  found ← call_for (port_answer env) (check_add_port param.port param.servername)
  if is_set (found.0)
      then pure env.failure
      else if not (env.is_inet (found.1))
      then pure env.failure
      else do
        c ← get_mem
        failed ← call_for env.int_of (
            bind_addr c.cm_id_control
              (record { address = found.1; sin_port = env.htons (param.port % 2 ^ 16) }))
        if is_set failed then pure (pos 1) else do
          failed ← call_for env.int_of (listen c.cm_id_control)
          if is_set failed then pure (pos 1) else do
            got ← call_for (event_answer env) (get_cm_event c.cm_channel)
            if is_set (got.0)
                then pure (pos 1)
                else if not (is_kind (got.1.kind) connect_request)
                then pure (pos 1)
                else serve_request env param (got.1) (found.1)

-- establish_connection
unfoldable establish_connection : Env → Params → Con ℤ
establish_connection env param = do
  failed ← if param.is_client then client_connect env param else server_connect env param
  pure (if is_set failed then pos 1 else pos 0)
