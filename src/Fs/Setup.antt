-- ===== src/Fs/Setup.antt =====
-- fs_rdma_create_ctx, fs_rdma_destroy_ctx, fs_rdma_connect and fs_rdma_listen of src/c/transport.c.
-- Where the code writes `ctx->`, which names nothing, it is read as `rdma_ctx->`.
pub mod Ends
pub mod Listen
pub mod Destroy
mod Tests
use rdma_cpp.Common.{ℕ, ◌%◌, ◌^◌, Option, none, some, List, if◌then◌else◌}
use rdma_cpp.Common.Cint.{ℤ, pos, minus_one, Ptr, is_null, is_set, is_neg}
use rdma_cpp.Common.Cmd.{pure, crash, call, call_for, put_mem, ◌>>=◌, ◌>>◌}
use rdma_cpp.Fs.Config.{Config, ConnectionType, ud, timeout_in_ms}
use rdma_cpp.Fs.Foreign.{
  PortSpace, ps_udp, ps_tcp, SockAddr, Call, malloc_ctx, create_event_channel, create_id,
  destroy_id, destroy_event_channel, getaddrinfo, freeaddrinfo, resolve_addr, bind_addr, listen,
}
use rdma_cpp.Fs.Context.{Env, Fs, load_ctx, update_ctx, allocate}

-- `(config->connection_type == UD) ? RDMA_PS_UDP : RDMA_PS_TCP`
abbrev pub port_space : ConnectionType → PortSpace
port_space ud = ps_udp
port_space _ = ps_tcp

-- The three ALLOCATE lines.
unfoldable pub allocate_arrays : Env → Config → Fs ℤ
unfolding allocate update_ctx
allocate_arrays env config = do
  qp ← allocate env config.qp_count
  update_ctx (λ c. record c { qp = qp })
  mr ← allocate env config.qp_count
  update_ctx (λ c. record c { mr = mr })
  buf ← allocate env config.qp_count
  update_ctx (λ c. record c { buf = buf })
  pure (pos 0)

-- rdma_create_id stores the identifier only if it succeeds.
unfoldable pub create_cm_id : Env → Config → Fs ℤ
unfolding allocate_arrays load_ctx update_ctx
create_cm_id env config = do
  c ← load_ctx
  (failed, id) ←
      call_for (λ t k. (env.int_of t k, env.ptr_of t k))
        (create_id c.cm_event_channel (port_space config.connection_type))
  if is_set failed
      then pure minus_one
      else do update_ctx (λ c. record c { cm_id = id }); allocate_arrays env config

unfoldable pub create_ctx : Env → Config → Fs ℤ
unfolding create_cm_id update_ctx
create_ctx env config = do
  p ← call_for env.ptr_of malloc_ctx
  if is_null p then (do put_mem none; pure minus_one) else do
    put_mem (some env.fresh)
    channel ← call_for env.ptr_of create_event_channel
    update_ctx (λ c. record c { cm_event_channel = channel })
    if is_null channel then pure minus_one else create_cm_id env config

unfoldable pub destroy_ctx : Fs ℤ
unfolding load_ctx
destroy_ctx = do
  c ← load_ctx
  call (destroy_id c.cm_id)
  call (destroy_event_channel c.cm_event_channel)
  pure (pos 0)

-- getaddrinfo with the result list that it stores if it succeeds.
abbrev lookup_answer : Env → List Call → Call → ℤ × Ptr
lookup_answer env t k = (env.int_of t k, env.ptr_of t k)

-- What a lookup that was given `&res` leaves in `res`.
abbrev pub stored : ℤ × Ptr → Option Ptr
stored (ret, res) = if is_set ret then none else some res

-- The copy of `res->ai_addr` with the port set, and the release of `res`. Through a `res` that was
-- never set the copy is undefined behaviour.
unfoldable pub take_address : Env → Config → (res : Option Ptr) → Fs SockAddr
unfolding ◌>>=◌
take_address env config none = crash
take_address env config (some res) = do
  call (freeaddrinfo res)
  pure (record { address = res; sin_port = env.htons (config.port % 2 ^ 16) })

-- `rdma_ctx->cm_id`, where fs_rdma_create_ctx returned `created`: if that is a failure, then no
-- identifier was stored, and there is no context or the field is what malloc left.
unfoldable pub created_id : (created : ℤ) → Fs Ptr
unfolding load_ctx
created_id created = if is_set created then crash else do c ← load_ctx; pure c.cm_id

-- fs_rdma_connect, whose `hints` is read as `&hints`
unfoldable pub connect_to : Env → Config → Ptr → ℕ → Fs ℤ
unfolding create_ctx take_address created_id
connect_to env config ip_addr port = do
  created ← create_ctx env config
  found ← call_for (lookup_answer env) (getaddrinfo ip_addr port)
  sin ← take_address env config (stored found)
  id ← created_id created
  call_for env.int_of (resolve_addr id sin timeout_in_ms)

-- fs_rdma_listen, whose `hints` is read as `&hints`. The lookup gets the value of `res`, which has
-- none yet, and not its address: whatever it does, it does not set `res`.
unfoldable pub listen_on : Env → Config → Ptr → ℕ → Fs ℤ
unfolding take_address load_ctx
listen_on env config ip_addr port = do
  ret ← call_for env.int_of (getaddrinfo ip_addr port)
  if is_neg ret then pure ret else do
    sin ← take_address env config none
    c ← load_ctx
    bound ← call_for env.int_of (bind_addr c.cm_id sin)
    if is_set bound then pure minus_one else do
      listening ← call_for env.int_of (listen c.cm_id 0)
      pure (if is_set listening then minus_one else listening)
