-- ===== src/Connection.antt =====
-- The functions of src/Connection.cc that the client runs.
pub mod Foreign
mod Server
mod Retry
mod State
mod Loops
mod Client
mod Flaky
mod Up
mod Tests
use rdma_cpp.Common.{
  ℕ, zero, suc, ◌%◌, ◌^◌, Bool, true, false, not, ◌||◌, List, ◌==◌, if◌then◌else◌,
}
use rdma_cpp.Common.Cint.{ℤ, pos, minus_one, Ptr, is_null, is_set, is_zero}
use rdma_cpp.Common.Cmd.{
  World, Cmd, pure, crash, call, call_for, observe, get_mem, put_mem, ◌>>=◌, ◌>>◌,
}
use Foreign.{
  EventKind, addr_resolved, addr_error, route_resolved, route_error, connect_request, established,
  other_event, Event, SockAddr, ConnParam, Call, Env, check_add_port, resolve_addr, resolve_route,
  get_cm_event, ack_cm_event, ctx_init, post_one_recv_wqe, create_ah, connect,
  create_rdma_resources, destroy_rdma_resources, usleep,
}

pub data VerbType : Type 0 where
  send write read atomic : VerbType

-- `struct perftest_parameters`, less the fields that the code writes.
pub record Params : Type 0 where
  pub port : ℕ
  pub servername : Ptr
  pub verb : VerbType
  pub out_reads : ℕ
  pub retry_count : ℕ
  pub is_client : Bool
  pub is_ud : Bool
  pub use_rdma_cm : ℕ
  pub sockfd : ℕ
  -- `tst == LAT`, `tst == BW` and `duplex`
  pub is_lat : Bool
  pub is_bw : Bool
  pub duplex : Bool

-- `struct pingpong_context`, and the fields of the parameters that the code writes.
pub record Conn : Type 0 where
  pub cm_channel : Ptr
  pub cm_id : Ptr
  pub cm_id_control : Ptr
  pub context : Ptr
  pub ah : Ptr
  pub ah_0 : Ptr
  pub rem_ud_qpn : ℕ
  pub rem_ud_qkey : ℕ
  pub work_rdma_cm : ℕ

abbrev pub ConnWorld : Type 0
ConnWorld = World Call Conn

abbrev pub Con : Type 0 → Type 0
Con A = Cmd ConnWorld A

abbrev pub is_kind : EventKind → EventKind → Bool
is_kind addr_resolved addr_resolved = true
is_kind addr_error addr_error = true
is_kind route_resolved route_resolved = true
is_kind route_error route_error = true
is_kind connect_request connect_request = true
is_kind established established = true
is_kind _ _ = false

-- rdma_get_cm_event: its result, and the event that it stores.
abbrev pub event_answer : Env → List Call → Call → ℤ × Event
event_answer env t k = (env.int_of t k, env.event_of t k)

abbrev pub port_answer : Env → List Call → Call → ℤ × Ptr
port_answer env t k = (env.int_of t k, env.ptr_of t k)

-- How a retry loop ends: with FAILURE, or resolved with the retries that are left.
pub data Resolved : Type 0 where
  gave_up : Resolved
  resolved : (num_of_retry : ℕ) → Resolved

-- A round of a retry loop after its resolving call: `again` is the event that counts as a failure,
-- `done` the one that was waited for.
unfoldable await :
    Env → (again done : EventKind) → (num_of_retry : ℕ) → (rest : Con Resolved) → Con Resolved
await env again done num_of_retry rest = do
  c ← get_mem
  got ← call_for (event_answer env) (get_cm_event c.cm_channel)
  if is_set (got.0)
      then pure gave_up
      else if is_kind (got.1.kind) again
      then call (ack_cm_event (got.1)) >> rest
      else if not (is_kind (got.1.kind) done)
      then call (ack_cm_event (got.1)) >> pure gave_up
      else call (ack_cm_event (got.1)) >> pure (resolved num_of_retry)

-- The first loop.
unfoldable resolve_addr_loop : Env → SockAddr → (num_of_retry : ℕ) → Con Resolved
resolve_addr_loop env sin zero = pure gave_up
resolve_addr_loop env sin (suc n) = do
  c ← get_mem
  failed ← call_for env.int_of (resolve_addr c.cm_id sin)
  if is_set failed
      then pure gave_up
      else await env addr_error addr_resolved (suc n) (resolve_addr_loop env sin n)

-- The second loop.
unfoldable resolve_route_loop : Env → (num_of_retry : ℕ) → Con Resolved
resolve_route_loop env zero = pure gave_up
resolve_route_loop env (suc n) = do
  c ← get_mem
  failed ← call_for env.int_of (resolve_route c.cm_id)
  if is_set failed
      then pure gave_up
      else await env route_error route_resolved (suc n) (resolve_route_loop env n)

-- `user_param->verb == READ || user_param->verb == ATOMIC`
abbrev pub reads : VerbType → Bool
reads read = true
reads atomic = true
reads _ = false

-- The parameters of the connection; the fields are `uint8_t` but for `qp_num`.
abbrev pub conn_param : Params → (qp_num : ℕ) → ConnParam
conn_param param qp_num = record {
  responder_resources = if reads param.verb then param.out_reads % 256 else 0;
  initiator_depth = if reads param.verb then param.out_reads % 256 else 0;
  retry_count = param.retry_count % 256;
  rnr_retry_count = 7;
  qp_num = qp_num;
}

-- The last block, of an unreliable datagram connection. `ah` is an array, which the test that
-- follows finds set.
unfoldable take_handle : Env → Params → Event → Con (Unit {0})
take_handle env param event = if not param.is_ud then pure tt else do
  c ← get_mem
  put_mem (record c { rem_ud_qpn = event.qp_num; rem_ud_qkey = event.qkey })
  handle ← call_for env.ptr_of (create_ah event.ah_attr)
  c ← get_mem
  if is_null c.ah then crash else put_mem (record c { ah_0 = handle })

-- From rdma_connect to the end.
unfoldable finish_connect : Env → Params → Con ℤ
finish_connect env param = do
  c ← get_mem
  failed ← call_for env.int_of (connect c.cm_id (conn_param param 0))
  if is_set failed then pure env.failure else do
    got ← call_for (event_answer env) (get_cm_event c.cm_channel)
    if is_set (got.0)
        then pure env.failure
        else if not (is_kind (got.1.kind) established)
        then call (ack_cm_event (got.1)) >> pure env.failure
        else do take_handle env param (got.1); call (ack_cm_event (got.1)); pure env.success

-- `ctx->context = ctx->cm_id->verbs`, through `NULL` undefined behaviour
unfoldable pub take_context : Env → Con (Unit {0})
take_context env = do
  c ← get_mem
  if is_null c.cm_id
      then crash
      else do verbs ← observe (env.verbs_of c.cm_id); put_mem (record c { context = verbs })

unfoldable pub set_work : ℕ → Con (Unit {0})
set_work work = do c ← get_mem; put_mem (record c { work_rdma_cm = work })

-- From the end of the second loop on.
unfoldable connect_resolved : Env → Params → Con ℤ
connect_resolved env param = do
  take_context env
  c ← get_mem
  set_work env.on
  failed ← call_for env.int_of ctx_init
  if is_set failed then pure env.failure else do
    set_work c.work_rdma_cm
    if c.work_rdma_cm == env.off
        then (do
          failed ← call_for env.int_of post_one_recv_wqe
          if is_set failed then pure (pos 1) else finish_connect env param)
        else finish_connect env param

abbrev after_route : Env → Params → Resolved → Con ℤ
after_route env param gave_up = pure env.failure
after_route env param (resolved n) = connect_resolved env param

abbrev after_addr : Env → Params → Resolved → Con ℤ
after_addr env param gave_up = pure env.failure
after_addr env param (resolved n) = resolve_route_loop env n >>= after_route env param

-- rdma_client_connect
unfoldable client_connect : Env → Params → Con ℤ
client_connect env param = do
  found ← call_for (port_answer env) (check_add_port param.port param.servername)
  if is_set (found.0)
      then pure env.failure
      else if not (env.is_inet (found.1))
      then pure env.failure
      else resolve_addr_loop env
          (record { address = found.1; sin_port = env.htons (param.port % 2 ^ 16) })
          env.num_of_retries
        >>= after_addr env param
