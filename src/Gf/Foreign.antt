-- ===== src/Gf/Foreign.antt =====
-- What src/Transport.cc and src/Qp.cc call outside the repository: librdmacm, libibverbs, pthreads,
-- and the `gf_rdma_` functions, which stand in GlusterFS.
use rdma_cpp.Common.{ℕ}
use rdma_cpp.Common.Cint.{Ptr}

pub data EventKind : Type 0 where
  addr_resolved route_resolved connect_request established : EventKind
  addr_error route_error connect_error unreachable rejected : EventKind
  disconnected device_removal : EventKind
  unhandled : ℕ → EventKind

-- `struct rdma_cm_event`, with `id->context`, the transport that the identifier belongs to.
pub record Event : Type 0 where
  pub kind : EventKind
  pub id : Ptr
  pub context : Ptr

-- `struct ibv_qp_init_attr` of a reliable connection
pub record QpInitAttr : Type 0 where
  pub send_cq : Ptr
  pub recv_cq : Ptr
  pub srq : Ptr
  pub max_send_wr : ℕ
  pub max_recv_wr : ℕ
  pub max_send_sge : ℕ
  pub max_recv_sge : ℕ

-- The fields of `gf_rdma_device_t` that the code reads.
pub record GfDevice : Type 0 where
  pub handle : Ptr
  pub send_cq : Ptr
  pub recv_cq : Ptr
  pub srq : Ptr
  pub pd : Ptr

pub data Call : Type 0 where
  get_cm_event : (channel : Ptr) → Call
  ack_cm_event : Event → Call
  handle_addr_resolved : Event → Call
  handle_route_resolved : Event → Call
  handle_connect_request : Event → Call
  handle_connect_init : Event → Call
  handle_device_removal : Event → Call
  handle_event_error : (transport : Ptr) → Call
  handle_disconnect : (transport : Ptr) → Call
  bind_addr : (id : Ptr) → Call
  listen : (id : Ptr) (backlog : ℕ) → Call
  calloc_private : Call
  free : Ptr → Call
  rdma_init : Call
  mutex_lock : Call
  mutex_unlock : Call
  register_iobuf_pool : (device : Ptr) → Call
  get_device_name : (context : Ptr) → Call
  get_device : (context name : Ptr) → Call
  create_qp : (id pd : Ptr) → QpInitAttr → Call
  register_peer : (device : Ptr) (qp_num : ℕ) → Call
  destroy_qp : Call
