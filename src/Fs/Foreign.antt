-- ===== src/Fs/Foreign.antt =====
-- The code outside the repository that src/c/transport.c calls: libc, libibverbs and librdmacm.
-- Each call is recorded with its arguments, and its result is chosen by an environment from the
-- calls before it, so that a theorem for every environment holds whatever these libraries answer.
use Prim.Native.String.{String}
use rdma_cpp.Common.{ℕ, Option, List}
use rdma_cpp.Common.Cint.{ℤ, Ptr}

-- A `struct ibv_device *` and what `ibv_get_device_name` says of it.
pub record Device : Type 0 where
  pub handle : Ptr
  pub name : String

-- What `ibv_get_device_list` returns: `NULL` or an array that ends in `NULL`, and the count.
pub record DeviceList : Type 0 where
  pub devices : Option (List Device)
  pub num_of_device : ℤ

pub data EventKind : Type 0 where
  addr_resolved route_resolved connect_request established : EventKind
  addr_error route_error connect_error unreachable rejected : EventKind
  disconnected : EventKind
  unhandled : ℕ → EventKind

-- `struct rdma_cm_event`
pub record Event : Type 0 where
  pub kind : EventKind
  pub id : Ptr

pub data PortSpace : Type 0 where
  ps_udp ps_tcp : PortSpace

-- `struct sockaddr_in`: the address that getaddrinfo found, with `sin_port`.
pub record SockAddr : Type 0 where
  pub address : Ptr
  pub sin_port : ℕ

pub data QpType : Type 0 where
  qpt_rc qpt_uc qpt_ud : QpType

-- `struct ibv_qp_init_attr`
pub record QpInitAttr : Type 0 where
  pub send_cq : Ptr
  pub recv_cq : Ptr
  pub srq : Ptr
  pub max_send_wr : ℕ
  pub max_recv_wr : ℕ
  pub max_send_sge : ℕ
  pub max_recv_sge : ℕ
  pub qp_type : QpType

-- `struct ibv_srq_init_attr`
pub record SrqInitAttr : Type 0 where
  pub max_wr : ℕ
  pub max_sge : ℕ
  pub srq_limit : ℕ

-- `struct rdma_conn_param`, as the handlers fill it
pub record ConnParam : Type 0 where
  pub responder_resources : ℕ
  pub initiator_depth : ℕ
  pub retry_count : ℕ
  pub rnr_retry_count : ℕ

-- A call and the arguments that matter. Calls that only write messages are left out.
pub data Call : Type 0 where
  -- libc
  malloc_ctx : Call
  malloc_array : (entries : ℕ) → Call
  memalign : (page size : ℕ) → Call
  free : Ptr → Call
  getaddrinfo : (ip_addr : Ptr) (port : ℕ) → Call
  freeaddrinfo : Ptr → Call
  -- librdmacm
  create_event_channel : Call
  destroy_event_channel : Ptr → Call
  create_id : (channel : Ptr) (space : PortSpace) → Call
  destroy_id : Ptr → Call
  resolve_addr : (id : Ptr) (to : SockAddr) (timeout : ℕ) → Call
  resolve_route : (id : Ptr) (timeout : ℕ) → Call
  bind_addr : (id : Ptr) (to : SockAddr) → Call
  listen : (id : Ptr) (backlog : ℕ) → Call
  connect : (id : Ptr) (with : ConnParam) → Call
  accept : (id : Ptr) (with : ConnParam) → Call
  disconnect : (id : Ptr) → Call
  get_cm_event : (channel : Ptr) → Call
  ack_cm_event : Event → Call
  create_qp : (id pd : Ptr) (with : QpInitAttr) → Call
  destroy_qp : (id : Ptr) → Call
  -- libibverbs
  get_device_list : Call
  open_device : Ptr → Call
  close_device : Ptr → Call
  query_port : (context : Ptr) (port : ℕ) → Call
  query_device : Call
  alloc_pd : (context : Ptr) → Call
  dealloc_pd : Ptr → Call
  create_comp_channel : (context : Ptr) → Call
  create_cq : (context : Ptr) (cqe : ℕ) (channel : Ptr) → Call
  destroy_cq : Ptr → Call
  create_srq : (pd : Ptr) (with : SrqInitAttr) → Call
  reg_mr : (pd buf : Ptr) (size : ℕ) → Call
  dereg_mr : Ptr → Call
