-- ===== src/Connection/Foreign.antt =====
-- What src/Connection.cc calls outside the repository: librdmacm, sockets, and the resource
-- functions of perftest, with the constants of its headers.
use rdma_cpp.Common.{ℕ, Bool, List}
use rdma_cpp.Common.Cint.{ℤ, Ptr}

-- The events that the code tells apart.
pub data EventKind : Type 0 where
  addr_resolved addr_error route_resolved route_error connect_request established other_event :
      EventKind

-- `struct rdma_cm_event`, with the part of `param.ud` that the code reads.
pub record Event : Type 0 where
  pub kind : EventKind
  pub id : Ptr
  pub qp_num : ℕ
  pub qkey : ℕ
  pub ah_attr : Ptr

pub record SockAddr : Type 0 where
  pub address : Ptr
  pub sin_port : ℕ

-- `struct rdma_conn_param`, zero where the code sets nothing.
pub record ConnParam : Type 0 where
  pub responder_resources : ℕ
  pub initiator_depth : ℕ
  pub retry_count : ℕ
  pub rnr_retry_count : ℕ
  pub qp_num : ℕ

pub data Call : Type 0 where
  check_add_port : (port : ℕ) (servername : Ptr) → Call
  resolve_addr : Ptr → SockAddr → Call
  resolve_route : Ptr → Call
  bind_addr : Ptr → SockAddr → Call
  listen : Ptr → Call
  get_cm_event : (channel : Ptr) → Call
  ack_cm_event : Event → Call
  ctx_init : Call
  alloc_ctx : Call
  post_one_recv_wqe : Call
  post_recv_to_get_ah : Call
  create_ah : Ptr → Call
  create_ah_from_wc_recv : Call
  connect : Ptr → ConnParam → Call
  accept : Ptr → ConnParam → Call
  destroy_id : Ptr → Call
  freeaddrinfo : Ptr → Call
  hand_shake : Call
  write_done : (sockfd : ℕ) → Call
  close : (sockfd : ℕ) → Call
  create_rdma_resources : Call
  destroy_rdma_resources : Call
  usleep : ℕ → Call

-- Each answer may depend on all the calls before. What the functions of perftest write in the
-- fields of the model is a part of it.
pub record Env : Type 0 where
  pub int_of : List Call → Call → ℤ
  pub ptr_of : List Call → Call → Ptr
  pub event_of : List Call → Call → Event
  -- `res->ai_family == PF_INET`
  pub is_inet : Ptr → Bool
  -- `id->verbs`, and `ctx->qp[0]->qp_num`
  pub verbs_of : Ptr → List Call → Ptr
  pub first_qp_num : List Call → ℕ
  -- what create_rdma_resources leaves in `cm_channel` and `cm_id`, and alloc_ctx in `ah`
  pub channel_of : List Call → Ptr
  pub id_of : List Call → Ptr
  pub ah_of : List Call → Ptr
  pub htons : ℕ → ℕ
  pub success : ℤ
  pub failure : ℤ
  pub num_of_retries : ℕ
  pub on : ℕ
  pub off : ℕ
