-- ===== src/Connection/Tests.antt =====
-- Concrete runs of src/Connection.cc.
use rdma_cpp.Common.{
  ◌+◌, ◌<◌, ◌≤◌, ◌≡◌, refl, true, false, List, [], ◌∷◌, count, length, ltb, if◌then◌else◌,
}
use rdma_cpp.Common.Cint.{ℤ, pos}
use rdma_cpp.Common.Cmd.{ok}
use rdma_cpp.Connection.Foreign.{
  EventKind, route_error, resolve_addr, other_event, addr_error, addr_resolved, route_resolved,
  established, Call, resolve_route, connect, Env,
}
use rdma_cpp.Connection.{read, Params, ConnWorld, client_connect}
use rdma_cpp.Connection.State.{fetched_events, acked_events, is_attempt}
use rdma_cpp.Connection.Client.{client_connect-acks}
use rdma_cpp.Connection.Flaky.{is_addr, is_route, Flaky}
use rdma_cpp.Connection.Up.{IsUp, client_connect-IsUp}

-- The event that follows the latest call: the first address resolution fails.
abbrev pub kind_of : List Call → EventKind
kind_of (resolve_route _ ∷ _) = route_resolved
kind_of (connect _ _ ∷ _) = established
kind_of t = if ltb (length t) 3 then addr_error else addr_resolved

-- Libraries that succeed after one failed resolution.
abbrev pub obliging : Env
obliging = record {
  int_of = λ t k. pos 0;
  ptr_of = λ t k. 9;
  event_of = λ t k. record { kind = kind_of t; id = 7; qp_num = 5; qkey = 6; ah_attr = 4 };
  is_inet = λ p. true;
  verbs_of = λ p t. 11;
  first_qp_num = λ t. 5;
  channel_of = λ t. 2;
  id_of = λ t. 7;
  ah_of = λ t. 20;
  htons = λ n. n;
  success = pos 0;
  failure = pos 1;
  num_of_retries = 10;
  on = 1;
  off = 0;
}

abbrev pub params : Params
params = record {
  port = 18515;
  servername = 3;
  verb = read;
  out_reads = 4;
  retry_count = 7;
  is_client = true;
  is_ud = true;
  use_rdma_cm = 1;
  sockfd = 0;
  is_lat = false;
  is_bw = true;
  duplex = false;
}

abbrev pub start : ConnWorld
start = record {
  trace = [];
  mem = record {
    cm_channel = 2;
    cm_id = 7;
    cm_id_control = 8;
    context = 0;
    ah = 20;
    ah_0 = 0;
    rem_ud_qpn = 0;
    rem_ud_qkey = 0;
    work_rdma_cm = 0;
  };
}

client_connect-acks_example :
    (ret : ℤ) × (w' : ConnWorld) × (client_connect obliging params start ≡ ok ret w')
    × ((fetched_events obliging w'.trace ≡ acked_events w'.trace)
        × (count is_attempt w'.trace ≤ 11)
        × (ret ≡ pos 0 → w'.mem.work_rdma_cm ≡ 0))
client_connect-acks_example = client_connect-acks obliging params start (λ h. cc h) refl refl refl

-- The first two resolutions of the address fail, and the first of the route.
abbrev flaky_kind : List Call → EventKind
flaky_kind (resolve_addr _ _ ∷ t) = if ltb (count is_addr t) 2 then addr_error else addr_resolved
flaky_kind (resolve_route _ ∷ t) = if ltb (count is_route t) 1 then route_error else route_resolved
flaky_kind (connect _ _ ∷ _) = established
flaky_kind t = other_event

abbrev flaky_env : Env
flaky_env = record obliging {
  event_of = λ t k. record { kind = flaky_kind t; id = 7; qp_num = 5; qkey = 6; ah_attr = 4 };
}

flaky_env-Flaky : Flaky flaky_env 2 1
flaky_env-Flaky = record {
  ints = λ t k. refl;
  inet = λ p. refl;
  addr_kind = λ id ch sin t. refl;
  route_kind = λ id ch t. refl;
  connect_kind = λ id ch p t. refl;
}

client_connect-IsUp_example :
    (w' : ConnWorld) × (client_connect flaky_env params start ≡ ok (pos 0) w')
    × (2 + 1 < 10 → IsUp params 7 0 w')
client_connect-IsUp_example =
    client_connect-IsUp flaky_env 2 1 params start flaky_env-Flaky refl refl refl refl
