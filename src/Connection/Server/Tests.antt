-- ===== src/Connection/Server/Tests.antt =====
-- Concrete runs of rdma_server_connect and establish_connection of src/Connection.cc.
use rdma_cpp.Common.{◌≡◌, [], refl, true, false}
use rdma_cpp.Common.Cint.{ℤ, pos, minus_one}
use rdma_cpp.Common.Cmd.{
  Run, pure, call, call_for, observe, get_mem, put_mem, ◌>>=◌, final, ok, fault, exited,
  out_of_fuel,
}
use rdma_cpp.Connection.Foreign.{connect_request, Env}
use rdma_cpp.Connection.{Params, ConnWorld, take_context, set_work}
use rdma_cpp.Connection.Server.{
  server_connect, establish_connection, serve_request, allocate_ctx, prepare_receive,
  accept_request,
}
use rdma_cpp.Connection.Server.Acks.{ServerEnds, server_connect-ServerEnds}
use rdma_cpp.Connection.Server.Accepted.{Requests, IsAccepted, server_connect-IsAccepted}
use rdma_cpp.Connection.Server.Closing.{IsClosed, close_established}
use rdma_cpp.Connection.Retry.{ctx_close_connection}
use rdma_cpp.Connection.Foreign.{write_done, Call}
use rdma_cpp.Connection.Server.Establish.{Established, establish_connection-Established}
use rdma_cpp.Connection.Tests.{obliging, params, start}

-- Libraries through which a request comes in.
abbrev requesting : Env
requesting = record obliging {
  event_of = λ t k. record { kind = connect_request; id = 7; qp_num = 5; qkey = 6; ah_attr = 4 };
}

abbrev server_params : Params
server_params = record params { is_client = false; is_lat = true }

server_connect-ServerEnds_example :
    (ret : ℤ) × (w' : ConnWorld) × (server_connect requesting server_params start ≡ ok ret w')
    × ServerEnds requesting 0 ret w'
server_connect-ServerEnds_example =
    server_connect-ServerEnds requesting server_params start refl (λ t k. refl) refl

establish_connection-Established_example :
    (ret : ℤ) × (w' : ConnWorld) × (establish_connection requesting server_params start ≡ ok ret w')
    × Established requesting 0 ret w'
establish_connection-Established_example =
    establish_connection-Established requesting server_params start refl refl (λ t k. refl) refl
      refl refl

-- The whole of the server's run returns 0.
abbrev result : Run ConnWorld ℤ → ℤ
result (ok ret w) = ret
result (fault w) = minus_one
result (exited w) = minus_one
result (out_of_fuel w) = minus_one

server_returns_zero : result (establish_connection requesting server_params start) ≡ pos 0
unfolding establish_connection server_connect serve_request allocate_ctx prepare_receive
    accept_request take_context set_work get_mem put_mem call_for call observe ◌>>=◌ pure
server_returns_zero = refl

requesting-Requests : Requests requesting
requesting-Requests = record {
  ints = λ t k. refl;
  inet = λ p. refl;
  request = λ id ch t. refl;
  request_id = λ id ch t. refl;
}

server_connect-IsAccepted_example :
    (w' : ConnWorld) × (server_connect requesting server_params start ≡ ok (pos 0) w')
    × IsAccepted 8 0 9 [] w'
server_connect-IsAccepted_example =
    server_connect-IsAccepted requesting server_params start requesting-Requests

-- The connection by the socket: the five bytes are written.
abbrev written : Call → ℤ
written (write_done fd) = pos 5
written k = pos 0

abbrev writing : Env
writing = record requesting { int_of = λ t k. written k }

abbrev socket_params : Params
socket_params = record server_params { use_rdma_cm = 0 }

abbrev up : ConnWorld
up = final (establish_connection writing socket_params start)

close_established_example :
    (ret : ℤ) × (w' : ConnWorld) × (ctx_close_connection writing socket_params up ≡ ok ret w')
    × IsClosed writing socket_params 0 up ret w'
unfolding establish_connection server_connect serve_request allocate_ctx prepare_receive
    accept_request take_context set_work get_mem put_mem call_for call observe ◌>>=◌ pure
close_established_example =
    close_established writing socket_params start up refl refl (λ t k. refl) refl refl refl refl
