-- ===== src/Fs/Tests.antt =====
-- The theorems about src/c/transport.c at concrete inputs.
use rdma_cpp.Common.{◌≤◌, ◌≡◌, ◌≢◌, refl, some, List, [], ◌∷◌}
use rdma_cpp.Common.Cint.{Ptr, pos, minus_one}
use rdma_cpp.Common.Cmd.{ok, final, ◌>>=◌}
use rdma_cpp.Fs.Config.{param}
use rdma_cpp.Fs.Foreign.{
  Call, Event, addr_resolved, connect_request, established, destroy_id, get_device_list,
  ack_cm_event,
}
use rdma_cpp.Fs.Context.{Ctx, Env, FsWorld}
use rdma_cpp.Fs.Inputs.{prepared, obliging, without_pd}
use rdma_cpp.Fs.Teardown.{teardown}
use rdma_cpp.Fs.Teardown.Effect.{world, teardown_lem, teardown_again, teardown_calls, torn_down}
use rdma_cpp.Fs.Resources.{settle, create_resources}
use rdma_cpp.Fs.Resources.Stages.{
  proceed, acquire, open_stage, port_stage, pd_stage, channel_stage, cq_stage, srq_stage, qp_rounds,
  mr_rounds,
}
use rdma_cpp.Fs.Handlers.{handle_connect_init, handle_connect_request}
use rdma_cpp.Fs.Handlers.Failure.{IsTornDown}
use rdma_cpp.Fs.Handlers.TornDown.{handler-IsTornDown}
use rdma_cpp.Fs.Handlers.Peers.{handle_connect_init_lem, disconnects, server_disconnects}
use rdma_cpp.Fs.Loop.{null_event, freed_event, dispatch, event_loop, cm_event_handler}
use rdma_cpp.Fs.Loop.Acks.{Rounds, event_loop-Rounds}
use rdma_cpp.Fs.Loop.Exit.{cm_event_handler-ne-ok}
use rdma_cpp.Fs.Device.{find_dev}
use rdma_cpp.Fs.Device.Finds.{Named, find_dev-Named}
use rdma_cpp.Fs.Loop.Order.{destroy_before_ack}
use rdma_cpp.Fs.Loop.Flag.{event_loop-connected}
use rdma_cpp.Fs.Resources.Failure.{LeftReleased, create_resources-LeftReleased}

abbrev failed : FsWorld
failed = final (create_resources without_pd param (world [] prepared))

create_fails : create_resources without_pd param (world [] prepared) ≡ ok minus_one failed
unfolding create_resources acquire open_stage port_stage pd_stage proceed settle
create_fails = refl

create_resources-LeftReleased_example : LeftReleased param failed
create_resources-LeftReleased_example =
    create_resources-LeftReleased without_pd param (world [] prepared) failed create_fails

-- Each array is released once, and the second teardown has nothing left to do.
teardown_lem_example :
    teardown param (world [] prepared)
    ≡ ok (pos 0) (world (teardown_calls 1 prepared []) (torn_down 1 prepared))
teardown_lem_example = teardown_lem param [] prepared

teardown_again_example :
    (teardown param >>= λ _. teardown param) (world [] prepared)
    ≡ teardown param (world [] prepared)
teardown_again_example = teardown_again param [] prepared

abbrev event : Event
event = record { kind = established; id = 7 }

event_loop-Rounds_example :
    Rounds obliging (event_loop obliging param 2 5 null_event (world [] prepared))
event_loop-Rounds_example = event_loop-Rounds obliging param 2 5 null_event (world [] prepared) refl

cm_event_handler-ne-ok_example :
    cm_event_handler obliging param 2 5 (world [] prepared) ≢ ok tt (world [] prepared)
cm_event_handler-ne-ok_example =
    cm_event_handler-ne-ok obliging param 2 5 (world [] prepared) (world [] prepared)

handle_connect_init_lem_example :
    handle_connect_init obliging event (world [] prepared)
    ≡ ok (pos 0) (world [] (record prepared { connected = 1 }))
handle_connect_init_lem_example = handle_connect_init_lem obliging event [] prepared refl

-- Where nothing can be set up, the server's handlers report it and tear down.
abbrev no_route : Env
no_route = record obliging { int_of = λ t k. minus_one }

abbrev after_request : FsWorld
after_request = final (handle_connect_request without_pd param event (world [] prepared))

handler-IsTornDown_example : IsTornDown param after_request
unfolding handle_connect_request create_resources acquire open_stage port_stage pd_stage proceed
    settle
handler-IsTornDown_example =
    handler-IsTornDown without_pd param event connect_request (world [] prepared) after_request
      {r = minus_one} refl refl

destroy_before_ack_example :
    (earlier : List Call) × (dispatch no_route param event addr_resolved (world [] prepared)
      ≡ ok freed_event (world (ack_cm_event event ∷ destroy_id 7 ∷ earlier) (torn_down 1 prepared)))
destroy_before_ack_example = destroy_before_ack no_route param event [] prepared refl refl

event_loop-connected_example :
    (c : Ctx) × ((final (
        event_loop obliging param 2 5 null_event
          (world [] (record prepared { connected = 1 })))).mem
      ≡ some c)
    × (c.connected ≡ 1)
event_loop-connected_example =
    event_loop-connected obliging param 2 5 null_event [] (record prepared { connected = 1 }) refl

-- The listening identifier 7 gets a request for a new identifier 8, and then its ESTABLISHED event.
abbrev request : Event
request = record { kind = connect_request; id = 8 }

abbrev requested : FsWorld
requested = final (handle_connect_request obliging param request (world [] prepared))

abbrev settled : FsWorld
settled = final (handle_connect_init obliging event requested)

server_disconnects_example : 1 ≤ disconnects settled
unfolding handle_connect_request create_resources acquire open_stage port_stage pd_stage
    channel_stage cq_stage srq_stage qp_rounds mr_rounds proceed settle handle_connect_init
server_disconnects_example =
    server_disconnects obliging param request event (world [] prepared) requested settled
      {r = pos 0} refl refl

find_dev-Named_example :
    (p : Ptr) × (find_dev obliging (some "mlx4_0") (world [] prepared)
      ≡ ok p (world (get_device_list ∷ []) prepared))
    × Named "mlx4_0" (record { handle = 3; name = "mlx4_0" } ∷ []) p
find_dev-Named_example =
    find_dev-Named obliging "mlx4_0" (record { handle = 3; name = "mlx4_0" } ∷ [])
      (world [] prepared) refl refl
