-- ===== src/Fs/Loop/Client.antt =====
-- Connection set-up on the client, by the handlers of src/c/transport.c and the switch that runs
-- them.
use rdma_cpp.Common.{◌≡◌, List, ◌∷◌}
use rdma_cpp.Common.Cint.{pos}
use rdma_cpp.Common.Cmd.{ok}
use rdma_cpp.Fs.Config.{Config, timeout_in_ms}
use rdma_cpp.Fs.Foreign.{Call, Event, resolve_route, connect, ack_cm_event}
use rdma_cpp.Fs.Context.{Ctx, Env}
use rdma_cpp.Fs.Teardown.Effect.{world}
use rdma_cpp.Fs.Resources.{create_resources}
use rdma_cpp.Fs.Resources.Loops.{Obliging}
use rdma_cpp.Fs.Handlers.{handle_addr_resolved, handle_route_resolved, conn_param}

module _ (env : Env) (config : Config) (good : Obliging env) where
  open good use {ints}

  pub addr_resolved-ok :
      (e : Event) (t : List Call) (c : Ctx)
      → handle_addr_resolved env config e (world t c)
        ≡ ok (pos 0) (world (resolve_route e.id timeout_in_ms ∷ t) c)
  unfolding handle_addr_resolved
  addr_resolved-ok e t c = rw ints

  pub route_resolved-ok :
      (e : Event) (t t' : List Call) (c c' : Ctx)
      → create_resources env config (world t c) ≡ ok (pos 0) (world t' c')
      → handle_route_resolved env config e (world t c)
        ≡ ok (pos 0) (world (connect c'.cm_id (conn_param config) ∷ t') c')
  unfolding handle_route_resolved
  route_resolved-ok e t t' c c' h = rw (h, ints)

abbrev with_ack : Event → List Call → List Call
with_ack e t = ack_cm_event e ∷ t
