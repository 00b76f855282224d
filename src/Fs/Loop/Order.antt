-- ===== src/Fs/Loop/Order.antt =====
-- The order of rdma_destroy_id and rdma_ack_cm_event in fs_rdma_cm_event_handler of
-- src/c/transport.c.
use rdma_cpp.Common.{◌≡◌, true, false, List, ◌∷◌}
use rdma_cpp.Common.Cint.{is_null, is_set}
use rdma_cpp.Common.Cmd.{ok}
use rdma_cpp.Fs.Config.{Config, timeout_in_ms}
use rdma_cpp.Fs.Foreign.{
  Call, Event, addr_resolved, resolve_route, destroy_id, dealloc_pd, destroy_cq, ack_cm_event,
}
use rdma_cpp.Fs.Context.{Ctx, Env}
use rdma_cpp.Fs.Teardown.Effect.{world, call_if, arrays_calls, torn_down}
use rdma_cpp.Fs.Handlers.{handle_addr_resolved}
use rdma_cpp.Fs.Handlers.Failure.{handle_disconnect_lem}
use rdma_cpp.Fs.Loop.{freed_event, dispatch}

-- If rdma_resolve_route fails while the context has an identifier, then the round of an
-- ADDR_RESOLVED event calls rdma_destroy_id first and acknowledges the event only after that, as
-- its last call; librdmacm blocks in rdma_destroy_id until the events of the identifier are
-- acknowledged.
pub destroy_before_ack :
    (env : Env) (config : Config) (e : Event) (t : List Call) (c : Ctx)
    → is_set (env.int_of t (resolve_route e.id timeout_in_ms)) ≡ true
    → is_null c.cm_id ≡ false
    → (earlier : List Call) × (dispatch env config e addr_resolved (world t c)
        ≡ ok freed_event
            (world (ack_cm_event e ∷ destroy_id c.cm_id ∷ earlier) (torn_down config.qp_count c)))
unfolding dispatch handle_addr_resolved
destroy_before_ack env config e t c failed id =
    let t1 = resolve_route e.id timeout_in_ms ∷ t in
    (
      call_if c.pd (dealloc_pd c.pd) (
          call_if c.cq (destroy_cq c.cq) (arrays_calls config.qp_count c.cm_id c.qp c.mr c.buf t1)),
      rw (failed, handle_disconnect_lem, id),
    )
