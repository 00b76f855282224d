-- ===== src/Fs/Frame/Handle.antt =====
-- The handlers leave alone every invariant of a frame.
use rdma_cpp.Common.Cmd.Keeps.{Keeps}
use rdma_cpp.Fs.Frame.{Frame, frame_rules, set_connected-Keeps}
use rdma_cpp.Fs.Config.{Config}
use rdma_cpp.Fs.Foreign.{Event}
use rdma_cpp.Fs.Context.{FsWorld, Env}
use rdma_cpp.Fs.Frame.Release.{handle_disconnect-Keeps}
use rdma_cpp.Fs.Frame.Acquire.{create_resources-Keeps}
use rdma_cpp.Fs.Handlers.{
  handle_addr_resolved, handle_route_resolved, handle_connect_request, handle_connect_init,
  handle_event_error,
}

module _ {I : FsWorld → Type 0} ⦃f : Frame I⦄ where
  pub ruleset handler_rules =
      (frame_rules, set_connected-Keeps, create_resources-Keeps, handle_disconnect-Keeps)

  pub handle_addr_resolved-Keeps :
      (env : Env) (config : Config) (event : Event)
      → Keeps I (handle_addr_resolved env config event)
  unfolding handle_addr_resolved
  handle_addr_resolved-Keeps env config event = search handler_rules depth 9

  pub handle_route_resolved-Keeps :
      (env : Env) (config : Config) (event : Event)
      → Keeps I (handle_route_resolved env config event)
  unfolding handle_route_resolved
  handle_route_resolved-Keeps env config event = search handler_rules depth 9

  pub handle_connect_init-Keeps :
      (env : Env) (event : Event) → Keeps I (handle_connect_init env event)
  unfolding handle_connect_init
  handle_connect_init-Keeps env event = search handler_rules depth 9

  pub handle_connect_request-Keeps :
      (env : Env) (config : Config) (event : Event)
      → Keeps I (handle_connect_request env config event)
  unfolding handle_connect_request
  handle_connect_request-Keeps env config event =
      search (handler_rules, handle_connect_init-Keeps) depth 9

  pub handle_event_error-Keeps : (config : Config) → Keeps I (handle_event_error config)
  unfolding handle_event_error
  handle_event_error-Keeps config = search handler_rules depth 9
