-- ===== src/Fs/Setup/Destroy.antt =====
-- fs_rdma_destroy_ctx of src/c/transport.c after fs_rdma_teardown.
use rdma_cpp.Common.{◌≡◌, refl, List, ◌∷◌}
use rdma_cpp.Common.Cint.{pos, null}
use rdma_cpp.Common.Cmd.{ok, ◌>>=◌}
use rdma_cpp.Fs.Config.{Config}
use rdma_cpp.Fs.Foreign.{Call, destroy_id, destroy_event_channel}
use rdma_cpp.Fs.Context.{Ctx, load_ctx}
use rdma_cpp.Fs.Setup.{destroy_ctx}
use rdma_cpp.Fs.Teardown.{teardown}
use rdma_cpp.Fs.Teardown.Effect.{world, teardown_calls, torn_down, teardown_lem}

-- On any context, fs_rdma_teardown and then fs_rdma_destroy_ctx return 0, and rdma_destroy_id is
-- called with NULL between the calls of the teardown and the one that destroys the event channel;
-- the context keeps the channel that was destroyed.
pub destroy_after_teardown :
    (config : Config) (t : List Call) (c : Ctx)
    → (teardown config >>= λ _. destroy_ctx) (world t c)
      ≡ ok (pos 0) (
          world
            (destroy_event_channel c.cm_event_channel
              ∷ destroy_id null
              ∷ teardown_calls config.qp_count c t)
            (torn_down config.qp_count c))
unfolding destroy_ctx load_ctx ◌>>=◌
destroy_after_teardown config t c = rw (teardown_lem config t c) refl
