-- ===== src/Fs/Setup/Tests.antt =====
-- The theorems about fs_rdma_connect, fs_rdma_listen and fs_rdma_destroy_ctx of src/c/transport.c at
-- concrete inputs.
use rdma_cpp.Common.{◌≡◌, [], ◌∷◌}
use rdma_cpp.Common.Cint.{pos, null}
use rdma_cpp.Common.Cmd.{ok, ◌>>=◌}
use rdma_cpp.Fs.Config.{param}
use rdma_cpp.Fs.Foreign.{destroy_id, destroy_event_channel}
use rdma_cpp.Fs.Inputs.{prepared, obliging}
use rdma_cpp.Fs.Setup.{listen_on, destroy_ctx}
use rdma_cpp.Fs.Setup.Listen.{ListenEnds, listen_on-ListenEnds}
use rdma_cpp.Fs.Setup.Destroy.{destroy_after_teardown}
use rdma_cpp.Fs.Teardown.{teardown}
use rdma_cpp.Fs.Teardown.Effect.{world, teardown_calls, torn_down}

listen_on-ListenEnds_example :
    ListenEnds obliging 5 8080
      (world [] prepared)
      (listen_on obliging param 5 8080 (world [] prepared))
listen_on-ListenEnds_example = listen_on-ListenEnds obliging param 5 8080 (world [] prepared)

destroy_after_teardown_example :
    (teardown param >>= λ _. destroy_ctx) (world [] prepared)
    ≡ ok (pos 0) (
        world
          (destroy_event_channel 2 ∷ destroy_id null ∷ teardown_calls 1 prepared [])
          (torn_down 1 prepared))
destroy_after_teardown_example = destroy_after_teardown param [] prepared
