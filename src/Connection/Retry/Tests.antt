-- ===== src/Connection/Retry/Tests.antt =====
-- Concrete runs of retry_rdma_connect of src/Connection.cc.
use rdma_cpp.Common.{◌≡◌, refl}
use rdma_cpp.Common.Cint.{ℤ}
use rdma_cpp.Common.Cmd.{ok}
use rdma_cpp.Connection.{ConnWorld}
use rdma_cpp.Connection.Retry.{retry_rdma_connect}
use rdma_cpp.Connection.Retry.Rounds.{Tried, retry_rdma_connect-Tried}
use rdma_cpp.Connection.Tests.{obliging, params, start}

retry_rdma_connect-Tried_example :
    (ret : ℤ) × (w' : ConnWorld) × (retry_rdma_connect obliging params start ≡ ok ret w')
    × Tried obliging 110 0 0 10 ret w'
retry_rdma_connect-Tried_example =
    retry_rdma_connect-Tried obliging params start (λ h. cc h) (λ t. refl) refl refl
