-- ===== src/Fs/Resources/Success.antt =====
-- fs_rdma_create_resources of src/c/transport.c where the libraries oblige.
use rdma_cpp.Common.{◌≡◌, ◌≢◌, false, List, ◌++◌, replicate}
use rdma_cpp.Common.Cint.{is_null}
use rdma_cpp.Fs.Config.{Config}
use rdma_cpp.Fs.Foreign.{Call}
use rdma_cpp.Fs.Context.{Ctx}
use rdma_cpp.Fs.Resources.Loops.{IsSized, IsFilled, qp_call}

-- A context as fs_rdma_create_ctx leaves it.
pub record IsFresh (config : Config) (c : Ctx) : Type 0 where
  pub id : is_null c.cm_id ≡ false
  pub qp : IsSized config.qp_count c.qp
  pub mr : IsSized config.qp_count c.mr
  pub buf : IsSized config.qp_count c.buf

-- A context with all its resources, and with arrays of which every entry is set. Of the calls
-- `calls` of rdma_create_qp, the last `qp_count`, those after `before`, each made a queue pair of
-- the connection type on the identifier, the protection domain and the completion queues of the
-- context.
pub record IsReady (config : Config) (before calls : List Call) (c : Ctx) : Type 0 where
  pub qps : calls ≡ replicate config.qp_count (qp_call config c) ++ before
  pub id : is_null c.cm_id ≡ false
  pub context : is_null c.context ≡ false
  pub pd : is_null c.pd ≡ false
  pub channel : config.use_event ≢ 0 → is_null c.channel ≡ false
  pub send_cq : is_null c.send_cq ≡ false
  pub recv_cq : is_null c.recv_cq ≡ false
  pub srq : config.use_srq ≢ 0 → is_null c.srq ≡ false
  pub qp : IsSized config.qp_count c.qp
  pub mr : IsSized config.qp_count c.mr
  pub buf : IsSized config.qp_count c.buf
  pub qp_set : IsFilled config.qp_count c.qp
  pub mr_set : IsFilled config.qp_count c.mr
  pub buf_set : IsFilled config.qp_count c.buf

-- The flag does not count.
pub IsReady-up :
    {config : Config} {before calls : List Call} {c : Ctx}
    → IsReady config before calls c
    → IsReady config before calls (record c { connected = 1 })
IsReady-up r = record {
  qps = r.qps;
  id = r.id;
  context = r.context;
  pd = r.pd;
  channel = r.channel;
  send_cq = r.send_cq;
  recv_cq = r.recv_cq;
  srq = r.srq;
  qp = r.qp;
  mr = r.mr;
  buf = r.buf;
  qp_set = r.qp_set;
  mr_set = r.mr_set;
  buf_set = r.buf_set;
}
