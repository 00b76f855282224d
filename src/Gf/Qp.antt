-- ===== src/Gf/Qp.antt =====
-- gf_rdma_create_qp of src/Qp.cc.
pub mod Ends
use rdma_cpp.Common.{ℕ, Option, none, some, List, if◌then◌else◌}
use rdma_cpp.Common.Cint.{ℤ, minus_one, Ptr, is_null, is_set, is_minus_one}
use rdma_cpp.Common.Cmd.{
  World, Cmd, pure, crash, call, call_for, observe, get_mem, put_mem, ◌>>=◌, ◌>>◌,
}
use rdma_cpp.Gf.Foreign.{
  QpInitAttr, GfDevice, Call, get_device_name, get_device, create_qp, register_peer, destroy_qp,
}

-- The peer, `gf_rdma_peer_t` of src/Peer.h, and `priv->device`. The union `ioq` is two pointers
-- either way.
pub record Peer : Type 0 where
  pub trans : Ptr
  pub cm_id : Ptr
  pub qp : Ptr
  pub rdma_event_thread : ℕ
  pub quota_set : ℕ
  pub recv_count : ℕ
  pub send_count : ℕ
  pub recv_size : ℤ
  pub send_size : ℤ
  pub quota : ℤ
  pub ioq_next : Ptr
  pub ioq_prev : Ptr
  pub local_lid : ℤ
  pub local_psn : ℤ
  pub local_qpn : ℤ
  pub remote_lid : ℤ
  pub remote_psn : ℤ
  pub remote_qpn : ℤ
  pub device : Ptr

pub record QpEnv : Type 0 where
  pub int_of : List Call → Call → ℤ
  pub ptr_of : List Call → Call → Ptr
  -- what gf_rdma_get_device returns, `none` for `NULL`
  pub device_of : List Call → Call → Option GfDevice
  -- `cm_id->verbs`, `cm_id->qp` and `qp->qp_num`
  pub verbs_of : Ptr → List Call → Ptr
  pub qp_of : Ptr → List Call → Ptr
  pub qp_num_of : Ptr → List Call → ℕ

abbrev pub QpWorld : Type 0
QpWorld = World Call Peer

abbrev pub Qp : Type 0 → Type 0
Qp A = Cmd QpWorld A

abbrev pub init_attr : GfDevice → Peer → QpInitAttr
init_attr d p = record {
  send_cq = d.send_cq;
  recv_cq = d.recv_cq;
  srq = d.srq;
  max_send_wr = p.send_count;
  max_recv_wr = p.recv_count;
  max_send_sge = 2;
  max_recv_sge = 1;
}

-- From the label `out` on.
unfoldable pub leave_with : ℤ → Qp ℤ
leave_with ret = do if is_minus_one ret then call destroy_qp else pure tt; pure ret

-- `if (priv->device == NULL) priv->device = device;`
unfoldable pub take_device : GfDevice → Qp (Unit {0})
take_device d = do
  p ← get_mem
  if is_null p.device then put_mem (record p { device = d.handle }) else pure tt

-- From rdma_create_qp on.
unfoldable pub create_on : QpEnv → GfDevice → Qp ℤ
create_on env d = do
  p ← get_mem
  failed ← call_for env.int_of (create_qp p.cm_id d.pd (init_attr d p))
  if is_set failed then leave_with minus_one else do
    qp ← observe (env.qp_of p.cm_id)
    put_mem (record p { qp = qp })
    if is_null qp then crash else do
      qp_num ← observe (env.qp_num_of qp)
      ret ← call_for env.int_of (register_peer d.handle qp_num)
      leave_with ret

abbrev pub with_device : QpEnv → Option GfDevice → Qp ℤ
with_device env none = leave_with minus_one
with_device env (some d) = take_device d >> create_on env d

-- gf_rdma_create_qp; `cm_id->verbs->device` through `NULL` is undefined behaviour.
unfoldable pub gf_create_qp : QpEnv → Qp ℤ
gf_create_qp env = do
  p ← get_mem
  if is_null p.cm_id then crash else do
    verbs ← observe (env.verbs_of p.cm_id)
    if is_null verbs then crash else do
      name ← call_for env.ptr_of (get_device_name verbs)
      if is_null name
          then leave_with minus_one
          else do device ← call_for env.device_of (get_device verbs name); with_device env device
