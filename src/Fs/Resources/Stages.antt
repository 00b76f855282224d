-- ===== src/Fs/Resources/Stages.antt =====
-- fs_rdma_create_resources of src/c/transport.c up to the label `out`.
use rdma_cpp.Common.{ℕ, zero, suc, ◌+◌, ◌*◌, ◌%◌, ◌^◌, ◌≡◌, ap, none, ltb, leb, ◌==◌, if◌then◌else◌}
use rdma_cpp.Common.Cint.{is_null, is_set}
use rdma_cpp.Common.Cmd.{ok, and_then, pure, crash, call_for, observe, ◌>>=◌, ◌>>◌}
use rdma_cpp.Fs.Config.{
  Config, ConnectionType, rc, ud, uc, other, default_buf_depth, max_send_sge, max_recv_sge,
  buf_size,
}
use rdma_cpp.Fs.Foreign.{
  QpType, qpt_rc, qpt_uc, qpt_ud, QpInitAttr, memalign, open_device, query_port, query_device,
  alloc_pd, create_comp_channel, create_cq, create_srq, create_qp, reg_mr,
}
use rdma_cpp.Fs.Context.{Ctx, Env, Fs, FsWorld, load_ctx, update_ctx, store_slot}
use rdma_cpp.Fs.Device.{find_dev}

-- How a stage ends: the next one follows, `ret = -1; goto out`, or `return NULL`, which is 0.
pub data Flow : Type 0 where
  go_on goto_out return_null : Flow

unfoldable pub proceed : Flow → Fs Flow → Fs Flow
unfolding ◌>>=◌
proceed go_on rest = rest
proceed goto_out rest = pure goto_out
proceed return_null rest = pure return_null

infixr 6 ◌&then◌
abbrev pub ◌&then◌ : Fs Flow → Fs Flow → Fs Flow
stage &then rest = stage >>= λ f. proceed f rest

-- `device_name` is `NULL`.
unfoldable pub open_stage : Env → Fs Flow
unfolding find_dev update_ctx
open_stage env = do
  ib_dev ← find_dev env none
  context ← call_for env.ptr_of (open_device ib_dev)
  update_ctx (λ c. record c { context = context })
  pure (if is_null context then goto_out else go_on)

unfoldable pub port_stage : Env → Config → Fs Flow
unfolding load_ctx
port_stage env config = do
  c ← load_ctx
  failed ← call_for env.int_of (query_port c.context (config.ib_port % 2 ^ 8))
  pure (if is_set failed then goto_out else go_on)

unfoldable pub pd_stage : Env → Fs Flow
unfolding load_ctx update_ctx
pd_stage env = do
  c ← load_ctx
  pd ← call_for env.ptr_of (alloc_pd c.context)
  update_ctx (λ c. record c { pd = pd })
  pure (if is_null pd then goto_out else go_on)

unfoldable pub channel_stage : Env → Config → Fs Flow
unfolding load_ctx update_ctx
channel_stage env config = if config.use_event == 0 then pure go_on else do
  c ← load_ctx
  channel ← call_for env.ptr_of (create_comp_channel c.context)
  update_ctx (λ c. record c { channel = channel })
  pure (if is_null channel then goto_out else go_on)

-- `(cqe_count > device_attr.max_cqe) ? device_attr.max_cqe : cqe_count`
unfoldable pub clamp_cqe : ℕ → ℕ → ℕ
clamp_cqe max_cqe cqe_count = if ltb max_cqe cqe_count then max_cqe else cqe_count

-- Both completion queues. The second test reads `send_cq` again.
unfoldable pub create_cqs : Env → ℕ → Fs Flow
unfolding load_ctx update_ctx
create_cqs env cqe_count = do
  c ← load_ctx
  send_cq ← call_for env.ptr_of (create_cq c.context cqe_count c.channel)
  update_ctx (λ c. record c { send_cq = send_cq })
  if is_null send_cq then pure goto_out else do
    recv_cq ← call_for env.ptr_of (create_cq c.context cqe_count c.channel)
    update_ctx (λ c. record c { recv_cq = recv_cq })
    pure (if is_null send_cq then goto_out else go_on)

-- The product is an `int`: past 2^31 - 1 it is undefined behaviour.
unfoldable pub cq_stage : Env → Config → Fs Flow
unfolding create_cqs clamp_cqe
cq_stage env config = do
  (failed, max_cqe) ← call_for (λ t k. (env.int_of t k, env.max_cqe_of t k)) query_device
  if is_set failed
      then pure goto_out
      else if leb (2 ^ 31) (default_buf_depth * config.qp_count)
      then crash
      else create_cqs env (clamp_cqe max_cqe (default_buf_depth * config.qp_count))

unfoldable pub srq_stage : Env → Config → Fs Flow
unfolding load_ctx update_ctx
srq_stage env config = if config.use_srq == 0 then pure go_on else do
  c ← load_ctx
  srq ←
      call_for env.ptr_of
        (create_srq c.pd (record { max_wr = default_buf_depth; max_sge = 1; srq_limit = 10 }))
  update_ctx (λ c. record c { srq = srq })
  pure (if is_null srq then goto_out else go_on)

abbrev pub qp_attr : Ctx → QpType → QpInitAttr
qp_attr c t = record {
  send_cq = c.send_cq;
  recv_cq = c.recv_cq;
  srq = c.srq;
  max_send_wr = default_buf_depth;
  max_recv_wr = default_buf_depth;
  max_send_sge = max_send_sge;
  max_recv_sge = max_recv_sge;
  qp_type = t;
}

-- One round of the loop over the queue pairs, from rdma_create_qp on.
unfoldable pub create_one_qp : Env → ℕ → QpType → Fs Flow
unfolding load_ctx update_ctx store_slot
create_one_qp env i t = do
  c ← load_ctx
  failed ← call_for env.int_of (create_qp c.cm_id c.pd (qp_attr c t))
  if is_set failed then pure goto_out else if is_null c.cm_id then crash else do
    made ← observe (env.qp_of c.cm_id)
    qp ← store_slot c.qp i made
    update_ctx (λ c. record c { qp = qp })
    pure go_on

-- The switch on the connection type. It assigns `attr.qp_type`, read as `init_attr.qp_type`.
unfoldable pub qp_round : Env → ConnectionType → ℕ → Fs Flow
unfolding create_one_qp
qp_round env rc i = create_one_qp env i qpt_rc
qp_round env uc i = create_one_qp env i qpt_uc
qp_round env ud i = create_one_qp env i qpt_ud
qp_round env (other _) i = pure return_null

-- The loop over the queue pairs: the rounds left, and `i`.
unfoldable pub qp_rounds : Env → Config → ℕ → ℕ → Fs Flow
unfolding qp_round proceed
qp_rounds env config zero i = pure go_on
qp_rounds env config (suc n) i =
    qp_round env config.connection_type i &then qp_rounds env config n (i + 1)

-- One round of the loop over the memory regions. A failed memalign sets `ret` and goes on to
-- memset, which writes through `NULL`.
unfoldable pub mr_round : Env → ℕ → Fs Flow
unfolding load_ctx update_ctx store_slot
mr_round env i = do
  c ← load_ctx
  p ← call_for env.ptr_of (memalign env.page_size buf_size)
  buf ← store_slot c.buf i p
  update_ctx (λ c. record c { buf = buf })
  if is_null p then crash else do
    mr ← call_for env.ptr_of (reg_mr c.pd p buf_size)
    mrs ← store_slot c.mr i mr
    update_ctx (λ c. record c { mr = mrs })
    pure (if is_null mr then goto_out else go_on)

unfoldable pub mr_rounds : Env → ℕ → ℕ → Fs Flow
unfolding mr_round proceed
mr_rounds env zero i = pure go_on
mr_rounds env (suc n) i = mr_round env i &then mr_rounds env n (i + 1)

-- A stage that goes on hands over to the rest.
pub then-go_on :
    (m rest : Fs Flow) (w : FsWorld) {w' : FsWorld} → m w ≡ ok go_on w' → (m &then rest) w ≡ rest w'
unfolding proceed
then-go_on m rest w e = ap (λ r. and_then r (λ f. proceed f rest)) e

unfoldable pub acquire : Env → Config → Fs Flow
acquire env config =
    open_stage env
    &then port_stage env config
    &then pd_stage env
    &then channel_stage env config
    &then cq_stage env config
    &then srq_stage env config
    &then qp_rounds env config config.qp_count 0
    &then mr_rounds env config.qp_count 0
