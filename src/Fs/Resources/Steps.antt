-- ===== src/Fs/Resources/Steps.antt =====
-- The stages of fs_rdma_create_resources of src/c/transport.c, each run to its end.
use rdma_cpp.Common.{ℕ, ◌*◌, ◌%◌, ◌^◌, ◌<◌, ◌==◌, leb, none, arith, if◌then◌else◌}
use rdma_cpp.Common.Cint.{is_null, is_set}
use rdma_cpp.Common.Cmd.{crash}
use rdma_cpp.Common.Cmd.Returns.{Triple, Triple-pure, Triple-if, Triple-bind, Triple-fact}
use rdma_cpp.Fs.Config.{Config, ConnectionType, rc, ud, uc, other, default_buf_depth}
use rdma_cpp.Fs.Foreign.{
  QpType, qpt_rc, qpt_uc, qpt_ud, open_device, query_port, alloc_pd, create_comp_channel, create_cq,
  create_srq, create_qp, query_device,
}
use rdma_cpp.Fs.Context.{Env, FsWorld}
use rdma_cpp.Fs.Resources.Success.{IsFresh}
use rdma_cpp.Fs.Resources.Stages.{
  clamp_cqe, qp_attr, go_on, goto_out, return_null, open_stage, port_stage, pd_stage, channel_stage,
  create_cqs, cq_stage, srq_stage, create_one_qp, qp_round,
}
use rdma_cpp.Fs.Holds.{Holds, ask, watch, find_lem, look, change, store_lem}

-- What the arrays and the identifier of a fresh context keep up.
abbrev pub Sized : Config → FsWorld → Type 0
Sized config = Holds (IsFresh config)

module _ {config : Config} where
  pub open_stage_lem : (env : Env) → Triple (Sized config) (open_stage env) (λ _. Sized config)
  unfolding open_stage
  open_stage_lem env = Triple-bind (find_lem env none) (λ d.
      Triple-bind (ask env.ptr_of (open_device d)) (λ context.
        Triple-bind
          (change (λ c. record c { context = context })
            (λ c h. record { id = h.id; qp = h.qp; mr = h.mr; buf = h.buf }))
          (λ _. Triple-pure (if is_null context then goto_out else go_on) (λ w h. h))))

  pub port_stage_lem :
      (env : Env) → Triple (Sized config) (port_stage env config) (λ _. Sized config)
  unfolding port_stage
  port_stage_lem env = Triple-bind look (λ c. Triple-fact (λ _.
      Triple-bind (ask env.int_of (query_port c.context (config.ib_port % 2 ^ 8)))
        (λ failed. Triple-pure (if is_set failed then goto_out else go_on) (λ w h. h))))

  pub pd_stage_lem : (env : Env) → Triple (Sized config) (pd_stage env) (λ _. Sized config)
  unfolding pd_stage
  pd_stage_lem env = Triple-bind look (λ c. Triple-fact (λ _.
      Triple-bind (ask env.ptr_of (alloc_pd c.context)) (λ pd.
        Triple-bind
          (change (λ c. record c { pd = pd })
            (λ c h. record { id = h.id; qp = h.qp; mr = h.mr; buf = h.buf }))
          (λ _. Triple-pure (if is_null pd then goto_out else go_on) (λ w h. h)))))

  pub channel_stage_lem :
      (env : Env) → Triple (Sized config) (channel_stage env config) (λ _. Sized config)
  unfolding channel_stage
  channel_stage_lem env =
      Triple-if (config.use_event == 0) _ _ (λ _. Triple-pure go_on (λ w h. h))
        (λ _. Triple-bind look (λ c. Triple-fact (λ _.
          Triple-bind (ask env.ptr_of (create_comp_channel c.context)) (λ channel.
            Triple-bind
              (change (λ c. record c { channel = channel })
                (λ c h. record { id = h.id; qp = h.qp; mr = h.mr; buf = h.buf }))
              (λ _. Triple-pure (if is_null channel then goto_out else go_on) (λ w h. h))))))

  pub create_cqs_lem :
      (env : Env) (n : ℕ) → Triple (Sized config) (create_cqs env n) (λ _. Sized config)
  unfolding create_cqs
  create_cqs_lem env n = Triple-bind look (λ c. Triple-fact (λ _.
      Triple-bind (ask env.ptr_of (create_cq c.context n c.channel)) (λ send_cq.
        Triple-bind
          (change (λ c. record c { send_cq = send_cq })
            (λ c h. record { id = h.id; qp = h.qp; mr = h.mr; buf = h.buf }))
          (λ _.
            Triple-if (is_null send_cq) _ _ (λ _. Triple-pure goto_out (λ w h. h))
              (λ _. Triple-bind (ask env.ptr_of (create_cq c.context n c.channel)) (λ recv_cq.
                Triple-bind
                  (change (λ c. record c { recv_cq = recv_cq })
                    (λ c h. record { id = h.id; qp = h.qp; mr = h.mr; buf = h.buf }))
                  (λ _. Triple-pure (if is_null send_cq then goto_out else go_on) (λ w h. h))))))))

  pub cq_stage_lem :
      (env : Env)
      → default_buf_depth * config.qp_count < 2 ^ 31
      → Triple (Sized config) (cq_stage env config) (λ _. Sized config)
  unfolding cq_stage
  cq_stage_lem env small =
      Triple-bind (ask (λ t k. (env.int_of t k, env.max_cqe_of t k)) query_device)
        (λ (failed, max_cqe).
          Triple-if (is_set failed) _ _ (λ _. Triple-pure goto_out (λ w h. h))
            (λ _.
              Triple-if (leb (2 ^ 31) (default_buf_depth * config.qp_count)) crash _
                (λ z. absurd (ground (arith, small, z)))
                (λ _.
                  create_cqs_lem env (clamp_cqe max_cqe (default_buf_depth * config.qp_count)))))

  pub srq_stage_lem : (env : Env) → Triple (Sized config) (srq_stage env config) (λ _. Sized config)
  unfolding srq_stage
  srq_stage_lem env =
      Triple-if (config.use_srq == 0) _ _ (λ _. Triple-pure go_on (λ w h. h))
        (λ _. Triple-bind look (λ c. Triple-fact (λ _.
          Triple-bind
            (ask env.ptr_of (
              create_srq c.pd (record { max_wr = default_buf_depth; max_sge = 1; srq_limit = 10 })))
            (λ srq.
              Triple-bind
                (change (λ c. record c { srq = srq })
                  (λ c h. record { id = h.id; qp = h.qp; mr = h.mr; buf = h.buf }))
                (λ _. Triple-pure (if is_null srq then goto_out else go_on) (λ w h. h))))))

  pub create_one_qp_lem :
      (env : Env) (i : ℕ) (t : QpType)
      → i < config.qp_count
      → Triple (Sized config) (create_one_qp env i t) (λ _. Sized config)
  unfolding create_one_qp
  create_one_qp_lem env i t lt = Triple-bind look (λ c. Triple-fact (λ h.
      Triple-bind (ask env.int_of (create_qp c.cm_id c.pd (qp_attr c t))) (λ failed.
        Triple-if (is_set failed) _ _ (λ _. Triple-pure goto_out (λ w k. k))
          (λ _.
            Triple-if (is_null c.cm_id) crash _ (λ z. cc (z, h.id))
              (λ _. Triple-bind (watch (env.qp_of c.cm_id)) (λ made.
                Triple-bind (store_lem i made h.qp lt) (λ qp. Triple-fact (λ sized.
                  Triple-bind
                    (change (λ c. record c { qp = qp })
                      (λ c k. record { id = k.id; qp = sized; mr = k.mr; buf = k.buf }))
                    (λ _. Triple-pure go_on (λ w k. k))))))))))

  pub qp_round_lem :
      (env : Env) (t : ConnectionType) (i : ℕ)
      → i < config.qp_count
      → Triple (Sized config) (qp_round env t i) (λ _. Sized config)
  unfolding qp_round
  qp_round_lem env rc i lt = create_one_qp_lem env i qpt_rc lt
  qp_round_lem env uc i lt = create_one_qp_lem env i qpt_uc lt
  qp_round_lem env ud i lt = create_one_qp_lem env i qpt_ud lt
  qp_round_lem env (other _) i lt = Triple-pure return_null (λ w h. h)
