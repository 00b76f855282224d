-- ===== src/Fs/Frame/Acquire.antt =====
-- fs_rdma_create_resources leaves alone every invariant of a frame.
use Prim.Native.String.{String}
use rdma_cpp.Common.{ℕ, zero, suc, ◌+◌, Option}
use rdma_cpp.Common.Cmd.Keeps.{Keeps, Keeps-bind}
use rdma_cpp.Fs.Frame.{Frame, frame_rules}
use rdma_cpp.Fs.Config.{Config, ConnectionType, rc, ud, uc, other}
use rdma_cpp.Fs.Foreign.{QpType, qpt_rc, qpt_uc, qpt_ud}
use rdma_cpp.Fs.Context.{FsWorld, Env, Fs}
use rdma_cpp.Fs.Device.{find_dev}
use rdma_cpp.Fs.Resources.Stages.{
  Flow, go_on, goto_out, return_null, proceed, open_stage, port_stage, pd_stage, channel_stage,
  create_cqs, cq_stage, srq_stage, create_one_qp, qp_round, qp_rounds, mr_round, mr_rounds, acquire,
}
use rdma_cpp.Fs.Resources.{settle, create_resources}
use rdma_cpp.Fs.Frame.Release.{release_all-Keeps}

module _ {I : FsWorld → Type 0} ⦃f : Frame I⦄ where
  pub find_dev-Keeps : (env : Env) (name : Option String) → Keeps I (find_dev env name)
  unfolding find_dev
  find_dev-Keeps env name = search frame_rules

  pub proceed-Keeps : (f : Flow) (rest : Fs Flow) → Keeps I rest → Keeps I (proceed f rest)
  unfolding proceed
  proceed-Keeps go_on rest k = k
  proceed-Keeps goto_out rest k = search frame_rules
  proceed-Keeps return_null rest k = search frame_rules

  pub open_stage-Keeps : (env : Env) → Keeps I (open_stage env)
  unfolding open_stage
  open_stage-Keeps env = search (frame_rules, find_dev-Keeps) depth 9

  pub port_stage-Keeps : (env : Env) (config : Config) → Keeps I (port_stage env config)
  unfolding port_stage
  port_stage-Keeps env config = search frame_rules

  pub pd_stage-Keeps : (env : Env) → Keeps I (pd_stage env)
  unfolding pd_stage
  pd_stage-Keeps env = search frame_rules depth 9

  pub channel_stage-Keeps : (env : Env) (config : Config) → Keeps I (channel_stage env config)
  unfolding channel_stage
  channel_stage-Keeps env config = search frame_rules depth 9

  pub create_cqs-Keeps : (env : Env) (n : ℕ) → Keeps I (create_cqs env n)
  unfolding create_cqs
  create_cqs-Keeps env n = search frame_rules depth 9

  pub cq_stage-Keeps : (env : Env) (config : Config) → Keeps I (cq_stage env config)
  unfolding cq_stage
  cq_stage-Keeps env config = search (frame_rules, create_cqs-Keeps) depth 9

  pub srq_stage-Keeps : (env : Env) (config : Config) → Keeps I (srq_stage env config)
  unfolding srq_stage
  srq_stage-Keeps env config = search frame_rules depth 9

  create_one_qp-Keeps : (env : Env) (i : ℕ) (t : QpType) → Keeps I (create_one_qp env i t)
  unfolding create_one_qp
  create_one_qp-Keeps env i t = search frame_rules depth 9

  pub qp_round-Keeps : (env : Env) (t : ConnectionType) (i : ℕ) → Keeps I (qp_round env t i)
  unfolding qp_round
  qp_round-Keeps env rc i = create_one_qp-Keeps env i qpt_rc
  qp_round-Keeps env uc i = create_one_qp-Keeps env i qpt_uc
  qp_round-Keeps env ud i = create_one_qp-Keeps env i qpt_ud
  qp_round-Keeps env (other _) i = search frame_rules

  pub qp_rounds-Keeps : (env : Env) (config : Config) (n i : ℕ) → Keeps I (qp_rounds env config n i)
  unfolding qp_rounds
  qp_rounds-Keeps env config zero i = search frame_rules
  qp_rounds-Keeps env config (suc n) i =
      Keeps-bind _ _ (qp_round-Keeps env config.connection_type i)
        λ f. proceed-Keeps f _ (qp_rounds-Keeps env config n (i + 1))

  pub mr_round-Keeps : (env : Env) (i : ℕ) → Keeps I (mr_round env i)
  unfolding mr_round
  mr_round-Keeps env i = search frame_rules depth 12

  pub mr_rounds-Keeps : (env : Env) (n i : ℕ) → Keeps I (mr_rounds env n i)
  unfolding mr_rounds
  mr_rounds-Keeps env zero i = search frame_rules
  mr_rounds-Keeps env (suc n) i =
      Keeps-bind _ _ (mr_round-Keeps env i) λ f. proceed-Keeps f _ (mr_rounds-Keeps env n (i + 1))

  pub ruleset stage_rules = (
    frame_rules, proceed-Keeps, open_stage-Keeps, port_stage-Keeps, pd_stage-Keeps,
    channel_stage-Keeps, cq_stage-Keeps, srq_stage-Keeps, qp_rounds-Keeps, mr_rounds-Keeps,
  )

  pub acquire-Keeps : (env : Env) (config : Config) → Keeps I (acquire env config)
  unfolding acquire
  acquire-Keeps env config = search stage_rules depth 20

  pub settle-Keeps : (config : Config) (f : Flow) → Keeps I (settle config f)
  unfolding settle
  settle-Keeps config go_on = search frame_rules
  settle-Keeps config goto_out = search (frame_rules, release_all-Keeps)
  settle-Keeps config return_null = search frame_rules

  pub create_resources-Keeps : (env : Env) (config : Config) → Keeps I (create_resources env config)
  unfolding create_resources
  create_resources-Keeps env config = search (frame_rules, acquire-Keeps, settle-Keeps)
