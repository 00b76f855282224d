-- ===== src/Fs/Frame/Release.antt =====
-- The release of resources leaves alone every invariant of a frame.
use rdma_cpp.Common.{ℕ, zero, suc}
use rdma_cpp.Common.Cmd.Keeps.{Keeps, Keeps-bind}
use rdma_cpp.Fs.Frame.{Frame, release_cm_id-Keeps, frame_rules}
use rdma_cpp.Fs.Context.{FsWorld}
use rdma_cpp.Fs.Config.{Config}
use rdma_cpp.Fs.Teardown.{
  release_qp, release_mr, release_buf, release_rounds, release_cq, release_pd, teardown,
  handle_disconnect,
}
use rdma_cpp.Fs.Resources.{release_content, release_all}

module _ {I : FsWorld → Type 0} ⦃f : Frame I⦄ where
  pub release_qp-Keeps : Keeps I release_qp
  unfolding release_qp
  release_qp-Keeps = search frame_rules

  pub release_mr-Keeps : Keeps I release_mr
  unfolding release_mr
  release_mr-Keeps = search frame_rules

  pub release_buf-Keeps : Keeps I release_buf
  unfolding release_buf
  release_buf-Keeps = search frame_rules

  pub release_rounds-Keeps : (n : ℕ) → Keeps I (release_rounds n)
  unfolding release_rounds
  release_rounds-Keeps zero = search frame_rules
  release_rounds-Keeps (suc n) = Keeps-bind _ _ release_qp-Keeps λ _.
      Keeps-bind _ _ release_mr-Keeps
        λ _. Keeps-bind _ _ release_buf-Keeps λ _. release_rounds-Keeps n

  pub release_cq-Keeps : Keeps I release_cq
  unfolding release_cq
  release_cq-Keeps = search frame_rules

  pub release_pd-Keeps : Keeps I release_pd
  unfolding release_pd
  release_pd-Keeps = search frame_rules

  pub release_content-Keeps : Keeps I release_content
  unfolding release_content
  release_content-Keeps = search frame_rules

  pub ruleset release_rules = (
    frame_rules, release_rounds-Keeps, release_cq-Keeps, release_pd-Keeps, release_cm_id-Keeps,
    release_content-Keeps,
  )

  pub teardown-Keeps : (config : Config) → Keeps I (teardown config)
  unfolding teardown
  teardown-Keeps config = search release_rules depth 9

  pub handle_disconnect-Keeps : (config : Config) → Keeps I (handle_disconnect config)
  unfolding handle_disconnect
  handle_disconnect-Keeps config = search (frame_rules, teardown-Keeps)

  pub release_all-Keeps : (config : Config) → Keeps I (release_all config)
  unfolding release_all
  release_all-Keeps config = search release_rules depth 9
