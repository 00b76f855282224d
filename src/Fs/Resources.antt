-- ===== src/Fs/Resources.antt =====
-- fs_rdma_create_resources of src/c/transport.c, a stage for each kind of resource.
pub mod Stages
pub mod Failure
pub mod Success
pub mod Loops
pub mod Steps
pub mod Returns
use rdma_cpp.Common.{if◌then◌else◌}
use rdma_cpp.Common.Cint.{ℤ, pos, minus_one, null, is_null}
use rdma_cpp.Common.Cmd.{pure, call, ◌>>=◌, ◌>>◌}
use rdma_cpp.Fs.Config.{Config}
use rdma_cpp.Fs.Foreign.{close_device}
use rdma_cpp.Fs.Context.{Ctx, Env, Fs, load_ctx, update_ctx}
use rdma_cpp.Fs.Teardown.{release_rounds, release_cq, release_pd}
use Stages.{Flow, go_on, goto_out, return_null, acquire}

unfoldable pub release_content : Fs (Unit {0})
unfolding load_ctx update_ctx
release_content = do
  c ← load_ctx
  if is_null c.content
      then pure tt
      else do call (close_device c.content); update_ctx (λ c. record c { content = null })

-- What follows `out:` where `ret` is -1.
unfoldable pub release_all : Config → Fs (Unit {0})
unfolding release_rounds release_cq release_pd release_content
release_all config = do release_rounds config.qp_count; release_cq; release_pd; release_content

unfoldable pub settle : Config → Flow → Fs ℤ
unfolding release_all
settle config go_on = pure (pos 0)
settle config goto_out = do release_all config; pure minus_one
settle config return_null = pure (pos 0)

-- fs_rdma_create_resources
unfoldable pub create_resources : Env → Config → Fs ℤ
unfolding ◌>>=◌
create_resources env config = do f ← acquire env config; settle config f
