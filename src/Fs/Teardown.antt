-- ===== src/Fs/Teardown.antt =====
-- fs_rdma_teardown and fs_rdma_cm_handle_disconnect of src/c/transport.c, and the loop over the
-- connections that the `out:` part of fs_rdma_create_resources has too.
pub mod Effect
use rdma_cpp.Common.{ℕ, zero, suc, if◌then◌else◌}
use rdma_cpp.Common.Cint.{ℤ, pos, null, is_null}
use rdma_cpp.Common.Cmd.{pure, call, ◌>>=◌, ◌>>◌}
use rdma_cpp.Fs.Config.{Config}
use rdma_cpp.Fs.Foreign.{destroy_qp, dereg_mr, free, destroy_cq, dealloc_pd, destroy_id}
use rdma_cpp.Fs.Context.{null_array, Fs, load_ctx, update_ctx}

unfoldable pub release_qp : Fs (Unit {0})
unfolding load_ctx update_ctx
release_qp = do
  c ← load_ctx
  if is_null c.qp.base
      then pure tt
      else do call (destroy_qp c.cm_id); update_ctx (λ c. record c { qp = null_array })

unfoldable pub release_mr : Fs (Unit {0})
unfolding load_ctx update_ctx
release_mr = do
  c ← load_ctx
  if is_null c.mr.base
      then pure tt
      else do call (dereg_mr c.mr.base); update_ctx (λ c. record c { mr = null_array })

unfoldable pub release_buf : Fs (Unit {0})
unfolding load_ctx update_ctx
release_buf = do
  c ← load_ctx
  if is_null c.buf.base
      then pure tt
      else do call (free c.buf.base); update_ctx (λ c. record c { buf = null_array })

-- `for (i = 0; i < config->qp_count; i++)`, with the rounds left
unfoldable pub release_rounds : ℕ → Fs (Unit {0})
unfolding release_qp release_mr release_buf ◌>>=◌
release_rounds zero = pure tt
release_rounds (suc n) = do release_qp; release_mr; release_buf; release_rounds n

unfoldable pub release_cq : Fs (Unit {0})
unfolding load_ctx update_ctx
release_cq = do
  c ← load_ctx
  if is_null c.cq
      then pure tt
      else do call (destroy_cq c.cq); update_ctx (λ c. record c { cq = null })

unfoldable pub release_pd : Fs (Unit {0})
unfolding load_ctx update_ctx
release_pd = do
  c ← load_ctx
  if is_null c.pd
      then pure tt
      else do call (dealloc_pd c.pd); update_ctx (λ c. record c { pd = null })

unfoldable pub release_cm_id : Fs (Unit {0})
unfolding load_ctx update_ctx
release_cm_id = do
  c ← load_ctx
  if is_null c.cm_id
      then pure tt
      else do call (destroy_id c.cm_id); update_ctx (λ c. record c { cm_id = null })

-- fs_rdma_teardown
unfoldable pub teardown : Config → Fs ℤ
unfolding release_rounds release_cq release_pd release_cm_id
teardown config = do
  release_rounds config.qp_count
  release_cq
  release_pd
  release_cm_id
  pure (pos 0)

-- fs_rdma_cm_handle_disconnect
unfoldable pub handle_disconnect : Config → Fs (Unit {0})
unfolding teardown
handle_disconnect config = do teardown config; pure tt
