-- ===== src/Connection/Retry.antt =====
-- ctx_close_connection and retry_rdma_connect of src/Connection.cc.
mod Made
mod Rounds
mod Tests
use rdma_cpp.Common.{ℕ, zero, suc, Bool, false, not, ◌&&◌, ◌==◌, if◌then◌else◌}
use rdma_cpp.Common.Cint.{ℤ, pos, negsuc, minus_one, is_set}
use rdma_cpp.Common.Cmd.{pure, call, call_for, get_mem, put_mem, observe, ◌>>=◌, ◌>>◌}
use rdma_cpp.Connection.Foreign.{
  Env, hand_shake, write_done, close, create_rdma_resources, destroy_rdma_resources, usleep,
}
use rdma_cpp.Connection.{Params, Con, client_connect}

-- Equality of C integers.
abbrev pub int_eq : ℤ → ℤ → Bool
int_eq (pos m) (pos n) = m == n
int_eq (negsuc m) (negsuc n) = m == n
int_eq _ _ = false

-- ctx_close_connection; `sizeof "done"` is 5.
unfoldable pub ctx_close_connection : Env → Params → Con ℤ
ctx_close_connection env param = do
  failed ← call_for env.int_of hand_shake
  if is_set failed then pure (pos 1) else do
    c ← get_mem
    if (param.use_rdma_cm == 0) && (c.work_rdma_cm == 0)
        then (do
          written ← call_for env.int_of (write_done param.sockfd)
          if not (int_eq written (pos 5))
              then pure minus_one
              else call (close param.sockfd) >> pure (pos 0))
        else pure (pos 0)

-- create_rdma_resources, which makes the event channel and the identifier.
unfoldable recreate : Env → Con ℤ
recreate env = do
  failed ← call_for env.int_of create_rdma_resources
  channel ← observe env.channel_of
  id ← observe env.id_of
  c ← get_mem
  put_mem (record c { cm_channel = channel; cm_id = id })
  pure failed

-- The rounds of retry_rdma_connect, with the rounds left.
unfoldable retry_rounds : Env → Params → ℕ → Con ℤ
retry_rounds env param zero = pure env.failure
retry_rounds env param (suc n) = do
  failed ← recreate env
  if is_set failed then pure env.failure else do
    ret ← client_connect env param
    if int_eq ret env.success then pure env.success else do
      failed ← call_for env.int_of destroy_rdma_resources
      if is_set failed then pure env.failure else do call (usleep 100000); retry_rounds env param n

-- retry_rdma_connect
unfoldable retry_rdma_connect : Env → Params → Con ℤ
retry_rdma_connect env param = retry_rounds env param 10
