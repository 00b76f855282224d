-- ===== src/Gf/Init.antt =====
-- init of src/Transport.cc, and Transport::Listen.
pub mod Attached
pub mod Registered
use rdma_cpp.Common.{
  ℕ, suc, ◌+◌, ◌^◌, Bool, true, false, Option, none, some, List, leb, ◌==◌, if◌then◌else◌,
}
use rdma_cpp.Common.Cint.{ℤ, pos, minus_one, Ptr, null, is_null, is_set}
use rdma_cpp.Common.Cmd.{
  World, Cmd, pure, crash, call, call_for, observe, get_mem, put_mem, ◌>>=◌, ◌>>◌,
}
use rdma_cpp.Gf.Foreign.{
  Call, calloc_private, free, rdma_init, mutex_lock, mutex_unlock, register_iobuf_pool, bind_addr,
  listen,
}

-- `gf_rdma_ctx_t` of src/Transport.h, with the fields that the code uses.
pub record GfCtx : Type 0 where
  pub device : Ptr
  pub dlcount : ℕ

-- `this->private`, `this->ctx->ib`, and whether the two registration functions of the pool of
-- buffers are set.
pub record InitMem : Type 0 where
  pub private : Ptr
  pub ib : Option GfCtx
  pub hooked : Bool

-- The answers of the foreign code; gf_rdma_init may make the context `ib`.
pub record InitEnv : Type 0 where
  pub int_of : List Call → Call → ℤ
  pub ptr_of : List Call → Call → Ptr
  pub ib_of : List Call → Option GfCtx → Option GfCtx

abbrev pub InitWorld : Type 0
InitWorld = World Call InitMem

abbrev pub Init : Type 0 → Type 0
Init A = Cmd InitWorld A

-- The first transport with a handle sets the functions and registers the pool. `dlcount` is an
-- `int32_t`: past 2^31 - 1 the increment is undefined behaviour.
unfoldable pub count_transport : GfCtx → Init (Unit {0})
count_transport c = if leb (2 ^ 31) (c.dlcount + 1) then crash else do
  m ← get_mem
  put_mem (record m { ib = some (record c { dlcount = c.dlcount + 1 }) })
  if c.dlcount + 1 == 1
      then (do
        m ← get_mem
        put_mem (record m { hooked = true })
        call (register_iobuf_pool c.device))
      else pure tt

-- From the lock on. The context is tested only after its lock was taken: through `NULL` that is
-- undefined behaviour.
unfoldable pub attach : (dl_handle : Bool) → Option GfCtx → Init ℤ
attach dl_handle none = crash
attach dl_handle (some c) = do
  call mutex_lock
  if dl_handle then count_transport c else pure tt
  call mutex_unlock
  pure (pos 0)

-- gf_rdma_init, with the context that it leaves.
unfoldable pub init_device : InitEnv → Init ℤ
init_device env = do
  failed ← call_for env.int_of rdma_init
  m ← get_mem
  ib ← observe (λ t. env.ib_of t m.ib)
  put_mem (record m { ib = ib })
  pure failed

-- init, of a transport whose `dl_handle` is set or not.
unfoldable pub gf_init : InitEnv → (dl_handle : Bool) → Init ℤ
gf_init env dl_handle = do
  priv ← call_for env.ptr_of calloc_private
  if is_null priv then pure minus_one else do
    m ← get_mem
    put_mem (record m { private = priv })
    failed ← init_device env
    m ← get_mem
    if is_set failed
        then (do put_mem (record m { private = null }); call (free priv); pure minus_one)
        else attach dl_handle m.ib

-- Transport::Listen, up to the label `err`, which the code does not have: whether it falls off its
-- end.
unfoldable pub gf_listen : InitEnv → (cm_id : Ptr) → (backlog : ℕ) → Init Bool
gf_listen env cm_id backlog = do
  failed ← call_for env.int_of (bind_addr cm_id)
  if is_set failed then pure false else do
    failed ← call_for env.int_of (listen cm_id backlog)
    pure (if is_set failed then false else true)
