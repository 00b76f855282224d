-- ===== src/Fs/Context.antt =====
-- `struct rdma_context` of src/c/transport.h, the global `rdma_ctx`, and what is outside the
-- program.
use rdma_cpp.Common.{
  ℕ, Bool, Option, none, some, List, [], ltb, length, set, replicate, if◌then◌else◌,
}
use rdma_cpp.Common.Cint.{ℤ, Ptr, null, is_null}
use rdma_cpp.Common.Cmd.{World, Cmd, pure, crash, leave, call_for, get_mem, put_mem, ◌>>=◌}
use rdma_cpp.Fs.Foreign.{DeviceList, Event, Call, malloc_array}

-- A pointer to an array, with the entries it points at. `NULL` has none.
pub record Array : Type 0 where
  pub base : Ptr
  pub slots : List Ptr

abbrev pub null_array : Array
null_array = record { base = null; slots = [] }

-- The fields of the struct in its order, but for `port_attr`, which ibv_query_port fills and no
-- function reads. The cleanup code also names `cq` and `content`, which the struct does not declare:
-- they are fields of their own here, and nothing but the cleanup writes them.
pub record Ctx : Type 0 where
  pub cm_event_channel : Ptr
  pub cm_id : Ptr
  pub context : Ptr
  pub channel : Ptr
  pub pd : Ptr
  pub mr : Array
  pub send_cq : Ptr
  pub recv_cq : Ptr
  pub buf : Array
  pub ah : Ptr
  pub qp : Array
  pub srq : Ptr
  pub sge_list : Ptr
  pub recv_sge_list : Ptr
  pub wr : Ptr
  pub rwr : Ptr
  pub connected : ℕ
  pub cq : Ptr
  pub content : Ptr

-- The foreign code. Each answer may depend on all the calls before.
pub record Env : Type 0 where
  pub int_of : List Call → Call → ℤ
  pub ptr_of : List Call → Call → Ptr
  pub event_of : List Call → Call → Event
  pub devices_of : List Call → Call → DeviceList
  -- `max_cqe` as ibv_query_device reports it
  pub max_cqe_of : List Call → Call → ℕ
  -- `id->qp`, which librdmacm maintains
  pub qp_of : Ptr → List Call → Ptr
  -- what `malloc` leaves in a fresh context, and in each entry of a fresh array
  pub fresh : Ctx
  pub stale : Ptr
  -- `ret` on entry to fs_rdma_cm_handle_connect_init, which declares no such variable
  pub stale_ret : ℤ
  pub htons : ℕ → ℕ
  pub page_size : ℕ
  -- whether `fprintf` returns when its format is `NULL`: C leaves that undefined, and glibc's
  -- `fprintf` returns an error
  pub null_format : Bool

abbrev pub FsWorld : Type 0
FsWorld = World Call (Option Ctx)

abbrev pub Fs : Type 0 → Type 0
Fs A = Cmd FsWorld A

abbrev deref : Option Ctx → Fs Ctx
deref none = crash
deref (some c) = pure c

-- `*rdma_ctx`; through `NULL` that is undefined behaviour
unfoldable pub load_ctx : Fs Ctx
unfolding ◌>>=◌
load_ctx = do m ← get_mem; deref m

-- An assignment to fields of `*rdma_ctx`.
unfoldable pub update_ctx : (Ctx → Ctx) → Fs (Unit {0})
unfolding load_ctx
update_ctx f = do c ← load_ctx; put_mem (some (f c))

-- `a[i] = p`; through `NULL` or out of bounds that is undefined behaviour
unfoldable pub store_slot : Array → ℕ → Ptr → Fs Array
unfolding ◌>>=◌
store_slot a i p =
    if is_null a.base
    then crash
    else if ltb i (length a.slots)
    then pure (record a { slots = set a.slots i p })
    else crash

-- The macro ALLOCATE for `entries` pointers: the process exits if memory is exhausted.
unfoldable pub allocate : Env → ℕ → Fs Array
unfolding ◌>>=◌
allocate env entries = do
  p ← call_for env.ptr_of (malloc_array entries)
  if is_null p then leave else pure (record { base = p; slots = replicate entries env.stale })
