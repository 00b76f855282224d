-- ===== src/Devices/Info.antt =====
-- hrd_ibv_devinfo of src/c/device.c.
use rdma_cpp.Common.{ℕ, zero, suc, ◌+◌, Option, none, some, List, get_elem?, if◌then◌else◌}
use rdma_cpp.Common.Cint.{ℤ, pos, negsuc, Ptr, is_null, is_set}
use rdma_cpp.Common.Cmd.{World, Cmd, pure, crash, leave, call, call_for, ◌>>=◌, ◌>>◌}

-- The calls of libibverbs.
pub data InfoCall : Type 0 where
  get_devices : InfoCall
  open_device : Ptr → InfoCall
  query_device : Ptr → InfoCall
  close_device : Ptr → InfoCall
  free_devices : InfoCall

-- What ibv_get_device_list returns, without the `NULL` at the end, and the count it stores.
pub record Listing : Type 0 where
  pub devices : Option (List Ptr)
  pub num_devices : ℤ

pub record InfoEnv : Type 0 where
  pub int_of : List InfoCall → InfoCall → ℤ
  pub ptr_of : List InfoCall → InfoCall → Ptr
  pub listing_of : List InfoCall → InfoCall → Listing

abbrev pub InfoWorld : Type 0
InfoWorld = World InfoCall (Unit {0})

abbrev pub Info : Type 0 → Type 0
Info A = Cmd InfoWorld A

-- The rounds of `dev_i < num_devices`.
abbrev pub rounds_of : ℤ → ℕ
rounds_of (pos n) = n
rounds_of (negsuc n) = 0

-- A round: a device that cannot be opened or queried ends the process.
unfoldable pub show_device : InfoEnv → Ptr → Info (Unit {0})
show_device env d = do
  ctx ← call_for env.ptr_of (open_device d)
  if is_null ctx then leave else do
    failed ← call_for env.int_of (query_device ctx)
    if is_set failed then leave else call (close_device ctx)

-- The macro-free part of a round for `dev_list[dev_i]`; at the end of the array that is `NULL`, which
-- ibv_open_device follows.
abbrev pub show_entry : InfoEnv → Option Ptr → Info (Unit {0})
show_entry env none = crash
show_entry env (some d) = show_device env d

-- The loop, with the rounds left.
unfoldable pub show_devices : InfoEnv → List Ptr → (dev_i left : ℕ) → Info (Unit {0})
show_devices env ds dev_i zero = pure tt
show_devices env ds dev_i (suc left) =
    show_entry env (get_elem? ds dev_i) >> show_devices env ds (dev_i + 1) left

abbrev pub show_listing : InfoEnv → Option (List Ptr) → ℤ → Info (Unit {0})
show_listing env none num_devices = leave
show_listing env (some ds) num_devices =
    show_devices env ds 0 (rounds_of num_devices) >> call free_devices

-- hrd_ibv_devinfo
unfoldable pub hrd_ibv_devinfo : InfoEnv → Info (Unit {0})
hrd_ibv_devinfo env = do
  l ← call_for env.listing_of get_devices
  show_listing env l.devices l.num_devices
