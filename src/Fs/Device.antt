-- ===== src/Fs/Device.antt =====
-- fs_rdma_find_dev of src/c/transport.c.
pub mod Finds
use Prim.Native.String.{String}
use text.Mathlib.Text.{◌==◌ as str_eq}
use rdma_cpp.Common.{Option, none, some, List, [], ◌∷◌, ◌||◌, if◌then◌else◌}
use rdma_cpp.Common.Cint.{Ptr, null, is_zero, is_neg}
use rdma_cpp.Common.Cmd.{pure, call_for, ◌>>=◌}
use rdma_cpp.Fs.Foreign.{Device, DeviceList, get_device_list}
use rdma_cpp.Fs.Context.{Env, Fs}

-- `dev_list[0]`: the terminating `NULL` if the array is empty
abbrev pub first_device : List Device → Ptr
first_device [] = null
first_device (d ∷ ds) = d.handle

-- `for (; (ib_dev = *dev_list); ++dev_list) if (!strcmp(name(ib_dev), ib_devname)) break;`
unfoldable pub scan_devices : String → List Device → Ptr
scan_devices ib_devname [] = null
scan_devices ib_devname (d ∷ ds) =
    if str_eq d.name ib_devname then d.handle else scan_devices ib_devname ds

abbrev pub pick_device : Option String → List Device → Ptr
pick_device none ds = first_device ds
pick_device (some ib_devname) ds = scan_devices ib_devname ds

-- The choice among what ibv_get_device_list returned.
unfoldable pub choose_device : Option String → DeviceList → Ptr
choose_device ib_devname l = elim l.devices [
  | none ↦ null
  | some ds ↦
      if is_neg l.num_of_device || is_zero l.num_of_device then null else pick_device ib_devname ds
]

-- `ib_devname` is `none` for `NULL`.
unfoldable pub find_dev : Env → Option String → Fs Ptr
unfolding ◌>>=◌ choose_device
find_dev env ib_devname = do
  l ← call_for env.devices_of get_device_list
  pure (choose_device ib_devname l)
