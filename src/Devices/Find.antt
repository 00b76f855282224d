-- ===== src/Devices/Find.antt =====
-- Find of src/Device.h, next to fs_rdma_find_dev of src/c/transport.c.
use Prim.Native.String.{String}
use rdma_cpp.Common.{
  ◌≡◌, refl, Option, none, some, List, Bool, true, false, ◌||◌, Bool-cases, Option-cases, inl, inr,
  if◌then◌else◌,
}
use rdma_cpp.Common.Cint.{Ptr, null, is_null, is_zero, is_neg}
use rdma_cpp.Common.Cmd.{pure, crash, leave, call_for, ◌>>=◌}
use rdma_cpp.Fs.Foreign.{Device, DeviceList, Call, get_device_list}
use rdma_cpp.Fs.Context.{Env, Fs, FsWorld}
use rdma_cpp.Fs.Device.{first_device, scan_devices, pick_device, choose_device, find_dev}

-- `num_of_device_ <= 0`
abbrev no_devices : DeviceList → Bool
no_devices l = is_neg l.num_of_device || is_zero l.num_of_device

-- The choice from the array: the process exits where the first entry is `NULL`.
unfoldable pub choose_or_exit : Option String → List Device → Fs Ptr
choose_or_exit none ds = if is_null (first_device ds) then leave else pure (first_device ds)
choose_or_exit (some ib_dev_name) ds = pure (scan_devices ib_dev_name ds)

-- Find. `dev_list` and `ib_dev` are read as the members `dev_list_` and `ib_dev_`; an array that is
-- `NULL` is not tested for.
unfoldable pub find : Env → Option String → Fs Ptr
find env ib_dev_name = do
  l ← call_for env.devices_of get_device_list
  if no_devices l
      then pure null
      else elim l.devices [ none ↦ crash | some ds ↦ choose_or_exit ib_dev_name ds ]

-- ibv_get_device_list counts what is in its array: with a positive count there is an array, and its
-- first entry is set.
abbrev pub CountsDevices : Env → Type 0
CountsDevices env =
    (t : List Call) (k : Call)
    → no_devices (env.devices_of t k) ≡ false
    → (ds : List Device) × ((env.devices_of t k).devices ≡ some ds)
      × (is_null (first_device ds) ≡ false)

choose_same :
    (ib_dev_name : Option String) (ds : List Device) (w : FsWorld)
    → is_null (first_device ds) ≡ false
    → choose_or_exit ib_dev_name ds w ≡ pure (pick_device ib_dev_name ds) w
unfolding choose_or_exit
choose_same none ds w h = rw h
choose_same (some ib_dev_name) ds w h = refl

choose_none :
    (ib_dev_name : Option String) (l : DeviceList)
    → no_devices l ≡ true
    → choose_device ib_dev_name l ≡ null
unfolding choose_device
choose_none ib_dev_name l h = elim (Option-cases l.devices) [
  | inl e ↦ rw e
  | inr (ds, e) ↦ rw (e, h)
]

choose_some :
    (ib_dev_name : Option String) (l : DeviceList) (ds : List Device)
    → no_devices l ≡ false
    → l.devices ≡ some ds
    → choose_device ib_dev_name l ≡ pick_device ib_dev_name ds
unfolding choose_device
choose_some ib_dev_name l ds h e = rw (e, h)

-- Where ibv_get_device_list counts what is in its array, Find of src/Device.h and fs_rdma_find_dev of
-- src/c/transport.c are the same: with any name or none they make the same call and return the same
-- device, and neither faults nor exits.
pub find-eq-find_dev :
    (env : Env) (ib_dev_name : Option String) (w : FsWorld)
    → CountsDevices env
    → find env ib_dev_name w ≡ find_dev env ib_dev_name w
unfolding find find_dev call_for ◌>>=◌
find-eq-find_dev env ib_dev_name w counts =
    let l = env.devices_of w.trace get_device_list in
    elim (Bool-cases (no_devices l)) [
      | inl z ↦ rw (z, choose_none ib_dev_name l z)
      | inr z ↦
          let (ds, e, first) = counts w.trace get_device_list z in
          rw (z, choose_some ib_dev_name l ds z e, e, choose_same ib_dev_name ds _ first)
    ]
