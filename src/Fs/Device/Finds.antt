-- ===== src/Fs/Device/Finds.antt =====
-- The device that fs_rdma_find_dev of src/c/transport.c chooses.
use Prim.Native.String.{String}
use text.Mathlib.Text.{◌==◌ as str_eq}
use text.Mathlib.TextEquality.{eq_iff}
use rdma_cpp.Common.{
  ◌≡◌, ◌≢◌, refl, ap, Bool-cases, inl, inr, false, ◌||◌, some, List, [], ◌∷◌, ◌++◌,
}
use rdma_cpp.Common.Cint.{Ptr, null, is_zero, is_neg}
use rdma_cpp.Common.Cmd.{ok, call_for, ◌>>=◌}
use rdma_cpp.Fs.Foreign.{Device, get_device_list}
use rdma_cpp.Fs.Context.{Env, FsWorld}
use rdma_cpp.Fs.Device.{scan_devices, choose_device, find_dev}

-- No device of the list has the name.
abbrev Unnamed : String → List Device → Type 0
Unnamed ib_devname [] = Unit {0}
Unnamed ib_devname (d ∷ ds) = (d.name ≢ ib_devname) × Unnamed ib_devname ds

-- The first device of the name, or `NULL` where there is none.
pub data Named (ib_devname : String) (ds : List Device) (p : Ptr) : Type 0 where
  first :
      (before : List Device) (d : Device) (after : List Device)
      → ds ≡ before ++ d ∷ after
      → Unnamed ib_devname before
      → d.name ≡ ib_devname
      → p ≡ d.handle
      → Named ib_devname ds p
  missing : Unnamed ib_devname ds → p ≡ null → Named ib_devname ds p

Named-cons :
    {ib_devname : String} {ds : List Device} {p : Ptr} (d : Device)
    → d.name ≢ ib_devname
    → Named ib_devname ds p
    → Named ib_devname (d ∷ ds) p
Named-cons d other (first before e after split none_before same at) =
    first (d ∷ before) e after (ap (λ x. d ∷ x) split) (other, none_before) same at
Named-cons d other (missing none_here nil) = missing (other, none_here) nil

scan_devices-Named :
    (ib_devname : String) (ds : List Device) → Named ib_devname ds (scan_devices ib_devname ds)
unfolding scan_devices
scan_devices-Named ib_devname [] = missing tt refl
scan_devices-Named ib_devname (d ∷ ds) = elim (Bool-cases (str_eq d.name ib_devname)) [
  | inl z ↦ first [] d ds refl tt ((eq_iff d.name ib_devname).0 z) (rw z refl)
  | inr z ↦ rw z (
      Named-cons d (λ same. let yes = (eq_iff d.name ib_devname).1 same in cc (yes, z))
        (scan_devices-Named ib_devname ds))
]

-- Where ibv_get_device_list returns an array and counts a device, fs_rdma_find_dev with a name
-- returns the first device of that name, or NULL where no device has it, after that one call.
pub find_dev-Named :
    (env : Env) (ib_devname : String) (ds : List Device) (w : FsWorld)
    → (env.devices_of w.trace get_device_list).devices ≡ some ds
    → (is_neg (env.devices_of w.trace get_device_list).num_of_device
        || is_zero (env.devices_of w.trace get_device_list).num_of_device)
      ≡ false
    → (p : Ptr) × (find_dev env (some ib_devname) w
        ≡ ok p (record w { trace = get_device_list ∷ w.trace }))
      × Named ib_devname ds p
unfolding find_dev call_for ◌>>=◌ choose_device
find_dev-Named env ib_devname ds w listed counted =
    (scan_devices ib_devname ds, rw (listed, counted) refl, scan_devices-Named ib_devname ds)
