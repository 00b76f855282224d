-- ===== src/Devices/Tests.antt =====
-- Concrete runs of src/Device.h and src/c/device.c.
use rdma_cpp.Common.{◌+◌, ◌≡◌, refl, some, [], ◌∷◌, length}
use rdma_cpp.Common.Cint.{pos}
use rdma_cpp.Fs.Context.{Env}
use rdma_cpp.Fs.Device.{find_dev}
use rdma_cpp.Fs.Inputs.{prepared, obliging}
use rdma_cpp.Fs.Teardown.Effect.{world}
use rdma_cpp.Devices.Find.{find, CountsDevices, find-eq-find_dev}
use rdma_cpp.Devices.Info.{InfoEnv, hrd_ibv_devinfo}
use rdma_cpp.Devices.Visits.{InfoEnds, hrd_ibv_devinfo-InfoEnds}

-- Libraries that know two devices.
abbrev two_devices : Env
two_devices = record obliging {
  devices_of = λ t k. record {
    devices =
        some (record { handle = 3; name = "mlx4_0" } ∷ record { handle = 4; name = "mlx5_0" } ∷ []);
    num_of_device = pos 2;
  };
}

two_devices-CountsDevices : CountsDevices two_devices
two_devices-CountsDevices t k h = (
  record { handle = 3; name = "mlx4_0" } ∷ record { handle = 4; name = "mlx5_0" } ∷ [],
  refl,
  refl,
)

find-eq-find_dev_example :
    find two_devices (some "mlx5_0") (world [] prepared)
    ≡ find_dev two_devices (some "mlx5_0") (world [] prepared)
find-eq-find_dev_example =
    find-eq-find_dev two_devices (some "mlx5_0") (world [] prepared) two_devices-CountsDevices

abbrev two_contexts : InfoEnv
two_contexts = record {
  int_of = λ t k. pos 0;
  ptr_of = λ t k. 10 + length t;
  listing_of = λ t k. record { devices = some (3 ∷ 4 ∷ []); num_devices = pos 2 };
}

hrd_ibv_devinfo-InfoEnds_example :
    InfoEnds two_contexts
      (3 ∷ 4 ∷ [])
      (hrd_ibv_devinfo two_contexts (record { trace = []; mem = tt }))
hrd_ibv_devinfo-InfoEnds_example = hrd_ibv_devinfo-InfoEnds two_contexts (3 ∷ 4 ∷ []) refl
