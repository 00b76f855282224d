-- ===== src/Fs/Config.antt =====
-- The constants, enumerations and parameters of src/c/transport.h.
use rdma_cpp.Common.{ℕ, ◌*◌}
use rdma_cpp.Common.Cint.{ℤ, minus_one, Ptr, null}

abbrev pub default_buf_depth : ℕ
default_buf_depth = 4096

abbrev pub max_send_sge : ℕ
max_send_sge = 1

abbrev pub max_recv_sge : ℕ
max_recv_sge = 1

abbrev pub buf_size : ℕ
buf_size = 4096 * 1024

abbrev pub timeout_in_ms : ℕ
timeout_in_ms = 2000

pub data MachineType : Type 0 where
  unchosen server client : MachineType

pub data VerbType : Type 0 where
  send write read atomic : VerbType

-- `other` is an `int` that is no enumerator, which a C enumeration may hold.
pub data ConnectionType : Type 0 where
  rc ud uc : ConnectionType
  other : ℕ → ConnectionType

-- `struct rdma_param`. Counts are never negative: nothing writes `param` after its initialiser.
pub record Config : Type 0 where
  pub qp_count : ℕ
  pub port : ℕ
  pub ib_devname : Ptr
  pub ip_addr : Ptr
  pub ib_port : ℕ
  pub mtu : ℕ
  pub gid_idx : ℤ
  pub retry_count : ℕ
  pub use_event : ℕ
  pub use_srq : ℕ
  pub machine : MachineType
  pub verb : VerbType
  pub connection_type : ConnectionType

-- The initialiser of `param`.
abbrev pub param : Config
param = record {
  qp_count = 1;
  port = 19875;
  ib_devname = null;
  ip_addr = null;
  ib_port = 1;
  mtu = 4096;
  gid_idx = minus_one;
  retry_count = 0;
  use_event = 0;
  use_srq = 0;
  machine = unchosen;
  verb = send;
  connection_type = rc;
}
