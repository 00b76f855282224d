-- ===== src/Gf/Qp/Ends.antt =====
-- What gf_rdma_create_qp of src/Qp.cc returns and leaves.
use rdma_cpp.Common.{ℕ, ◌+◌, ◌≡◌, Bool, true, false, List, count, if◌then◌else◌}
use rdma_cpp.Common.Cint.{ℤ, Ptr, is_null, is_minus_one}
use rdma_cpp.Gf.Foreign.{Call, create_qp, destroy_qp}
use rdma_cpp.Gf.Qp.{QpEnv, QpWorld}

abbrev pub is_destroy : Call → Bool
is_destroy destroy_qp = true
is_destroy _ = false

abbrev is_create : Call → Bool
is_create (create_qp _ _ _) = true
is_create _ = false

-- The pointers that the code follows are set.
pub record IsLinked (env : QpEnv) (id : Ptr) : Type 0 where
  pub id_set : is_null id ≡ false
  pub verbs_set : (t : List Call) → is_null (env.verbs_of id t) ≡ false
  pub qp_set : (t : List Call) → is_null (env.qp_of id t) ≡ false

-- Along the code: the peer has its identifier, a device that was set is kept, and there were
-- `destroys` calls of __gf_rdma_destroy_qp.
record At (id device : Ptr) (destroys : ℕ) (w : QpWorld) : Type 0 where
  same_id : w.mem.cm_id ≡ id
  kept : is_null device ≡ false → w.mem.device ≡ device
  destroyed : count is_destroy w.trace ≡ destroys

-- At the end: -1 comes with one call of __gf_rdma_destroy_qp, and no other result with any.
abbrev pub QpEnds : (id device : Ptr) (destroys : ℕ) → ℤ → QpWorld → Type 0
QpEnds id device destroys ret w =
    (w.mem.cm_id ≡ id)
    × (is_null device ≡ false → w.mem.device ≡ device)
    × (count is_destroy w.trace ≡ (if is_minus_one ret then 1 else 0) + destroys)
