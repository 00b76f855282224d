-- ===== src/Fs/Loop/Session.antt =====
-- Three rounds of fs_rdma_cm_event_handler of src/c/transport.c, with the events of a client.
use rdma_cpp.Common.{ℕ, ◌≡◌, Bool, true, false, List, count}
use rdma_cpp.Common.Cint.{Ptr}
use rdma_cpp.Fs.Config.{Config}
use rdma_cpp.Fs.Foreign.{Call, EventKind, get_cm_event}
use rdma_cpp.Fs.Context.{Env}
use rdma_cpp.Fs.Frame.{Frame}

abbrev is_fetch : Call → Bool
is_fetch (get_cm_event _) = true
is_fetch _ = false

-- How often rdma_get_cm_event was called.
abbrev pub fetches : List Call → ℕ
fetches t = count is_fetch t

abbrev Fetched : ℕ → List Call → Type 0
Fetched n t = fetches t ≡ n

abbrev Any : ℕ → Type 0
Any _ = Unit {0}

-- After `n` calls of rdma_get_cm_event the next one brings an event of this kind.
abbrev pub Delivers : Env → (ch : Ptr) → (n : ℕ) → EventKind → Type 0
Delivers env ch n kind =
    (t : List Call) → fetches t ≡ n → (env.event_of t (get_cm_event ch)).kind ≡ kind
