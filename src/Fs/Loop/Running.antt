-- ===== src/Fs/Loop/Running.antt =====
-- How long fs_rdma_cm_event_handler of src/c/transport.c runs, and the one way in which it stops.
use rdma_cpp.Common.{ℕ, ◌≤◌, ◌≡◌, true, List, ◌∷◌}
use rdma_cpp.Common.Cint.{is_set, Ptr}
use rdma_cpp.Common.Cmd.{Run, Cmd, ok, fault, exited, out_of_fuel}
use rdma_cpp.Fs.Config.{Config}
use rdma_cpp.Fs.Foreign.{Call, get_cm_event}
use rdma_cpp.Fs.Context.{Env, FsWorld}
use rdma_cpp.Fs.Holds.{Held}
use rdma_cpp.Fs.Loop.Phases.{closes}
use rdma_cpp.Fs.Loop.Ends.{makes_resources}

-- The newest call is an rdma_get_cm_event that failed.
abbrev pub FailedGet : Env → Ptr → FsWorld → Type 0
FailedGet env channel w =
    (t : List Call) × (w.trace ≡ get_cm_event channel ∷ t)
    × (is_set (env.int_of t (get_cm_event channel)) ≡ true)

-- The ways in which the loop may end: with an rdma_get_cm_event that failed, or not yet. There is
-- a context still.
abbrev pub LoopEnds : Env → Ptr → Run FsWorld (Unit {0}) → Type 0
LoopEnds env channel (ok u w) = ⊥
LoopEnds env channel (fault w) = FailedGet env channel w × Held w
LoopEnds env channel (exited w) = ⊥
LoopEnds env channel (out_of_fuel w) = Held w

-- The connection manager makes an event of a resolved route or of a connection request only while
-- no more than `n` identifiers were destroyed.
abbrev pub IsOrderly : Env → Ptr → ℕ → Type 0
IsOrderly env channel n =
    (t : List Call)
    → makes_resources (env.event_of t (get_cm_event channel)).kind ≡ true
    → closes t ≤ n

-- The state after the call that gets an event.
abbrev got_event : Ptr → FsWorld → FsWorld
got_event channel w = record w { trace = get_cm_event channel ∷ w.trace }
