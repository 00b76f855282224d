-- ===== src/Reads/Delivers.antt =====
-- What fs_rdma_do_reads of src/c/transport.c brings into its buffer where every call succeeds.
use rdma_cpp.Common.{ℕ, ◌≡◌, Option, none, some, List, [], ◌∷◌, length}
use rdma_cpp.Common.Cint.{pos, Ptr}
use rdma_cpp.Common.Cmd.{◌>>◌}
use rdma_cpp.Reads.Foreign.{ReadChunk, Sge, SendWr, PostEnv, PostCall, post_send}
use rdma_cpp.Reads.{PostWorld, measure, Built, built, unregistered, end_chain, Out}
use rdma_cpp.Reads.Posts.{latest_buffer}
use rdma_cpp.Reads.Walk.{walk, transfers, AllShort}
use rdma_cpp.Reads.Success.{Succeeds}

-- The list that the latest ibv_post_send was given.
abbrev pub latest_post : List PostCall → Option (List Sge × List SendWr)
latest_post [] = none
latest_post (post_send sges wrs ∷ t) = some (sges, wrs)
latest_post (k ∷ t) = latest_post t

-- What was posted last asks for the chunks, into the latest buffer, which has `size` bytes.
pub record IsSent (env : PostEnv) (readch : List ReadChunk) (size : ℕ) (w : PostWorld)
    : Type 0 where
  pub sges : List Sge
  pub wrs : List SendWr
  pub buffer : Ptr
  pub posted : latest_post w.trace ≡ some (sges, wrs)
  pub latest : latest_buffer env w.trace ≡ some (buffer, size)
  pub walked : walk (length wrs) wrs sges 0 ≡ transfers buffer readch

-- What the second loop made asks for the chunks, into the memory from `ptr` on.
abbrev Serves : Ptr → List ReadChunk → Built → Type 0
Serves ptr readch (built list wr t) =
    walk (length (end_chain wr)) (end_chain wr) list 0 ≡ transfers ptr readch
Serves ptr readch (unregistered t) = ⊥

module _ (env : PostEnv) (good : Succeeds env) (post : Ptr) (readch : List ReadChunk) {n size : ℕ}
    (short : AllShort readch) (measured : measure readch 0 0 ≡ some (n, size)) where
  open good use {ints, ptrs}

  -- What holds at the label `out`.
  abbrev Sent : Out → PostWorld → Type 0
  Sent o w = IsSent env readch size w × (o.ret ≡ pos 0)
