-- ===== src/Reads/Bounds.antt =====
-- Where in its buffer fs_rdma_do_reads of src/c/transport.c lets the hardware write.
use rdma_cpp.Common.{
  ℕ, ◌+◌, ◌%◌, ◌^◌, ◌≤◌, ◌<◌, ◌≡◌, sym, subst, ◌∙◌, some, List, [], ◌∷◌, ◌==◌, if◌then◌else◌,
  Bool-cases, inl, inr, arith,
}
use rdma_cpp.Common.Cint.{Ptr}
use rdma_cpp.Common.Cmd.{ok}
use rdma_cpp.Reads.Foreign.{ReadChunk, Sge, SendWr, PostEnv}
use rdma_cpp.Reads.{PostWorld, measure, built, build}
use rdma_cpp.Reads.Build.{measure_end, measure_more}
use rdma_cpp.Reads.Tiles.{tiles, local_parts, build-tiles}

-- The bytes of the chunks before the end.
abbrev pub total_length : List ReadChunk → ℕ
total_length [] = 0
total_length (c ∷ cs) = if c.rc_discrim == 0 then 0 else c.rs_length + total_length cs

-- Every piece lies between two addresses.
abbrev pub Inside : (from to : Ptr) → List (Ptr × ℕ) → Type 0
Inside from to [] = Unit {0}
Inside from to ((p, n) ∷ ps) = (from ≤ p) × (p + n ≤ to) × Inside from to ps

tiles-Inside :
    (cs : List ReadChunk) (ptr from to : Ptr)
    → from ≤ ptr
    → ptr + total_length cs ≤ to
    → Inside from to (tiles ptr cs)
tiles-Inside [] ptr from to lo hi = tt
tiles-Inside (c ∷ cs) ptr from to lo hi = elim (Bool-cases (c.rc_discrim == 0)) [
  | inl e ↦ rw e tt
  | inr e ↦
      let room : ptr + (c.rs_length + total_length cs) ≤ to = rw e at hi in
      rw e (
        lo,
        omega (arith, room),
        tiles-Inside cs (ptr + c.rs_length) from to (omega (arith, lo)) (omega (arith, room)),
      )
]

-- Where the lengths come to less than 2^64, `size` does not wrap around.
pub measure-total :
    (cs : List ReadChunk) (i size n total : ℕ)
    → measure cs i size ≡ some (n, total)
    → size + total_length cs < 2 ^ 64
    → total ≡ size + total_length cs
unfolding measure
measure-total [] i size n total h small = cc
measure-total (c ∷ cs) i size n total h small = elim (Bool-cases (c.rc_discrim == 0)) [
  | inl e ↦
      let same : total ≡ size = cc (measure_end c cs i size e, h) in rw e (omega (arith, same))
  | inr e ↦
      let fits : size + (c.rs_length + total_length cs) < 2 ^ 64 = rw e at small in
      let wrap : (size + c.rs_length) % 2 ^ 64 ≡ size + c.rs_length = omega (arith, fits) in
      let more =
        measure-total cs (i + 1) ((size + c.rs_length) % 2 ^ 64) n total
          (sym (measure_more c cs i size e) ∙ h) (omega (arith, fits, wrap)) in
      rw e (omega (arith, more, wrap))
]

-- Let the chunks come to less than 2^64 bytes. Where the first loop counts the chunks and their
-- bytes, and the second makes requests for them from the address `ptr` on, every piece of memory
-- that a request reads into lies inside the buffer of that many bytes at `ptr`.
pub build-Inside :
    (env : PostEnv) (post : Ptr) (readch : List ReadChunk) (ptr : Ptr) (n size : ℕ)
    (w w' : PostWorld) {list : List Sge} {wr : List SendWr} {total_ref : ℕ}
    → total_length readch < 2 ^ 64
    → measure readch 0 0 ≡ some (n, size)
    → build env post readch 0 ptr [] [] 0 w ≡ ok (built list wr total_ref) w'
    → Inside ptr (ptr + size) (local_parts list)
build-Inside env post readch ptr n size w w' small measured made =
    let (local, _) = build-tiles env post readch ptr w w' made in
    let all = measure-total readch 0 0 n size measured (omega (arith, small)) in
    subst (Inside ptr (ptr + size)) (sym local)
      (tiles-Inside readch ptr ptr (ptr + size) (omega arith) (omega (arith, all)))
