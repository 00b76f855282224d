-- ===== src/Reads/Gather.antt =====
-- What the reads that fs_rdma_do_reads of src/c/transport.c posts bring into its buffer.
use rdma_cpp.Common.{
  ℕ, zero, suc, ◌+◌, ◌-◌, ◌≤◌, ◌<◌, ◌≡◌, ◌⊎◌, refl, ap, ◌∙◌, List, [], ◌∷◌, ◌++◌, ◌==◌, ltb, lt→ltb,
  le→ltb, Bool-cases, inl, inr, arith, if◌then◌else◌,
}
use rdma_cpp.Common.Cint.{Ptr}
use rdma_cpp.Reads.Foreign.{ReadChunk}
use rdma_cpp.Reads.Bounds.{total_length}
use rdma_cpp.Reads.Walk.{Transfer, transfers}

module _ {B : Type 0} where
  -- The bytes at `n` addresses from `p` on.
  abbrev pub bytes : (ℕ → B) → ℕ → ℕ → List B
  bytes mem p zero = []
  bytes mem p (suc n) = mem p ∷ bytes mem (p + 1) n

  -- A read of the peer's memory, which has an address space for each key, into this memory.
  abbrev pub perform_one : (ℕ → ℕ → B) → Transfer → (ℕ → B) → ℕ → B
  perform_one peer t mem a =
      if ltb a t.local
      then mem a
      else if ltb a (t.local + t.length)
      then peer t.key (t.remote + (a - t.local))
      else mem a

  abbrev pub perform : (ℕ → ℕ → B) → List Transfer → (ℕ → B) → ℕ → B
  perform peer [] mem = mem
  perform peer (t ∷ ts) mem = perform peer ts (perform_one peer t mem)

  -- The peer's bytes of the chunks before the end, one chunk after another.
  abbrev pub gathered : (ℕ → ℕ → B) → List ReadChunk → List B
  gathered peer [] = []
  gathered peer (c ∷ cs) =
      if c.rc_discrim == 0
      then []
      else bytes (peer c.rs_handle) c.rs_offset c.rs_length ++ gathered peer cs

  bytes-ext :
      (f g : ℕ → B) (p q n : ℕ)
      → ((i : ℕ) → i < n → f (p + i) ≡ g (q + i))
      → bytes f p n ≡ bytes g q n
  bytes-ext f g p q zero h = refl
  bytes-ext f g p q (suc n) h =
      let head : f p ≡ g q = ap f (omega arith) ∙ h 0 (omega arith) ∙ ap g (omega arith) in
      let tail =
        bytes-ext f g (p + 1) (q + 1) n
          (λ i lt. ap f (omega arith) ∙ h (suc i) (omega (arith, lt)) ∙ ap g (omega arith)) in
      rw (head, tail) refl

  bytes-add : (f : ℕ → B) (p n m : ℕ) → bytes f p (n + m) ≡ bytes f p n ++ bytes f (p + n) m
  bytes-add f p zero m =
      let none_more : 0 + m ≡ m = omega arith in
      let here : p + 0 ≡ p = omega arith in rw (none_more, here) refl
  bytes-add f p (suc n) m =
      let one_more : suc n + m ≡ suc (n + m) = omega arith in
      let there : p + suc n ≡ p + 1 + n = omega arith in
      rw (one_more, there) (ap (λ l. f p ∷ l) (bytes-add f (p + 1) n m))

  module _ (peer : ℕ → ℕ → B) where
    perform_one-outside :
        (t : Transfer) (mem : ℕ → B) (a : ℕ)
        → (a < t.local) ⊎ (t.local + t.length ≤ a)
        → perform_one peer t mem a ≡ mem a
    perform_one-outside t mem a h = elim (Bool-cases (ltb a t.local)) [
      | inl e ↦ rw e refl
      | inr e ↦ rw (e, le→ltb a (t.local + t.length) (ground arith)) refl
    ]

    perform_one-inside :
        (t : Transfer) (mem : ℕ → B) (i : ℕ)
        → i < t.length
        → perform_one peer t mem (t.local + i) ≡ peer t.key (t.remote + i)
    perform_one-inside t mem i h =
        rw
          (
            le→ltb (t.local + i) t.local (omega arith),
            lt→ltb (t.local + i) (t.local + t.length) (omega (arith, h)),
          )
          (ap (λ n. peer t.key (t.remote + n)) (omega arith))

    -- Reads into the memory from `ptr` on change only the addresses of the bytes of all chunks.
    pub perform-outside :
        (cs : List ReadChunk) (ptr : Ptr) (mem : ℕ → B) (a : ℕ)
        → (a < ptr) ⊎ (ptr + total_length cs ≤ a)
        → perform peer (transfers ptr cs) mem a ≡ mem a
    perform-outside [] ptr mem a h = refl
    perform-outside (c ∷ cs) ptr mem a h = elim (Bool-cases (c.rc_discrim == 0)) [
      | inl e ↦ rw e refl
      | inr e ↦
          let h' : (a < ptr) ⊎ (ptr + (c.rs_length + total_length cs) ≤ a) = rw e at h in
          rw e (
            perform-outside cs (ptr + c.rs_length) _ a (ground arith)
            ∙ perform_one-outside _ mem a (ground arith))
    ]

    pub perform-gathered :
        (cs : List ReadChunk) (ptr : Ptr) (mem : ℕ → B)
        → bytes (perform peer (transfers ptr cs) mem) ptr (total_length cs) ≡ gathered peer cs
    perform-gathered [] ptr mem = refl
    perform-gathered (c ∷ cs) ptr mem = elim (Bool-cases (c.rc_discrim == 0)) [
      | inl e ↦ rw e refl
      | inr e ↦ rw e (
          bytes-add _ ptr c.rs_length (total_length cs)
          ∙ rw
              (
                bytes-ext _ (peer c.rs_handle) ptr c.rs_offset c.rs_length (λ i lt.
                    perform-outside cs (ptr + c.rs_length) _ (ptr + i) (inl (omega (arith, lt)))
                    ∙ perform_one-inside _ mem i lt),
                perform-gathered cs (ptr + c.rs_length),
              )
              refl)
    ]
