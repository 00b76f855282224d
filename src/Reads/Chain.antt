-- ===== src/Reads/Chain.antt =====
-- The chain of requests that fs_rdma_do_reads of src/c/transport.c posts.
use rdma_cpp.Common.{
  ℕ, suc, ◌+◌, ◌≡◌, refl, ap, subst, none, some, List, [], ◌∷◌, ◌++◌, ◌==◌, length, length-append,
  Bool-cases, inl, inr, arith,
}
use rdma_cpp.Common.Cint.{is_minus_one, Ptr}
use rdma_cpp.Common.Cmd.{ok, pure, crash}
use rdma_cpp.Reads.Foreign.{ReadChunk, Sge, rdma_read, SendWr, PostEnv}
use rdma_cpp.Reads.{PostWorld, built, read_wr, build, end_chain}
use rdma_cpp.Reads.Tiles.{bind-eq-ok}

-- An invariant of the arrays: each round adds an entry to both.
module _ (post : Ptr) (P : ℕ → List Sge → List SendWr → Type 0)
    (step : (i : ℕ) (c : ReadChunk) (list : List Sge) (wr : List SendWr) (s : Sge)
      → P i list wr
      → P (i + 1) (list ++ s ∷ []) (wr ++ read_wr i post c ∷ [])) where
  build-invariant :
      (env : PostEnv) (cs : List ReadChunk) (i : ℕ) (ptr : Ptr) (list : List Sge) (wr : List SendWr)
      (t : ℕ) (w w' : PostWorld) {list' : List Sge} {wr' : List SendWr} {t' : ℕ}
      → P i list wr
      → build env post cs i ptr list wr t w ≡ ok (built list' wr' t') w'
      → (j : ℕ) × P j list' wr'
  unfolding build pure crash
  build-invariant env [] i ptr list wr t w w' p h = cc
  build-invariant env (c ∷ cs) i ptr list wr t w w' {list'} {wr'} p h =
      elim (Bool-cases (c.rc_discrim == 0)) [
        | inl e ↦
            let h0 = rw e at h in
            let same_list : list ≡ list' = cc h0 in
            let same_wr : wr ≡ wr' = cc h0 in
            (i, subst (λ l. P i l wr') same_list (subst (P i list) same_wr p))
        | inr e ↦
            let h0 = rw e at h in
            let (_, w1, h1) = bind-eq-ok _ _ _ h0 in
            let (ret, w2, h2) = bind-eq-ok _ _ _ h1 in
            elim (Bool-cases (is_minus_one ret)) [
              | inl f ↦ cc (rw f at h2)
              | inr f ↦
                  let g = rw f at h2 in
                  let (lkey, w3, h3) = bind-eq-ok _ _ _ g in
                  let (_, w4, h4) = bind-eq-ok _ _ _ h3 in
                  build-invariant env cs (i + 1) (ptr + c.rs_length) _ _ (t + 1) w4 w'
                    (step i c list wr _ p) h4
            ]
      ]

-- A request that reads, into one piece.
abbrev pub ReadsOne : SendWr → Type 0
ReadsOne w = (w.opcode ≡ rdma_read) × (w.num_sge ≡ 1)

-- Entry `i` reads into one piece, points at entry `i` of `list`, and is followed by entry `i + 1`.
abbrev Linked : ℕ → List SendWr → Type 0
Linked i [] = Unit {0}
Linked i (w ∷ ws) = ReadsOne w × (w.sg_list ≡ i) × (w.next ≡ some (i + 1)) × Linked (i + 1) ws

-- The same, but the last entry ends the chain.
abbrev pub IsChain : ℕ → List SendWr → Type 0
IsChain i [] = Unit {0}
IsChain i (w ∷ []) = ReadsOne w × (w.sg_list ≡ i) × (w.next ≡ none)
IsChain i (w ∷ v ∷ ws) =
    ReadsOne w × (w.sg_list ≡ i) × (w.next ≡ some (i + 1)) × IsChain (i + 1) (v ∷ ws)

Linked-snoc :
    (i : ℕ) (ws : List SendWr) (post : Ptr) (c : ReadChunk)
    → Linked i ws
    → Linked i (ws ++ read_wr (i + length ws) post c ∷ [])
Linked-snoc i [] post c h = ((refl, refl), omega arith, ap (λ n. some (n + 1)) (omega arith), tt)
Linked-snoc i (w ∷ ws) post c (r, s, n, h) = (
  r,
  s,
  n,
  subst (λ k. Linked (i + 1) (ws ++ read_wr k post c ∷ [])) (omega arith)
      (Linked-snoc (i + 1) ws post c h),
)

end_chain-IsChain : (i : ℕ) (ws : List SendWr) → Linked i ws → IsChain i (end_chain ws)
unfolding end_chain
end_chain-IsChain i [] h = tt
end_chain-IsChain i (w ∷ []) (r, s, n, h) = (r, s, refl)
end_chain-IsChain i (w ∷ v ∷ []) (r, s, n, h) = (r, s, n, end_chain-IsChain (i + 1) (v ∷ []) h)
end_chain-IsChain i (w ∷ v ∷ u ∷ ws) (r, s, n, h) =
    (r, s, n, end_chain-IsChain (i + 1) (v ∷ u ∷ ws) h)

pub length-end_chain : (wr : List SendWr) → length (end_chain wr) ≡ length wr
unfolding end_chain
length-end_chain [] = refl
length-end_chain (w ∷ []) = refl
length-end_chain (w ∷ v ∷ ws) = ap suc (length-end_chain (v ∷ ws))

-- After `i` rounds.
record Filled (i : ℕ) (list : List Sge) (wr : List SendWr) : Type 0 where
  list_length : length list ≡ i
  wr_length : length wr ≡ i
  linked : Linked 0 wr

Filled-suc :
    (post : Ptr) (i : ℕ) (c : ReadChunk) (list : List Sge) (wr : List SendWr) (s : Sge)
    → Filled i list wr
    → Filled (i + 1) (list ++ s ∷ []) (wr ++ read_wr i post c ∷ [])
Filled-suc post i c list wr s h = record {
  list_length = omega (arith, length-append list (s ∷ []), h.list_length);
  wr_length = omega (arith, length-append wr (read_wr i post c ∷ []), h.wr_length);
  linked =
      subst (λ k. Linked 0 (wr ++ read_wr k post c ∷ [])) (omega (arith, h.wr_length))
        (Linked-snoc 0 wr post c h.linked);
}

-- Where the second loop makes requests for all the chunks, there are as many requests as pieces of
-- memory, and what fs_rdma_do_reads then posts is a chain of them: request `i` reads into piece
-- `i`, is followed by request `i + 1`, and the last one is followed by none.
pub build-IsChain :
    (env : PostEnv) (post : Ptr) (readch : List ReadChunk) (ptr : Ptr) (w w' : PostWorld)
    {list : List Sge} {wr : List SendWr} {total_ref : ℕ}
    → build env post readch 0 ptr [] [] 0 w ≡ ok (built list wr total_ref) w'
    → (length list ≡ length wr) × IsChain 0 (end_chain wr)
build-IsChain env post readch ptr w w' {list} {wr} made =
    let (n, filled) =
      build-invariant post Filled (Filled-suc post) env readch 0 ptr [] [] 0 w w'
        (record { list_length = refl; wr_length = refl; linked = tt }) made in
    (omega (arith, filled.list_length, filled.wr_length), end_chain-IsChain 0 wr filled.linked)
