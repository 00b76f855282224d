-- ===== src/Reads/Tiles.antt =====
-- The requests that the second loop of fs_rdma_do_reads of src/c/transport.c makes.
use rdma_cpp.Common.{
  ℕ, ◌+◌, ◌%◌, ◌^◌, ◌≡◌, refl, sym, subst, ap, ◌∙◌, false, List, [], ◌∷◌, ◌++◌, ◌==◌, if◌then◌else◌,
  Bool-cases, inl, inr,
}
use rdma_cpp.Common.Cint.{is_minus_one, Ptr}
use rdma_cpp.Common.Cmd.{ok, and_then-eq-ok, pure, crash, ◌>>=◌}
use rdma_cpp.Reads.Foreign.{ReadChunk, Sge, SendWr, PostEnv}
use rdma_cpp.Reads.{Post, PostWorld, Built, built, unregistered, sge, read_wr, build}

-- The pieces of the buffer at `ptr` into which the chunks before the end go, one after another. The
-- length of a piece is a `uint32_t`.
abbrev pub tiles : Ptr → List ReadChunk → List (Ptr × ℕ)
tiles ptr [] = []
tiles ptr (c ∷ cs) =
    if c.rc_discrim == 0 then [] else (ptr, c.rs_length % 2 ^ 32) ∷ tiles (ptr + c.rs_length) cs

-- The remote addresses and keys of the chunks before the end.
abbrev pub targets : List ReadChunk → List (ℕ × ℕ)
targets [] = []
targets (c ∷ cs) = if c.rc_discrim == 0 then [] else (c.rs_offset, c.rs_handle) ∷ targets cs

abbrev pub local_parts : List Sge → List (Ptr × ℕ)
local_parts [] = []
local_parts (s ∷ ss) = (s.addr, s.length) ∷ local_parts ss

abbrev pub remote_parts : List SendWr → List (ℕ × ℕ)
remote_parts [] = []
remote_parts (w ∷ ws) = (w.remote_addr, w.rkey) ∷ remote_parts ws

local_parts-snoc :
    (ss : List Sge) (s : Sge) (rest : List (Ptr × ℕ))
    → local_parts (ss ++ s ∷ []) ++ rest ≡ local_parts ss ++ (s.addr, s.length) ∷ rest
local_parts-snoc [] s rest = refl
local_parts-snoc (x ∷ ss) s rest = ap (λ l. (x.addr, x.length) ∷ l) (local_parts-snoc ss s rest)

remote_parts-snoc :
    (ws : List SendWr) (w : SendWr) (rest : List (ℕ × ℕ))
    → remote_parts (ws ++ w ∷ []) ++ rest ≡ remote_parts ws ++ (w.remote_addr, w.rkey) ∷ rest
remote_parts-snoc [] w rest = refl
remote_parts-snoc (x ∷ ws) w rest =
    ap (λ l. (x.remote_addr, x.rkey) ∷ l) (remote_parts-snoc ws w rest)

-- What the requests made so far and the chunks that are left come to.
abbrev IsTiled : Ptr → List ReadChunk → List Sge → List SendWr → Built → Type 0
IsTiled ptr cs list wr (built list' wr' t) =
    (local_parts list' ≡ local_parts list ++ tiles ptr cs)
    × (remote_parts wr' ≡ remote_parts wr ++ targets cs)
IsTiled ptr cs list wr (unregistered t) = Unit {0}

append_nil : {A : Type 0} (xs : List A) → xs ++ [] ≡ xs
append_nil [] = refl
append_nil (x ∷ xs) = ap (λ l. x ∷ l) (append_nil xs)

-- Inversion of a sequence that returns.
pub bind-eq-ok :
    {A B : Type 0} (m : Post A) (k : A → Post B) (w : PostWorld) {b : B} {w' : PostWorld}
    → (m >>= k) w ≡ ok b w'
    → (a : A) × (w1 : PostWorld) × (k a w1 ≡ ok b w')
unfolding ◌>>=◌
bind-eq-ok m k w h = let (a, w1, _, h') = and_then-eq-ok (m w) k h in (a, w1, h')

-- A round more before the rounds that are left.
one_more :
    (ptr : Ptr) (c : ReadChunk) (cs : List ReadChunk) (list : List Sge) (wr : List SendWr)
    (lkey i : ℕ) (post : Ptr) (made : Built)
    → (c.rc_discrim == 0) ≡ false
    → IsTiled
        (ptr + c.rs_length)
        cs
        (list ++ sge (record { iov_base = ptr; iov_len = c.rs_length }) lkey ∷ [])
        (wr ++ read_wr i post c ∷ [])
        made
    → IsTiled ptr (c ∷ cs) list wr made
one_more ptr c cs list wr lkey i post (built list' wr' t) e (l, r) =
    rw e (l ∙ local_parts-snoc list _ _, r ∙ remote_parts-snoc wr _ _)
one_more ptr c cs list wr lkey i post (unregistered t) e h = tt

build-IsTiled :
    (env : PostEnv) (post : Ptr) (cs : List ReadChunk) (i : ℕ) (ptr : Ptr) (list : List Sge)
    (wr : List SendWr) (t : ℕ) (w w' : PostWorld) (made : Built)
    → build env post cs i ptr list wr t w ≡ ok made w'
    → IsTiled ptr cs list wr made
unfolding build pure crash
build-IsTiled env post [] i ptr list wr t w w' made h = cc
build-IsTiled env post (c ∷ cs) i ptr list wr t w w' made h =
    elim (Bool-cases (c.rc_discrim == 0)) [
      | inl e ↦
          let same : built list wr t ≡ made = cc (rw e at h) in
          subst (IsTiled ptr (c ∷ cs) list wr) same
            (rw e (sym (append_nil (local_parts list)), sym (append_nil (remote_parts wr))))
      | inr e ↦
          let h0 = rw e at h in
          let (_, w1, h1) = bind-eq-ok _ _ _ h0 in
          let (ret, w2, h2) = bind-eq-ok _ _ _ h1 in
          elim (Bool-cases (is_minus_one ret)) [
            | inl f ↦
                let same : unregistered t ≡ made = cc (rw f at h2) in
                subst (IsTiled ptr (c ∷ cs) list wr) same tt
            | inr f ↦
                let g = rw f at h2 in
                let (lkey, w3, h3) = bind-eq-ok _ _ _ g in
                let (_, w4, h4) = bind-eq-ok _ _ _ h3 in
                one_more ptr c cs list wr lkey i post made e
                  (build-IsTiled env post cs (i + 1) (ptr + c.rs_length) _ _ (t + 1) w4 w' made h4)
          ]
    ]

-- Where the second loop, from the data of the buffer at `ptr`, makes requests for all the chunks
-- before the end of the array: the local parts start where the chunks before them end, from `ptr`
-- on, each with the length of its chunk modulo 2^32, and the remote parts are the chunks' addresses
-- and keys, in the order of the chunks.
pub build-tiles :
    (env : PostEnv) (post : Ptr) (readch : List ReadChunk) (ptr : Ptr) (w w' : PostWorld)
    {list : List Sge} {wr : List SendWr} {total_ref : ℕ}
    → build env post readch 0 ptr [] [] 0 w ≡ ok (built list wr total_ref) w'
    → (local_parts list ≡ tiles ptr readch) × (remote_parts wr ≡ targets readch)
build-tiles env post readch ptr w w' h = build-IsTiled env post readch 0 ptr [] [] 0 w w' _ h
