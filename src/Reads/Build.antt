-- ===== src/Reads/Build.antt =====
-- The two loops of fs_rdma_do_reads of src/c/transport.c: the first measures the array of chunks,
-- and the second makes a request for each chunk.
use rdma_cpp.Common.{
  ℕ, suc, ◌+◌, ◌-◌, ◌%◌, ◌^◌, ◌≤◌, ◌≡◌, inl, inr, refl, sym, subst, ◌∙◌, true, false, some, List,
  [], ◌∷◌, ◌++◌, length, length-append, ◌==◌, Bool-cases, arith,
}
use rdma_cpp.Common.Cint.{is_minus_one, Ptr}
use rdma_cpp.Common.Cmd.Returns.{Triple, Triple-pure, Triple-if, Triple-bind}
use rdma_cpp.Reads.Foreign.{ReadChunk, Sge, SendWr, PostEnv, register_mr}
use rdma_cpp.Reads.{PostWorld, measure, Built, built, unregistered, read_wr, build}
use rdma_cpp.Reads.Balance.{State, Triple-call_for, Triple-observe, Triple-ref, Triple-push_vector}

-- The first loop on a chunk that ends the array, and on another.
pub measure_end :
    (c : ReadChunk) (cs : List ReadChunk) (i size : ℕ)
    → (c.rc_discrim == 0) ≡ true
    → measure (c ∷ cs) i size ≡ some (i, size)
unfolding measure
measure_end c cs i size e = rw e

pub measure_more :
    (c : ReadChunk) (cs : List ReadChunk) (i size : ℕ)
    → (c.rc_discrim == 0) ≡ false
    → measure (c ∷ cs) i size ≡ measure cs (i + 1) ((size + c.rs_length) % 2 ^ 64)
unfolding measure
measure_more c cs i size e = rw e

pub measure-le :
    (cs : List ReadChunk) (i size n total : ℕ) → measure cs i size ≡ some (n, total) → i ≤ n
unfolding measure
measure-le [] i size n total h = cc
measure-le (c ∷ cs) i size n total h = elim (Bool-cases (c.rc_discrim == 0)) [
  | inl e ↦ let same : n ≡ i = cc (measure_end c cs i size e, h) in omega (arith, same)
  | inr e ↦
      let more =
        measure-le cs (i + 1) ((size + c.rs_length) % 2 ^ 64) n total
          (sym (measure_more c cs i size e) ∙ h) in
      omega (arith, more)
]

-- What holds after the second loop, where there are `n` chunks: each request has a reference.
abbrev pub BuiltState : PostEnv → (n : ℕ) → Built → PostWorld → Type 0
BuiltState env n (built list wr total_ref) w =
    State env total_ref n 0 w × (length wr ≡ n) × (total_ref ≡ n)
BuiltState env n (unregistered total_ref) w = (room : ℕ) × State env total_ref n room w

fewer_room :
    {env : PostEnv} {owed reads room : ℕ} {w : PostWorld}
    → State env owed reads room w
    → State env owed reads 0 w
fewer_room s = record { owes = s.owes; reads_eq = s.reads_eq; room_le = omega (arith, s.room_le) }

-- One round of the second loop, and the rounds after it.
round_lem :
    (env : PostEnv) (post : Ptr) (cs : List ReadChunk) (c : ReadChunk) (i n room : ℕ) (ptr : Ptr)
    (list : List Sge) (wr : List SendWr)
    → ((l : List Sge) (ws : List SendWr)
        → length ws ≡ i + 1
        → Triple
            (State env (i + 1) n room)
            (build env post cs (i + 1) (ptr + c.rs_length) l ws (i + 1))
            (BuiltState env n))
    → length wr ≡ i
    → (c.rc_discrim == 0) ≡ false
    → Triple (State env i n (suc room)) (build env post (c ∷ cs) i ptr list wr i) (BuiltState env n)
unfolding build
round_lem env post cs c i n room ptr list wr rest len e =
    let len' : length (wr ++ read_wr i post c ∷ []) ≡ i + 1 =
      omega (arith, length-append wr (read_wr i post c ∷ []), len) in
    rw e (
      Triple-bind (Triple-push_vector _) (λ _.
        Triple-bind
          (Triple-call_for env.int_of
            (register_mr (record { iov_base = ptr; iov_len = c.rs_length }))
            (refl, refl, λ env t. refl))
          (λ ret.
            Triple-if (is_minus_one ret) _ _ (λ _. Triple-pure (unregistered i) (λ w s. (room, s)))
              (λ _. Triple-bind (Triple-observe env.last_lkey) (λ lkey.
                Triple-bind Triple-ref (λ _. rest _ (wr ++ read_wr i post c ∷ []) len'))))))

pub build_lem :
    (env : PostEnv) (post : Ptr) (cs : List ReadChunk) (i size n total : ℕ) (ptr : Ptr)
    (list : List Sge) (wr : List SendWr)
    → measure cs i size ≡ some (n, total)
    → length wr ≡ i
    → Triple (State env i n (n - i)) (build env post cs i ptr list wr i) (BuiltState env n)
unfolding build measure
build_lem env post [] i size n total ptr list wr h len = cc
build_lem env post (c ∷ cs) i size n total ptr list wr h len =
    elim (Bool-cases (c.rc_discrim == 0)) [
      | inl e ↦
          let same : n ≡ i = cc (measure_end c cs i size e, h) in
          rw e (
            Triple-pure (built list wr i)
              (λ w s. (fewer_room s, omega (arith, same, len), sym same)))
      | inr e ↦
          let more = sym (measure_more c cs i size e) ∙ h in
          let le = measure-le cs (i + 1) _ n total more in
          let room : n - i ≡ suc (n - (i + 1)) = omega (arith, le) in
          rw room (
            round_lem env post cs c i n (n - (i + 1)) ptr list wr
              (λ l ws len'.
                build_lem env post cs (i + 1) _ n total (ptr + c.rs_length) l ws more len')
              len e)
    ]

pub build_all_lem :
    (env : PostEnv) (post : Ptr) (cs : List ReadChunk) (n total : ℕ) (ptr : Ptr)
    → measure cs 0 0 ≡ some (n, total)
    → Triple (State env 0 n n) (build env post cs 0 ptr [] [] 0) (BuiltState env n)
build_all_lem env post cs n total ptr h =
    subst (λ room. Triple (State env 0 n room) (build env post cs 0 ptr [] [] 0) (BuiltState env n))
      (omega arith) (build_lem env post cs 0 0 n total ptr [] [] h refl)
