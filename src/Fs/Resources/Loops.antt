-- ===== src/Fs/Resources/Loops.antt =====
-- The two loops of fs_rdma_create_resources of src/c/transport.c where every call succeeds.
use rdma_cpp.Common.{
  ℕ, zero, suc, ◌+◌, ◌<◌, ◌≡◌, refl, ap, ◌∙◌, false, some, List, [], ◌∷◌, ◌++◌, replicate, arith,
  length, get_elem?, set, length-set, get_elem?-set_self, get_elem?-set_ne, lt→ltb,
}
use rdma_cpp.Common.Cint.{pos, Ptr, is_null}
use rdma_cpp.Common.Cmd.{ok}
use rdma_cpp.Fs.Config.{Config, ConnectionType, rc, ud, uc, other, buf_size}
use rdma_cpp.Fs.Foreign.{
  Call, QpType, QpInitAttr, qpt_rc, qpt_uc, qpt_ud, create_qp, memalign, reg_mr,
}
use rdma_cpp.Fs.Context.{Array, Ctx, Env}
use rdma_cpp.Fs.Teardown.Effect.{world}
use rdma_cpp.Fs.Resources.Stages.{
  go_on, qp_attr, create_one_qp, qp_round, qp_rounds, mr_round, mr_rounds,
}

-- A live array of `n` entries.
pub record IsSized (n : ℕ) (a : Array) : Type 0 where
  pub live : is_null a.base ≡ false
  pub size : length a.slots ≡ n

-- The entries below `i` are set.
pub record IsFilled (i : ℕ) (a : Array) : Type 0 where
  pub entry : (j : ℕ) (p : Ptr) → j < i → get_elem? a.slots j ≡ some p → is_null p ≡ false

-- A connection type that the switch knows.
abbrev pub IsKnown : ConnectionType → Type 0
IsKnown (other _) = ⊥
IsKnown _ = Unit {0}

abbrev put : Array → ℕ → Ptr → Array
put a i p = record a { slots = set a.slots i p }

put-IsSized : {n : ℕ} {a : Array} (i : ℕ) (p : Ptr) → IsSized n a → IsSized n (put a i p)
put-IsSized {a} i p s = record { live = s.live; size = length-set a.slots i p ∙ s.size }

put-IsFilled :
    {n : ℕ} {a : Array} (i : ℕ) (p : Ptr)
    → i < n
    → is_null p ≡ false
    → IsSized n a
    → IsFilled i a
    → IsFilled (i + 1) (put a i p)
put-IsFilled {n} {a} i p lt set_p s f = record {
  entry = λ j q below e.
      ground (
        arith,
        get_elem?-set_self a.slots i p,
        get_elem?-set_ne a.slots i j p,
        f.entry j q,
        s.size,
      );
}

-- The calls of rdma_create_qp.
abbrev pub qp_calls : List Call → List Call
qp_calls [] = []
qp_calls (create_qp id pd attr ∷ t) = create_qp id pd attr ∷ qp_calls t
qp_calls (k ∷ t) = qp_calls t

-- The type of queue pair that goes with a connection type that the switch knows.
abbrev pub qp_type_of : ConnectionType → QpType
qp_type_of uc = qpt_uc
qp_type_of ud = qpt_ud
qp_type_of _ = qpt_rc

-- The call that makes a queue pair on the identifier, the protection domain and the completion
-- queues of this context.
abbrev pub qp_call : Config → Ctx → Call
qp_call config c = create_qp c.cm_id c.pd (qp_attr c (qp_type_of config.connection_type))

replicate-cons :
    {A : Type 0} (n : ℕ) (x : A) (xs : List A) → replicate n x ++ x ∷ xs ≡ x ∷ replicate n x ++ xs
replicate-cons zero x xs = refl
replicate-cons (suc n) x xs = ap (λ l. x ∷ l) (replicate-cons n x xs)

-- Every call of the libraries succeeds, and rdma_create_qp sets `id->qp`.
pub record Obliging (env : Env) : Type 0 where
  pub qps :
      (id pd : Ptr) (attr : QpInitAttr) (t : List Call)
      → is_null (env.qp_of id (create_qp id pd attr ∷ t)) ≡ false
  pub ints : (t : List Call) (k : Call) → env.int_of t k ≡ pos 0
  pub ptrs : (t : List Call) (k : Call) → is_null (env.ptr_of t k) ≡ false

module _ (env : Env) (config : Config) (good : Obliging env) where
  open good use {qps, ints, ptrs}

  create_one_qp_lem :
      (i : ℕ) (ty : QpType) (t : List Call) (c : Ctx) {n : ℕ}
      → is_null c.cm_id ≡ false
      → IsSized n c.qp
      → i < n
      → (p : Ptr) × (is_null p ≡ false)
        × (create_one_qp env i ty (world t c)
            ≡ ok go_on (
                world (create_qp c.cm_id c.pd (qp_attr c ty) ∷ t) (record c { qp = put c.qp i p })))
  unfolding create_one_qp
  create_one_qp_lem i ty t c id s lt = (
    env.qp_of c.cm_id (create_qp c.cm_id c.pd (qp_attr c ty) ∷ t),
    qps c.cm_id c.pd (qp_attr c ty) t,
    rw (ints, id, s.live, lt→ltb i (length c.qp.slots) (omega (arith, s.size))),
  )

  qp_round_lem :
      (ty : ConnectionType) (i : ℕ) (t : List Call) (c : Ctx) {n : ℕ}
      → IsKnown ty
      → is_null c.cm_id ≡ false
      → IsSized n c.qp
      → i < n
      → (p : Ptr) × (is_null p ≡ false)
        × (qp_round env ty i (world t c)
            ≡ ok go_on (
                world
                  (create_qp c.cm_id c.pd (qp_attr c (qp_type_of ty)) ∷ t)
                  (record c { qp = put c.qp i p })))
  unfolding qp_round
  qp_round_lem rc i t c known id s lt = create_one_qp_lem i qpt_rc t c id s lt
  qp_round_lem uc i t c known id s lt = create_one_qp_lem i qpt_uc t c id s lt
  qp_round_lem ud i t c known id s lt = create_one_qp_lem i qpt_ud t c id s lt
  qp_round_lem (other _) i t c known id s lt = absurd known

  pub qp_rounds_lem :
      (n i : ℕ) (t : List Call) (c : Ctx) {size : ℕ}
      → IsKnown config.connection_type
      → is_null c.cm_id ≡ false
      → IsSized size c.qp
      → IsFilled i c.qp
      → i + n ≡ size
      → (t' : List Call) × (a : Array) × (qp_rounds env config n i (world t c)
          ≡ ok go_on (world t' (record c { qp = a })))
        × (IsSized size a × IsFilled size a)
        × (qp_calls t' ≡ replicate n (qp_call config c) ++ qp_calls t)
  unfolding qp_rounds
  qp_rounds_lem zero i t c {size} known id s f fits =
      let here : i ≡ size = omega arith in (t, c.qp, refl, (s, rw (← here) f), refl)
  qp_rounds_lem (suc n) i t c known id s f fits =
      let (p, p_set, made) = qp_round_lem config.connection_type i t c known id s (omega arith) in
      let (t', a, rest, s', calls) =
        qp_rounds_lem n (i + 1) (qp_call config c ∷ t) (record c { qp = put c.qp i p }) known id
          (put-IsSized i p s) (put-IsFilled i p (omega arith) p_set s f) (omega arith) in
      (t', a, rw made rest, s', calls ∙ replicate-cons n (qp_call config c) (qp_calls t))

  mr_round_lem :
      (i : ℕ) (t : List Call) (c : Ctx) {n : ℕ}
      → IsSized n c.buf
      → IsSized n c.mr
      → i < n
      → (t' : List Call) × (p q : Ptr) × (is_null p ≡ false)
        × (is_null q ≡ false)
        × (mr_round env i (world t c)
            ≡ ok go_on (world t' (record c { buf = put c.buf i p; mr = put c.mr i q })))
        × (qp_calls t' ≡ qp_calls t)
  unfolding mr_round
  mr_round_lem i t c b m lt =
      let k = memalign env.page_size buf_size in
      let p = env.ptr_of t k in
      let j = reg_mr c.pd p buf_size in
      (
        j ∷ k ∷ t,
        p,
        env.ptr_of (k ∷ t) j,
        ptrs t k,
        ptrs (k ∷ t) j,
        rw (
          b.live,
          lt→ltb i (length c.buf.slots) (omega (arith, b.size)),
          ptrs,
          m.live,
          lt→ltb i (length c.mr.slots) (omega (arith, m.size)),
          ptrs,
        ),
        refl,
      )

  pub mr_rounds_lem :
      (n i : ℕ) (t : List Call) (c : Ctx) {size : ℕ}
      → IsSized size c.buf
      → IsSized size c.mr
      → IsFilled i c.buf
      → IsFilled i c.mr
      → i + n ≡ size
      → (t' : List Call) × (a b : Array) × (mr_rounds env n i (world t c)
          ≡ ok go_on (world t' (record c { buf = a; mr = b })))
        × (IsSized size a × IsSized size b)
        × (IsFilled size a × IsFilled size b)
        × (qp_calls t' ≡ qp_calls t)
  unfolding mr_rounds
  mr_rounds_lem zero i t c {size} sb sm fb fm fits =
      let here : i ≡ size = omega arith in
      (t, c.buf, c.mr, refl, (sb, sm), (rw (← here) fb, rw (← here) fm), refl)
  mr_rounds_lem (suc n) i t c sb sm fb fm fits =
      let (t1, p, q, p_set, q_set, made, none_here) = mr_round_lem i t c sb sm (omega arith) in
      let (t', a, b, rest, sizes, filled, none_later) =
        mr_rounds_lem n (i + 1) t1 (record c { buf = put c.buf i p; mr = put c.mr i q })
          (put-IsSized i p sb) (put-IsSized i q sm) (put-IsFilled i p (omega arith) p_set sb fb)
          (put-IsFilled i q (omega arith) q_set sm fm) (omega arith) in
      (t', a, b, rw made rest, sizes, filled, none_later ∙ none_here)
