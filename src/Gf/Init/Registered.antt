-- ===== src/Gf/Init/Registered.antt =====
-- What init of src/Transport.cc leaves: its block of memory, the lock, and the registered pool.
use rdma_cpp.Common.{
  ◌+◌, ◌^◌, ◌<◌, ◌≡◌, ◌⊎◌, inl, inr, refl, ap, subst, sym, ◌∙◌, Bool, true, false, some, List, ◌∷◌,
  Bool-cases, Option-cases, arith,
}
use rdma_cpp.Common.Cint.{ℤ, pos, minus_one, Ptr, null, is_null, is_set}
use rdma_cpp.Common.Cmd.{ok, pure, call, call_for, observe, get_mem, put_mem, ◌>>=◌}
use rdma_cpp.Gf.Foreign.{Call, calloc_private, free, rdma_init}
use rdma_cpp.Gf.Init.{GfCtx, InitEnv, InitWorld, attach, init_device, gf_init}
use rdma_cpp.Gf.Init.Attached.{
  MakesCtx, IsTidy, remove, remove-head, counted_same, Attached, attach_lem,
}

-- No memory for the transport, or a gf_rdma_init that fails after the calls of `t`.
abbrev pub NotGiven : InitEnv → (t : List Call) → Type 0
NotGiven env t =
    (is_null (env.ptr_of t calloc_private) ≡ true)
    ⊎ (is_set (env.int_of (calloc_private ∷ t) rdma_init) ≡ true)

-- What init, called after the calls of `t`, may return, and what it leaves then.
abbrev pub InitEnds : InitEnv → (t : List Call) → (live : List Ptr) → ℤ → InitWorld → Type 0
InitEnds env t live ret w =
    ((ret ≡ pos 0)
      × ¬ NotGiven env t
      × (is_null w.mem.private ≡ false)
      × IsTidy env (w.mem.private ∷ live) w)
    ⊎ ((ret ≡ minus_one) × NotGiven env t × IsTidy env live w)

module _ (env : InitEnv) (good : MakesCtx env) (dl_handle : Bool) (live : List Ptr) (w : InitWorld)
    (tidy : IsTidy env live w)
    (room : (c : GfCtx) → w.mem.ib ≡ some c → c.dlcount + 1 < 2 ^ 31) where
  Inited : Type 0
  Inited =
      (ret : ℤ) × (w' : InitWorld) × (gf_init env dl_handle w ≡ ok ret w')
      × InitEnds env w.trace live ret w'

  -- The answers of the first two calls, and the state after them.
  priv : Ptr
  priv = env.ptr_of w.trace calloc_private

  after_device : InitWorld
  unfolding priv
  after_device = record {
    trace = rdma_init ∷ calloc_private ∷ w.trace;
    mem = record (w.mem) {
      private = priv;
      ib = env.ib_of (rdma_init ∷ calloc_private ∷ w.trace) w.mem.ib;
    };
  }

  no_block : is_null priv ≡ true → Inited
  unfolding Inited priv gf_init call_for pure ◌>>=◌
  no_block z = (
    minus_one,
    record w { trace = calloc_private ∷ w.trace },
    rw z,
    inr (
      refl,
      inl z,
      record {
        memory = rw z tidy.memory;
        unlocked = omega (arith, tidy.unlocked);
        once = omega (arith, tidy.once);
        hooks = tidy.hooks;
      },
    ),
  )

  IsTidy-device : is_null priv ≡ false → IsTidy env (priv ∷ live) after_device
  unfolding after_device priv
  IsTidy-device z =
      let same = counted_same env good (rdma_init ∷ calloc_private ∷ w.trace) w.mem.ib in
      record {
        memory = rw z (ap (λ l. priv ∷ l) tidy.memory);
        unlocked = omega (arith, tidy.unlocked);
        once = rw same (omega (arith, tidy.once));
        hooks = rw same tidy.hooks;
      }

  no_device :
      is_null priv ≡ false
      → is_set (env.int_of (calloc_private ∷ w.trace) rdma_init) ≡ true
      → Inited
  unfolding Inited priv after_device gf_init init_device call call_for observe get_mem put_mem pure
      ◌>>=◌
  no_device z failed =
      let t = IsTidy-device z in
      (
        minus_one,
        record {
          trace = free priv ∷ after_device.trace;
          mem = record (after_device.mem) { private = null };
        },
        rw (z, failed),
        inr (
          refl,
          inr failed,
          record {
            memory = ap (remove priv) t.memory ∙ remove-head priv live;
            unlocked = omega (arith, t.unlocked);
            once = omega (arith, t.once);
            hooks = t.hooks;
          },
        ),
      )

  -- The context that gf_rdma_init leaves where it succeeds, with room for one more transport.
  ctx_left :
      is_set (env.int_of (calloc_private ∷ w.trace) rdma_init) ≡ false
      → (c : GfCtx) × (after_device.mem.ib ≡ some c) × (c.dlcount + 1 < 2 ^ 31)
  unfolding after_device
  ctx_left fine = elim (Option-cases w.mem.ib) [
    | inl e ↦
        let (c, made) = good.leaves (calloc_private ∷ w.trace) fine in
        (c, rw e made, ground (arith, good.fresh (rdma_init ∷ calloc_private ∷ w.trace) c made))
    | inr (c, e) ↦ (c, rw (e, good.keeps), room c e)
  ]

  given :
      is_null priv ≡ false
      → is_set (env.int_of (calloc_private ∷ w.trace) rdma_init) ≡ false
      → ¬ NotGiven env w.trace
  unfolding priv
  given z fine (inl e) = cc (z, e)
  given z fine (inr e) = cc (fine, e)

  with_device :
      is_null priv ≡ false
      → is_set (env.int_of (calloc_private ∷ w.trace) rdma_init) ≡ false
      → Inited
  unfolding Inited priv after_device Attached gf_init init_device call_for observe get_mem put_mem
      pure ◌>>=◌
  with_device z fine =
      let (c, left, small) = ctx_left fine in
      let (w', ran, t, same) =
        attach_lem env (priv ∷ live) after_device c (IsTidy-device z) left small dl_handle in
      (
        pos 0,
        w',
        rw (z, fine) (ap (λ x. attach dl_handle x after_device) left ∙ ran),
        inl (refl, given z fine, rw same z, subst (λ p. IsTidy env (p ∷ live) w') (sym same) t),
      )

  inited : Inited
  inited = elim (Bool-cases (is_null priv)) [
    | inl z ↦ no_block z
    | inr z ↦ elim (Bool-cases (is_set (env.int_of (calloc_private ∷ w.trace) rdma_init))) [
      | inl failed ↦ no_device z failed
      | inr fine ↦ with_device z fine
    ]
  ]

-- Let gf_rdma_init keep a context that there is, make one that counts no transport, and leave one
-- where it succeeds; and let the count of transports be below 2^31 - 1. From a tidy state, in which
-- `live` are the blocks that were allocated and not freed, the lock is free, and the pool was
-- registered once if a transport was counted and never if none was: init returns -1 exactly where
-- there is no memory for the transport or gf_rdma_init fails, and then leaves a tidy state with
-- just the blocks `live`; else it returns 0, and leaves a tidy state with these and the block that
-- `this->private` points at.
pub gf_init-IsTidy :
    (env : InitEnv) (dl_handle : Bool) (live : List Ptr) (w : InitWorld)
    → MakesCtx env
    → IsTidy env live w
    → ((c : GfCtx) → w.mem.ib ≡ some c → c.dlcount + 1 < 2 ^ 31)
    → (ret : ℤ) × (w' : InitWorld) × (gf_init env dl_handle w ≡ ok ret w')
      × InitEnds env w.trace live ret w'
unfolding Inited
gf_init-IsTidy env dl_handle live w good tidy room = inited env good dl_handle live w tidy room
