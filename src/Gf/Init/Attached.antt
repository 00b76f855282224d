-- ===== src/Gf/Init/Attached.antt =====
-- The block of init of src/Transport.cc that the lock guards.
use rdma_cpp.Common.{
  ◌+◌, ◌^◌, ◌<◌, ◌≡◌, inl, inr, refl, ◌∙◌, Bool, true, false, not, Option, none, some, List, [],
  ◌∷◌, count, leb, ◌==◌, Bool-cases, Option-cases, arith, if◌then◌else◌,
}
use rdma_cpp.Common.Cint.{pos, Ptr, is_null, is_set}
use rdma_cpp.Common.Cmd.{ok, pure, call, get_mem, put_mem, ◌>>=◌}
use rdma_cpp.Gf.Foreign.{
  Call, calloc_private, free, rdma_init, mutex_lock, mutex_unlock, register_iobuf_pool,
}
use rdma_cpp.Gf.Init.{GfCtx, InitEnv, InitWorld, count_transport, attach}

abbrev pub is_lock : Call → Bool
is_lock mutex_lock = true
is_lock _ = false

abbrev pub is_unlock : Call → Bool
is_unlock mutex_unlock = true
is_unlock _ = false

abbrev pub is_register : Call → Bool
is_register (register_iobuf_pool _) = true
is_register _ = false

abbrev pub remove : Ptr → List Ptr → List Ptr
remove p [] = []
remove p (q ∷ qs) = if p == q then qs else q ∷ remove p qs

pub remove-head : (p : Ptr) (ps : List Ptr) → remove p (p ∷ ps) ≡ ps
remove-head p ps = ground arith

-- The blocks that were allocated and not freed.
abbrev pub blocks : InitEnv → List Call → List Ptr
blocks env [] = []
blocks env (calloc_private ∷ t) =
    if is_null (env.ptr_of t calloc_private)
    then blocks env t
    else env.ptr_of t calloc_private ∷ blocks env t
blocks env (free p ∷ t) = remove p (blocks env t)
blocks env (k ∷ t) = blocks env t

-- Whether some transport was counted.
abbrev pub counted : Option GfCtx → Bool
counted none = false
counted (some c) = not (c.dlcount == 0)

-- gf_rdma_init keeps a context that there is, makes one that counts no transport yet, and leaves
-- one where it succeeds.
pub record MakesCtx (env : InitEnv) : Type 0 where
  pub keeps : (t : List Call) (c : GfCtx) → env.ib_of t (some c) ≡ some c
  pub fresh : (t : List Call) (c : GfCtx) → env.ib_of t none ≡ some c → c.dlcount ≡ 0
  pub leaves :
      (t : List Call)
      → is_set (env.int_of t rdma_init) ≡ false
      → (c : GfCtx) × (env.ib_of (rdma_init ∷ t) none ≡ some c)

-- The blocks of the transports are `live`, the lock is free, and the pool was registered once if a transport
-- was counted, and never if none was.
pub record IsTidy (env : InitEnv) (live : List Ptr) (w : InitWorld) : Type 0 where
  pub memory : blocks env w.trace ≡ live
  pub unlocked : count is_lock w.trace ≡ count is_unlock w.trace
  pub once : count is_register w.trace ≡ (if counted w.mem.ib then 1 else 0)
  pub hooks : w.mem.hooked ≡ counted w.mem.ib

pub counted_same :
    (env : InitEnv) (good : MakesCtx env) (t : List Call) (m : Option GfCtx)
    → counted (env.ib_of t m) ≡ counted m
counted_same env good t none = elim (Option-cases (env.ib_of t none)) [
  | inl e ↦ rw e
  | inr (c, e) ↦ rw (e, good.fresh t c e)
]
counted_same env good t (some c) = rw (good.keeps t c)

-- The locked block, where the first transport registers the pool.
module _ (env : InitEnv) (live : List Ptr) (w : InitWorld) (c : GfCtx) (tidy : IsTidy env live w)
    (ib : w.mem.ib ≡ some c) (room : c.dlcount + 1 < 2 ^ 31) where
  unfoldable pub Attached : Bool → Type 0
  Attached dl_handle =
      (w' : InitWorld) × (attach dl_handle (some c) w ≡ ok (pos 0) w')
      × IsTidy env live w'
      × (w'.mem.private ≡ w.mem.private)

  no_overflow : leb (2 ^ 31) (c.dlcount + 1) ≡ false
  no_overflow = ground arith

  attach_first : c.dlcount ≡ 0 → Attached true
  unfolding Attached attach count_transport call get_mem put_mem pure ◌>>=◌
  attach_first e =
      let before : count is_register w.trace ≡ 0 = tidy.once ∙ rw (ib, e) in
      (
        record {
          trace = mutex_unlock ∷ register_iobuf_pool c.device ∷ mutex_lock ∷ w.trace;
          mem = record (w.mem) { ib = some (record c { dlcount = c.dlcount + 1 }); hooked = true };
        },
        rw e,
        record {
          memory = tidy.memory;
          unlocked = omega (arith, tidy.unlocked);
          once = ground (arith, before);
          hooks = ground arith;
        },
        refl,
      )

  attach_later : (c.dlcount == 0) ≡ false → Attached true
  unfolding Attached attach count_transport call get_mem put_mem pure ◌>>=◌
  attach_later e =
      let before : count is_register w.trace ≡ 1 = tidy.once ∙ rw (ib, e) in
      let hooked : w.mem.hooked ≡ true = tidy.hooks ∙ rw (ib, e) in
      let not_first : (c.dlcount + 1 == 1) ≡ false = ground arith in
      (
        record {
          trace = mutex_unlock ∷ mutex_lock ∷ w.trace;
          mem = record (w.mem) { ib = some (record c { dlcount = c.dlcount + 1 }) };
        },
        rw (no_overflow, not_first),
        record {
          memory = tidy.memory;
          unlocked = omega (arith, tidy.unlocked);
          once = ground (arith, before);
          hooks = ground (arith, hooked);
        },
        refl,
      )

  attach_idle : Attached false
  unfolding Attached attach call pure ◌>>=◌
  attach_idle = (
    record w { trace = mutex_unlock ∷ mutex_lock ∷ w.trace },
    refl,
    record {
      memory = tidy.memory;
      unlocked = omega (arith, tidy.unlocked);
      once = omega (arith, tidy.once);
      hooks = tidy.hooks;
    },
    refl,
  )

  pub attach_lem : (dl_handle : Bool) → Attached dl_handle
  attach_lem false = attach_idle
  attach_lem true = elim (Bool-cases (c.dlcount == 0)) [
    | inl e ↦ attach_first (ground arith)
    | inr e ↦ attach_later e
  ]
