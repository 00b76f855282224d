-- ===== src/Fs/Holds.antt =====
-- Commands of src/c/transport.c that return on a context, and what stays true of it.
use Prim.Native.String.{String}
use rdma_cpp.Common.{
  false, ℕ, ◌<◌, ◌≡◌, refl, lt→ltb, length, set, length-set, ◌∙◌, Option, none, some, List, ◌∷◌,
  arith,
}
use rdma_cpp.Common.Cint.{Ptr, is_null}
use rdma_cpp.Common.Cmd.{ok, pure, call, call_for, observe}
use rdma_cpp.Common.Cmd.Returns.{Triple}
use rdma_cpp.Fs.Foreign.{Call}
use rdma_cpp.Fs.Context.{Array, Ctx, Env, FsWorld, load_ctx, update_ctx, store_slot}
use rdma_cpp.Fs.Device.{find_dev}
use rdma_cpp.Fs.Teardown.Effect.{world}
use rdma_cpp.Fs.Resources.Loops.{IsSized}

-- There is a context, and `F` holds of it.
abbrev pub Has : (Ctx → Type 0) → Option Ctx → Type 0
Has F none = ⊥
Has F (some c) = F c

abbrev pub Holds : (Ctx → Type 0) → FsWorld → Type 0
Holds F w = Has F w.mem

module _ {F : Ctx → Type 0} where
  pub ask :
      {A : Type 0} (answer : List Call → Call → A) (k : Call)
      → Triple (Holds F) (call_for answer k) (λ _. Holds F)
  unfolding call_for
  ask answer k = record {
    at = λ w h. (answer w.trace k, record w { trace = k ∷ w.trace }, refl, h);
  }

  pub tell : (k : Call) → Triple (Holds F) (call k) (λ _. Holds F)
  unfolding call
  tell k = record { at = λ w h. (tt, record w { trace = k ∷ w.trace }, refl, h) }

  pub watch :
      {A : Type 0} (answer : List Call → A) → Triple (Holds F) (observe answer) (λ _. Holds F)
  unfolding observe
  watch answer = record { at = λ w h. (answer w.trace, w, refl, h) }

  pub find_lem :
      (env : Env) (name : Option String) → Triple (Holds F) (find_dev env name) (λ _. Holds F)
  unfolding find_dev
  find_lem env name = record { at = λ w h. (_, _, refl, h) }

  pub look : Triple (Holds F) load_ctx (λ c w. Holds F w × F c)
  unfolding load_ctx
  look = record { at = λ w h. loaded w.trace w.mem h }
    where
      loaded :
          (t : List Call) (m : Option Ctx)
          → Has F m
          → (c : Ctx) × (w' : FsWorld) × (load_ctx (record { trace = t; mem = m }) ≡ ok c w')
            × (Holds F w' × F c)
      loaded t none h = absurd h
      loaded t (some c) h = (c, world t c, refl, (h, h))

  pub change :
      {G : Ctx → Type 0} (f : Ctx → Ctx)
      → ((c : Ctx) → F c → G (f c))
      → Triple (Holds F) (update_ctx f) (λ _. Holds G)
  unfolding update_ctx
  change {G} f keep = record { at = λ w h. changed w.trace w.mem h }
    where
      changed :
          (t : List Call) (m : Option Ctx)
          → Has F m
          → (u : Unit {0}) × (w' : FsWorld) × (update_ctx f (record { trace = t; mem = m })
              ≡ ok u w')
            × Holds G w'
      changed t none h = absurd h
      changed t (some c) h = (tt, world t (f c), refl, keep c h)

  pub store_lem :
      {n : ℕ} {a : Array} (i : ℕ) (p : Ptr)
      → IsSized n a
      → i < n
      → Triple (Holds F) (store_slot a i p) (λ b w. Holds F w × IsSized n b)
  unfolding store_slot pure
  store_lem {a} i p s lt = record {
    at = λ w h. (
      record a { slots = set a.slots i p },
      w,
      rw (s.live, lt→ltb i (length a.slots) (omega (arith, s.size, lt))),
      (h, record { live = s.live; size = length-set a.slots i p ∙ s.size }),
    );
  }

-- There is a context.
abbrev pub Held : FsWorld → Type 0
Held = Holds (λ _. Unit {0})

pub Has-Held : (F : Ctx → Type 0) (m : Option Ctx) → Has F m → Has (λ _. Unit {0}) m
Has-Held F none h = h
Has-Held F (some c) h = tt

-- The context has an identifier.
abbrev pub HasId : Ctx → Type 0
HasId c = is_null c.cm_id ≡ false

-- A weaker fact about the context.
pub Has-map : {F G : Ctx → Type 0} (m : Option Ctx) → ((c : Ctx) → F c → G c) → Has F m → Has G m
Has-map none f h = h
Has-map (some c) f h = f c h
