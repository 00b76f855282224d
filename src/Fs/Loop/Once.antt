-- ===== src/Fs/Loop/Once.antt =====
-- The identifiers that fs_rdma_cm_event_handler of src/c/transport.c destroys.
use rdma_cpp.Common.{
  ℕ, ◌≡◌, ◌⊎◌, inl, inr, refl, ap, ◌∙◌, true, false, List, [], ◌∷◌, Option, none, some,
}
use rdma_cpp.Common.Cint.{Ptr, null, is_null}
use rdma_cpp.Common.Cmd.{final}
use rdma_cpp.Fs.Config.{Config}
use rdma_cpp.Fs.Foreign.{Call, destroy_id, get_cm_event, ack_cm_event}
use rdma_cpp.Fs.Context.{Ctx, Env, FsWorld}
use rdma_cpp.Fs.Frame.{still, Frame}
use rdma_cpp.Fs.Frame.Round.{EventFrame, event_loop-Keeps}
use rdma_cpp.Fs.Teardown.Effect.{world}
use rdma_cpp.Fs.Loop.{null_event, event_loop, cm_event_handler}

-- The arguments of rdma_destroy_id, newest first.
abbrev pub destroyed : List Call → List Ptr
destroyed [] = []
destroyed (destroy_id p ∷ t) = p ∷ destroyed t
destroyed (k ∷ t) = destroyed t

-- Of the identifiers, those of `base` were destroyed and the context holds `id`; or `id` was
-- destroyed too, once, and the context holds NULL.
abbrev pub Once : (id : Ptr) → (base : List Ptr) → List Call → Ctx → Type 0
Once id base t c =
    ((destroyed t ≡ base) × (c.cm_id ≡ id)) ⊎ ((destroyed t ≡ id ∷ base) × (c.cm_id ≡ null))

abbrev OnceIn : (id : Ptr) → (base : List Ptr) → List Call → Option Ctx → Type 0
OnceIn id base t none = ⊥
OnceIn id base t (some c) = Once id base t c

abbrev Kept : (id : Ptr) → (base : List Ptr) → FsWorld → Type 0
Kept id base w = OnceIn id base w.trace w.mem

still-destroyed : (k : Call) (t : List Call) → still k ≡ true → destroyed (k ∷ t) ≡ destroyed t
still-destroyed (destroy_id p) t q = cc
still-destroyed k t q = refl

module _ (id : Ptr) (base : List Ptr) where
  -- Calls that destroy nothing.
  same_calls :
      (t t' : List Call) (m : Option Ctx)
      → destroyed t' ≡ destroyed t
      → OnceIn id base t m
      → OnceIn id base t' m
  same_calls t t' none e h = h
  same_calls t t' (some c) e (inl (d, i)) = inl (e ∙ d, i)
  same_calls t t' (some c) e (inr (d, i)) = inr (e ∙ d, i)

module _ {id : Ptr} {base : List Ptr} where
  same_id : (t : List Call) (c c' : Ctx) → c'.cm_id ≡ c.cm_id → Once id base t c → Once id base t c'
  same_id t c c' e (inl (d, i)) = inl (d, e ∙ i)
  same_id t c c' e (inr (d, i)) = inr (d, e ∙ i)

  destroy_lem :
      (t : List Call) (c : Ctx)
      → is_null c.cm_id ≡ false
      → Once id base t c
      → Once id base (destroy_id c.cm_id ∷ t) (record c { cm_id = null })
  destroy_lem t c z (inl (d, i)) = inr (rw (d, i) refl, refl)
  destroy_lem t c z (inr (d, i)) = let bad = ap is_null i in cc (bad, z)

  instance Kept-Frame : Frame (Kept id base)
  Kept-Frame = record {
    still_call =
        λ k w q h. same_calls id base w.trace (k ∷ w.trace) w.mem (still-destroyed k w.trace q) h;
    change = λ f t c same up h. same_id t c (f c) same h;
    set_flag = λ t c h. same_id t c (record c { connected = 1 }) refl h;
    release_id = λ t c z h. destroy_lem t c z h;
  }

  instance Kept-EventFrame : EventFrame (Kept id base)
  Kept-EventFrame = record {
    get_call = λ ch w h. same_calls id base w.trace (get_cm_event ch ∷ w.trace) w.mem refl h;
    ack_call = λ e w h. same_calls id base w.trace (ack_cm_event e ∷ w.trace) w.mem refl h;
  }

held-Once :
    {id : Ptr} {base : List Ptr} (w : FsWorld)
    → Kept id base w
    → (c : Ctx) × (w.mem ≡ some c) × Once id base w.trace c
held-Once {id} {base} w h = held w.trace w.mem h
  where
    held :
        (t : List Call) (m : Option Ctx)
        → OnceIn id base t m
        → (c : Ctx) × (m ≡ some c) × Once id base t c
    held t none h = absurd h
    held t (some c) h = (c, refl, h)

-- Whatever the libraries answer, however many rounds it is given and however it ends:
-- fs_rdma_cm_event_handler destroys no identifier but that of the context, and that at most once;
-- the context holds its identifier as long as it was not destroyed, and NULL after that. There is
-- still a context.
pub cm_event_handler-Once :
    (env : Env) (config : Config) (channel : Ptr) (fuel : ℕ) (t : List Call) (c : Ctx)
    → (c' : Ctx) × ((final (cm_event_handler env config channel fuel (world t c))).mem ≡ some c')
      × Once c.cm_id
          (destroyed t)
          (final (cm_event_handler env config channel fuel (world t c))).trace
          c'
unfolding cm_event_handler
cm_event_handler-Once env config channel fuel t c =
    held-Once (final (event_loop env config channel fuel null_event (world t c))) (
      (event_loop-Keeps {I = Kept c.cm_id (destroyed t)} env config channel fuel null_event).at
        (world t c) (inl (refl, refl)))
