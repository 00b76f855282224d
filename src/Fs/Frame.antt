-- ===== src/Fs/Frame.antt =====
-- What the code of src/c/transport.c below the event loop does to the events and to `connected`.
pub mod Release
pub mod Acquire
pub mod Handle
pub mod Round
use rdma_cpp.Common.{
  ℕ, ◌≡◌, refl, sym, subst, inl, inr, Bool, true, false, Option, none, some, List, ◌∷◌, Bool-cases,
}
use rdma_cpp.Common.Cint.{null, is_null}
use rdma_cpp.Fs.Teardown.{release_cm_id}
use rdma_cpp.Common.Cmd.{final, call, call_for, observe}
use rdma_cpp.Common.Cmd.Keeps.{Keeps, keeps_rules}
use rdma_cpp.Fs.Foreign.{Call, get_cm_event, ack_cm_event, destroy_id}
use rdma_cpp.Fs.Context.{Ctx, Array, FsWorld, load_ctx, update_ctx, store_slot}

-- Neither rdma_get_cm_event nor rdma_ack_cm_event.
abbrev pub quiet : Call → Bool
quiet (get_cm_event _) = false
quiet (ack_cm_event _) = false
quiet _ = true

-- No context counts as one that is not connected.
abbrev pub Flag : (ℕ → Type 0) → Option Ctx → Type 0
Flag G none = G 0
Flag G (some c) = G c.connected

-- `L` holds of the calls so far, and `G` of `connected`.
pub record Framed (L : List Call → Type 0) (G : ℕ → Type 0) (w : FsWorld) : Type 0 where
  pub log : L w.trace
  pub flag : Flag G w.mem

-- The calls that no rule but that of the whole command covers: those of events, and
-- rdma_destroy_id.
abbrev pub still : Call → Bool
still (destroy_id _) = false
still k = quiet k

quiet_of_still : (k : Call) → still k ≡ true → quiet k ≡ true
quiet_of_still (destroy_id _) h = refl
quiet_of_still k h = h

-- An invariant of the code below the event loop: other calls, changes of the context but for its
-- identifier, and the release of the identifier keep it.
pub record Frame (I : FsWorld → Type 0) : Type 0 where
  pub still_call :
      (k : Call) (w : FsWorld) → still k ≡ true → I w → I (record w { trace = k ∷ w.trace })
  pub change :
      (f : Ctx → Ctx) (t : List Call) (c : Ctx)
      → (f c).cm_id ≡ c.cm_id
      → (f c).connected ≡ c.connected
      → I (record { trace = t; mem = some c })
      → I (record { trace = t; mem = some (f c) })
  pub set_flag :
      (t : List Call) (c : Ctx)
      → I (record { trace = t; mem = some c })
      → I (record { trace = t; mem = some (record c { connected = 1 }) })
  pub release_id :
      (t : List Call) (c : Ctx)
      → is_null c.cm_id ≡ false
      → I (record { trace = t; mem = some c })
      → I (record { trace = destroy_id c.cm_id ∷ t; mem = some (record c { cm_id = null }) })

module _ {L : List Call → Type 0} {G : ℕ → Type 0} where
  -- What holds of all calls but those of events, and of the flag.
  pub log_frame :
      ((k : Call) (t : List Call) → quiet k ≡ true → L t → L (k ∷ t))
      → ((n : ℕ) → G n → G 1)
      → Frame (Framed L G)
  log_frame quiet_call set = record {
    still_call =
        λ k w q h. record { log = quiet_call k w.trace (quiet_of_still k q) h.log; flag = h.flag };
    change = λ f t c same up h. record { log = h.log; flag = subst G (sym up) h.flag };
    set_flag = λ t c h. record { log = h.log; flag = set c.connected h.flag };
    release_id = λ t c some_id h. record {
      log = quiet_call (destroy_id c.cm_id) t refl h.log;
      flag = h.flag;
    };
  }

-- The effect of the changes of the context, where there is one and where there is none.
module _ (I : FsWorld → Type 0) where
  load_ctx_frame :
      (t : List Call) (m : Option Ctx)
      → I (record { trace = t; mem = m })
      → I (final (load_ctx (record { trace = t; mem = m })))
  unfolding load_ctx
  load_ctx_frame t none h = h
  load_ctx_frame t (some c) h = h

  update_ctx_frame :
      (g : Ctx → Ctx) (t : List Call) (m : Option Ctx)
      → ((c : Ctx)
          → I (record { trace = t; mem = some c })
          → I (record { trace = t; mem = some (g c) }))
      → I (record { trace = t; mem = m })
      → I (final (update_ctx g (record { trace = t; mem = m })))
  unfolding update_ctx
  update_ctx_frame g t none keep h = h
  update_ctx_frame g t (some c) keep h = keep c h

  release_cm_id_frame :
      ((t : List Call) (c : Ctx)
        → is_null c.cm_id ≡ false
        → I (record { trace = t; mem = some c })
        → I (record { trace = destroy_id c.cm_id ∷ t; mem = some (record c { cm_id = null }) }))
      → (t : List Call) (m : Option Ctx) → I (record { trace = t; mem = m })
      → I (final (release_cm_id (record { trace = t; mem = m })))
  unfolding release_cm_id
  release_cm_id_frame keep t none h = h
  release_cm_id_frame keep t (some c) h = elim (Bool-cases (is_null c.cm_id)) [
    | inl z ↦ rw z h
    | inr z ↦ rw z (keep t c z h)
  ]

module _ {I : FsWorld → Type 0} ⦃f : Frame I⦄ where
  pub call-Keeps : (k : Call) → still k ≡ true → Keeps I (call k)
  unfolding call
  call-Keeps k q = record { at = λ w h. f.still_call k w q h }

  pub call_for-Keeps :
      {A : Type 0} (answer : List Call → Call → A) (k : Call)
      → still k ≡ true
      → Keeps I (call_for answer k)
  unfolding call_for
  call_for-Keeps answer k q = record { at = λ w h. f.still_call k w q h }

  pub observe-Keeps : {A : Type 0} (answer : List Call → A) → Keeps I (observe answer)
  unfolding observe
  observe-Keeps answer = record { at = λ w h. h }

  pub load_ctx-Keeps : Keeps I load_ctx
  load_ctx-Keeps = record { at = λ w h. load_ctx_frame I w.trace w.mem h }

  pub update_ctx-Keeps :
      (g : Ctx → Ctx)
      → ((c : Ctx) → (g c).cm_id ≡ c.cm_id)
      → ((c : Ctx) → (g c).connected ≡ c.connected)
      → Keeps I (update_ctx g)
  update_ctx-Keeps g same up = record {
    at = λ w h. update_ctx_frame I g w.trace w.mem (λ c. f.change g w.trace c (same c) (up c)) h;
  }

  pub set_connected-Keeps : Keeps I (update_ctx (λ c. record c { connected = 1 }))
  set_connected-Keeps = record {
    at = λ w h. update_ctx_frame I _ w.trace w.mem (λ c. f.set_flag w.trace c) h;
  }

  pub release_cm_id-Keeps : Keeps I release_cm_id
  release_cm_id-Keeps = record { at = λ w h. release_cm_id_frame I f.release_id w.trace w.mem h }

  pub store_slot-Keeps : (a : Array) (i p : ℕ) → Keeps I (store_slot a i p)
  unfolding store_slot
  store_slot-Keeps a i p = search (keeps_rules)

  pub ruleset frame_rules = (
    keeps_rules, call-Keeps, call_for-Keeps, observe-Keeps, load_ctx-Keeps, update_ctx-Keeps,
    store_slot-Keeps,
  )
