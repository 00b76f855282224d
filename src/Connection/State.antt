-- ===== src/Connection/State.antt =====
-- The events and the resolving calls of src/Connection.cc, counted along the trace.
use rdma_cpp.Common.{
  ℕ, suc, ◌≤◌, ◌≡◌, refl, ap, sym, ◌∙◌, Bool, true, false, List, [], ◌∷◌, ◌++◌, count,
  if◌then◌else◌, arith,
}
use rdma_cpp.Common.Cint.{ℤ, is_null, is_set, Ptr}
use rdma_cpp.Common.Cmd.{call, call_for, observe, get_mem, put_mem, ◌>>=◌}
use rdma_cpp.Common.Cmd.Returns.{Triple}
use rdma_cpp.Connection.Foreign.{
  Event, Env, Call, get_cm_event, ack_cm_event, resolve_addr, resolve_route,
}
use rdma_cpp.Connection.{ConnWorld, event_answer, take_context, set_work}

-- The events that were fetched, and those that were acknowledged, newest first.
abbrev pub fetched_events : Env → List Call → List Event
fetched_events env [] = []
fetched_events env (get_cm_event ch ∷ t) =
    if is_set (env.int_of t (get_cm_event ch))
    then fetched_events env t
    else env.event_of t (get_cm_event ch) ∷ fetched_events env t
fetched_events env (k ∷ t) = fetched_events env t

abbrev pub acked_events : List Call → List Event
acked_events [] = []
acked_events (ack_cm_event e ∷ t) = e ∷ acked_events t
acked_events (k ∷ t) = acked_events t

abbrev pub is_attempt : Call → Bool
is_attempt (resolve_addr _ _) = true
is_attempt (resolve_route _) = true
is_attempt _ = false

-- The fetched events are the acknowledged ones and those of `open_events`; there were at most
-- `most` resolving calls; and the pointers that the code follows are set.
pub record State (env : Env) (most : ℕ) (open_events : List Event) (work : ℕ) (w : ConnWorld)
    : Type 0 where
  pub events : fetched_events env w.trace ≡ open_events ++ acked_events w.trace
  pub attempts : count is_attempt w.trace ≤ most
  pub id : is_null w.mem.cm_id ≡ false
  pub ah : is_null w.mem.ah ≡ false
  pub work_eq : w.mem.work_rdma_cm ≡ work

-- A call that none of these counts.
abbrev pub Neutral : Call → Type 0
Neutral k =
    (is_attempt k ≡ false)
    × ((env : Env) (t : List Call) → fetched_events env (k ∷ t) ≡ fetched_events env t)
    × ((t : List Call) → acked_events (k ∷ t) ≡ acked_events t)

module _ {env : Env} {most work : ℕ} {es : List Event} where
  State-Neutral :
      (k : Call)
      → Neutral k
      → (w : ConnWorld) → State env most es work w
      → State env most es work (record w { trace = k ∷ w.trace })
  State-Neutral k (a, f, h) w s = record {
    events = f env w.trace ∙ s.events ∙ sym (ap (λ x. es ++ x) (h w.trace));
    attempts = rw a (omega (arith, s.attempts));
    id = s.id;
    ah = s.ah;
    work_eq = s.work_eq;
  }

  pub Triple-call_for :
      {A : Type 0} (answer : List Call → Call → A) (k : Call)
      → Neutral k
      → Triple (State env most es work) (call_for answer k) (λ _. State env most es work)
  unfolding call_for
  Triple-call_for answer k h = record {
    at = λ w s. (answer w.trace k, record w { trace = k ∷ w.trace }, refl, State-Neutral k h w s);
  }

  pub Triple-observe :
      {A : Type 0} (answer : List Call → A)
      → Triple (State env most es work) (observe answer) (λ _. State env most es work)
  unfolding observe
  Triple-observe answer = record { at = λ w s. (answer w.trace, w, refl, s) }

  -- A read of the context, with what is known of it.
  pub Triple-get :
      Triple
        (State env most es work)
        get_mem
        (λ c w. State env most es work w × (c.work_rdma_cm ≡ work))
  unfolding get_mem
  Triple-get = record { at = λ w s. (w.mem, w, refl, (s, s.work_eq)) }

  pub Triple-attempt :
      (k : Call)
      → is_attempt k ≡ true
      → ((t : List Call) → fetched_events env (k ∷ t) ≡ fetched_events env t)
      → ((t : List Call) → acked_events (k ∷ t) ≡ acked_events t)
      → Triple (State env most es work) (call_for env.int_of k) (λ _. State env (suc most) es work)
  unfolding call_for
  Triple-attempt k a f h = record {
    at = λ w s. (
      env.int_of w.trace k,
      record w { trace = k ∷ w.trace },
      refl,
      record {
        events = f w.trace ∙ s.events ∙ sym (ap (λ x. es ++ x) (h w.trace));
        attempts = rw a (omega (arith, s.attempts));
        id = s.id;
        ah = s.ah;
        work_eq = s.work_eq;
      },
    );
  }

  pub State-le :
      {more : ℕ} (w : ConnWorld) → most ≤ more → State env most es work w → State env more es work w
  State-le w le s = record {
    events = s.events;
    attempts = omega (arith, le, s.attempts);
    id = s.id;
    ah = s.ah;
    work_eq = s.work_eq;
  }

  pub set_work_lem :
      (x : ℕ) → Triple (State env most es work) (set_work x) (λ _. State env most es x)
  unfolding set_work get_mem put_mem ◌>>=◌
  set_work_lem x = record {
    at = λ w s. (
      tt,
      record w { mem = record (w.mem) { work_rdma_cm = x } },
      refl,
      record { events = s.events; attempts = s.attempts; id = s.id; ah = s.ah; work_eq = refl },
    );
  }

  pub take_context_lem :
      Triple (State env most es work) (take_context env) (λ _. State env most es work)
  unfolding take_context get_mem put_mem observe ◌>>=◌
  take_context_lem = record {
    at = λ w s. (
      tt,
      record w { mem = record (w.mem) { context = env.verbs_of w.mem.cm_id w.trace } },
      rw (s.id),
      record {
        events = s.events;
        attempts = s.attempts;
        id = s.id;
        ah = s.ah;
        work_eq = s.work_eq;
      },
    );
  }

-- The answer of rdma_get_cm_event: where it succeeds, an event waits for its acknowledgement.
abbrev pub IsFetched : Env → (most work : ℕ) → ℤ × Event → ConnWorld → Type 0
IsFetched env most work got w =
    (is_set (got.0) ≡ true → State env most [] work w)
    × (is_set (got.0) ≡ false → State env most (got.1 ∷ []) work w)

module _ {env : Env} {most work : ℕ} where
  pub Triple-fetch :
      (ch : Ptr)
      → Triple
          (State env most [] work)
          (call_for (event_answer env) (get_cm_event ch))
          (IsFetched env most work)
  unfolding call_for
  Triple-fetch ch = record {
    at = λ w s. (
      event_answer env w.trace (get_cm_event ch),
      record w { trace = get_cm_event ch ∷ w.trace },
      refl,
      (
        (λ z. record {
          events = rw z s.events;
          attempts = omega (arith, s.attempts);
          id = s.id;
          ah = s.ah;
          work_eq = s.work_eq;
        }),
        (λ z. record {
          events = rw z (ap (λ x. env.event_of w.trace (get_cm_event ch) ∷ x) s.events);
          attempts = omega (arith, s.attempts);
          id = s.id;
          ah = s.ah;
          work_eq = s.work_eq;
        }),
      ),
    );
  }

  pub Triple-ack :
      (e : Event)
      → Triple (State env most (e ∷ []) work) (call (ack_cm_event e)) (λ _. State env most [] work)
  unfolding call
  Triple-ack e = record {
    at = λ w s. (
      tt,
      record w { trace = ack_cm_event e ∷ w.trace },
      refl,
      record {
        events = s.events;
        attempts = omega (arith, s.attempts);
        id = s.id;
        ah = s.ah;
        work_eq = s.work_eq;
      },
    );
  }
