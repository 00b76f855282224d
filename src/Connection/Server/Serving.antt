-- ===== src/Connection/Server/Serving.antt =====
-- The parts of rdma_server_connect of src/Connection.cc that keep the events, the identifier and
-- the flag in step.
use rdma_cpp.Common.{ℕ, ◌≡◌, refl, sym, ap, ◌∙◌, true, false, List, [], ◌∷◌, ◌++◌}
use rdma_cpp.Common.Cint.{Ptr, is_null, is_set}
use rdma_cpp.Common.Cmd.{call, call_for, observe, get_mem, put_mem}
use rdma_cpp.Common.Cmd.Returns.{Triple, Triple-if, Triple-bind, Triple-fact}
use rdma_cpp.Connection.Foreign.{Event, Call, Env, get_cm_event, alloc_ctx}
use rdma_cpp.Connection.{Conn, ConnWorld, event_answer, take_context, set_work}
use rdma_cpp.Connection.State.{fetched_events, acked_events}
use rdma_cpp.Connection.Server.{allocate_ctx}

-- The fetched events are the acknowledged ones and those of `open_events`; the identifier and the
-- flag are as given.
pub record Serving (env : Env) (open_events : List Event) (id : Ptr) (work : ℕ) (w : ConnWorld)
    : Type 0 where
  pub events : fetched_events env w.trace ≡ open_events ++ acked_events w.trace
  pub same_id : w.mem.cm_id ≡ id
  pub work_eq : w.mem.work_rdma_cm ≡ work

-- A call that neither fetches nor acknowledges an event.
abbrev pub Silent : Call → Type 0
Silent k =
    ((env : Env) (t : List Call) → fetched_events env (k ∷ t) ≡ fetched_events env t)
    × ((t : List Call) → acked_events (k ∷ t) ≡ acked_events t)

module _ {env : Env} {es : List Event} {id : Ptr} {work : ℕ} where
  Serving-Silent :
      (k : Call)
      → Silent k
      → (w : ConnWorld) → Serving env es id work w
      → Serving env es id work (record w { trace = k ∷ w.trace })
  Serving-Silent k (f, a) w s = record {
    events = f env w.trace ∙ s.events ∙ sym (ap (λ x. es ++ x) (a w.trace));
    same_id = s.same_id;
    work_eq = s.work_eq;
  }

  pub ask :
      {A : Type 0} (answer : List Call → Call → A) (k : Call)
      → Silent k
      → Triple (Serving env es id work) (call_for answer k) (λ _. Serving env es id work)
  unfolding call_for
  ask answer k h = record {
    at = λ w s. (answer w.trace k, record w { trace = k ∷ w.trace }, refl, Serving-Silent k h w s);
  }

  pub tell :
      (k : Call) → Silent k → Triple (Serving env es id work) (call k) (λ _. Serving env es id work)
  unfolding call
  tell k h = record {
    at = λ w s. (tt, record w { trace = k ∷ w.trace }, refl, Serving-Silent k h w s);
  }

  pub look :
      Triple
        (Serving env es id work)
        get_mem
        (λ c w. Serving env es id work w × ((c.cm_id ≡ id) × (c.work_rdma_cm ≡ work)))
  unfolding get_mem
  look = record { at = λ w s. (w.mem, w, refl, (s, (s.same_id, s.work_eq))) }

  pub watch :
      {A : Type 0} (answer : List Call → A)
      → Triple (Serving env es id work) (observe answer) (λ _. Serving env es id work)
  unfolding observe
  watch answer = record { at = λ w s. (answer w.trace, w, refl, s) }

  pub store :
      (c : Conn) {id' : Ptr} {work' : ℕ}
      → c.cm_id ≡ id'
      → c.work_rdma_cm ≡ work'
      → Triple (Serving env es id work) (put_mem c) (λ _. Serving env es id' work')
  unfolding put_mem
  store c i x = record {
    at = λ w s.
        (tt, record w { mem = c }, refl, record { events = s.events; same_id = i; work_eq = x });
  }

  pub set_work_lem :
      (x : ℕ) → Triple (Serving env es id work) (set_work x) (λ _. Serving env es id x)
  unfolding set_work
  set_work_lem x = Triple-bind look (λ c. Triple-fact (λ (i, _). store _ i refl))

  pub take_context_lem :
      is_null id ≡ false
      → Triple (Serving env es id work) (take_context env) (λ _. Serving env es id work)
  unfolding take_context
  take_context_lem set = Triple-bind look (λ c. Triple-fact (λ (i, x).
      Triple-if (is_null c.cm_id) _ _ (λ z. let same = ap is_null i in cc (z, set, same))
        (λ _.
          Triple-bind (watch (env.verbs_of c.cm_id))
            (λ verbs. store (record c { context = verbs }) i x))))

  pub allocate_ctx_lem :
      Triple (Serving env es id work) (allocate_ctx env) (λ _. Serving env es id work)
  unfolding allocate_ctx
  allocate_ctx_lem = Triple-bind (tell alloc_ctx ((λ env t. refl), λ t. refl)) (λ _.
      Triple-bind (watch env.ah_of)
        (λ ah. Triple-bind look (λ c. Triple-fact (λ (i, x). store _ i x))))

module _ {env : Env} {id : Ptr} {work : ℕ} where
  -- Where rdma_get_cm_event succeeds, an event waits for its acknowledgement.
  pub fetch_lem :
      (ch : Ptr)
      → ((t : List Call) (k : Call) → is_null (env.event_of t k).id ≡ false)
      → Triple (Serving env [] id work) (call_for (event_answer env) (get_cm_event ch)) (λ got w.
        ((is_set (got.0) ≡ true → Serving env [] id work w)
          × (is_set (got.0) ≡ false → Serving env (got.1 ∷ []) id work w))
        × (is_null (got.1.id) ≡ false))
  unfolding call_for
  fetch_lem ch set = record {
    at = λ w s. (
      event_answer env w.trace (get_cm_event ch),
      record w { trace = get_cm_event ch ∷ w.trace },
      refl,
      (
        (
          (λ z. record { events = rw z s.events; same_id = s.same_id; work_eq = s.work_eq }),
          (λ z. record {
            events = rw z (ap (λ x. env.event_of w.trace (get_cm_event ch) ∷ x) s.events);
            same_id = s.same_id;
            work_eq = s.work_eq;
          }),
        ),
        set w.trace (get_cm_event ch),
      ),
    );
  }
