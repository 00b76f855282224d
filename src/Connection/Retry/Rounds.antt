-- ===== src/Connection/Retry/Rounds.antt =====
-- retry_rdma_connect of src/Connection.cc: its rounds, the resources that it makes and destroys,
-- and the events.
use rdma_cpp.Common.{
  ℕ, zero, suc, ◌+◌, ◌*◌, ◌≤◌, ◌≡◌, ◌≢◌, refl, false, ◌<◌, List, [], ◌∷◌, count, arith, ◌∙◌,
}
use rdma_cpp.Common.Cint.{ℤ, is_null, is_set}
use rdma_cpp.Common.Cmd.{ok, pure, call, call_for, observe, get_mem, put_mem, ◌>>=◌}
use rdma_cpp.Common.Cmd.Returns.{
  Triple, Triple-pure, Triple-if, Triple-bind, Triple-weaken, Triple-Keeps,
}
use rdma_cpp.Connection.Foreign.{Call, Env, create_rdma_resources, destroy_rdma_resources, usleep}
use rdma_cpp.Connection.{Params, ConnWorld, client_connect}
use rdma_cpp.Connection.State.{fetched_events, acked_events, is_attempt, State}
use rdma_cpp.Connection.Client.{client_connect_lem}
use rdma_cpp.Connection.Retry.{int_eq, recreate, retry_rounds, retry_rdma_connect}
use rdma_cpp.Connection.Retry.Made.{is_create, is_destroy, Made, client_connect-Keeps}

-- Every fetched event is acknowledged, at most `attempts` calls resolved, and so many calls made
-- and destroyed resources. The identifier may be anything.
pub record Idle (env : Env) (attempts made unmade : ℕ) (w : ConnWorld) : Type 0 where
  pub events : fetched_events env w.trace ≡ acked_events w.trace
  pub bound : count is_attempt w.trace ≤ attempts
  pub ah : is_null w.mem.ah ≡ false
  pub create_count : count is_create w.trace ≡ made
  pub destroy_count : count is_destroy w.trace ≡ unmade

-- The end of at most `left` rounds: SUCCESS after one more creation than destructions, or FAILURE
-- after as many of both, or where the last creation failed.
pub data Tried (env : Env) (attempts made unmade left : ℕ) (ret : ℤ) (w : ConnWorld) : Type 0 where
  connected :
      (rounds : ℕ)
      → rounds < left
      → ret ≡ env.success
      → Idle env attempts (made + rounds + 1) (unmade + rounds) w
      → Tried env attempts made unmade left ret w
  not_created :
      (rounds : ℕ)
      → rounds < left
      → ret ≡ env.failure
      → Idle env attempts (made + rounds + 1) (unmade + rounds) w
      → Tried env attempts made unmade left ret w
  balanced :
      (rounds : ℕ)
      → rounds ≤ left
      → ret ≡ env.failure
      → Idle env attempts (made + rounds) (unmade + rounds) w
      → Tried env attempts made unmade left ret w

module _ {env : Env} {a a' m u m' u' : ℕ} where
  Idle-le : (w : ConnWorld) → a ≤ a' → m ≡ m' → u ≡ u' → Idle env a m u w → Idle env a' m' u' w
  Idle-le w le hm hu h = record {
    events = h.events;
    bound = omega (arith, h.bound, le);
    ah = h.ah;
    create_count = h.create_count ∙ hm;
    destroy_count = h.destroy_count ∙ hu;
  }

-- One round more, before the others.
Tried-suc :
    {env : Env} {a a' m u left : ℕ} (ret : ℤ) (w : ConnWorld)
    → a ≤ a'
    → Tried env a (m + 1) (u + 1) left ret w
    → Tried env a' m u (suc left) ret w
Tried-suc ret w le (connected n lt e h) =
    connected (suc n) (omega (arith, lt)) e (Idle-le w le (omega arith) (omega arith) h)
Tried-suc ret w le (not_created n lt e h) =
    not_created (suc n) (omega (arith, lt)) e (Idle-le w le (omega arith) (omega arith) h)
Tried-suc ret w le (balanced n lt e h) =
    balanced (suc n) (omega (arith, lt)) e (Idle-le w le (omega arith) (omega arith) h)

-- With a new identifier: the client's state, and the counts.
abbrev Ready : Env → (attempts made unmade : ℕ) → ConnWorld → Type 0
Ready env a m u w = (work : ℕ) × (State env a [] work w × Made m u w)

module _ {env : Env} (set : (t : List Call) → is_null (env.id_of t) ≡ false) {a m u : ℕ} where
  recreate_lem : Triple (Idle env a m u) (recreate env) (λ _. Ready env a (m + 1) u)
  unfolding recreate call_for observe get_mem put_mem pure ◌>>=◌
  recreate_lem = record {
    at = λ w h. (
      env.int_of w.trace create_rdma_resources,
      _,
      refl,
      (
        w.mem.work_rdma_cm,
        (
          record {
            events = h.events;
            attempts = omega (arith, h.bound);
            id = set (create_rdma_resources ∷ w.trace);
            ah = h.ah;
            work_eq = refl;
          },
          record {
            create_count = omega (arith, h.create_count);
            destroy_count = omega (arith, h.destroy_count);
          },
        ),
      ),
    );
  }

module _ {env : Env} (param : Params) (differ : env.failure ≢ env.success) {a m u : ℕ} where
  try_lem :
      Triple
        (Ready env a m u)
        (client_connect env param)
        (λ _. Idle env (a + (env.num_of_retries + 1)) m u)
  try_lem = record {
    at = λ w (work, h).
        (Triple-weaken
            (Triple-Keeps (client_connect_lem param differ a (omega arith))
              (client_connect-Keeps env param))
            (λ v q. q)
            (λ r v ((_, s, _), k). record {
              events = s.events;
              bound = s.attempts;
              ah = s.ah;
              create_count = k.create_count;
              destroy_count = k.destroy_count;
            })).at
          w h;
  }

module _ {env : Env} {a m u : ℕ} where
  unmake_lem :
      Triple
        (Idle env a m u)
        (call_for env.int_of destroy_rdma_resources)
        (λ _. Idle env a m (u + 1))
  unfolding call_for
  unmake_lem = record {
    at = λ w h. (
      env.int_of w.trace destroy_rdma_resources,
      record w { trace = destroy_rdma_resources ∷ w.trace },
      refl,
      record {
        events = h.events;
        bound = omega (arith, h.bound);
        ah = h.ah;
        create_count = omega (arith, h.create_count);
        destroy_count = omega (arith, h.destroy_count);
      },
    );
  }

  sleep_lem : (n : ℕ) → Triple (Idle env a m u) (call (usleep n)) (λ _. Idle env a m u)
  unfolding call
  sleep_lem n = record {
    at = λ w h. (
      tt,
      record w { trace = usleep n ∷ w.trace },
      refl,
      record {
        events = h.events;
        bound = omega (arith, h.bound);
        ah = h.ah;
        create_count = omega (arith, h.create_count);
        destroy_count = omega (arith, h.destroy_count);
      },
    );
  }

budget : (n b : ℕ) → suc n * b ≡ b + n * b
budget n b = grind arith

module _ {env : Env} (param : Params) (differ : env.failure ≢ env.success)
    (set : (t : List Call) → is_null (env.id_of t) ≡ false) where
  rounds_lem :
      (n a m u : ℕ)
      → Triple
          (Idle env a m u)
          (retry_rounds env param n)
          (Tried env (a + n * (env.num_of_retries + 1)) m u n)
  unfolding retry_rounds
  rounds_lem zero a m u =
      Triple-pure env.failure (λ w h.
        balanced 0 (omega arith) refl (Idle-le w (omega arith) (omega arith) (omega arith) h))
  rounds_lem (suc n) a m u = Triple-bind (recreate_lem set) (λ failed.
      Triple-if (is_set failed) _ _
        (λ _. Triple-pure env.failure (λ w (work, (s, k)).
          not_created 0 (omega arith) refl (record {
            events = s.events;
            bound = omega (arith, s.attempts, budget n (env.num_of_retries + 1));
            ah = s.ah;
            create_count = omega (arith, k.create_count);
            destroy_count = omega (arith, k.destroy_count);
          })))
        (λ _. Triple-bind (try_lem param differ) (λ ret.
          Triple-if (int_eq ret env.success) _ _
            (λ _. Triple-pure env.success (λ w h. connected 0 (omega arith) refl (
              Idle-le w (omega (arith, budget n (env.num_of_retries + 1))) (omega arith)
                (omega arith) h)))
            (λ _. Triple-bind unmake_lem (λ failed.
              Triple-if (is_set failed) _ _
                (λ _. Triple-pure env.failure (λ w h. balanced 1 (omega arith) refl (
                  Idle-le w (omega (arith, budget n (env.num_of_retries + 1))) (omega arith)
                    (omega arith) h)))
                (λ _. Triple-bind (sleep_lem 100000) (λ _.
                  Triple-weaken (rounds_lem n (a + (env.num_of_retries + 1)) (m + 1) (u + 1))
                    (λ w h. h)
                    (λ r w h.
                      Tried-suc r w (omega (arith, budget n (env.num_of_retries + 1))) h))))))))

-- Let FAILURE differ from SUCCESS, and let create_rdma_resources always leave an identifier that is
-- set. On a context whose array `ah` is set and of which every fetched event was acknowledged,
-- retry_rdma_connect returns. It runs at most ten rounds with a call of create_rdma_resources. It
-- returns SUCCESS after one more call of create_rdma_resources than of destroy_rdma_resources, and
-- FAILURE after as many of both or after a creation that is not followed by a destruction. Every
-- event that it fetched is acknowledged, and it makes at most 10 * (NUM_OF_RETRIES + 1) calls that
-- resolve an address or a route.
pub retry_rdma_connect-Tried :
    (env : Env) (param : Params) (w : ConnWorld)
    → env.failure ≢ env.success
    → ((t : List Call) → is_null (env.id_of t) ≡ false)
    → is_null w.mem.ah ≡ false
    → fetched_events env w.trace ≡ acked_events w.trace
    → (ret : ℤ) × (w' : ConnWorld) × (retry_rdma_connect env param w ≡ ok ret w')
      × Tried env
          (count is_attempt w.trace + 10 * (env.num_of_retries + 1))
          (count is_create w.trace)
          (count is_destroy w.trace)
          10
          ret
          w'
unfolding retry_rdma_connect
retry_rdma_connect-Tried env param w differ set ah settled =
    (rounds_lem param differ set 10 _ _ _).at w (record {
      events = settled;
      bound = omega arith;
      ah = ah;
      create_count = refl;
      destroy_count = refl;
    })
