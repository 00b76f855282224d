-- ===== src/Reads/Balance.antt =====
-- The references that fs_rdma_do_reads of src/c/transport.c takes on a post, against the read
-- requests that the hardware accepts.
use rdma_cpp.Common.{
  ℕ, suc, ◌+◌, ◌≤◌, ◌<◌, ◌≡◌, refl, Bool, true, false, Option, none, some, List, [], ◌∷◌, count,
  length, length-set, set, lt→ltb, arith,
}
use rdma_cpp.Common.Cint.{is_set}
use rdma_cpp.Common.Cmd.{call, call_for, observe, get_mem, ◌>>=◌}
use rdma_cpp.Common.Cmd.Returns.{Triple}
use rdma_cpp.Reads.Foreign.{Iovec, Sge, SendWr, PostEnv, PostCall, post_ref, post_unref, post_send}
use rdma_cpp.Reads.{PostWorld, push_vector}

abbrev is_ref : PostCall → Bool
is_ref post_ref = true
is_ref _ = false

abbrev is_unref : PostCall → Bool
is_unref post_unref = true
is_unref _ = false

-- How many of `n` requests are accepted, by the result of ibv_post_send and by `bad_wr`.
abbrev pub taken : Bool → Option ℕ → (n : ℕ) → ℕ
taken false bad n = n
taken true none n = 0
taken true (some b) n = b

-- The requests that the calls of ibv_post_send in a trace have handed to the hardware.
abbrev pub accepted : PostEnv → List PostCall → ℕ
accepted env [] = 0
accepted env (post_send sges wrs ∷ t) =
    taken (is_set (env.int_of t (post_send sges wrs))) (env.bad_wr_of t (post_send sges wrs))
      (length wrs)
    + accepted env t
accepted env (k ∷ t) = accepted env t

-- ibv_post_send, when it fails, stores in `bad_wr` one of the requests of its list.
abbrev pub NamesBadWr : PostEnv → Type 0
NamesBadWr env =
    (t : List PostCall) (sges : List Sge) (wrs : List SendWr) (b : ℕ)
    → env.bad_wr_of t (post_send sges wrs) ≡ some b
    → b < length wrs

-- The references taken and not given back are those of the requests that the hardware accepted,
-- and `owed` more.
abbrev pub Owes : PostEnv → (owed : ℕ) → PostWorld → Type 0
Owes env owed w = count is_ref w.trace ≡ count is_unref w.trace + accepted env w.trace + owed

-- With it: the field of the post that the code reads again, and the room in its array.
pub record State (env : PostEnv) (owed reads room : ℕ) (w : PostWorld) : Type 0 where
  pub owes : Owes env owed w
  pub reads_eq : w.mem.fs_rdma_reads ≡ reads
  pub room_le : w.mem.count + room ≤ length w.mem.vector

-- A call that is none of post_ref, post_unref and post_send.
abbrev Neutral : PostCall → Type 0
Neutral k =
    (is_ref k ≡ false)
    × (is_unref k ≡ false)
    × ((env : PostEnv) (t : List PostCall) → accepted env (k ∷ t) ≡ accepted env t)

module _ {env : PostEnv} {owed reads room : ℕ} where
  pub State-Neutral :
      (k : PostCall)
      → Neutral k
      → (w : PostWorld) → State env owed reads room w
      → State env owed reads room (record w { trace = k ∷ w.trace })
  State-Neutral k (r, u, a) w s = record {
    owes = rw (r, u, a) (omega (arith, s.owes));
    reads_eq = s.reads_eq;
    room_le = s.room_le;
  }

  pub Triple-call :
      (k : PostCall)
      → Neutral k
      → Triple (State env owed reads room) (call k) (λ _. State env owed reads room)
  unfolding call
  Triple-call k h = record {
    at = λ w s. (tt, record w { trace = k ∷ w.trace }, refl, State-Neutral k h w s);
  }

  pub Triple-call_for :
      {A : Type 0} (answer : List PostCall → PostCall → A) (k : PostCall)
      → Neutral k
      → Triple (State env owed reads room) (call_for answer k) (λ _. State env owed reads room)
  unfolding call_for
  Triple-call_for answer k h = record {
    at = λ w s. (answer w.trace k, record w { trace = k ∷ w.trace }, refl, State-Neutral k h w s);
  }

  pub Triple-observe :
      {A : Type 0} (answer : List PostCall → A)
      → Triple (State env owed reads room) (observe answer) (λ _. State env owed reads room)
  unfolding observe
  Triple-observe answer = record { at = λ w s. (answer w.trace, w, refl, s) }

  pub Triple-get :
      Triple (State env owed reads room) get_mem (λ p w. State env owed reads room w × (w.mem ≡ p))
  unfolding get_mem
  Triple-get = record { at = λ w s. (w.mem, w, refl, (s, refl)) }

  pub Triple-ref :
      Triple (State env owed reads room) (call post_ref) (λ _. State env (owed + 1) reads room)
  unfolding call
  Triple-ref = record {
    at = λ w s. (
      tt,
      record w { trace = post_ref ∷ w.trace },
      refl,
      record { owes = omega (arith, s.owes); reads_eq = s.reads_eq; room_le = s.room_le },
    );
  }

  pub Triple-unref :
      Triple (State env (suc owed) reads room) (call post_unref) (λ _. State env owed reads room)
  unfolding call
  Triple-unref = record {
    at = λ w s. (
      tt,
      record w { trace = post_unref ∷ w.trace },
      refl,
      record { owes = omega (arith, s.owes); reads_eq = s.reads_eq; room_le = s.room_le },
    );
  }

  pub Triple-push_vector :
      (v : Iovec)
      → Triple (State env owed reads (suc room)) (push_vector v) (λ _. State env owed reads room)
  unfolding push_vector ◌>>=◌
  Triple-push_vector v = record {
    at = λ w s.
        let inside = lt→ltb w.mem.count (length w.mem.vector) (omega (arith, s.room_le)) in
        (
          tt,
          record w {
            mem = record (w.mem) {
              count = w.mem.count + 1;
              vector = set (w.mem.vector) w.mem.count v;
            };
          },
          rw inside,
          record {
            owes = s.owes;
            reads_eq = s.reads_eq;
            room_le = omega (arith, length-set (w.mem.vector) w.mem.count v, s.room_le);
          },
        );
  }
