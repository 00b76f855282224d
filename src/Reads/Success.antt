-- ===== src/Reads/Success.antt =====
-- fs_rdma_do_reads of src/c/transport.c where every call succeeds.
use rdma_cpp.Common.{
  ℕ, suc, ◌+◌, ◌-◌, ◌≤◌, ◌≡◌, refl, sym, ◌∙◌, false, Option, some, List, [], ◌∷◌, ◌==◌, length, set,
  length-set, lt→ltb, Bool-cases, inl, inr, arith,
}
use rdma_cpp.Common.Cint.{pos, Ptr, is_null}
use rdma_cpp.Common.Cmd.{call, call_for, observe, ◌>>=◌}
use rdma_cpp.Common.Cmd.Returns.{Triple, Triple-pure, Triple-bind, Triple-fact}
use rdma_cpp.Reads.Foreign.{ReadChunk, Iovec, Sge, SendWr, PostEnv, PostCall, register_mr, post_ref}
use rdma_cpp.Reads.{PostWorld, measure, Built, built, unregistered, build, push_vector}
use rdma_cpp.Reads.Build.{measure_more, measure-le}
use rdma_cpp.Reads.Posts.{latest_buffer}

-- Foreign code that always succeeds.
pub record Succeeds (env : PostEnv) : Type 0 where
  pub ints : (t : List PostCall) (k : PostCall) → env.int_of t k ≡ pos 0
  pub ptrs : (t : List PostCall) (k : PostCall) → is_null (env.ptr_of t k) ≡ false

-- The latest buffer, and the room in the array `vector`.
pub record At (env : PostEnv) (b : Option (Ptr × ℕ)) (room : ℕ) (w : PostWorld) : Type 0 where
  pub latest : latest_buffer env w.trace ≡ b
  pub room_le : w.mem.count + room ≤ length w.mem.vector

-- A registration that did not fail.
abbrev pub AllMade : Built → Type 0
AllMade (built list wr t) = Unit {0}
AllMade (unregistered t) = ⊥

module _ (env : PostEnv) (good : Succeeds env) where
  open good use {ints, ptrs}

  -- A call of neither iobuf_get2 nor ibv_post_send.
  abbrev Neutral : PostCall → Type 0
  Neutral k = (t : List PostCall) → latest_buffer env (k ∷ t) ≡ latest_buffer env t

  module _ {b : Option (Ptr × ℕ)} {room : ℕ} where
    pub told : (k : PostCall) → Neutral k → Triple (At env b room) (call k) (λ _. At env b room)
    unfolding call
    told k n = record {
      at = λ w h. (
        tt,
        record w { trace = k ∷ w.trace },
        refl,
        record { latest = n w.trace ∙ h.latest; room_le = h.room_le },
      );
    }

    pub asked_int :
        (k : PostCall)
        → Neutral k
        → Triple (At env b room) (call_for env.int_of k) (λ r w. At env b room w × (r ≡ pos 0))
    unfolding call_for
    asked_int k n = record {
      at = λ w h. (
        env.int_of w.trace k,
        record w { trace = k ∷ w.trace },
        refl,
        (record { latest = n w.trace ∙ h.latest; room_le = h.room_le }, ints w.trace k),
      );
    }

    pub asked_ptr :
        (k : PostCall)
        → Neutral k
        → Triple
            (At env b room)
            (call_for env.ptr_of k)
            (λ p w. At env b room w × (is_null p ≡ false))
    unfolding call_for
    asked_ptr k n = record {
      at = λ w h. (
        env.ptr_of w.trace k,
        record w { trace = k ∷ w.trace },
        refl,
        (record { latest = n w.trace ∙ h.latest; room_le = h.room_le }, ptrs w.trace k),
      );
    }

    watched : Triple (At env b room) (observe env.last_lkey) (λ _. At env b room)
    unfolding observe
    watched = record { at = λ w h. (env.last_lkey w.trace, w, refl, h) }

    pushed : (v : Iovec) → Triple (At env b (suc room)) (push_vector v) (λ _. At env b room)
    unfolding push_vector ◌>>=◌
    pushed v = record {
      at = λ w h.
          let inside = lt→ltb w.mem.count (length w.mem.vector) (omega (arith, h.room_le)) in
          (
            tt,
            record w {
              mem = record (w.mem) {
                count = w.mem.count + 1;
                vector = set (w.mem.vector) w.mem.count v;
              };
            },
            rw inside,
            record {
              latest = h.latest;
              room_le = omega (arith, length-set (w.mem.vector) w.mem.count v, h.room_le);
            },
          );
    }

  pub build_runs :
      {b : Option (Ptr × ℕ)} (post : Ptr) (cs : List ReadChunk) (i size n total : ℕ) (ptr : Ptr)
      (list : List Sge) (wr : List SendWr) (t : ℕ)
      → measure cs i size ≡ some (n, total)
      → Triple
          (At env b (n - i))
          (build env post cs i ptr list wr t)
          (λ made w. At env b 0 w × AllMade made)
  unfolding build measure
  build_runs post [] i size n total ptr list wr t h = cc
  build_runs post (c ∷ cs) i size n total ptr list wr t h = elim (Bool-cases (c.rc_discrim == 0)) [
    | inl e ↦ rw e (
        Triple-pure _
          (λ w s. (record { latest = s.latest; room_le = omega (arith, s.room_le) }, tt)))
    | inr e ↦
        let more = sym (measure_more c cs i size e) ∙ h in
        let le = measure-le cs (i + 1) _ n total more in
        let room : n - i ≡ suc (n - (i + 1)) = omega (arith, le) in
        rw (e, room)
          (Triple-bind (pushed _) (λ _.
            Triple-bind
              (asked_int (register_mr (record { iov_base = ptr; iov_len = c.rs_length }))
                (λ t. refl))
              (λ ret. Triple-fact (λ z. rw z (
                Triple-bind watched (λ lkey. Triple-bind (told post_ref (λ t. refl)) (λ _.
                  build_runs post cs (i + 1) _ n total (ptr + c.rs_length) _ _ (t + 1) more)))))))
  ]
