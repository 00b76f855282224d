-- ===== src/Common/Cmd/Returns.antt =====
-- Total correctness: a command returns, and its result and its last state satisfy a condition.
use mathlib.Core.Path.{◌≡◌, refl, subst}
use mathlib.Core.Logic.{◌⊎◌, inl, inr}
use mathlib.Core.Bool.{Bool, true, false}
use rdma_cpp.Common.Tests.{if◌then◌else◌}
use rdma_cpp.Common.Cmd.{ok, Cmd, final, pure, ◌>>=◌}
use rdma_cpp.Common.Cmd.Keeps.{Keeps}

module _ {W A : Type 0} where
  -- From a state that satisfies `P`, the command `m` returns, with `Q`.
  pub record Triple (P : W → Type 0) (m : Cmd W A) (Q : A → W → Type 0) : Type 0 where
    pub at : (w : W) → P w → (a : A) × (w' : W) × (m w ≡ ok a w') × Q a w'

module _ {W A : Type 0} {P : W → Type 0} {Q : A → W → Type 0} where
  pub Triple-pure : (a : A) → ((w : W) → P w → Q a w) → Triple P (pure a) Q
  unfolding pure
  Triple-pure a h = record { at = λ w p. (a, w, refl, h w p) }

  pub Triple-if :
      (b : Bool) (m n : Cmd W A)
      → (b ≡ true → Triple P m Q)
      → (b ≡ false → Triple P n Q)
      → Triple P (if b then m else n) Q
  Triple-if true m n hm hn = hm refl
  Triple-if false m n hm hn = hn refl

  pub Triple-weaken :
      {P' : W → Type 0} {Q' : A → W → Type 0} {m : Cmd W A}
      → Triple P m Q
      → ((w : W) → P' w → P w)
      → ((a : A) (w : W) → Q a w → Q' a w)
      → Triple P' m Q'
  Triple-weaken hm pre post = record {
    at = λ w p. let (a, w', e, q) = hm.at w (pre w p) in (a, w', e, post a w' q);
  }

module _ {W A B : Type 0} {P : W → Type 0} {Q : A → W → Type 0} {R : B → W → Type 0} where
  pub Triple-bind :
      {m : Cmd W A} {k : A → Cmd W B}
      → Triple P m Q
      → ((a : A) → Triple (Q a) (k a) R)
      → Triple P (m >>= k) R
  unfolding ◌>>=◌
  Triple-bind {m} {k} hm hk = record {
    at = λ w p.
        let (a, w1, e, q) = hm.at w p in
        let (b, w2, e2, r) = (hk a).at w1 q in (b, w2, rw (e, e2), r);
  }

module _ {W A : Type 0} {P : W → Type 0} {Q : A → W → Type 0} {F : Type 0} {m : Cmd W A} where
  -- A fact that does not depend on the state is carried along, and then used.
  pub Triple-keep : Triple P m Q → Triple (λ w. P w × F) m (λ a w. Q a w × F)
  Triple-keep h = record { at = λ w (p, f). let (a, w', e, q) = h.at w p in (a, w', e, (q, f)) }

  pub Triple-fact : (F → Triple P m Q) → Triple (λ w. P w × F) m Q
  Triple-fact h = record { at = λ w (p, f). (h f).at w p }

module _ {W A : Type 0} {P K : W → Type 0} {Q : A → W → Type 0} {m : Cmd W A} where
  -- What the command keeps, next to what it achieves.
  pub Triple-Keeps : Triple P m Q → Keeps K m → Triple (λ w. P w × K w) m (λ a w. Q a w × K w)
  Triple-Keeps h keeps = record {
    at = λ w (p, k).
        let (a, w', e, q) = h.at w p in (a, w', e, (q, subst (λ r. K (final r)) e (keeps.at w k)));
  }

module _ {W A : Type 0} {P P' : W → Type 0} {Q : A → W → Type 0} {m : Cmd W A} where
  -- From either of two conditions.
  pub Triple-or : Triple P m Q → Triple P' m Q → Triple (λ w. P w ⊎ P' w) m Q
  Triple-or h h' = record { at = λ w e. elim e [ inl p ↦ h.at w p | inr p ↦ h'.at w p ] }
