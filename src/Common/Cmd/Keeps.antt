-- ===== src/Common/Cmd/Keeps.antt =====
-- Invariants of commands, one rule for each way to build a command.
use mathlib.Core.Path.{◌≡◌, refl}
use mathlib.Core.Bool.{Bool, true, false}
use rdma_cpp.Common.Tests.{if◌then◌else◌}
use rdma_cpp.Common.Cmd.{
  Run, ok, fault, exited, out_of_fuel, Cmd, final, and_then, pure, crash, leave, stop, ◌>>=◌,
}

-- `m` keeps `P`, however it ends.
pub record Keeps {W A : Type 0} (P : W → Type 0) (m : Cmd W A) : Type 0 where
  pub at : (w : W) → P w → P (final (m w))

module _ {W A : Type 0} {P : W → Type 0} where
  pub Keeps-pure : (a : A) → Keeps P (pure a)
  unfolding pure
  Keeps-pure a = record { at = λ w h. h }

  pub Keeps-crash : Keeps P (crash {A = A})
  unfolding crash
  Keeps-crash = record { at = λ w h. h }

  pub Keeps-leave : Keeps P (leave {A = A})
  unfolding leave
  Keeps-leave = record { at = λ w h. h }

  pub Keeps-stop : Keeps P (stop {A = A})
  unfolding stop
  Keeps-stop = record { at = λ w h. h }

  pub Keeps-if : (b : Bool) (m n : Cmd W A) → Keeps P m → Keeps P n → Keeps P (if b then m else n)
  Keeps-if true m n km kn = km
  Keeps-if false m n km kn = kn

module _ {W A B : Type 0} {P : W → Type 0} where
  and_then-Keeps :
      (r : Run W A) (k : A → Cmd W B)
      → P (final r)
      → ((a : A) → Keeps P (k a))
      → P (final (and_then r k))
  and_then-Keeps (ok a w) k h keeps = (keeps a).at w h
  and_then-Keeps (fault w) k h keeps = h
  and_then-Keeps (exited w) k h keeps = h
  and_then-Keeps (out_of_fuel w) k h keeps = h

  pub Keeps-bind :
      (m : Cmd W A) (k : A → Cmd W B) → Keeps P m → ((a : A) → Keeps P (k a)) → Keeps P (m >>= k)
  unfolding ◌>>=◌
  Keeps-bind m k km kk = record { at = λ w h. and_then-Keeps (m w) k (km.at w h) kk }

module _ {W A B : Type 0} {P : W → Type 0} where
  -- The same, where the rest may use what `m` returned.
  pub Keeps-bind_ok :
      (m : Cmd W A) (k : A → Cmd W B)
      → Keeps P m
      → ((a : A) (w w' : W) → m w ≡ ok a w' → P w' → P (final (k a w')))
      → Keeps P (m >>= k)
  unfolding ◌>>=◌
  Keeps-bind_ok m k km kk = record { at = λ w h. ends w (m w) refl (km.at w h) }
    where
      ends : (w : W) (r : Run W A) → m w ≡ r → P (final r) → P (final (and_then r k))
      ends w (ok a w') e h = kk a w w' e h
      ends w (fault w') e h = h
      ends w (exited w') e h = h
      ends w (out_of_fuel w') e h = h

pub ruleset keeps_rules = (Keeps-pure, Keeps-crash, Keeps-leave, Keeps-stop, Keeps-if, Keeps-bind)
