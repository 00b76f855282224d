-- ===== src/Common/Cmd.antt =====
-- Commands: C code that changes a state `W`, may leave the defined behaviour of C (`fault`), may
-- end the process (`exited`), or may run longer than its fuel.
pub mod Keeps
pub mod Returns
use mathlib.Core.Path.{◌≡◌, refl}
use mathlib.Core.List.{List, ◌∷◌}

-- What the code can change: its own memory, and the record of its calls of foreign code, the
-- newest first.
pub record World (C M : Type 0) : Type 0 where
  pub trace : List C
  pub mem : M

pub data Run (W A : Type 0) : Type 0 where
  ok : A → W → Run W A
  fault : W → Run W A
  exited : W → Run W A
  out_of_fuel : W → Run W A

abbrev pub Cmd : Type 0 → Type 0 → Type 0
Cmd W A = W → Run W A

-- The state in which a run ends, however it ends.
abbrev pub final : {W A : Type 0} → Run W A → W
final (ok a w) = w
final (fault w) = w
final (exited w) = w
final (out_of_fuel w) = w

abbrev pub and_then : {W A B : Type 0} → Run W A → (A → Cmd W B) → Run W B
and_then (ok a w) k = k a w
and_then (fault w) k = fault w
and_then (exited w) k = exited w
and_then (out_of_fuel w) k = out_of_fuel w

unfoldable pub pure : {W A : Type 0} → A → Cmd W A
pure a w = ok a w

-- Undefined behaviour, `exit` and `abort`, and the end of the fuel.
unfoldable pub crash : {W A : Type 0} → Cmd W A
crash w = fault w

unfoldable pub leave : {W A : Type 0} → Cmd W A
leave w = exited w

unfoldable pub stop : {W A : Type 0} → Cmd W A
stop w = out_of_fuel w

module _ {C M : Type 0} where
  -- A call of foreign code that returns nothing: it is recorded.
  unfoldable pub call : C → Cmd (World C M) (Unit {0})
  call c w = ok tt (record w { trace = c ∷ w.trace })

  -- A call whose result is chosen by `answer` from the calls before it.
  unfoldable pub call_for : {A : Type 0} → (List C → C → A) → C → Cmd (World C M) A
  call_for answer c w = ok (answer w.trace c) (record w { trace = c ∷ w.trace })

  -- A value in memory that foreign code maintains.
  unfoldable pub observe : {A : Type 0} → (List C → A) → Cmd (World C M) A
  observe answer w = ok (answer w.trace) w

  unfoldable pub get_mem : Cmd (World C M) M
  get_mem w = ok w.mem w

  unfoldable pub put_mem : M → Cmd (World C M) (Unit {0})
  put_mem m w = ok tt (record w { mem = m })

module _ {W A B : Type 0} where
  infixl 5 ◌>>=◌ ◌>>◌
  -- Opening this opens the commands above too.
  unfoldable pub ◌>>=◌ : Cmd W A → (A → Cmd W B) → Cmd W B
  unfolding pure crash leave stop call call_for observe get_mem put_mem
  ◌>>=◌ m k w = and_then (m w) k

  abbrev pub ◌>>◌ : Cmd W A → Cmd W B → Cmd W B
  m >> n = m >>= λ _. n

-- A bind after a command that returns.
pub bind_ok :
    {W A B : Type 0} (m : Cmd W A) (k : A → Cmd W B) {a : A} {w w' : W}
    → m w ≡ ok a w'
    → (m >>= k) w ≡ k a w'
unfolding ◌>>=◌
bind_ok m k e = rw e

-- Inversion of a bind that returns.
pub and_then-eq-ok :
    {W A B : Type 0} (r : Run W A) (k : A → Cmd W B) {b : B} {w' : W}
    → and_then r k ≡ ok b w'
    → (a : A) × (w : W) × (r ≡ ok a w) × (k a w ≡ ok b w')
and_then-eq-ok (ok a w) k h = (a, w, refl, h)
and_then-eq-ok (fault w) k h = cc
and_then-eq-ok (exited w) k h = cc
and_then-eq-ok (out_of_fuel w) k h = cc
