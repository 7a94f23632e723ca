-- ===== src/Base/Results.antt =====
-- Go's `(value, error)` as one answer, and calls on a world W that give such an answer.
use mathlib.Core.Path.{◌≡◌, refl}

pub data Answer (E A : Type 0) : Type 0 where
  ok : A → Answer E A
  err : E → Answer E A

abbrev pub Call : Type 0 → Type 0 → Type 0 → Type 0
Call W E A = W → Answer E A × W

abbrev pub succeed : {W E A : Type 0} → A → Call W E A
succeed a w = (ok a, w)

abbrev pub fail : {W E A : Type 0} → E → Call W E A
fail e w = (err e, w)

-- `if err != nil { return err }`, then the rest of the body.
abbrev pub and_then : {W E A B : Type 0} → Answer E A × W → (A → Call W E B) → Answer E B × W
and_then (ok a, w) next = next a w
and_then (err e, w) next = (err e, w)

infixl 5 ◌>>=◌
abbrev pub ◌>>=◌ : {W E A B : Type 0} → Call W E A → (A → Call W E B) → Call W E B
◌>>=◌ call next w = and_then (call w) next

-- The parts of a sequence that has succeeded.
pub and_then-ok :
    {W E A B : Type 0} (r : Answer E A × W) (next : A → Call W E B) {b : B} {u : W}
    → and_then r next ≡ (ok b, u)
    → (a : A) × (v : W) × (r ≡ (ok a, v)) × (next a v ≡ (ok b, u))
and_then-ok (ok a, v) next h = (a, v, refl, h)
and_then-ok (err x, v) next h = absurd (cc h)
