-- ===== src/Base/Text/Trimming.antt =====
-- Trimming a text twice is trimming it once.
use Prim.Native.Char.{Char}
use Prim.Native.String.{String}
use text.Mathlib.Text.{◌==◌ as str_eq}
use mathlib.Core.Path.{◌≡◌, refl, ap, ◌∙◌}
use mathlib.Core.Logic.{inl, inr}
use mathlib.Core.Bool.{false, ◌&&◌}
use sylos_fs.Base.Tests.{Bool-cases}
use sylos_fs.Base.Text.{is_space, trim_left, trim_right, trim_space}

-- The text is empty or begins with a character that is no space.
abbrev IsLeft : String → Type 0
IsLeft String.[] = Unit
IsLeft (String.◌∷◌ c s) = is_space c ≡ false

trim_left-IsLeft : (s : String) → IsLeft (trim_left s)
trim_left-IsLeft String.[] = tt
trim_left-IsLeft (String.◌∷◌ c s) = elim (Bool-cases (is_space c)) [
  | inl e ↦ rw (e, trim_left) (trim_left-IsLeft s)
  | inr e ↦ rw (e, trim_left) e
]

trim_left_lem : (s : String) → IsLeft s → trim_left s ≡ s
trim_left_lem String.[] h = refl
trim_left_lem (String.◌∷◌ c s) h = rw (h, trim_left)

trim_right-IsLeft : (s : String) → IsLeft s → IsLeft (trim_right s)
trim_right-IsLeft String.[] h = tt
trim_right-IsLeft (String.◌∷◌ c s) h = rw (h, trim_right) h

trim_right-kept :
    (c : Char) (s r : String)
    → is_space c && str_eq r "" ≡ false
    → trim_right r ≡ r
    → trim_right (String.◌∷◌ c r) ≡ String.◌∷◌ c r
trim_right-kept c s r e h = rw (h, e, trim_right)

trim_right_idem : (s : String) → trim_right (trim_right s) ≡ trim_right s
trim_right_idem String.[] = refl
trim_right_idem (String.◌∷◌ c s) = elim (Bool-cases (is_space c && str_eq (trim_right s) "")) [
  | inl e ↦ rw (e, trim_right)
  | inr e ↦ rw (e) (trim_right-kept c s (trim_right s) e (trim_right_idem s))
]

pub trim_space_idem : (s : String) → trim_space (trim_space s) ≡ trim_space s
unfolding trim_space
trim_space_idem s =
    ap trim_right (
      trim_left_lem (trim_right (trim_left s))
        (trim_right-IsLeft (trim_left s) (trim_left-IsLeft s)))
    ∙ trim_right_idem (trim_left s)
