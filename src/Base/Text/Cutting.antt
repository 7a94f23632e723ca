-- ===== src/Base/Text/Cutting.antt =====
-- TrimPrefix and Cut on a text that is put together.
use Prim.Native.Char.{code}
use Prim.Native.String.{String, ◌++◌, char_at}
use text.Mathlib.TextLemmas.{cons-append, nil-append}
use text.Mathlib.TextPositions.{starts_with-append, len-append, slice-append_right}
use mathlib.Core.Path.{◌≡◌, refl}
use mathlib.Core.Bool.{false}
use mathlib.Core.Option.{some}
use native.Mathlib.Omega.{arith}
use sylos_fs.Base.Tests.{◌==◌}
use sylos_fs.Base.Text.{trim_prefix, cut, contains_any}

pub trim_prefix-append : (s t : String) → trim_prefix (s ++ t) s ≡ t
unfolding trim_prefix
trim_prefix-append s t = rw (starts_with-append s t, len-append s t) (slice-append_right s t)

-- The text before the first colon.
pub cut-append :
    (p r : String) → contains_any p ":" ≡ false → cut (char_at ":" 0) (p ++ ":" ++ r) ≡ some (p, r)
unfolding cut contains_any
cut-append String.[] r h =
    rw (nil-append (":" ++ r), cons-append (char_at ":" 0) "" r, nil-append r) refl
cut-append (String.◌∷◌ c p) r h =
    let other : (code c == 58) ≡ false = ground arith in
    let later : contains_any p ":" ≡ false = ground arith in
    let rest : cut (char_at ":" 0) (p ++ ":" ++ r) ≡ some (p, r) = cut-append p r later in
    rw (cons-append c p (":" ++ r), other, rest) refl
