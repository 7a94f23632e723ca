-- ===== src/Base/Text.antt =====
-- What the source uses of Go's package strings, on texts of Unicode characters.
pub mod Trimming
pub mod Paths
pub mod Decimal
pub mod Cutting
use Prim.Native.Nat.{ℕ, ◌-◌}
use Prim.Native.Char.{Char, code}
use Prim.Native.String.{String, char_at, len, slice}
use text.Mathlib.Text.{◌==◌ as str_eq, find?, starts_with}
use mathlib.Core.Path.{◌≡◌, refl}
use mathlib.Core.Bool.{Bool, true, false, not, ◌&&◌, ◌||◌}
use mathlib.Core.Option.{Option, none, some}
use mathlib.Core.List.{List, [], ◌∷◌}
use native.Mathlib.Omega.{arith}
use sylos_fs.Base.Tests.{leb, ◌==◌, if◌then◌else◌, is_none}

-- unicode.IsSpace
abbrev pub is_space : Char → Bool
is_space c =
    let n : ℕ = code c in
    leb 9 n && leb n 13
    || n == 32
    || n == 133
    || n == 160
    || n == 5760
    || leb 8192 n && leb n 8202
    || n == 8232
    || n == 8233
    || n == 8239
    || n == 8287
    || n == 12288

abbrev pub trim_left : String → String
trim_left String.[] = ""
trim_left (String.◌∷◌ c s) = let rest = trim_left s in if is_space c then rest else String.◌∷◌ c s

abbrev pub trim_right : String → String
trim_right String.[] = ""
trim_right (String.◌∷◌ c s) =
    let rest = trim_right s in if is_space c && str_eq rest "" then "" else String.◌∷◌ c rest

-- strings.TrimSpace
unfoldable pub trim_space : String → String
trim_space s = trim_right (trim_left s)

-- The lower case of a character, as far as it can be an ASCII letter: beside A to Z these are the
-- Kelvin sign and the capital I with a dot. Other capitals are left as they are, so this is what
-- strings.ToLower gives for the comparisons with ASCII texts that the source makes of its results.
abbrev pub lower_char : Char → Char
lower_char c =
    let n : ℕ = code c in
    if leb 65 n && leb n 90
    then char_at "abcdefghijklmnopqrstuvwxyz" (n - 65)
    else if n == 8490
    then char_at "k" 0
    else if n == 304
    then char_at "i" 0
    else c

-- strings.ToLower
unfoldable pub to_lower : String → String
to_lower String.[] = ""
to_lower (String.◌∷◌ c s) = String.◌∷◌ (lower_char c) (to_lower s)

-- strings.Contains, strings.HasPrefix
abbrev pub contains : String → String → Bool
contains s t = not (is_none (find? s t))

abbrev pub has_prefix : String → String → Bool
has_prefix s t = starts_with s t

-- strings.ContainsAny
abbrev pub contains_char : String → Char → Bool
contains_char String.[] c = false
contains_char (String.◌∷◌ d s) c = code c == code d || contains_char s c

unfoldable pub contains_any : String → String → Bool
contains_any String.[] chars = false
contains_any (String.◌∷◌ c s) chars = contains_char chars c || contains_any s chars

-- strings.TrimPrefix
unfoldable pub trim_prefix : String → String → String
trim_prefix s t = if has_prefix s t then slice s (len t) (len s) else s

-- strings.Cut at a character: the text before the first one, and the text after it.
abbrev pub put_before : Char → Option (String × String) → Option (String × String)
put_before c none = none
put_before c (some (before, after)) = some (String.◌∷◌ c before, after)

unfoldable pub cut : Char → String → Option (String × String)
cut sep String.[] = none
cut sep (String.◌∷◌ c s) =
    let rest = cut sep s in if code c == code sep then some ("", s) else put_before c rest

trimmed : trim_space "  a b\t " ≡ "a b"
unfolding trim_space
trimmed = refl

lowered : to_lower "Rate-Limit É" ≡ "rate-limit É"
unfolding to_lower
lowered = refl

separators : contains_any "a/b" "/\\" ≡ true
unfolding contains_any
separators = refl
