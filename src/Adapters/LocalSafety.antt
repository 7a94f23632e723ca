-- ===== src/Adapters/LocalSafety.antt =====
-- pkg/fs/local/local_safety.go, in the unix build: the paths that are never listed or opened, and the
-- files that can be copied.
use Prim.Native.String.{◌++◌, count}
use text.Mathlib.TextEquality.{starts_with_iff}
use text.Mathlib.TextPositions.{starts_with-append}
use text.Mathlib.TextLemmas.{append_assoc, length-append, cons-append, nil-append}
use sylos_fs.Base.{
  ℤ, pos, negsuc, String, str_eq, eq_iff, List, [], ◌∷◌, Bool, true, false, ◌&&◌, ◌||◌,
  if◌then◌else◌, leb, Bool-cases, inl, inr, ◌≡◌, refl, sym, ap, ◌∙◌, arith,
}
use sylos_fs.Base.Text.{to_lower, has_prefix, lower_char}
use sylos_fs.Base.Text.Paths.{clean, is_slash}
use sylos_fs.Types.Locations.{forward_slashes}

-- strings.TrimSuffix(s, "/")
unfoldable pub trim_slash : String → String
trim_slash String.[] = ""
trim_slash (String.◌∷◌ c s) =
    let rest = trim_slash s in if is_slash c && str_eq s "" then "" else String.◌∷◌ c rest

unfoldable pub normalize_fs_path : String → String
normalize_fs_path path =
    let p = forward_slashes path in
    if str_eq p "" then p else trim_slash (forward_slashes (clean p))

abbrev pub blocked_path_prefixes : List String
blocked_path_prefixes = "/proc" ∷ "/sys" ∷ "/dev" ∷ "/run" ∷ []

-- One round of the loop.
abbrev pub matches_prefix : String → String → Bool
matches_prefix lower prefix =
    let pref = to_lower (trim_slash (forward_slashes prefix)) in
    str_eq lower pref || has_prefix lower (pref ++ "/")

abbrev pub any_prefix : String → List String → Bool
any_prefix lower [] = false
any_prefix lower (prefix ∷ prefixes) =
    let later = any_prefix lower prefixes in matches_prefix lower prefix || later

-- For a path that is normalized.
abbrev pub is_blocked : String → Bool
is_blocked p = if str_eq p "" then false else any_prefix (to_lower p) blocked_path_prefixes

unfoldable pub is_blocked_path : String → Bool
is_blocked_path path = is_blocked (normalize_fs_path path)

-- childCopyableAsFile: the mode's IsRegular, and the size.
abbrev pub child_copyable_as_file : Bool → ℤ → Bool
child_copyable_as_file is_regular (pos size) = is_regular && leb size 1099511627776
child_copyable_as_file is_regular (negsuc n) = false

to_lower-append : (s t : String) → to_lower (s ++ t) ≡ to_lower s ++ to_lower t
unfolding to_lower
to_lower-append String.[] t = rw (nil-append t, nil-append (to_lower t)) refl
to_lower-append (String.◌∷◌ c s) t =
    rw
      (cons-append c s t, cons-append (lower_char c) (to_lower s) (to_lower t), to_lower-append s t)
      refl

has_prefix-below : (l t pref : String) → has_prefix l pref ≡ true → has_prefix (l ++ t) pref ≡ true
has_prefix-below l t pref h =
    let (rest, e) = (starts_with_iff l pref).0 h in
    ap (λ x. has_prefix (x ++ t) pref) (sym e)
    ∙ ap (λ x. has_prefix x pref) (append_assoc pref rest t)
    ∙ starts_with-append pref (rest ++ t)

matches_prefix-below :
    (lower s prefix : String)
    → matches_prefix lower prefix ≡ true
    → matches_prefix (lower ++ "/" ++ s) prefix ≡ true
matches_prefix-below lower s prefix h =
    let pref = to_lower (trim_slash (forward_slashes prefix)) in
    elim (Bool-cases (str_eq lower pref)) [
      | inl same ↦
          let e : lower ≡ pref = (eq_iff lower pref).0 same in
          let under : has_prefix (lower ++ "/" ++ s) (pref ++ "/") ≡ true =
            ap (λ x. has_prefix (x ++ "/" ++ s) (pref ++ "/")) e
            ∙ ap (λ x. has_prefix x (pref ++ "/")) (sym (append_assoc pref "/" s))
            ∙ starts_with-append (pref ++ "/") s in
          ground (arith, under)
      | inr other ↦
          let above : has_prefix lower (pref ++ "/") ≡ true = ground (arith, h) in
          let under = has_prefix-below lower ("/" ++ s) (pref ++ "/") above in ground (arith, under)
    ]

any_prefix-below :
    (lower s : String) (prefixes : List String)
    → any_prefix lower prefixes ≡ true
    → any_prefix (lower ++ "/" ++ s) prefixes ≡ true
any_prefix-below lower s [] h = absurd (cc h)
any_prefix-below lower s (prefix ∷ prefixes) h = elim (Bool-cases (matches_prefix lower prefix)) [
  | inl here ↦ rw (matches_prefix-below lower s prefix here) refl
  | inr elsewhere ↦
      let later : any_prefix lower prefixes ≡ true = rw elsewhere at h in
      ground (arith, any_prefix-below lower s prefixes later)
]

lower_slash : to_lower "/" ≡ "/"
unfolding to_lower
lower_slash = refl

below_slash : (p s : String) → str_eq (p ++ "/" ++ s) "" ≡ false
below_slash p s = elim (Bool-cases (str_eq (p ++ "/" ++ s) "")) [
  | inl empty ↦
      let e : count (p ++ "/" ++ s) ≡ count "" = ap count ((eq_iff (p ++ "/" ++ s) "").0 empty) in
      absurd (
        omega (
          arith,
          e,
          length-append p ("/" ++ s),
          length-append "/" s,
          refl {a = count "/"},
          refl {a = count ""},
        ))
  | inr given ↦ given
]

is_blocked-below : (p s : String) → is_blocked p ≡ true → is_blocked (p ++ "/" ++ s) ≡ true
is_blocked-below p s h = elim (Bool-cases (str_eq p "")) [
  | inl empty ↦ absurd (cc (rw empty at h))
  | inr given ↦
      let above : any_prefix (to_lower p) blocked_path_prefixes ≡ true = rw given at h in
      let lower : to_lower (p ++ "/" ++ s) ≡ to_lower p ++ "/" ++ to_lower s =
        to_lower-append p ("/" ++ s)
        ∙ ap (λ t. to_lower p ++ t)
            (to_lower-append "/" s ∙ ap (λ t. t ++ to_lower s) lower_slash) in
      rw (below_slash p s) (
        ap (λ t. any_prefix t blocked_path_prefixes) lower
        ∙ any_prefix-below (to_lower p) (to_lower s) blocked_path_prefixes above)
]

-- A path that is below a blocked path, after both have been normalized, is blocked.
pub is_blocked_path-below :
    (path below s : String)
    → normalize_fs_path below ≡ normalize_fs_path path ++ "/" ++ s
    → is_blocked_path path ≡ true
    → is_blocked_path below ≡ true
unfolding is_blocked_path
is_blocked_path-below path below s e h =
    ap is_blocked e ∙ is_blocked-below (normalize_fs_path path) s h
