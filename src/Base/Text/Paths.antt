-- ===== src/Base/Text/Paths.antt =====
-- What the source uses of Go's package path: a text is read as its segments between slashes.
pub mod Clean
use Prim.Native.Char.{Char, code}
use Prim.Native.String.{String, ◌++◌}
use text.Mathlib.Text.{◌==◌ as str_eq, starts_with}
use mathlib.Core.Path.{◌≡◌, refl}
use mathlib.Core.Bool.{Bool, true, false, ◌||◌}
use mathlib.Core.List.{List, [], ◌∷◌, ◌++◌ as append, drop_last, get_last?}
use mathlib.Core.Option.{Option, none, some}
use sylos_fs.Base.Tests.{◌==◌, if◌then◌else◌}
use sylos_fs.Base.Text.{has_prefix}

abbrev pub is_slash : Char → Bool
is_slash c = code c == 47

-- The first segment with one more character.
abbrev pub push : Char → List String → List String
push c [] = String.◌∷◌ c "" ∷ []
push c (s ∷ segs) = String.◌∷◌ c s ∷ segs

-- strings.Split(p, "/")
unfoldable pub segments : String → List String
segments String.[] = "" ∷ []
segments (String.◌∷◌ c s) = let rest = segments s in if is_slash c then "" ∷ rest else push c rest

-- strings.Join(segs, "/")
unfoldable pub join_segments : List String → String
join_segments [] = ""
join_segments (s ∷ []) = s
join_segments (s ∷ t ∷ segs) = s ++ "/" ++ join_segments (t ∷ segs)

-- ".." goes up: not above the root, and on a path without one only past a segment to leave.
abbrev pub is_up : List String → Bool
is_up out = elim (get_last? out) [ none ↦ true | some s ↦ str_eq s ".." ]

abbrev pub go_up : Bool → List String → List String
go_up rooted out =
    if rooted then drop_last out else if is_up out then append out (".." ∷ []) else drop_last out

abbrev pub clean_step : Bool → List String → String → List String
clean_step rooted out seg =
    if str_eq seg "" || str_eq seg "."
    then out
    else if str_eq seg ".."
    then go_up rooted out
    else append out (seg ∷ [])

unfoldable pub clean_segments : Bool → List String → List String → List String
clean_segments rooted out [] = out
clean_segments rooted out (seg ∷ segs) = clean_segments rooted (clean_step rooted out seg) segs

abbrev pub or_dot : String → String
or_dot s = if str_eq s "" then "." else s

-- path.Clean
unfoldable pub clean : String → String
unfolding segments join_segments clean_segments
clean p =
    if has_prefix p "/"
    then "/" ++ join_segments (clean_segments true [] (segments p))
    else or_dot (join_segments (clean_segments false [] (segments p)))

-- The text up to its last slash, that of path.Split.
unfoldable pub up_to_slash : String → String
up_to_slash String.[] = ""
up_to_slash (String.◌∷◌ c s) =
    let rest = up_to_slash s in
    if str_eq rest "" then (if is_slash c then "/" else "") else String.◌∷◌ c rest

-- path.Dir
unfoldable pub dir : String → String
unfolding clean up_to_slash
dir p = clean (up_to_slash p)

-- path.Join of two elements: empty ones are left out.
unfoldable pub join : String → String → String
unfolding clean
join a b =
    if str_eq a ""
    then (if str_eq b "" then "" else clean b)
    else if str_eq b ""
    then clean a
    else clean (a ++ "/" ++ b)

cleaned : clean "/a//b/./../c/../../.." ≡ "/"
unfolding clean
cleaned = refl

cleaned_up : clean "a/../../b" ≡ "../b"
unfolding clean
cleaned_up = refl

parents : dir "/a/b" ≡ "/a"
unfolding dir
parents = refl

joined : join "/a" "../b" ≡ "/b"
unfolding join
joined = refl
