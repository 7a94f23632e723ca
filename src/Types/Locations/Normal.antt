-- ===== src/Types/Locations/Normal.antt =====
-- Normal paths, and the parent and the child of a path.
use Prim.Native.Char.{Char, code}
use Prim.Native.String.{◌++◌, char_at}
use text.Mathlib.TextPositions.{starts_with-append}
use text.Mathlib.TextLemmas.{cons-append, nil-append, append_assoc as text_append_assoc}
use sylos_fs.Base.{
  String, str_eq, eq_iff, List, [], ◌∷◌, true, false, ◌==◌, ◌≡◌, refl, sym, ap, ◌∙◌, arith,
  Bool-cases, inl, inr, All, All-append, ◌++◌ as append,
}
use sylos_fs.Base.Dict.{lookup}
use sylos_fs.Base.Text.{contains_any, has_prefix}
use sylos_fs.Base.Text.Paths.{segments, push, is_slash, clean_segments, clean, join_segments}
use sylos_fs.Base.Text.Paths.Clean.{
  Whole, Whole-cons, Plain, clean_segments-Plain, segments-rooted, path_of, clean-path_of,
  clean-rooted, path_of-ne, dir-path_of, segments-join, join-append,
}
use sylos_fs.Types.Locations.{
  forward, forward_slashes, rooted, normalize_location_path, child_of_parent,
  logical_parent_from_create_metadata, child_location_from_create_metadata,
}

-- A path that is "/" and plain segments: none is empty, "." or "..", none has a slash or a backslash.
pub record IsNormal (p : String) : Type 0 where
  pub names : List String
  pub plain : All Plain names
  pub spelled : p ≡ path_of names

-- No character is a backslash.
abbrev IsForward : String → Type 0
IsForward s = contains_any s "\\" ≡ false

forward-not : (c : Char) → (code (forward c) == 92) ≡ false
forward-not c = elim (Bool-cases (code c == 92)) [
  | inl back ↦ rw back refl
  | inr other ↦ rw other other
]

forward_slashes-IsForward : (s : String) → IsForward (forward_slashes s)
unfolding forward_slashes contains_any
forward_slashes-IsForward String.[] = refl
forward_slashes-IsForward (String.◌∷◌ c s) = rw (forward-not c, forward_slashes-IsForward s) refl

push-Whole :
    (c : Char) (segs : List String)
    → is_slash c ≡ false
    → (code c == 92) ≡ false
    → All Whole segs
    → All Whole (push c segs)
unfolding contains_any
push-Whole c [] h k w = (ground arith, tt)
push-Whole c (s ∷ segs) h k (w, ws) = (ground arith, ws)

Whole-segments : (s : String) → IsForward s → All Whole (segments s)
unfolding segments contains_any
Whole-segments String.[] h = (refl, tt)
Whole-segments (String.◌∷◌ c s) h =
    let here : (code c == 92) ≡ false = ground arith in
    let later : IsForward s = ground arith in
    elim (Bool-cases (is_slash c)) [
      | inl slash ↦ rw slash (refl, Whole-segments s later)
      | inr other ↦ rw other (push-Whole c (segments s) other here (Whole-segments s later))
    ]

rooted-lem :
    (p : String) → (has_prefix (rooted p) "/" ≡ true) × (IsForward p → IsForward (rooted p))
unfolding contains_any
rooted-lem p = elim (Bool-cases (has_prefix p "/")) [
  | inl already ↦ rw already (already, λ h. h)
  | inr without ↦
      rw without
        (starts_with-append "/" p, λ h. rw (cons-append (char_at "/" 0) "" p, nil-append p) h)
]

pub normalize_location_path-IsNormal : (p : String) → IsNormal (normalize_location_path p)
unfolding normalize_location_path clean
normalize_location_path-IsNormal p = elim (Bool-cases (str_eq p "")) [
  | inl empty ↦ rw empty (record { names = []; plain = tt; spelled = refl })
  | inr given ↦
      let q = rooted (forward_slashes p) in
      let (starts, keeps) = rooted-lem (forward_slashes p) in
      let names = clean_segments true [] (segments q) in
      let plain =
        clean_segments-Plain [] (segments q) tt
          (Whole-segments q (keeps (forward_slashes-IsForward p))) in
      let e = clean-rooted q starts in
      let not_dot : str_eq (clean q) "." ≡ false = rw e (path_of-ne names "." refl) in
      record { names = names; plain = plain; spelled = rw (given, not_dot) e }
]

Whole-IsForward : (s : String) → Whole s → forward_slashes s ≡ s
unfolding forward_slashes
Whole-IsForward String.[] h = refl
Whole-IsForward (String.◌∷◌ c s) h =
    let (no_slash, no_backslash, w) = Whole-cons c s h in
    rw (no_backslash, Whole-IsForward s w) refl

forward_slashes-append :
    (s t : String) → forward_slashes (s ++ t) ≡ forward_slashes s ++ forward_slashes t
unfolding forward_slashes
forward_slashes-append String.[] t = rw (nil-append t, nil-append (forward_slashes t)) refl
forward_slashes-append (String.◌∷◌ c s) t =
    rw
      (
        cons-append c s t,
        cons-append (forward c) (forward_slashes s) (forward_slashes t),
        forward_slashes-append s t,
      )
      refl

empty_forward : forward_slashes "" ≡ ""
unfolding forward_slashes
empty_forward = refl

slash_forward : forward_slashes "/" ≡ "/"
unfolding forward_slashes
slash_forward = refl

forward_slashes-join :
    (names : List String)
    → All Plain names
    → forward_slashes (join_segments names) ≡ join_segments names
unfolding join_segments
forward_slashes-join [] h = empty_forward
forward_slashes-join (s ∷ []) (h, k) = Whole-IsForward s h.whole
forward_slashes-join (s ∷ t ∷ names) (h, k) =
    rw
      (
        forward_slashes-append s ("/" ++ join_segments (t ∷ names)),
        forward_slashes-append "/" (join_segments (t ∷ names)),
        Whole-IsForward s h.whole,
        forward_slashes-join (t ∷ names) k,
        slash_forward,
      )
      refl

-- A normal path is normalized to itself.
pub normalize-path_of :
    (names : List String)
    → All Plain names
    → normalize_location_path (path_of names) ≡ path_of names
unfolding normalize_location_path
normalize-path_of names h =
    let p = path_of names in
    let nonempty = path_of-ne names "" refl in
    let not_dot = path_of-ne names "." refl in
    let starts = starts_with-append "/" (join_segments names) in
    let kept : forward_slashes p ≡ p =
      rw
        (
          forward_slashes-append "/" (join_segments names),
          slash_forward,
          forward_slashes-join names h,
        )
        refl in
    rw (nonempty, kept, starts, clean-path_of names h, not_dot) refl

-- A normalized path is "/" and segments joined by slashes, none of which is empty, "." or "..", or
-- has a slash or a backslash; and to normalize it again changes nothing.
pub normalize_location_path_idem :
    (p : String)
    → IsNormal (normalize_location_path p)
      × (normalize_location_path (normalize_location_path p) ≡ normalize_location_path p)
normalize_location_path_idem p =
    let n = normalize_location_path-IsNormal p in
    (n, ap normalize_location_path n.spelled ∙ normalize-path_of n.names n.plain ∙ sym n.spelled)

root_segments : segments "/" ≡ "" ∷ "" ∷ []
unfolding segments
root_segments = refl

path_of-ne_root :
    (s : String) (names : List String)
    → All Plain (s ∷ names)
    → str_eq (path_of (s ∷ names)) "/" ≡ false
path_of-ne_root s names h = elim (Bool-cases (str_eq (path_of (s ∷ names)) "/")) [
  | inr other ↦ other
  | inl root ↦
      let e : path_of (s ∷ names) ≡ "/" = (eq_iff (path_of (s ∷ names)) "/").0 root in
      let parts : "" ∷ s ∷ names ≡ "" ∷ "" ∷ [] =
        ap (λ l. "" ∷ l) (sym (segments-join s names h))
        ∙ sym (segments-rooted (join_segments (s ∷ names)))
        ∙ ap segments e
        ∙ root_segments in
      let nonempty = h.0.nonempty in absurd (ground (arith, parts, eq_iff s ""))
]

-- The path of a child, from the path of its parent.
child-path_of :
    (names : List String) (n : String)
    → All Plain names
    → Plain n
    → child_of_parent (path_of names) n ≡ path_of (append names (n ∷ []))
unfolding join_segments
child-path_of [] n h k = normalize-path_of (n ∷ []) (k, tt)
child-path_of (s ∷ names) n h k =
    let j = join_segments (s ∷ names) in
    let spelled : path_of (s ∷ names) ++ "/" ++ n ≡ path_of (append (s ∷ names) (n ∷ [])) =
      text_append_assoc "/" j ("/" ++ n) ∙ ap (λ t. "/" ++ t) (sym (join-append s names n)) in
    rw (path_of-ne_root s names h) (
      ap normalize_location_path spelled
      ∙ normalize-path_of (append (s ∷ names) (n ∷ []))
          (All-append Plain (s ∷ names) (n ∷ []) h (k, tt)))

-- The location made for a child without metadata is under its parent: when it is then the
-- location_path of a create call, the logical parent is the normalized path of the parent, for
-- every parent, and for every name that is a single segment: not empty, "." or "..", and without a
-- slash or a backslash.
pub logical_parent-child_location :
    (parent n fallback : String)
    → Plain n
    → logical_parent_from_create_metadata
        (("location_path", child_location_from_create_metadata [] parent n) ∷ [])
        fallback
      ≡ normalize_location_path parent
unfolding logical_parent_from_create_metadata child_location_from_create_metadata lookup
logical_parent-child_location parent n fallback k =
    let p = normalize_location_path-IsNormal parent in
    let names = p.names in
    let h = All-append Plain names (n ∷ []) p.plain (k, tt) in
    let child = path_of (append names (n ∷ [])) in
    let made : child_of_parent (normalize_location_path parent) n ≡ child =
      ap (λ q. child_of_parent q n) p.spelled ∙ child-path_of names n p.plain k in
    let nonempty = path_of-ne (append names (n ∷ [])) "" refl in
    rw
      (
        made,
        nonempty,
        normalize-path_of (append names (n ∷ [])) h,
        dir-path_of names n h,
        path_of-ne names "." refl,
        path_of-ne names "" refl,
      )
      (normalize-path_of names p.plain ∙ sym p.spelled)
