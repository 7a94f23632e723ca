-- ===== src/Manager/Containment.antt =====
-- pkg/pathutil/contain.go, on a system whose paths have slashes. filepath.Abs asks the system for the
-- working directory and is a parameter; filepath.Rel is read on the segments of rooted clean paths.
use Prim.Native.String.{String, ◌++◌}
use text.Mathlib.TextEquality.{starts_with_iff}
use text.Mathlib.TextPositions.{starts_with-append}
use text.Mathlib.TextLemmas.{append_assoc}
use sylos_fs.Base.{
  eq_iff, str_eq, List, [], ◌∷◌, ◌++◌ as append, All, Bool, true, false, not, ◌&&◌, ◌||◌, Answer,
  ok, err, if◌then◌else◌, Bool-cases, inl, inr, ◌≡◌, refl, sym, ap, ◌∙◌, arith,
}
use sylos_fs.Base.Text.{has_prefix, contains_any}
use sylos_fs.Base.Text.Paths.{segments, join_segments, clean_segments, clean}
use sylos_fs.Base.Text.Paths.Clean.{
  Plain, Whole, clean-path_of, segments-join, segments-append, segments-Whole, path_of,
  segments-path_of,
}

-- The segments of a rooted path, without "." and "..".
abbrev pub rooted_segments : String → List String
rooted_segments p = clean_segments true [] (segments p)

abbrev pub ups : List String → List String
ups [] = []
ups (s ∷ segs) = ".." ∷ ups segs

-- filepath.Rel on segments: up from the base to what both have, and down to the target.
unfoldable pub rel_segments : List String → List String → List String
rel_segments [] target = target
rel_segments (b ∷ base) [] = ups (b ∷ base)
rel_segments (b ∷ base) (t ∷ target) =
    let below = rel_segments base target in
    if str_eq b t then below else append (ups (b ∷ base)) (t ∷ target)

-- The tests of the relative path.
abbrev pub stays_inside : String → Bool
stays_inside rel = not (str_eq rel "..") && not (has_prefix rel "../")

unfoldable pub within : String → String → Bool
within root target =
    str_eq (clean root) (clean target)
    || stays_inside (join_segments (rel_segments (rooted_segments root) (rooted_segments target)))

-- WithinRoot
abbrev pub within_of : {E : Type 0} → Answer E String → Answer E String → Answer E Bool
within_of (err e) target = err e
within_of (ok root) (err e) = err e
within_of (ok root) (ok target) = ok (within root target)

unfoldable pub within_root :
    {E : Type 0} → (String → Answer E String) → String → String → Answer E Bool
within_root abs root target = within_of (abs root) (abs target)

-- Whether the second list begins with the first.
abbrev pub is_prefix : List String → List String → Bool
is_prefix [] target = true
is_prefix (b ∷ base) [] = false
is_prefix (b ∷ base) (t ∷ target) =
    let below = is_prefix base target in if str_eq b t then below else false

is_prefix_refl : (l : List String) → is_prefix l l ≡ true
is_prefix_refl [] = refl
is_prefix_refl (s ∷ l) = let same = (eq_iff s s).1 refl in rw (same, is_prefix_refl l) refl

up_Whole : Whole ".."
unfolding contains_any
up_Whole = refl

-- A text that goes up begins with the segment "..".
goes_up-head :
    (x s : String) (l : List String)
    → segments x ≡ s ∷ l
    → str_eq s ".." ≡ false
    → stays_inside x ≡ true
goes_up-head x s l h plain = elim (Bool-cases (str_eq x "..")) [
  | inl is_up ↦
      let e : segments x ≡ ".." ∷ [] =
        ap segments ((eq_iff x "..").0 is_up) ∙ segments-Whole ".." up_Whole in
      let head : s ≡ ".." = cc (h, e) in absurd (cc (plain, (eq_iff s "..").1 head))
  | inr other ↦ elim (Bool-cases (has_prefix x "../")) [
    | inr below ↦ rw (other, below) refl
    | inl above ↦
        let (rest, e) = (starts_with_iff x "../").0 above in
        let cut : segments x ≡ ".." ∷ segments rest =
          ap segments (sym e ∙ append_assoc ".." "/" rest) ∙ segments-append ".." rest up_Whole in
        let head : s ≡ ".." = cc (h, cut) in absurd (cc (plain, (eq_iff s "..").1 head))
  ]
]

stays_inside-Plain : (l : List String) → All Plain l → stays_inside (join_segments l) ≡ true
unfolding join_segments
stays_inside-Plain [] h = refl
stays_inside-Plain (s ∷ l) h =
    goes_up-head (join_segments (s ∷ l)) s l (segments-join s l h) h.0.not_up

leaves : (l : List String) → stays_inside (join_segments (".." ∷ l)) ≡ false
unfolding join_segments
leaves [] = refl
leaves (s ∷ l) =
    let up : has_prefix (".." ++ "/" ++ join_segments (s ∷ l)) "../" ≡ true =
      ap (λ x. has_prefix x "../") (sym (append_assoc ".." "/" (join_segments (s ∷ l))))
      ∙ starts_with-append "../" (join_segments (s ∷ l)) in
    ground (arith, up)

rel_segments-is_prefix :
    (base target : List String)
    → All Plain target
    → stays_inside (join_segments (rel_segments base target)) ≡ is_prefix base target
unfolding rel_segments
rel_segments-is_prefix [] target h = stays_inside-Plain target h
rel_segments-is_prefix (b ∷ base) [] h = leaves (ups base)
rel_segments-is_prefix (b ∷ base) (t ∷ target) (p, ps) = elim (Bool-cases (str_eq b t)) [
  | inl same ↦ rw same (rel_segments-is_prefix base target ps)
  | inr other ↦ rw other (leaves (append (ups base) (t ∷ target)))
]

within-is_prefix :
    (base target : List String)
    → All Plain base
    → All Plain target
    → within (path_of base) (path_of target) ≡ is_prefix base target
unfolding within
within-is_prefix base target h k =
    let b = segments-path_of base h in
    let t = segments-path_of target k in
    let root = clean-path_of base h in
    let below = clean-path_of target k in
    elim (Bool-cases (str_eq (path_of base) (path_of target))) [
      | inl same ↦
          let e : path_of base ≡ path_of target = (eq_iff (path_of base) (path_of target)).0 same in
          let equal : base ≡ target = sym b ∙ ap rooted_segments e ∙ t in
          rw (root, below, same) (sym (is_prefix_refl base) ∙ ap (is_prefix base) equal)
      | inr other ↦ rw (root, below, other, b, t) (rel_segments-is_prefix base target k)
    ]

-- Where filepath.Abs gives two rooted paths of segments that are plain (not empty, neither "." nor
-- "..", with no slash or backslash), WithinRoot answers without an error, and says that the target
-- is within the root exactly if its segments begin with those of the root.
pub within_root-is_prefix :
    {E : Type 0} (abs : String → Answer E String) (root target : String) (base segs : List String)
    → abs root ≡ ok (path_of base)
    → abs target ≡ ok (path_of segs)
    → All Plain base
    → All Plain segs
    → within_root abs root target ≡ ok (is_prefix base segs)
unfolding within_root
within_root-is_prefix abs root target base segs r t h k =
    rw (r, t) (ap ok (within-is_prefix base segs h k))
