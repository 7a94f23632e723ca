-- ===== src/Base/Text/Paths/Clean.antt =====
-- Clean paths: "/" and segments that are not empty, not dots, and have no slash or backslash.
use Prim.Native.Char.{Char, code}
use Prim.Native.String.{String, ◌++◌, char_at}
use text.Mathlib.Text.{◌==◌ as str_eq}
use text.Mathlib.TextEquality.{eq_iff}
use text.Mathlib.TextLemmas.{nil-append, cons-append, append_assoc as text_append_assoc}
use text.Mathlib.TextPositions.{starts_with-append}
use mathlib.Core.Path.{◌≡◌, refl, sym, ap, ◌∙◌}
use mathlib.Core.Bool.{Bool, true, false, ◌||◌}
use mathlib.Core.Logic.{inl, inr}
use mathlib.Core.List.{
  List, [], ◌∷◌, ◌++◌ as append, append-nil, append_assoc, drop_last, concat-ne-nil,
}
use native.Mathlib.Omega.{arith}
use sylos_fs.Base.Tests.{◌==◌, Bool-cases}
use sylos_fs.Base.Lists.{All, All-append}
use sylos_fs.Base.Text.{contains_any, has_prefix}
use sylos_fs.Base.Text.Paths.{
  is_slash, push, segments, join_segments, clean_step, clean_segments, clean, up_to_slash, dir,
}

abbrev pub Whole : String → Type 0
Whole s = contains_any s "/\\" ≡ false

pub record Plain (s : String) : Type 0 where
  pub nonempty : str_eq s "" ≡ false
  pub not_here : str_eq s "." ≡ false
  pub not_up : str_eq s ".." ≡ false
  pub whole : Whole s

pub Whole-cons :
    (c : Char) (s : String)
    → Whole (String.◌∷◌ c s)
    → (is_slash c ≡ false) × ((code c == 92) ≡ false) × Whole s
unfolding contains_any
Whole-cons c s h = ground arith

pub segments-append : (s t : String) → Whole s → segments (s ++ "/" ++ t) ≡ s ∷ segments t
unfolding segments
segments-append String.[] t h =
    rw (nil-append ("/" ++ t), cons-append (char_at "/" 0) "" t, nil-append t) refl
segments-append (String.◌∷◌ c s) t h =
    let (plain, no_backslash, w) = Whole-cons c s h in
    rw (cons-append c s ("/" ++ t), plain, segments-append s t w) refl

pub segments-Whole : (s : String) → Whole s → segments s ≡ s ∷ []
unfolding segments
segments-Whole String.[] h = refl
segments-Whole (String.◌∷◌ c s) h =
    let (plain, no_backslash, w) = Whole-cons c s h in rw (plain, segments-Whole s w) refl

pub segments-rooted : (s : String) → segments ("/" ++ s) ≡ "" ∷ segments s
unfolding segments
segments-rooted s = rw (cons-append (char_at "/" 0) "" s, nil-append s) refl

pub segments-join :
    (s : String) (segs : List String)
    → All Plain (s ∷ segs)
    → segments (join_segments (s ∷ segs)) ≡ s ∷ segs
unfolding join_segments
segments-join s [] (h, k) = segments-Whole s h.whole
segments-join s (t ∷ segs) (h, k) =
    segments-append s (join_segments (t ∷ segs)) h.whole ∙ ap (λ l. s ∷ l) (segments-join t segs k)

-- Plain segments stay, and only they do.
clean_step-Plain :
    (out : List String) (seg : String)
    → All Plain out
    → Whole seg
    → All Plain (clean_step true out seg)
clean_step-Plain out seg h w = elim (Bool-cases (str_eq seg "" || str_eq seg ".")) [
  | inl skipped ↦ rw skipped h
  | inr kept ↦ elim (Bool-cases (str_eq seg "..")) [
    | inl up ↦ rw (kept, up) (All-drop_last out h)
    | inr plain ↦
        rw (kept, plain)
          (All-append Plain out (seg ∷ []) h (
            record { nonempty = ground arith; not_here = ground arith; not_up = plain; whole = w },
            tt,
          ))
  ]
]
  where
    All-drop_last : (out : List String) → All Plain out → All Plain (drop_last out)
    All-drop_last [] h = tt
    All-drop_last (x ∷ []) h = tt
    All-drop_last (x ∷ y ∷ out) (h, k) = (h, All-drop_last (y ∷ out) k)

pub clean_segments-Plain :
    (out segs : List String)
    → All Plain out
    → All Whole segs
    → All Plain (clean_segments true out segs)
unfolding clean_segments
clean_segments-Plain out [] h w = h
clean_segments-Plain out (seg ∷ segs) h (w, ws) =
    clean_segments-Plain (clean_step true out seg) segs (clean_step-Plain out seg h w) ws

pub clean_segments-id :
    (rooted : Bool) (out segs : List String)
    → All Plain segs
    → clean_segments rooted out segs ≡ append out segs
unfolding clean_segments
clean_segments-id rooted out [] h = rw (append-nil out)
clean_segments-id rooted out (seg ∷ segs) (p, ps) =
    let nonempty = p.nonempty in
    let not_here = p.not_here in
    let not_up = p.not_up in
    rw (nonempty, not_here, not_up)
      (clean_segments-id rooted (append out (seg ∷ [])) segs ps ∙ append_assoc out (seg ∷ []) segs)

-- The path of these segments under the root.
abbrev pub path_of : List String → String
path_of segs = "/" ++ join_segments segs

pub segments-path_of :
    (segs : List String) → All Plain segs → clean_segments true [] (segments (path_of segs)) ≡ segs
unfolding clean_segments segments join_segments
segments-path_of [] h = refl
segments-path_of (s ∷ segs) h =
    rw (segments-rooted (join_segments (s ∷ segs)), segments-join s segs h)
      (clean_segments-id true [] (s ∷ segs) h)

pub clean-path_of : (segs : List String) → All Plain segs → clean (path_of segs) ≡ path_of segs
unfolding clean
clean-path_of segs h =
    rw (starts_with-append "/" (join_segments segs), segments-path_of segs h) refl

pub clean-rooted :
    (p : String) → has_prefix p "/" ≡ true → clean p ≡ path_of (clean_segments true [] (segments p))
unfolding clean
clean-rooted p h = rw h refl

-- A path from the root is neither "" nor ".".
pub path_of-ne :
    (names : List String) (s : String) → has_prefix s "/" ≡ false → str_eq (path_of names) s ≡ false
path_of-ne names s h = elim (Bool-cases (str_eq (path_of names) s)) [
  | inl same ↦
      let e : path_of names ≡ s = (eq_iff (path_of names) s).0 same in
      absurd
        (cc (sym (starts_with-append "/" (join_segments names)) ∙ ap (λ t. has_prefix t "/") e ∙ h))
  | inr other ↦ other
]

pub clean_segments-append :
    (rooted : Bool) (out a b : List String)
    → clean_segments rooted out (append a b) ≡ clean_segments rooted (clean_segments rooted out a) b
unfolding clean_segments
clean_segments-append rooted out [] b = refl
clean_segments-append rooted out (s ∷ a) b =
    clean_segments-append rooted (clean_step rooted out s) a b

pub join-append :
    (s : String) (names : List String) (n : String)
    → join_segments (append (s ∷ names) (n ∷ [])) ≡ join_segments (s ∷ names) ++ "/" ++ n
unfolding join_segments
join-append s [] n = refl
join-append s (t ∷ names) n =
    let j = join_segments (t ∷ names) in
    ap (λ l. s ++ "/" ++ l) (join-append t names n)
    ∙ ap (λ l. s ++ l) (sym (text_append_assoc "/" j ("/" ++ n)))
    ∙ sym (text_append_assoc s ("/" ++ j) ("/" ++ n))

segments-cons : (p : String) → (s : String) × (segs : List String) × (segments p ≡ s ∷ segs)
unfolding segments
segments-cons String.[] = ("", [], refl)
segments-cons (String.◌∷◌ c p) =
    let (s, segs, e) = segments-cons p in
    elim (Bool-cases (is_slash c)) [
      | inl slash ↦ ("", s ∷ segs, rw (slash, e) refl)
      | inr other ↦ (String.◌∷◌ c s, segs, rw (other, e) refl)
    ]

up_to_slash-single : (p s : String) → segments p ≡ s ∷ [] → up_to_slash p ≡ ""
unfolding segments up_to_slash
up_to_slash-single String.[] s h = refl
up_to_slash-single (String.◌∷◌ c p) s h =
    let (t, segs, e) = segments-cons p in
    elim (Bool-cases (is_slash c)) [
      | inl slash ↦ absurd (ground arith)
      | inr other ↦
          let single : segs ≡ [] = ground arith in
          let nothing = up_to_slash-single p t (e ∙ ap (λ l. t ∷ l) single) in
          rw (nothing, other) refl
    ]

-- A text with more segments has a slash to end in.
up_to_slash-more :
    (p s t : String) (segs : List String)
    → segments (up_to_slash p) ≡ s ∷ append (drop_last (t ∷ segs)) ("" ∷ [])
    → str_eq (up_to_slash p) "" ≡ false
unfolding segments
up_to_slash-more p s t segs h = elim (Bool-cases (str_eq (up_to_slash p) "")) [
  | inr nonempty ↦ nonempty
  | inl empty ↦
      let e : up_to_slash p ≡ "" = (eq_iff (up_to_slash p) "").0 empty in
      let k : "" ∷ [] ≡ s ∷ append (drop_last (t ∷ segs)) ("" ∷ []) = sym (ap segments e) ∙ h in
      absurd (concat-ne-nil "" (drop_last (t ∷ segs)) (cc k))
]

-- Up to the last slash, the last segment is replaced by an empty one.
pub segments-up_to_slash :
    (p : String) → segments (up_to_slash p) ≡ append (drop_last (segments p)) ("" ∷ [])
unfolding segments up_to_slash
segments-up_to_slash String.[] = refl
segments-up_to_slash (String.◌∷◌ c p) =
    step (segments-cons p).0 (segments-cons p).1 (segments-cons p).2 (segments-up_to_slash p)
  where
    step :
        (s : String) (segs : List String)
        → segments p ≡ s ∷ segs
        → segments (up_to_slash p) ≡ append (drop_last (segments p)) ("" ∷ [])
        → segments (up_to_slash (String.◌∷◌ c p))
          ≡ append (drop_last (segments (String.◌∷◌ c p))) ("" ∷ [])
    step s [] e ih = elim (Bool-cases (is_slash c)) [
      | inl slash ↦ rw (up_to_slash-single p s e, slash, e) refl
      | inr other ↦ rw (up_to_slash-single p s e, other, e) refl
    ]
    step s (t ∷ segs) e ih =
        let ih' : segments (up_to_slash p) ≡ s ∷ append (drop_last (t ∷ segs)) ("" ∷ []) =
          ih ∙ ap (λ l. append (drop_last l) ("" ∷ [])) e in
        let nonempty = up_to_slash-more p s t segs ih' in
        elim (Bool-cases (is_slash c)) [
          | inl slash ↦ rw (nonempty, slash, e, ih') refl
          | inr other ↦ rw (nonempty, other, e, ih') refl
        ]

up_to_slash-rooted : (p : String) → has_prefix (up_to_slash ("/" ++ p)) "/" ≡ true
unfolding up_to_slash
up_to_slash-rooted p = elim (Bool-cases (str_eq (up_to_slash p) "")) [
  | inl none_later ↦ rw (cons-append (char_at "/" 0) "" p, nil-append p, none_later) refl
  | inr later ↦
      rw (cons-append (char_at "/" 0) "" p, nil-append p, later)
        (ap (λ t. has_prefix t "/") (slash-cons (up_to_slash p))
          ∙ starts_with-append "/" (up_to_slash p))
]
  where
    slash-cons : (t : String) → String.◌∷◌ (char_at "/" 0) t ≡ "/" ++ t
    slash-cons t =
        sym
          (cons-append (char_at "/" 0) "" t ∙ ap (λ u. String.◌∷◌ (char_at "/" 0) u) (nil-append t))

segments-of_append :
    (names : List String) (n : String)
    → All Plain (append names (n ∷ []))
    → segments (path_of (append names (n ∷ []))) ≡ append ("" ∷ names) (n ∷ [])
segments-of_append [] n h =
    segments-rooted (join_segments (n ∷ [])) ∙ ap (λ l. "" ∷ l) (segments-join n [] h)
segments-of_append (s ∷ names) n h =
    segments-rooted (join_segments (s ∷ append names (n ∷ [])))
    ∙ ap (λ l. "" ∷ l) (segments-join s (append names (n ∷ [])) h)

drop_last-append : (names : List String) (n : String) → drop_last (append names (n ∷ [])) ≡ names
drop_last-append [] n = refl
drop_last-append (s ∷ []) n = refl
drop_last-append (s ∷ t ∷ names) n = ap (λ l. s ∷ l) (drop_last-append (t ∷ names) n)

pub All-prefix : (xs ys : List String) → All Plain (append xs ys) → All Plain xs
All-prefix [] ys h = tt
All-prefix (x ∷ xs) ys (h, k) = (h, All-prefix xs ys k)

-- The parent of a path under the root.
pub dir-path_of :
    (names : List String) (n : String)
    → All Plain (append names (n ∷ []))
    → dir (path_of (append names (n ∷ []))) ≡ path_of names
unfolding dir clean_segments
dir-path_of names n h =
    let p = path_of (append names (n ∷ [])) in
    let parts : segments (up_to_slash p) ≡ append ("" ∷ names) ("" ∷ []) =
      segments-up_to_slash p
      ∙ ap (λ l. append (drop_last l) ("" ∷ [])) (segments-of_append names n h)
      ∙ ap (λ l. append l ("" ∷ [])) (drop_last-append ("" ∷ names) n) in
    let cleaned : clean_segments true [] (append ("" ∷ names) ("" ∷ [])) ≡ names =
      clean_segments-append true [] ("" ∷ names) ("" ∷ [])
      ∙ ap (λ l. clean_segments true l ("" ∷ []))
          (clean_segments-id true [] names (All-prefix names (n ∷ []) h)) in
    clean-rooted (up_to_slash p) (up_to_slash-rooted (join_segments (append names (n ∷ []))))
    ∙ ap (λ l. path_of (clean_segments true [] l)) parts
    ∙ ap path_of cleaned

pub segments-of_name : (s : String) → contains_any s "/" ≡ false → segments s ≡ s ∷ []
unfolding segments contains_any
segments-of_name String.[] h = refl
segments-of_name (String.◌∷◌ c s) h =
    let plain : is_slash c ≡ false = ground arith in
    rw (plain, segments-of_name s (ground arith)) refl

push-append :
    (c : Char) (p : String) (b : List String)
    → push c (append (segments p) b) ≡ append (push c (segments p)) b
push-append c p b = let (s, segs, e) = segments-cons p in rw e refl

pub segments-below : (p s : String) → segments (p ++ "/" ++ s) ≡ append (segments p) (segments s)
unfolding segments
segments-below String.[] s =
    rw (nil-append ("/" ++ s), cons-append (char_at "/" 0) "" s, nil-append s) refl
segments-below (String.◌∷◌ c p) s = elim (Bool-cases (is_slash c)) [
  | inl slash ↦ rw (cons-append c p ("/" ++ s), slash, segments-below p s) refl
  | inr other ↦
      rw (cons-append c p ("/" ++ s), other, segments-below p s, push-append c p (segments s)) refl
]

-- A name joined to a path from the root is the last segment of the result.
pub clean-below :
    (p n : String)
    → has_prefix (p ++ "/" ++ n) "/" ≡ true
    → contains_any n "/" ≡ false
    → str_eq n "" ≡ false
    → str_eq n "." ≡ false
    → str_eq n ".." ≡ false
    → clean (p ++ "/" ++ n) ≡ path_of (append (clean_segments true [] (segments p)) (n ∷ []))
unfolding clean_segments
clean-below p n h single nonempty not_here not_up =
    clean-rooted (p ++ "/" ++ n) h
    ∙ ap (λ l. path_of (clean_segments true [] l))
        (segments-below p n ∙ ap (append (segments p)) (segments-of_name n single))
    ∙ ap path_of (clean_segments-append true [] (segments p) (n ∷ []))
    ∙ rw (nonempty, not_here, not_up) refl
