-- ===== src/Types/Listing/Pager/Drain.antt =====
-- What the pages of a ListPager hold, and that following Next to the end returns the listing.
use sylos_fs.Base.{
  ℕ, zero, suc, ◌+◌, ◌-◌, ◌≤◌, ◌<◌, ℤ, pos, negsuc, List, [], ◌∷◌, ◌++◌, map, true, false, none,
  some, ◌≡◌, refl, sym, ap, ◌∙◌, length, take, drop, get_elem?, ltb, if◌then◌else◌, subst, min,
  length-take, ◌↔◌, ◌≢◌, length-drop, leb, leb→le, drop_of_le, drop-drop, take-append-drop, arith,
  append-nil, append_assoc, map-take, map-drop, length-map, length-append, take-append, drop-append,
  take-nil, Bool-cases, ltb→lt, inl, inr,
}
use sylos_fs.Types.Listing.{Folder, File, Node, folder, file, ListResult, ListPage, entries}
use sylos_fs.Types.Listing.Pager.{ListPager, new_list_pager, gather, next, append_elem, page_count}

module _ {ℓ} {A : Type ℓ} where
  -- One round of the loop appends the first element of what is left.
  append_elem-take :
      (acc xs : List A) (i n : ℕ)
      → append_elem acc (get_elem? xs i) ++ take n (drop (suc i) xs)
        ≡ acc ++ take (suc n) (drop i xs)
  append_elem-take acc [] zero n = rw (take-nil n)
  append_elem-take acc [] (suc i) n = rw (take-nil n)
  append_elem-take acc (x ∷ xs) zero n = append_assoc acc (x ∷ []) (take n xs)
  append_elem-take acc (x ∷ xs) (suc i) n = append_elem-take acc xs i n

-- A window over the numbered children, cut into its folders and its files.
pub window :
    (fs : List Folder) (xs : List File) (i n : ℕ)
    → entries (take n (drop i fs)) (take (n - (length fs - i)) (drop (i - length fs) xs))
      ≡ take n (drop i (entries fs xs))
window fs xs i n =
    let cut : length (drop i (map folder fs)) ≡ length fs - i =
      length-drop i (map folder fs) ∙ ap (λ k. k - i) (length-map folder fs) in
    rw (
      map-take folder n (drop i fs),
      map-drop folder i fs,
      map-take file (n - (length fs - i)) (drop (i - length fs) xs),
      map-drop file (i - length fs) xs,
      drop-append i (map folder fs) (map file xs),
      length-map folder fs,
      take-append n (drop i (map folder fs)) (drop (i - length fs) (map file xs)),
      cut,
    )

module _ (fs : List Folder) (xs : List File) where
  gather-folders :
      (i n : ℕ) (a : List Folder) (b : List File)
      → (gather fs xs i n a b).0 ≡ a ++ take n (drop i fs)
  unfolding gather
  gather-folders i zero a b = sym (append-nil a)
  gather-folders i (suc n) a b = gather-folders (suc i) n _ _ ∙ append_elem-take a fs i n

  file_round :
      (i n : ℕ) (b : List File)
      → (if ltb i (length fs) then b else append_elem b (get_elem? xs (i - length fs)))
          ++ take (n - (length fs - suc i)) (drop (suc i - length fs) xs)
        ≡ b ++ take (suc n - (length fs - i)) (drop (i - length fs) xs)
  file_round i n b = elim (Bool-cases (ltb i (length fs))) [
    | inl inside ↦
        let h : i < length fs = ltb→lt _ _ inside in
        let e : suc n - (length fs - i) ≡ n - (length fs - suc i) = omega arith in
        let e' : i - length fs ≡ suc i - length fs = omega arith in rw (inside, e, e')
    | inr outside ↦
        let h : length fs ≤ i = ground arith in
        let e : suc n - (length fs - i) ≡ suc n = omega arith in
        let e' : n - (length fs - suc i) ≡ n = omega arith in
        let e'' : suc i - length fs ≡ suc (i - length fs) = omega arith in
        rw (outside, e, e', e'') (append_elem-take b xs (i - length fs) n)
  ]

  gather-files :
      (i n : ℕ) (a : List Folder) (b : List File)
      → (gather fs xs i n a b).1 ≡ b ++ take (n - (length fs - i)) (drop (i - length fs) xs)
  unfolding gather
  gather-files i zero a b =
      let e : zero - (length fs - i) ≡ zero = omega arith in rw e (sym (append-nil b))
  gather-files i (suc n) a b = gather-files (suc i) n _ _ ∙ file_round i n b

  -- A page holds the window of the numbered children.
  gather-entries :
      (i n : ℕ)
      → entries (gather fs xs i n [] []).0 (gather fs xs i n [] []).1
        ≡ take n (drop i (entries fs xs))
  gather-entries i n = rw (gather-folders i n [] [], gather-files i n [] []) (window fs xs i n)

pub record IsValid (p : ListPager) : Type 0 where
  pub counted : p.total ≡ length p.all_folders + length p.all_files
  pub within : p.index ≤ p.total
  pub positive : 1 ≤ p.page_size

pub new_list_pager-IsValid : (result : ListResult) (size : ℤ) → IsValid (new_list_pager result size)
unfolding new_list_pager
new_list_pager-IsValid result (pos zero) = omega arith
new_list_pager-IsValid result (pos (suc n)) = omega arith
new_list_pager-IsValid result (negsuc n) = omega arith

pub next-IsValid : (p : ListPager) → IsValid p → IsValid (next p).1
unfolding next
next-IsValid p v = ground arith

-- Reading pages until Next returns none.
pub drain : ℕ → ListPager → List Node
drain zero p = []
drain (suc fuel) p =
    let rest = drain fuel (next p).1 in
    elim (next p).0 [ none ↦ [] | some page ↦ entries page.folders page.files ++ rest ]

pub length-entries :
    (fs : List Folder) (xs : List File) → length (entries fs xs) ≡ length fs + length xs
length-entries fs xs =
    omega
      (arith, length-append (map folder fs) (map file xs), length-map folder fs, length-map file xs)

abbrev rows : ListPager → List Folder × List File
rows p = gather p.all_folders p.all_files p.index (page_count p) [] []

abbrev page_of : ListPager → ListPage
page_of p = record {
  folders = (rows p).0;
  files = (rows p).1;
  total = p.total;
  page = p.page;
  page_size = p.page_size;
  has_more = ltb (p.index + page_count p) p.total;
}

next_end : (p : ListPager) → leb p.total p.index ≡ true → next p ≡ (none, p)
unfolding next
next_end p h = rw h

next_page :
    (p : ListPager)
    → leb p.total p.index ≡ false
    → next p ≡ (some (page_of p), record p { index = p.index + page_count p; page = p.page + 1 })
unfolding next
next_page p h = rw h

drain-drop :
    (fuel : ℕ) (p : ListPager)
    → IsValid p
    → p.total - p.index < fuel
    → drain fuel p ≡ drop p.index (entries p.all_folders p.all_files)
unfolding drain
drain-drop zero p v h = absurd (omega arith)
drain-drop (suc fuel) p v h = elim (Bool-cases (leb p.total p.index)) [
  | inl done ↦
      let all : length (entries p.all_folders p.all_files) ≤ p.index =
        omega (arith, length-entries p.all_folders p.all_files, leb→le _ _ done, v.counted) in
      rw (drop_of_le _ _ all, next_end p done, drain)
  | inr more ↦
      let i = p.index in
      let n = page_count p in
      let all = entries p.all_folders p.all_files in
      let valid : IsValid (record p { index = i + n; page = p.page + 1 }) =
        rw (next_page p more) at (next-IsValid p v) in
      let tail : drain fuel (record p { index = i + n; page = p.page + 1 }) ≡ drop (i + n) all =
        drain-drop fuel _ valid (ground (arith, v)) in
      rw
        (
          next_page p more,
          drain,
          next_page p more,
          tail,
          gather-entries p.all_folders p.all_files i n,
        )
        (ap (λ r. take n (drop i all) ++ r) (sym (drop-drop n i all))
          ∙ take-append-drop n (drop i all))
]

-- Reading a listing page by page gives its folders and then its files, each exactly once and in
-- order, whatever page size the caller asks for, and one more read than there are children is
-- always enough to reach the end.
pub drain-new_list_pager :
    (result : ListResult) (size : ℤ) (fuel : ℕ)
    → length result.folders + length result.files < fuel
    → drain fuel (new_list_pager result size) ≡ entries result.folders result.files
drain-new_list_pager result size fuel h =
    unfold new_list_pager in
    drain-drop fuel (new_list_pager result size) (new_list_pager-IsValid result size) (omega arith)

next-ne-none_iff : (p : ListPager) → (ltb p.index p.total ≡ true) ↔ ((next p).0 ≢ none)
unfolding next
next-ne-none_iff p = ground arith

pub record IsPage (p : ListPager) (page : ListPage) : Type 0 where
  pub nonempty : 1 ≤ length (entries page.folders page.files)
  pub bounded : length (entries page.folders page.files) ≤ p.page_size
  pub numbered : page.page ≡ p.page
  pub counted : page.total ≡ p.total
  pub followed : (page.has_more ≡ true) ↔ ((next (next p).1).0 ≢ none)

length-page :
    (p : ListPager)
    → IsValid p
    → length (entries (rows p).0 (rows p).1) ≡ min (page_count p) (p.total - p.index)
length-page p v =
    let all = entries p.all_folders p.all_files in
    rw (gather-entries p.all_folders p.all_files p.index (page_count p)) (
      omega (
        arith,
        length-take (page_count p) (drop p.index all),
        length-drop p.index all,
        length-entries p.all_folders p.all_files,
        v.counted,
      ))

page_of-IsPage : (p : ListPager) → leb p.total p.index ≡ false → IsValid p → IsPage p (page_of p)
page_of-IsPage p more v = record {
  nonempty = ground (arith, length-page p v);
  bounded = ground (arith, length-page p v);
  numbered = refl;
  counted = refl;
  followed = rw (next_page p more) (next-ne-none_iff _);
}

-- A page that Next returns holds between one child and page_size children, reports the page's
-- number and the whole count, and says that there is more exactly when the next call of Next
-- returns another page.
pub next-IsPage :
    (p : ListPager) {page : ListPage} → IsValid p → (next p).0 ≡ some page → IsPage p page
next-IsPage p {page} v e = elim (Bool-cases (leb p.total p.index)) [
  | inl done ↦ cc (next_end p done)
  | inr more ↦
      let same : page_of p ≡ page = cc (next_page p more) in
      subst (IsPage p) same (page_of-IsPage p more v)
]
