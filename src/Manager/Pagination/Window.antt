-- ===== src/Manager/Pagination/Window.antt =====
-- A page of the manager is a window over the folders followed by the files, and following
-- HasMore walks through the whole listing.
use sylos_fs.Base.{
  ℕ, zero, suc, ◌+◌, ◌-◌, ◌≤◌, ◌<◌, ℤ, pos, negsuc, List, [], true, false, ◌≡◌, refl, sym, ap, inl,
  inr, ◌↔◌, length, take, drop, ltb, arith, Bool-cases, ltb→lt, take_of_le, drop_of_le, take-nil,
  length-take, length-drop,
}
use sylos_fs.Types.Listing.{ListResult, entries}
use sylos_fs.Types.Listing.Pager.Drain.{window, length-entries}
use sylos_fs.Manager.Pagination.{
  clamp_offset, clamp_limit, slice, file_offset, page_result, page_info, apply_pagination,
}

-- The bounds tests of the slices never change the window.
slice_lem {ℓ} :
    {A : Type ℓ} (xs : List A) (offset limit : ℕ)
    → slice xs offset limit ≡ take limit (drop offset xs)
slice_lem xs offset limit = elim (Bool-cases (ltb offset (length xs))) [
  | inl inside ↦ elim (Bool-cases (ltb (length xs) (offset + limit))) [
    | inl cut ↦
        let long : length xs < offset + limit = ltb→lt _ _ cut in
        let short : length (drop offset xs) ≤ length xs - offset =
          omega (arith, length-drop offset xs) in
        let short' : length (drop offset xs) ≤ limit = omega (arith, length-drop offset xs) in
        rw (inside, cut, take_of_le _ _ short, take_of_le _ _ short')
    | inr whole ↦ let e : offset + limit - offset ≡ limit = omega arith in rw (inside, whole, e)
  ]
  | inr outside ↦
      let h : length xs ≤ offset = ground arith in
      rw (outside, drop_of_le offset xs h) (sym (take-nil limit))
]

file_offset_lem : (offset folders : ℕ) → file_offset offset folders ≡ offset - folders
file_offset_lem offset folders = ground arith

pub page-entries :
    (result : ListResult) (offset limit : ℕ)
    → entries
        (page_result result offset limit false).folders
        (page_result result offset limit false).files
      ≡ take limit (drop offset (entries result.folders result.files))
unfolding page_result
page-entries result offset limit =
    let fs = result.folders in
    let left : limit - length (take limit (drop offset fs)) ≡ limit - (length fs - offset) =
      omega (arith, length-take limit (drop offset fs), length-drop offset fs) in
    rw
      (
        slice_lem fs offset limit,
        file_offset_lem offset (length fs),
        slice_lem result.files (offset - length fs) (limit - length (take limit (drop offset fs))),
        left,
      )
      (window fs result.files offset limit)

pub page-folders_only :
    (result : ListResult) (offset limit : ℕ)
    → (page_result result offset limit true).folders ≡ take limit (drop offset result.folders)
unfolding page_result
page-folders_only result offset limit = slice_lem result.folders offset limit

pub page_past_folders :
    (result : ListResult) (offset limit : ℕ)
    → length result.folders ≤ offset
    → page_result result offset limit true ≡ record { folders = []; files = [] }
unfolding page_result
page_past_folders result offset limit h =
    rw (slice_lem result.folders offset limit, drop_of_le offset result.folders h, take-nil limit)

-- A page of a request for folders and files is the window that offset and limit, once clamped, cut
-- out of the folders followed by the files: the folder and the file slice never leave a gap, never
-- overlap and never give more than the limit.
pub apply_pagination-entries :
    (result : ListResult) (offset limit : ℤ)
    → let page = (apply_pagination result offset limit false).0 in
      (entries page.folders page.files
        ≡ take
            (clamp_limit limit)
            (drop (clamp_offset offset) (entries result.folders result.files)))
      × (length page.folders + length page.files ≤ clamp_limit limit)
unfolding apply_pagination
apply_pagination-entries result offset limit =
    let o = clamp_offset offset in
    let l = clamp_limit limit in
    let page = page_result result o l false in
    let all = entries result.folders result.files in
    (
      page-entries result o l,
      omega (
        arith,
        length-entries page.folders page.files,
        ap length (page-entries result o l),
        length-take l (drop o all),
      ),
    )

-- A folders-only page holds no file, and the window of the folders.
pub apply_pagination-folders_only :
    (result : ListResult) (offset limit : ℤ)
    → let page = (apply_pagination result offset limit true).0 in
      (page.folders ≡ take (clamp_limit limit) (drop (clamp_offset offset) result.folders))
      × (page.files ≡ [])
unfolding apply_pagination page_result
apply_pagination-folders_only result offset limit =
    (page-folders_only result (clamp_offset offset) (clamp_limit limit), refl)

-- The limit in force is between 1 and 1000 whatever was asked for, and is the one asked for where
-- that lies in the range.
pub clamp_limit_bounds : (limit : ℤ) → (1 ≤ clamp_limit limit) × (clamp_limit limit ≤ 1000)
clamp_limit_bounds (pos zero) = omega arith
clamp_limit_bounds (pos (suc n)) = ground arith
clamp_limit_bounds (negsuc n) = omega arith

-- As long as offset + limit fits a 64-bit int, HasMore says exactly whether children remain behind
-- the page.
pub has_more_iff :
    (result : ListResult) (offset limit : ℕ)
    → offset + limit < 9223372036854775808
    → ((page_info result offset limit).has_more ≡ true)
      ↔ (offset + limit < length result.folders + length result.files)
unfolding page_info
has_more_iff result offset limit h = ground arith
