-- ===== src/Manager/Pagination/Walk.antt =====
-- Clients that follow HasMore from page to page, and the requests for which HasMore misleads them.
use sylos_fs.Base.{
  ℕ, zero, suc, ◌+◌, ◌-◌, ◌≤◌, ◌<◌, pos, List, [], ◌++◌, true, false, ◌≡◌, ◌∙◌, inl, inr, length,
  take, drop, arith, if◌then◌else◌, Bool-cases, append-nil, take_of_le, length-drop,
  take-append-drop, drop-drop,
}
use sylos_fs.Types.Listing.{Node, ListResult, entries}
use sylos_fs.Types.Listing.Pager.Drain.{length-entries}
use sylos_fs.Manager.Pagination.{clamp_limit, page_info, apply_pagination}
use sylos_fs.Manager.Pagination.Window.{page-entries, page_past_folders, has_more_iff}

-- A request for the page at an offset, and another at the next offset while HasMore holds.
pub walk : ℕ → ListResult → ℕ → ℕ → List Node
walk zero result offset limit = []
walk (suc fuel) result offset limit =
    let (page, info) = apply_pagination result (pos offset) (pos limit) false in
    let rest = walk fuel result (offset + limit) limit in
    entries page.folders page.files ++ (if info.has_more then rest else [])

clamp_limit_lem : (limit : ℕ) → 1 ≤ limit → limit ≤ 1000 → clamp_limit (pos limit) ≡ limit
clamp_limit_lem zero low high = absurd (omega arith)
clamp_limit_lem (suc n) low high = ground arith

walk_more :
    (fuel : ℕ) (result : ListResult) (offset limit : ℕ)
    → clamp_limit (pos limit) ≡ limit
    → (page_info result offset limit).has_more ≡ true
    → walk (suc fuel) result offset limit
      ≡ take limit (drop offset (entries result.folders result.files))
        ++ walk fuel result (offset + limit) limit
unfolding walk apply_pagination
walk_more fuel result offset limit e h = rw (e, h, page-entries result offset limit)

walk_last :
    (fuel : ℕ) (result : ListResult) (offset limit : ℕ)
    → clamp_limit (pos limit) ≡ limit
    → (page_info result offset limit).has_more ≡ false
    → walk (suc fuel) result offset limit
      ≡ take limit (drop offset (entries result.folders result.files))
unfolding walk apply_pagination
walk_last fuel result offset limit e h = rw (e, h, page-entries result offset limit, append-nil)

walk-drop :
    (fuel : ℕ) (result : ListResult) (offset limit : ℕ)
    → 1 ≤ limit
    → limit ≤ 1000
    → length (entries result.folders result.files) < 9223372036854774808
    → offset ≤ length (entries result.folders result.files)
    → length (entries result.folders result.files) - offset < fuel
    → walk fuel result offset limit ≡ drop offset (entries result.folders result.files)
walk-drop zero result offset limit low high small within enough = absurd (omega arith)
walk-drop (suc fuel) result offset limit low high small within enough =
    let all = entries result.folders result.files in
    let count = length-entries result.folders result.files in
    let kept = clamp_limit_lem limit low high in
    let more = has_more_iff result offset limit (omega arith) in
    elim (Bool-cases (page_info result offset limit).has_more) [
      | inl yes' ↦
          let room : offset + limit < length all = omega (arith, more.0 yes', count) in
          let rest : walk fuel result (offset + limit) limit ≡ drop (offset + limit) all =
            walk-drop fuel result (offset + limit) limit low high small (omega arith)
              (omega arith) in
          walk_more fuel result offset limit kept yes'
          ∙ rw (rest, ← drop-drop limit offset all) (take-append-drop limit (drop offset all))
      | inr no' ↦
          let end : length all ≤ offset + limit = ground (arith, more, count) in
          let short : length (drop offset all) ≤ limit = omega (arith, length-drop offset all) in
          walk_last fuel result offset limit kept no' ∙ take_of_le limit (drop offset all) short
    ]

-- A client that asks for folders and files with a limit between 1 and 1000, and goes on at
-- offset + limit while HasMore holds, receives the whole listing, every child once and in order,
-- within one request more than there are children.
pub walk-entries :
    (result : ListResult) (limit fuel : ℕ)
    → 1 ≤ limit
    → limit ≤ 1000
    → length (entries result.folders result.files) < 9223372036854774808
    → length (entries result.folders result.files) < fuel
    → walk fuel result 0 limit ≡ entries result.folders result.files
walk-entries result limit fuel low high small enough =
    walk-drop fuel result 0 limit low high small (omega arith) (omega arith)

-- When only folders are asked for, HasMore still counts the files: past the last folder the page
-- says that there is more, and the page that the client then asks for is empty.
pub folders_only_phantom :
    (result : ListResult) (offset limit : ℕ)
    → 1 ≤ limit
    → limit ≤ 1000
    → length result.folders ≤ offset + limit
    → offset + limit < length result.folders + length result.files
    → offset + limit < 9223372036854775808
    → ((apply_pagination result (pos offset) (pos limit) true).1.has_more ≡ true)
      × ((apply_pagination result (pos (offset + limit)) (pos limit) true).0
          ≡ record { folders = []; files = [] })
unfolding apply_pagination
folders_only_phantom result offset limit low high past left small =
    rw (clamp_limit_lem limit low high)
      ((has_more_iff result offset limit small).1 left, page_past_folders result _ limit past)

-- An offset so large that offset + limit leaves the 64-bit range makes HasMore true for every
-- listing.
pub has_more_overflow :
    (result : ListResult) (offset limit : ℕ)
    → 1 ≤ limit
    → limit ≤ 1000
    → offset < 9223372036854775808
    → 9223372036854775808 ≤ offset + limit
    → (apply_pagination result (pos offset) (pos limit) false).1.has_more ≡ true
unfolding apply_pagination page_info
has_more_overflow result offset limit low high int over =
    rw (clamp_limit_lem limit low high) (ground arith)
