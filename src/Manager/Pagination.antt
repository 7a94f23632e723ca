-- ===== src/Manager/Pagination.antt =====
-- pkg/fs/manager.go: applyPagination, with its clamps and its slices. Offset and limit come from
-- the request and may be any integer; `offset + limit` is added as a 64-bit int.
pub mod Window
pub mod Walk
use sylos_fs.Base.{
  ℕ, zero, suc, ◌+◌, ◌-◌, ℤ, pos, negsuc, int64, ltb_ℤ, List, [], Bool, true, false, length, take,
  drop, ltb, if◌then◌else◌,
}
use sylos_fs.Types.Listing.{Folder, File, ListResult}

pub record PaginationInfo : Type 0 where
  pub offset : ℕ
  pub limit : ℕ
  pub total : ℕ
  pub total_folders : ℕ
  pub total_files : ℕ
  pub has_more : Bool

-- `if offset < 0 { offset = 0 }`
abbrev pub clamp_offset : ℤ → ℕ
clamp_offset (pos n) = n
clamp_offset (negsuc n) = 0

-- `if limit <= 0 { limit = 100 }`, then `if limit > 1000 { limit = 1000 }`
abbrev pub clamp_limit : ℤ → ℕ
clamp_limit (pos zero) = 100
clamp_limit (pos (suc n)) = if ltb 1000 (suc n) then 1000 else suc n
clamp_limit (negsuc n) = 100

-- `xs[offset:end]` with `end := min(offset + limit, len(xs))`, or the empty slice past the end.
abbrev pub slice {ℓ} : {A : Type ℓ} → List A → ℕ → ℕ → List A
slice xs offset limit =
    if ltb offset (length xs)
    then take ((if ltb (length xs) (offset + limit) then length xs else offset + limit) - offset)
        (drop offset xs)
    else []

-- Where the files of a page begin, and how many of them fit behind its folders.
abbrev pub file_offset : ℕ → ℕ → ℕ
file_offset offset total_folders = if ltb total_folders offset then offset - total_folders else 0

abbrev pub file_limit : ℕ → ℕ → ℕ
file_limit limit page_folders = limit - page_folders

pub page_result : ListResult → ℕ → ℕ → Bool → ListResult
page_result result offset limit folders_only =
    let folders = slice result.folders offset limit in
    record {
      folders = folders;
      files =
          if folders_only
          then []
          else slice result.files (file_offset offset (length result.folders))
              (file_limit limit (length folders));
    }

pub page_info : ListResult → ℕ → ℕ → PaginationInfo
page_info result offset limit =
    let total : ℕ = length result.folders + length result.files in
    record {
      offset = offset;
      limit = limit;
      total = total;
      total_folders = length result.folders;
      total_files = length result.files;
      has_more = ltb_ℤ (int64 (offset + limit)) (pos total);
    }

pub apply_pagination : ListResult → ℤ → ℤ → Bool → ListResult × PaginationInfo
unfolding page_result page_info
apply_pagination result offset limit folders_only = (
  page_result result (clamp_offset offset) (clamp_limit limit) folders_only,
  page_info result (clamp_offset offset) (clamp_limit limit),
)
