-- ===== src/Types/Listing/Pager.antt =====
-- pkg/types/types.go: ListPager. Sizes and indices are never negative here, so they are numbers;
-- the page size that a caller passes in may be negative and is an integer.
pub mod Drain
use sylos_fs.Base.{
  ℕ, zero, suc, ◌+◌, ◌-◌, ℤ, pos, negsuc, List, [], ◌∷◌, ◌++◌, Bool, Option, none, some, length,
  get_elem?, ltb, leb, if◌then◌else◌,
}
use sylos_fs.Types.Listing.{Folder, File, ListResult, ListPage}

pub record ListPager : Type 0 where
  pub all_folders : List Folder
  pub all_files : List File
  pub total : ℕ
  pub page_size : ℕ
  pub page : ℕ
  pub index : ℕ

-- `if pageSize <= 0 { pageSize = 100 }`
abbrev pub positive_page_size : ℤ → ℕ
positive_page_size (pos zero) = 100
positive_page_size (pos (suc n)) = suc n
positive_page_size (negsuc n) = 100

unfoldable pub new_list_pager : ListResult → ℤ → ListPager
new_list_pager result page_size = record {
  all_folders = result.folders;
  all_files = result.files;
  total = length result.folders + length result.files;
  page_size = positive_page_size page_size;
  page = 0;
  index = 0;
}

-- `append(xs, all[i])`, under the bounds test of the loop: nothing is appended out of range.
abbrev pub append_elem {ℓ} : {A : Type ℓ} → List A → Option A → List A
append_elem xs none = xs
append_elem xs (some a) = xs ++ a ∷ []

-- The loop of Next: `count` rounds from the linear index.
unfoldable pub gather :
    List Folder → List File → ℕ → ℕ → List Folder → List File → List Folder × List File
gather all_folders all_files index zero folders files = (folders, files)
gather all_folders all_files index (suc count) folders files =
    gather all_folders all_files (suc index) count
      (append_elem folders (get_elem? all_folders index))
      (if ltb index (length all_folders)
        then files
        else append_elem files (get_elem? all_files (index - length all_folders)))

abbrev pub page_count : ListPager → ℕ
page_count p = if ltb (p.total - p.index) p.page_size then p.total - p.index else p.page_size

-- Next: no page at the end, else the page and the pager behind it.
unfoldable pub next : ListPager → Option ListPage × ListPager
next p =
    let count = page_count p in
    let rows = gather p.all_folders p.all_files p.index count [] [] in
    let index : ℕ = p.index + count in
    if leb p.total p.index then (none, p) else (
      some (record {
        folders = rows.0;
        files = rows.1;
        total = p.total;
        page = p.page;
        page_size = p.page_size;
        has_more = ltb index p.total;
      }),
      record p { index = index; page = p.page + 1 },
    )
