-- ===== src/Manager/Mutations/Names.antt =====
-- Folder names: what sanitizeFolderName accepts, it accepts again unchanged.
use sylos_fs.Base.{String, str_eq, false, ◌||◌, ◌≡◌, ◌≢◌, sym, ap, ◌∙◌, arith, eq_iff}
use sylos_fs.Base.Text.{trim_space, contains_any}
use sylos_fs.Base.Text.Trimming.{trim_space_idem}
use sylos_fs.Manager.Mutations.{name, sanitize_folder_name}

accepted_name :
    {E : Type 0} (given n : String)
    → sanitize_folder_name {E = E} given ≡ name n
    → (trim_space given ≡ n)
      × (str_eq n "" ≡ false)
      × ((contains_any n "/\\" || (str_eq n "." || str_eq n "..")) ≡ false)
unfolding sanitize_folder_name
accepted_name given n h = ground arith

-- A folder name that comes out of sanitizeFolderName is not empty, has no slash and no backslash, is
-- neither "." nor "..", and goes through sanitizeFolderName unchanged.
pub sanitize_folder_name_idem :
    (E : Type 0) (given n : String)
    → sanitize_folder_name {E = E} given ≡ name n
    → (n ≢ "")
      × (contains_any n "/\\" ≡ false)
      × (n ≢ ".")
      × (n ≢ "..")
      × (sanitize_folder_name {E = E} n ≡ name n)
unfolding sanitize_folder_name
sanitize_folder_name_idem E given n h =
    let (e, named, clean) = accepted_name given n h in
    let trimmed : trim_space n ≡ n = ap trim_space (sym e) ∙ trim_space_idem given ∙ e in
    (
      ground (arith, eq_iff n ""),
      ground arith,
      ground (arith, eq_iff n "."),
      ground (arith, eq_iff n ".."),
      ground arith,
    )
