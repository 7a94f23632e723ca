-- ===== src/Adapters/PendingFiles.antt =====
-- pkg/fs/box/transfer.go and pkg/fs/msgraph/transfer.go: the ids of files that an upload is to create,
-- "pending:", the parent, the declared size and the name. The two packages parse them alike.
use Prim.Native.String.{◌++◌, char_at, count}
use text.Mathlib.TextPositions.{starts_with-append}
use text.Mathlib.TextLemmas.{length-append}
use sylos_fs.Base.{
  ℤ, negsuc, String, eq_iff, false, not, ◌||◌, Option, none, some, if◌then◌else◌, ◌≡◌, refl, ap,
  ◌∙◌, arith, Bool-cases, inl, inr,
}
use sylos_fs.Base.Text.{contains_any, has_prefix, trim_prefix, cut}
use sylos_fs.Base.Text.Cutting.{trim_prefix-append, cut-append}
use sylos_fs.Base.Text.Decimal.{decimal_ℤ, parse_int}
use sylos_fs.Base.Text.Decimal.Reading.{Int64, parse_int-decimal_ℤ, contains_any-decimal_ℤ}
use sylos_fs.Adapters.Dropbox.Paths.{is_empty}

-- pendingFileID of Box
unfoldable pub pending_file_id : String → String → ℤ → String
pending_file_id parent_id name size =
    "pending:" ++ parent_id ++ ":" ++ decimal_ℤ size ++ ":" ++ name

-- PendingFileID of Graph
abbrev pub parent_or_root : String → String
parent_or_root parent_id = if is_empty parent_id then "root" else parent_id

unfoldable pub graph_pending_file_id : String → String → ℤ → String
graph_pending_file_id parent_id name size = pending_file_id (parent_or_root parent_id) name size

pub record PendingFile : Type 0 where
  pub parent_id : String
  pub name : String
  pub size : ℤ

-- The form without a size, pending:<parent>:<name>.
abbrev pub legacy : String → String → PendingFile
legacy parent rest = record { parent_id = parent; name = rest; size = negsuc 0 }

-- After the size: its number, and the name.
abbrev pub sized : String → String → Option (String × String) → PendingFile
sized parent rest none = legacy parent rest
sized parent rest (some (size_str, name_part)) = elim (parse_int size_str) [
  | none ↦ legacy parent rest
  | some n ↦
      if is_empty name_part
      then legacy parent rest
      else record { parent_id = parent; name = name_part; size = n }
]

-- After the parent.
abbrev pub parented : Option (String × String) → Option PendingFile
parented none = none
parented (some (parent, rest)) =
    if is_empty parent || is_empty rest
    then none
    else some (sized parent rest (cut (char_at ":" 0) rest))

-- parsePendingFileID of Box, ParsePendingFileID of Graph
unfoldable pub parse_sized_pending_file_id : String → Option PendingFile
parse_sized_pending_file_id file_id =
    let rest = trim_prefix file_id "pending:" in
    if not (has_prefix file_id "pending:") then none else parented (cut (char_at ":" 0) rest)

-- What is read back of an id, by whether the parent is empty.
abbrev pub read_back : String → String → ℤ → Option PendingFile
read_back parent_id name size =
    if is_empty parent_id
    then none
    else some (record { parent_id = parent_id; name = name; size = size })

after_colon : (s t : String) → is_empty (s ++ ":" ++ t) ≡ false
after_colon s t = elim (Bool-cases (is_empty (s ++ ":" ++ t))) [
  | inl empty ↦
      let e : count (s ++ ":" ++ t) ≡ count "" = ap count ((eq_iff (s ++ ":" ++ t) "").0 empty) in
      absurd (
        omega (
          arith,
          e,
          length-append s (":" ++ t),
          length-append ":" t,
          refl {a = count ":"},
          refl {a = count ""},
        ))
  | inr given ↦ given
]

-- An id of Box is parsed back to the parent, the name and the size that it was made of, if the parent
-- is not empty and has no colon, the name is not empty and the size is a 64-bit integer. With an
-- empty parent it is not taken for a pending file.
pub parse-pending_file_id :
    (parent_id name : String) (size : ℤ)
    → contains_any parent_id ":" ≡ false
    → is_empty name ≡ false
    → Int64 size
    → parse_sized_pending_file_id (pending_file_id parent_id name size)
      ≡ read_back parent_id name size
unfolding parse_sized_pending_file_id pending_file_id
parse-pending_file_id parent_id name size plain named h =
    let rest = decimal_ℤ size ++ ":" ++ name in
    let starts = starts_with-append "pending:" (parent_id ++ ":" ++ rest) in
    let trimmed = trim_prefix-append "pending:" (parent_id ++ ":" ++ rest) in
    let first = cut-append parent_id rest plain in
    let second = cut-append (decimal_ℤ size) name (contains_any-decimal_ℤ size) in
    let read = parse_int-decimal_ℤ size h in
    let more = after_colon (decimal_ℤ size) name in
    elim (Bool-cases (is_empty parent_id)) [
      | inl empty ↦ rw (starts, trimmed, first, empty) refl
      | inr given ↦ rw (starts, trimmed, first, given, more, second, sized, read, named) refl
    ]

-- An id of Graph is parsed back to the parent, "root" in place of an empty one, the name and the
-- size, if the parent has no colon, the name is not empty and the size is a 64-bit integer.
pub parse-graph_pending_file_id :
    (parent_id name : String) (size : ℤ)
    → contains_any parent_id ":" ≡ false
    → is_empty name ≡ false
    → Int64 size
    → parse_sized_pending_file_id (graph_pending_file_id parent_id name size)
      ≡ some (record { parent_id = parent_or_root parent_id; name = name; size = size })
unfolding graph_pending_file_id contains_any
parse-graph_pending_file_id parent_id name size plain named h =
    elim (Bool-cases (is_empty parent_id)) [
      | inl empty ↦ rw empty (parse-pending_file_id "root" name size refl named h)
      | inr given ↦
          rw given (parse-pending_file_id parent_id name size plain named h ∙ rw given refl)
    ]
