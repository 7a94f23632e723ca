-- ===== src/Adapters/Dropbox/Paths/Pending.antt =====
-- pkg/fs/dropbox: CreateFile of adapter.go and the path that transfer.go uploads to. Nothing is created
-- before the upload: the file's id carries its path.
use Prim.Native.String.{◌++◌, char_at, count}
use text.Mathlib.TextEquality.{starts_with_iff}
use text.Mathlib.TextPositions.{starts_with-append}
use text.Mathlib.TextLemmas.{append_assoc, length-append, length-cons}
use sylos_fs.Base.{
  ◌+◌, ◌≤◌, ◌⊎◌, ℤ, pos, String, str_eq, eq_iff, List, [], ◌∷◌, ◌++◌ as append, true, false, not,
  ◌&&◌, ◌||◌, Option, none, some, if◌then◌else◌, ◌≡◌, refl, sym, ap, ◌∙◌, arith, Bool-cases, inl,
  inr,
}
use sylos_fs.Base.Text.{trim_space, contains_any, has_prefix, trim_prefix, cut}
use sylos_fs.Base.Text.Cutting.{trim_prefix-append}
use sylos_fs.Base.Text.Paths.{join, join_segments, clean_segments, segments}
use sylos_fs.Base.Text.Paths.Clean.{path_of, join-append, clean-below}
use sylos_fs.Types.Listing.{File}
use sylos_fs.Types.Locations.{
  normalize_location_path, logical_parent_from_create_metadata, child_location_from_create_metadata,
}
use sylos_fs.Adapters.Dropbox.Paths.{
  DropboxFs, is_empty, is_root_ref, is_team_space, dropbox_path_ref, create_under_namespace_root,
  dropbox_child_under_parent, CreateError, ApiPath, wire, refused, create_api_path,
}

-- pendingFileByLocation
abbrev pub pending_file_by_location : String → String
pending_file_by_location location_path = "pending-loc:" ++ location_path

-- parsePendingLocationPath
unfoldable pub parse_pending_location_path : String → Option String
parse_pending_location_path file_id =
    let loc = trim_prefix file_id "pending-loc:" in
    if not (has_prefix file_id "pending-loc:")
    then none
    else if is_empty loc || str_eq loc "/"
    then none
    else some loc

-- parsePendingFileID, with the SplitN of three parts as two cuts.
abbrev pub both_parts : Option (String × String) → Option (String × String)
both_parts none = none
both_parts (some (parent, name)) =
    if is_empty parent || is_empty name then none else some (parent, name)

abbrev pub cut_rest : Option (String × String) → Option (String × String)
cut_rest none = none
cut_rest (some (before, after)) = cut (char_at ":" 0) after

pub parse_pending_file_id : String → Option (String × String)
unfolding cut
parse_pending_file_id file_id =
    if not (has_prefix file_id "pending:") || has_prefix file_id "pending-loc:"
    then none
    else both_parts (cut_rest (cut (char_at ":" 0) file_id))

-- What newDropboxWriter makes of the id: a location, a parent and a name, or an existing file.
pub data Target : Type 0 where
  at_location : String → Target
  under_parent : String → String → Target
  existing : String → Target

abbrev pub target_of : Option String → Option (String × String) → String → Target
target_of (some loc) parts file_id = at_location loc
target_of none (some (parent, name)) file_id = under_parent parent name
target_of none none file_id = existing file_id

unfoldable pub new_dropbox_writer : String → Target
new_dropbox_writer file_id =
    target_of (parse_pending_location_path file_id) (parse_pending_file_id file_id) file_id

-- The path to upload to; a file of a team space's root is refused.
pub data UploadPath : Type 0 where
  upload_to : String → UploadPath
  at_team_root : UploadPath
  no_create_path : CreateError → UploadPath

abbrev pub upload_path_of : ApiPath → UploadPath
upload_path_of (wire p) = upload_to p
upload_path_of (refused e) = no_create_path e

-- resolveUploadPath
unfoldable pub resolve_upload_path : DropboxFs → Target → UploadPath
resolve_upload_path d (at_location loc) = upload_to loc
resolve_upload_path d (existing id) = upload_to (dropbox_path_ref id)
resolve_upload_path d (under_parent parent name) =
    if is_team_space d.ctx && is_root_ref parent
    then at_team_root
    else upload_path_of (create_api_path d parent name)

-- parentStored of CreateFile
abbrev pub stored_parent : DropboxFs → String → String
stored_parent d parent_id =
    let parent = trim_space parent_id in
    let root = trim_space d.root.service_id in
    if create_under_namespace_root d parent
    then (if is_empty root then "root" else root)
    else parent

pub data Created : Type 0 where
  created : File → Created
  not_created : CreateError → Created

-- The file of CreateFile for a wire path; `now` is the time as text.
abbrev pub pending_file :
    DropboxFs → String → String → ℤ → List (String × String) → String → String → File
pending_file d parent_id name size metadata now path =
    let root = normalize_location_path d.root.location_path in
    record {
      service_id = pending_file_by_location path;
      parent_id = stored_parent d parent_id;
      parent_path = logical_parent_from_create_metadata metadata root;
      display_name = name;
      location_path = child_location_from_create_metadata metadata root name;
      last_updated = now;
      depth_level = pos 0;
      size = size;
      type = "file";
    }

-- CreateFile
unfoldable pub create_file :
    DropboxFs → String → String → ℤ → List (String × String) → String → Created
unfolding create_api_path
create_file d parent_id name size metadata now = elim (create_api_path d parent_id name) [
  | wire p ↦ created (pending_file d parent_id name size metadata now p)
  | refused e ↦ not_created e
]

-- A path longer than a slash is one that an id can carry.
abbrev Carried : String → Type 0
Carried p = (is_empty p ≡ false) × (str_eq p "/" ≡ false)

long-ne : (p s : String) → count s + 1 ≤ count p → str_eq p s ≡ false
long-ne p s h = elim (Bool-cases (str_eq p s)) [
  | inl same ↦ let e : count p ≡ count s = ap count ((eq_iff p s).0 same) in absurd (omega arith)
  | inr other ↦ other
]

long-Carried : (p : String) → 2 ≤ count p → Carried p
long-Carried p h = (long-ne p "" (omega arith), long-ne p "/" h)

count-pos : (n : String) → is_empty n ≡ false → 1 ≤ count n
count-pos String.[] h = absurd (cc h)
count-pos (String.◌∷◌ c s) h = omega (arith, length-cons c s)

count-below : (p n : String) → is_empty n ≡ false → 2 ≤ count (p ++ "/" ++ n)
count-below p n h =
    omega
      (arith, length-append p ("/" ++ n), length-append "/" n, count-pos n h, refl {a = count "/"})

-- What createAPIPath accepts: a name that is one segment, at the root or under the parent.
pub record Accepts (d : DropboxFs) (parent name p : String) : Type 0 where
  pub nonempty : is_empty name ≡ false
  pub single : contains_any name "/" ≡ false
  pub not_here : str_eq name "." ≡ false
  pub not_up : str_eq name ".." ≡ false
  pub placed : (p ≡ "/" ++ name) ⊎ (p ≡ dropbox_child_under_parent parent name)

pub create_api_path-Accepts :
    (d : DropboxFs) (parent_id name p : String)
    → create_api_path d parent_id name ≡ wire p
    → Accepts d (trim_space parent_id) (trim_space name) p
unfolding create_api_path
create_api_path-Accepts d parent_id name p h = record {
  nonempty = ground arith;
  single = ground arith;
  not_here = ground arith;
  not_up = ground arith;
  placed = ground arith;
}

count-rooted : (n : String) → is_empty n ≡ false → 2 ≤ count ("/" ++ n)
count-rooted n h = omega (arith, length-append "/" n, count-pos n h, refl {a = count "/"})

count-path_of :
    (out : List String) (n : String)
    → is_empty n ≡ false
    → 2 ≤ count (path_of (append out (n ∷ [])))
unfolding join_segments
count-path_of [] n h = count-rooted n h
count-path_of (s ∷ out) n h = rw (join-append s out n) (
    omega (
      arith,
      length-append "/" (join_segments (s ∷ out) ++ "/" ++ n),
      count-below (join_segments (s ∷ out)) n h,
      refl {a = count "/"},
    ))

starts-append : (p s : String) → has_prefix p "/" ≡ true → has_prefix (p ++ s) "/" ≡ true
starts-append p s h =
    let (r, e) = (starts_with_iff p "/").0 h in
    ap (λ q. has_prefix (q ++ s) "/") (sym e)
    ∙ ap (λ q. has_prefix q "/") (append_assoc "/" r s)
    ∙ starts_with-append "/" (r ++ s)

join-Carried :
    (parent n : String)
    → has_prefix parent "/" ≡ true
    → is_empty n ≡ false
    → contains_any n "/" ≡ false
    → str_eq n "." ≡ false
    → str_eq n ".." ≡ false
    → Carried (join parent n)
unfolding join
join-Carried parent n starts nonempty single not_here not_up =
    let out = clean_segments true [] (segments parent) in
    let below =
      clean-below parent n (starts-append parent ("/" ++ n) starts) single nonempty not_here
        not_up in
    elim (Bool-cases (is_empty parent)) [
      | inl empty ↦
          let e : parent ≡ "" = (eq_iff parent "").0 empty in
          absurd (cc (sym starts ∙ ap (λ p. has_prefix p "/") e))
      | inr given ↦ rw (given, nonempty, below) (long-Carried _ (count-path_of out n nonempty))
    ]

child-Carried :
    (d : DropboxFs) (parent name p : String)
    → Accepts d parent name p
    → Carried (dropbox_child_under_parent parent name)
unfolding dropbox_child_under_parent
child-Carried d parent name p a = elim (Bool-cases (has_prefix (dropbox_path_ref parent) "/")) [
  | inl path ↦
      rw path
        (join-Carried (dropbox_path_ref parent) name path a.nonempty a.single a.not_here a.not_up)
  | inr id ↦ rw id (long-Carried _ (count-below (dropbox_path_ref parent) name a.nonempty))
]

create_api_path-Carried :
    (d : DropboxFs) (parent_id name p : String)
    → create_api_path d parent_id name ≡ wire p
    → Carried p
create_api_path-Carried d parent_id name p h =
    let a = create_api_path-Accepts d parent_id name p h in
    elim a.placed [
      | inl e ↦ rw e (long-Carried _ (count-rooted (trim_space name) a.nonempty))
      | inr e ↦ rw e (child-Carried d (trim_space parent_id) (trim_space name) p a)
    ]

create_api_path-answers :
    (d : DropboxFs) (parent_id name : String)
    → ((p : String) × (create_api_path d parent_id name ≡ wire p))
      ⊎ ((e : CreateError) × (create_api_path d parent_id name ≡ refused e))
create_api_path-answers d parent_id name = go (create_api_path d parent_id name) refl
  where
    go :
        (a : ApiPath)
        → create_api_path d parent_id name ≡ a
        → ((p : String) × (create_api_path d parent_id name ≡ wire p))
          ⊎ ((e : CreateError) × (create_api_path d parent_id name ≡ refused e))
    go (wire p) h = inl (p, h)
    go (refused e) h = inr (e, h)

-- What CreateFile promises, the writer that opens the file's id uploads to: the path that
-- createAPIPath gave.
pub resolve_upload_path-create_file :
    (d : DropboxFs) (parent_id name : String) (size : ℤ) (metadata : List (String × String))
    (now : String) (f : File)
    → create_file d parent_id name size metadata now ≡ created f
    → (p : String) × (create_api_path d parent_id name ≡ wire p)
      × (resolve_upload_path d (new_dropbox_writer f.service_id) ≡ upload_to p)
unfolding create_file new_dropbox_writer resolve_upload_path parse_pending_location_path
resolve_upload_path-create_file d parent_id name size metadata now f h =
    elim (create_api_path-answers d parent_id name) [
      | inr (e, turned) ↦ absurd (ground arith)
      | inl (p, made) ↦
          let (nonempty, not_root) = create_api_path-Carried d parent_id name p made in
          let id : f.service_id ≡ pending_file_by_location p = ground arith in
          let starts = starts_with-append "pending-loc:" p in
          let loc = trim_prefix-append "pending-loc:" p in
          (p, made, rw (id, starts, loc, nonempty, not_root) refl)
    ]
