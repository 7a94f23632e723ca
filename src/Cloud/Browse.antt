-- ===== src/Cloud/Browse.antt =====
-- pkg/cloud/roots.go, browse.go and storage_scope.go: the root types that a browse request names, the
-- folder descriptor it gets, and what each root type says of storage.
pub mod Roots
use sylos_fs.Base.{
  String, str_eq, pos, List, [], ◌∷◌, Bool, true, false, ◌||◌, not, Option, none, some,
  if◌then◌else◌,
}
use sylos_fs.Base.Text.{trim_space}
use sylos_fs.Types.Listing.{Folder}

-- RootTypeMyDrive and the others; the empty text and any unknown one stay texts.
pub data RootType : Type 0 where
  my_drive shared_with_me shared_drive user_root team_space : RootType
  team_folder shared_folder sharepoint_site sharepoint_drive : RootType

abbrev pub root_type_text : RootType → String
root_type_text RootType.my_drive = "my_drive"
root_type_text RootType.shared_with_me = "shared_with_me"
root_type_text RootType.shared_drive = "shared_drive"
root_type_text RootType.user_root = "user_root"
root_type_text RootType.team_space = "team_space"
root_type_text RootType.team_folder = "team_folder"
root_type_text RootType.shared_folder = "shared_folder"
root_type_text RootType.sharepoint_site = "sharepoint_site"
root_type_text RootType.sharepoint_drive = "sharepoint_drive"

-- The cases of a Go switch over these constants.
abbrev pub root_type_of : String → Option RootType
root_type_of s =
    if str_eq s "my_drive"
    then some RootType.my_drive
    else if str_eq s "shared_with_me"
    then some RootType.shared_with_me
    else if str_eq s "shared_drive"
    then some RootType.shared_drive
    else if str_eq s "user_root"
    then some RootType.user_root
    else if str_eq s "team_space"
    then some RootType.team_space
    else if str_eq s "team_folder"
    then some RootType.team_folder
    else if str_eq s "shared_folder"
    then some RootType.shared_folder
    else if str_eq s "sharepoint_site"
    then some RootType.sharepoint_site
    else if str_eq s "sharepoint_drive"
    then some RootType.sharepoint_drive
    else none

-- The inner switches, behind the trimming of the arguments.
abbrev pub listing_of : String → RootType → Bool
listing_of id RootType.user_root = str_eq id "" || (str_eq id "root" || str_eq id "0")
listing_of id RootType.my_drive = str_eq id "" || (str_eq id "root" || str_eq id "0")
listing_of id RootType.team_space = str_eq id "" || (str_eq id "root" || str_eq id "teamSpace")
listing_of id RootType.shared_with_me = str_eq id "sharedWithMe"
listing_of id _ = not (str_eq id "")

unfoldable pub is_virtual_root_listing : String → String → Bool
unfolding trim_space
is_virtual_root_listing identifier root_type =
    let rt = trim_space root_type in
    if str_eq rt ""
    then false
    else elim (root_type_of rt) [ none ↦ false | some t ↦ listing_of (trim_space identifier) t ]

abbrev pub or_else : String → String → String
or_else s d = if str_eq s "" then d else s

-- A folder at "/" with the given id, parent, display name and type.
abbrev pub at_root : String → String → String → String → Folder
at_root service_id parent_id display_name type = record {
  service_id = service_id;
  parent_id = parent_id;
  parent_path = "";
  display_name = display_name;
  location_path = "/";
  last_updated = "";
  depth_level = pos 0;
  type = type;
}

abbrev pub nested_folder : String → Folder
nested_folder id = record {
  service_id = id;
  parent_id = "";
  parent_path = "";
  display_name = "";
  location_path = "";
  last_updated = "";
  depth_level = pos 0;
  type = "folder";
}

abbrev pub unless_empty : String → Folder → Option Folder
unless_empty id f = if str_eq id "" then none else some f

abbrev pub team_space_folder : String → Option Folder
team_space_folder ns =
    if str_eq ns "" || (str_eq ns "root" || str_eq ns "teamSpace")
    then none
    else some (at_root "teamSpace" ns "Team space" "team_space")

abbrev pub browse_root : String → String → RootType → Option Folder
browse_root id drive RootType.shared_with_me =
    some (at_root "sharedWithMe" "" "Shared with me" "shared_with_me")
browse_root id drive RootType.my_drive = some (at_root (or_else id "root") "" "" "my_drive")
browse_root id drive RootType.shared_drive = unless_empty id (at_root "root" id id "shared_drive")
browse_root id drive RootType.user_root =
    let ns = or_else drive id in
    some (at_root "root" (if str_eq ns "root" then drive else ns) "My Dropbox" "user_root")
browse_root id drive RootType.team_space = team_space_folder (or_else drive id)
browse_root id drive RootType.team_folder =
    unless_empty id (at_root id (or_else drive id) id "team_folder")
browse_root id drive RootType.shared_folder =
    unless_empty id (at_root id (or_else drive id) id "shared_folder")
browse_root id drive RootType.sharepoint_site = unless_empty id (at_root id "" id "sharepoint_site")
browse_root id drive RootType.sharepoint_drive =
    unless_empty id (at_root "root" (or_else drive id) id "sharepoint_drive")

-- BrowseFolder; every error is `none`.
unfoldable pub browse_folder : String → String → String → Option Folder
unfolding trim_space
browse_folder identifier root_type drive =
    let id = trim_space identifier in
    let rt = trim_space root_type in
    if str_eq rt ""
    then unless_empty id (nested_folder id)
    else elim (root_type_of rt) [ none ↦ none | some t ↦ browse_root id drive t ]

unfoldable pub reports_owned_storage_quota : String → Bool
unfolding trim_space
reports_owned_storage_quota root_type = elim (root_type_of (trim_space root_type)) [
  | some RootType.shared_with_me ↦ false
  | some RootType.sharepoint_site ↦ false
  | some RootType.team_space ↦ false
  | _ ↦ true
]

unfoldable pub is_externally_owned_browse_root : String → Bool
unfolding trim_space
is_externally_owned_browse_root root_type = elim (root_type_of (trim_space root_type)) [
  | some RootType.shared_with_me ↦ true
  | some RootType.shared_folder ↦ true
  | some RootType.shared_drive ↦ true
  | some RootType.team_folder ↦ true
  | _ ↦ false
]
