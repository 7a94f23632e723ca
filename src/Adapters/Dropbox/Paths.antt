-- ===== src/Adapters/Dropbox/Paths.antt =====
-- pkg/fs/dropbox: what Dropbox is asked for. The paths and the path roots of adapter.go, the context of
-- session.go, the ids of files still to be written of transfer.go, and the nodes made of metadata.
pub mod Pending
use Prim.Native.String.{◌++◌}
use sylos_fs.Base.{
  ℕ, pos, int64, String, str_eq, List, Bool, true, false, not, ◌&&◌, ◌||◌, Option, none, some,
  if◌then◌else◌,
}
use sylos_fs.Base.Text.{trim_space, contains_any, has_prefix}
use sylos_fs.Base.Text.Paths.{dir, join}
use sylos_fs.Types.Listing.{Folder, File}
use sylos_fs.Types.Locations.{normalize_location_path}
use sylos_fs.Cloud.Browse.{RootType, root_type_of}

pub record DropboxContext : Type 0 where
  pub root_type : String
  pub namespace_id : String
  pub root_path : String
  pub folder_ref : String

-- The adapter's root folder and its context.
pub record DropboxFs : Type 0 where
  pub root : Folder
  pub ctx : DropboxContext

abbrev pub is_empty : String → Bool
is_empty s = str_eq s ""

-- One of the texts of a switch or a disjunction: none, "root", "teamSpace".
abbrev pub is_root_word : String → Bool
is_root_word s = is_empty s || str_eq s "root"

-- isDropboxRootRef
unfoldable pub is_root_ref : String → Bool
is_root_ref parent_id = is_root_word (trim_space parent_id)

-- isVirtualRootType
abbrev pub is_virtual : Option RootType → Bool
is_virtual (some RootType.user_root) = true
is_virtual (some RootType.team_space) = true
is_virtual (some RootType.team_folder) = true
is_virtual (some RootType.shared_folder) = true
is_virtual _ = false

unfoldable pub is_virtual_root_type : String → Bool
is_virtual_root_type t = is_virtual (root_type_of t)

-- dropboxPathRef
unfoldable pub dropbox_path_ref : String → String
dropbox_path_ref id_or_path =
    let id = trim_space id_or_path in
    if is_empty id then "" else if has_prefix id "/" || has_prefix id "id:" then id else "id:" ++ id

-- sharedOrTeamNamespaceID
pub shared_or_team_namespace_id : Folder → String
unfolding trim_space
shared_or_team_namespace_id folder =
    let ns = trim_space folder.parent_id in
    if is_empty ns || (has_prefix ns "/" || has_prefix ns "id:")
    then ""
    else if str_eq (trim_space folder.service_id) ns
    then ns
    else ""

-- pathRootForAPI
pub path_root_for_api : DropboxContext → String
unfolding trim_space
path_root_for_api ctx = elim (root_type_of ctx.root_type) [
  | some RootType.user_root ↦ ""
  | some RootType.shared_folder ↦ if is_empty ctx.root_path then trim_space ctx.namespace_id else ""
  | _ ↦ trim_space ctx.namespace_id
]

-- errTeamSpaceRootWrite
abbrev pub is_team_space : DropboxContext → Bool
is_team_space ctx = str_eq ctx.root_type "team_space"

-- The cases of listPath that answer for a virtual root; `none` where they fall through.
abbrev pub virtual_list_path : DropboxFs → String → RootType → Option String
virtual_list_path d id RootType.shared_folder =
    let own = is_root_word id || str_eq id d.root.service_id in
    if is_empty d.ctx.root_path
    then (if own || str_eq id d.ctx.namespace_id then some "" else none)
    else (if own then some d.ctx.root_path else none)
virtual_list_path d id RootType.team_folder =
    if is_root_word id || (str_eq id d.root.service_id || str_eq id d.ctx.namespace_id)
    then some ""
    else none
virtual_list_path d id RootType.user_root =
    if is_root_word id || (str_eq id "teamSpace" || str_eq id d.ctx.namespace_id)
    then some ""
    else none
virtual_list_path d id RootType.team_space =
    if is_root_word id || (str_eq id "teamSpace" || str_eq id d.ctx.namespace_id)
    then some ""
    else none
virtual_list_path d id _ = none

abbrev pub plain_list_path : DropboxFs → String → String
plain_list_path d id =
    if not (is_empty id)
    then dropbox_path_ref id
    else if not (is_empty d.ctx.folder_ref)
    then dropbox_path_ref d.ctx.folder_ref
    else d.ctx.root_path

-- listPath
unfoldable pub list_path : DropboxFs → String → String
list_path d identifier =
    let id = trim_space identifier in
    elim (root_type_of d.ctx.root_type) [
      | none ↦ plain_list_path d id
      | some t ↦ elim (virtual_list_path d id t) [ some p ↦ p | none ↦ plain_list_path d id ]
    ]

-- createUnderNamespaceRoot
unfoldable pub create_under_namespace_root : DropboxFs → String → Bool
create_under_namespace_root d parent_id =
    let parent = trim_space parent_id in
    let sid = trim_space d.root.service_id in
    if is_root_word parent || str_eq parent "teamSpace"
    then true
    else if str_eq parent d.ctx.namespace_id
    then true
    else if not (str_eq parent d.root.service_id)
    then false
    else if is_virtual_root_type d.root.type
    then true
    else is_root_word sid || str_eq sid "teamSpace"

-- dropboxChildUnderParent
unfoldable pub dropbox_child_under_parent : String → String → String
dropbox_child_under_parent parent_id name =
    let parent = dropbox_path_ref parent_id in
    if has_prefix parent "/" then join parent name else parent ++ "/" ++ name

pub data CreateError : Type 0 where
  name_required : CreateError
  not_single_segment : String → CreateError

pub data ApiPath : Type 0 where
  wire : String → ApiPath
  refused : CreateError → ApiPath

-- createAPIPath; a text contains "/" if it contains any character of it.
unfoldable pub create_api_path : DropboxFs → String → String → ApiPath
create_api_path d parent_id given =
    let name = trim_space given in
    let parent = trim_space parent_id in
    if is_empty name
    then refused name_required
    else if contains_any name "/" || (str_eq name "." || str_eq name "..")
    then refused (not_single_segment name)
    else if create_under_namespace_root d parent
    then wire ("/" ++ name)
    else wire (dropbox_child_under_parent parent name)

-- What files/list_folder and the batches say of an entry.
pub record FileMetadata : Type 0 where
  pub tag : String
  pub id : String
  pub name : String
  pub path_display : String
  pub path_lower : String
  pub size : ℕ
  pub client_modified : String
  pub server_modified : String
  pub shared_folder_id : String

-- modTime
abbrev pub mod_time : FileMetadata → String
mod_time m = if is_empty m.server_modified then m.client_modified else m.server_modified

-- folderBasePath
unfoldable pub folder_base_path : FileMetadata → String → String
unfolding dir
folder_base_path m fallback =
    if not (is_empty m.path_display)
    then dir m.path_display
    else if not (is_empty m.path_lower)
    then dir m.path_lower
    else fallback

-- metaToFolder: a shared folder goes by its namespace.
unfoldable pub meta_to_folder : FileMetadata → String → Folder
meta_to_folder m base_path =
    let ns = trim_space m.shared_folder_id in
    record {
      service_id = if is_empty ns then m.id else ns;
      parent_id = if is_empty ns then "" else ns;
      parent_path = base_path;
      display_name = m.name;
      location_path = normalize_location_path (join base_path m.name);
      last_updated = mod_time m;
      depth_level = pos 0;
      type = "folder";
    }

-- metaToFile
unfoldable pub meta_to_file : FileMetadata → String → File
meta_to_file m base_path = record {
  service_id = m.id;
  parent_id = "";
  parent_path = base_path;
  display_name = m.name;
  location_path = normalize_location_path (join base_path m.name);
  last_updated = mod_time m;
  depth_level = pos 0;
  size = int64 m.size;
  type = "file";
}
