-- ===== src/Manager/Listing.antt =====
-- pkg/fs/manager.go and manager_cloud.go: ListChildren with its three kinds of service, on a system
-- whose paths have slashes. The adapters, sessions and filepath.Abs are parameters; a map is ranged
-- over in the order of its list, which may be any.
pub mod Contained
use sylos_fs.Base.{
  ℕ, ℤ, String, str_eq, List, [], ◌∷◌, Bool, true, false, ◌&&◌, Option, none, some, Answer, ok, err,
  if◌then◌else◌,
}
use sylos_fs.Base.Text.{to_lower, trim_space}
use sylos_fs.Base.Text.Paths.{clean}
use sylos_fs.Types.Listing.{Folder, ListResult}
use sylos_fs.Cloud.Browse.{is_virtual_root_listing, browse_folder}
use sylos_fs.Manager.Pagination.{PaginationInfo, apply_pagination}
use sylos_fs.Manager.Connections.{ServiceType, ServiceConnection, Pool, get_connection}
use sylos_fs.Manager.Acquire.{ServiceDefinition, SpectraConfig, default_to}
use sylos_fs.Manager.Services.{Services, get_service}
use sylos_fs.Manager.Containment.{within_root}

pub record ListChildrenRequest : Type 0 where
  pub service_id : String
  pub identifier : String
  pub role : String
  pub session_id : String
  pub root_type : String
  pub drive_id : String
  pub offset : ℤ
  pub limit : ℤ
  pub folders_only : Bool
  pub depth : Option ℤ
  pub parent_path : String

pub data ListError (E : Type 0) : Type 0 where
  service_not_found no_local_service session_required missing_configuration : ListError E
  session_not_found not_a_spectra_session no_session closed_session : ListError E
  depth_required path_required connection_not_found : ListError E
  unknown_root_type outside_root : String → ListError E
  failed : E → ListError E

pub record Listers (E : Type 0) : Type 0 where
  -- filepath.Abs
  pub abs : String → Answer E String
  -- NewLocalFS of a root, and its ListChildren of a path
  pub list_local : String → String → Answer E ListResult
  pub is_closed : ℕ → Bool
  pub is_ephemeral : ℕ → Bool
  -- CreateAdapter of a session for a root and a world, and its ListChildren
  pub list_spectra : ℕ → String → String → String → Option ℤ → String → Answer E ListResult
  -- CreateAdapter of a session for a folder, and its ListChildren
  pub list_cloud : ℕ → Folder → String → Answer E ListResult

abbrev pub Page : Type 0 → Type 0
Page E = Answer (ListError E) (ListResult × PaginationInfo)

abbrev pub paginated : {E : Type 0} → ListChildrenRequest → Answer E ListResult → Page E
paginated req (ok result) = ok (apply_pagination result req.offset req.limit req.folders_only)
paginated req (err e) = err (failed e)

-- findLocalService, findSpectraServiceByWorldLocked
unfoldable pub find_local_service : Services → Option ServiceDefinition
find_local_service [] = none
find_local_service ((id, def) ∷ services) =
    let later = find_local_service services in
    elim def.type [ ServiceType.local ↦ some def | _ ↦ later ]

abbrev pub is_world : String → Option SpectraConfig → Bool
is_world world none = false
is_world world (some cfg) = str_eq cfg.world world

unfoldable pub find_spectra_service_by_world : String → Services → Option ServiceDefinition
find_spectra_service_by_world world [] = none
find_spectra_service_by_world world ((id, def) ∷ services) =
    let later = find_spectra_service_by_world world services in
    elim def.type [
      | ServiceType.spectra ↦ if is_world world def.spectra then some def else later
      | _ ↦ later
    ]

-- The world of the service "spectra" for a role.
abbrev pub world_of : String → String
world_of role = if str_eq (to_lower (trim_space role)) "destination" then "s1" else "primary"

abbrev pub unrestricted : Option String → Option String
unrestricted none = none
unrestricted (some root) = some ""

module _ {E : Type 0} (l : Listers E) where
  abbrev pub listed_at : ListChildrenRequest → String → Answer E String → Page E
  listed_at req root (err e) = err (failed e)
  listed_at req root (ok p) = paginated req (l.list_local root (clean p))

  abbrev pub allowed_at : ListChildrenRequest → String → String → Answer E Bool → Page E
  allowed_at req root target (err e) = err (failed e)
  allowed_at req root target (ok false) = err (outside_root target)
  allowed_at req root target (ok true) = paginated req (l.list_local root target)

  abbrev pub restricted_at : ListChildrenRequest → String → Answer E String → Page E
  restricted_at req root (err e) = err (failed e)
  restricted_at req root (ok p) = allowed_at req root (clean p) (within_root l.abs root (clean p))

  -- listLocalChildren: without a root path everything is listed.
  unfoldable pub list_local_children : Option String → ListChildrenRequest → Page E
  list_local_children none req = err missing_configuration
  list_local_children (some root) req =
      if str_eq root ""
      then listed_at req "/" (l.abs (default_to req.identifier "/"))
      else restricted_at req root (l.abs (default_to req.identifier root))

  abbrev pub is_missing : Option ℤ → Bool
  is_missing none = true
  is_missing (some d) = false

  -- The last part of listSpectraChildren, for an open session.
  abbrev pub list_open_session : SpectraConfig → ℕ → ListChildrenRequest → Page E
  list_open_session cfg session req =
      let root = default_to cfg.root_id "root" in
      let result =
        l.list_spectra session root cfg.world (default_to req.identifier root) req.depth
          req.parent_path in
      if l.is_ephemeral session && is_missing req.depth
      then err depth_required
      else if l.is_ephemeral session && str_eq req.parent_path ""
      then err path_required
      else paginated req result

  abbrev pub list_session : SpectraConfig → Option ServiceConnection → ListChildrenRequest → Page E
  list_session cfg none req = err session_not_found
  list_session cfg (some conn) req = elim conn.typ [
    | ServiceType.spectra ↦ elim conn.session [
      | none ↦ err no_session
      | some session ↦
          if l.is_closed session then err closed_session else list_open_session cfg session req
    ]
    | _ ↦ err not_a_spectra_session
  ]

  -- The cases for a Spectra service, with listSpectraChildren.
  unfoldable pub list_spectra_children : Pool → ServiceDefinition → ListChildrenRequest → Page E
  list_spectra_children pool def req =
      if str_eq req.session_id "" then err session_required else elim def.spectra [
        | none ↦ err missing_configuration
        | some cfg ↦ list_session cfg (get_connection pool req.session_id) req
      ]

  -- The folder of ListCloudChildren: a root, or a nested folder with the drive as its parent.
  abbrev pub under_drive : String → Folder → Folder
  under_drive drive_id folder =
      if str_eq folder.parent_id "" then record folder { parent_id = drive_id } else folder

  abbrev pub with_drive : String → Option Folder → Option Folder
  with_drive drive_id none = none
  with_drive drive_id (some folder) = some (under_drive drive_id folder)

  unfoldable pub cloud_list_folder : String → String → String → Option Folder
  cloud_list_folder identifier root_type drive_id =
      if is_virtual_root_listing identifier root_type
      then browse_folder identifier root_type drive_id
      else with_drive drive_id (browse_folder identifier "" drive_id)

  abbrev pub inferred_root_type : String → String → String
  inferred_root_type identifier root_type =
      if str_eq root_type "" && str_eq identifier "sharedWithMe"
      then "shared_with_me"
      else root_type

  abbrev pub list_folder : ListChildrenRequest → ℕ → Option Folder → Page E
  list_folder req session none = err (unknown_root_type req.root_type)
  list_folder req session (some folder) = paginated req (l.list_cloud session folder req.identifier)

  -- ListCloudChildren
  unfoldable pub list_cloud_children : Pool → ListChildrenRequest → Page E
  list_cloud_children pool req = elim (get_connection pool req.session_id) [
    | none ↦ err connection_not_found
    | some conn ↦ elim conn.typ [
      | ServiceType.cloud ↦ elim conn.cloud_session [
        | none ↦ err connection_not_found
        | some session ↦ list_folder req session (
            cloud_list_folder req.identifier (inferred_root_type req.identifier req.root_type)
              req.drive_id)
      ]
      | _ ↦ err connection_not_found
    ]
  ]

  -- The switch of ListChildren.
  abbrev pub list_service : Pool → ServiceDefinition → ServiceType → ListChildrenRequest → Page E
  list_service pool def ServiceType.local req = list_local_children def.local_root req
  list_service pool def ServiceType.spectra req = list_spectra_children pool def req
  list_service pool def ServiceType.cloud req =
      if str_eq req.session_id "" then err session_required else list_cloud_children pool req

  abbrev pub list_any_local : Option ServiceDefinition → ListChildrenRequest → Page E
  list_any_local none req = err no_local_service
  list_any_local (some def) req = list_local_children (unrestricted def.local_root) req

  abbrev pub list_world : Pool → Option ServiceDefinition → ListChildrenRequest → Page E
  list_world pool none req = err service_not_found
  list_world pool (some def) req = list_spectra_children pool def req

  abbrev pub list_found : Pool → Option ServiceDefinition → ListChildrenRequest → Page E
  list_found pool none req = err service_not_found
  list_found pool (some def) req = list_service pool def def.type req

  unfoldable pub list_children : Services → Pool → ListChildrenRequest → Page E
  list_children services pool req =
      if str_eq req.service_id "spectra"
      then list_world pool (find_spectra_service_by_world (world_of req.role) services) req
      else if str_eq req.service_id "local"
      then list_any_local (find_local_service services) req
      else list_found pool (get_service services req.service_id) req
