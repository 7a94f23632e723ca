-- ===== src/Manager/Storage.antt =====
-- pkg/fs/manager_storage.go: GetStorageInfo, on a system whose paths have slashes. What the
-- adapters and the file system report is a parameter; the adapter of a Spectra session is acquired
-- and released, and the adapter of a cloud session is only created.
pub mod Kept
use sylos_fs.Base.{
  ℕ, ℤ, pos, String, str_eq, List, [], ◌∷◌, Bool, true, false, ◌&&◌, ◌||◌, not, Option, none, some,
  Answer, ok, err, if◌then◌else◌,
}
use sylos_fs.Base.Text.{trim_space, to_lower}
use sylos_fs.Types.Listing.{Folder}
use sylos_fs.Cloud.Browse.{browse_folder, reports_owned_storage_quota}
use sylos_fs.Manager.Connections.{ServiceType, ServiceConnection, Pool, get_connection}
use sylos_fs.Manager.Acquire.{
  ServiceDefinition, Providers, Acquired, acquire_adapter, run_release, default_to,
}
use sylos_fs.Manager.Services.{Services, get_service}
use sylos_fs.Manager.Listing.{find_spectra_service_by_world, world_of}

pub record StorageInfo : Type 0 where
  pub available : Bool
  pub unlimited : Bool
  pub total_bytes : ℤ
  pub used_bytes : ℤ
  pub free_bytes : ℤ
  pub source : String

abbrev pub unavailable_storage : StorageInfo
unavailable_storage = record {
  available = false;
  unlimited = false;
  total_bytes = pos 0;
  used_bytes = pos 0;
  free_bytes = pos 0;
  source = "";
}

-- 10 << 40 bytes
abbrev pub fake : StorageInfo
fake = record {
  available = true;
  unlimited = false;
  total_bytes = pos 10995116277760;
  used_bytes = pos 0;
  free_bytes = pos 10995116277760;
  source = "spectra.fake";
}

pub record GetStorageInfoRequest : Type 0 where
  pub service_id : String
  pub path : String
  pub connection_id : String
  pub root_type : String
  pub drive_id : String
  pub role : String

pub data StorageError (E : Type 0) : Type 0 where
  service_id_required service_not_found connection_id_required connection_not_found : StorageError E
  adapter_failed : String → StorageError E
  reported : E → StorageError E

abbrev pub Reported : Type 0 → Type 0
Reported E = StorageInfo × Option (StorageError E)

abbrev pub report : {E : Type 0} → StorageInfo × Option E → Reported E
report (info, none) = (info, none)
report (info, some e) = (info, some (reported e))

abbrev pub refuse : {E : Type 0} → StorageError E → Reported E
refuse e = (unavailable_storage, some e)

module _ {A E : Type 0} (p : Providers A) (usage : String → StorageInfo × Option E)
    (storage_info : A → String → Option (StorageInfo × Option E)) where
  -- An adapter that reports nothing, or fails, is taken for the fake one.
  abbrev pub or_fake : Option (StorageInfo × Option E) → StorageInfo
  or_fake (some (info, none)) = info
  or_fake _ = fake

  abbrev pub spectra_root : Folder
  spectra_root = record {
    service_id = "root";
    parent_id = "";
    parent_path = "";
    display_name = "";
    location_path = "/";
    last_updated = "";
    depth_level = pos 0;
    type = "folder";
  }

  abbrev pub acquired_info : String → Acquired A × Pool → Reported E × Pool
  acquired_info path (Acquired.failed e, m) = ((fake, none), m)
  acquired_info path (Acquired.adapter a release, m) =
      ((or_fake (storage_info a path), none), run_release release m)

  abbrev pub world_info :
      GetStorageInfoRequest → Pool → Option ServiceDefinition → Reported E × Pool
  world_info req m none = ((fake, none), m)
  world_info req m (some def) =
      if str_eq req.connection_id ""
      then ((fake, none), m)
      else acquired_info req.path (acquire_adapter p def spectra_root req.connection_id m)

  unfoldable pub get_spectra_storage_info :
      Services → GetStorageInfoRequest → Pool → Reported E × Pool
  get_spectra_storage_info services req m =
      world_info req m (find_spectra_service_by_world (world_of req.role) services)

  -- The browse root's folder; a root type that is not known is taken as it is.
  abbrev pub quota_folder : String → String → Option Folder → Folder
  quota_folder root_type drive_id none = record spectra_root {
    type = default_to root_type "folder";
    parent_id = drive_id;
  }
  quota_folder root_type drive_id (some folder) = record folder {
    parent_id = default_to folder.parent_id drive_id;
  }

  abbrev pub or_unavailable : Option (StorageInfo × Option E) → Reported E
  or_unavailable none = (unavailable_storage, none)
  or_unavailable (some r) = report r

  abbrev pub quota_of : String → Answer String A → Reported E
  quota_of path (err e) = refuse (adapter_failed e)
  quota_of path (ok a) = or_unavailable (storage_info a path)

  abbrev pub connection_quota :
      GetStorageInfoRequest → String → Option ServiceConnection → Reported E
  connection_quota req root_type none = refuse connection_not_found
  connection_quota req root_type (some conn) = elim conn.typ [
    | ServiceType.cloud ↦ elim conn.cloud_session [
      | none ↦ refuse connection_not_found
      | some session ↦ quota_of req.path (
          p.create_cloud session
            (quota_folder root_type req.drive_id (browse_folder "root" root_type req.drive_id)))
    ]
    | _ ↦ refuse connection_not_found
  ]

  -- A selected folder or file stands for the account.
  abbrev pub quota_root_type : String → String
  quota_root_type root_type =
      let trimmed = trim_space root_type in
      if str_eq trimmed "folder" || str_eq trimmed "file" then "" else trimmed

  unfoldable pub get_cloud_storage_info : GetStorageInfoRequest → Pool → Reported E
  get_cloud_storage_info req m =
      let root_type = quota_root_type req.root_type in
      if str_eq req.connection_id ""
      then refuse connection_id_required
      else if not (reports_owned_storage_quota root_type)
      then (unavailable_storage, none)
      else connection_quota req root_type (get_connection m req.connection_id)

  abbrev pub local_path : String → Option String → String
  local_path path none = default_to path "/"
  local_path path (some root) = default_to (default_to path root) "/"

  -- The switch of GetStorageInfo.
  abbrev pub service_info :
      Services → GetStorageInfoRequest → Pool → ServiceDefinition → ServiceType → Reported E × Pool
  service_info services req m def ServiceType.local =
      (report (usage (local_path req.path def.local_root)), m)
  service_info services req m def ServiceType.spectra = get_spectra_storage_info services req m
  service_info services req m def ServiceType.cloud = (get_cloud_storage_info req m, m)

  abbrev pub found_info :
      Services → GetStorageInfoRequest → Pool → Option ServiceDefinition → Reported E × Pool
  found_info services req m none = (refuse service_not_found, m)
  found_info services req m (some def) = service_info services req m def def.type

  unfoldable pub get_storage_info : Services → GetStorageInfoRequest → Pool → Reported E × Pool
  get_storage_info services req m =
      let service_id = trim_space req.service_id in
      if str_eq service_id ""
      then (refuse service_id_required, m)
      else if str_eq service_id "local"
      then (report (usage (default_to req.path "/")), m)
      else if str_eq service_id "spectra"
      then get_spectra_storage_info services req m
      else found_info services req m (get_service services service_id)
