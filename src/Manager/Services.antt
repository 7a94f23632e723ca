-- ===== src/Manager/Services.antt =====
-- pkg/fs/manager.go and manager_cloud.go: the services that the manager knows, and how LoadServices
-- puts them there. filepath.Abs asks the system for the working directory and is a parameter; the path
-- it gives is cleaned as package path does.
pub mod Loaded
use sylos_fs.Base.{
  String, str_eq, List, [], ◌∷◌, Bool, true, false, ◌&&◌, Option, none, some, Answer, ok, err,
  if◌then◌else◌,
}
use sylos_fs.Base.Dict.{lookup, insert}
use sylos_fs.Base.Text.Paths.{clean}
use sylos_fs.Types.Listing.{Folder}
use sylos_fs.Manager.Connections.{ServiceType}
use sylos_fs.Manager.Acquire.{
  ServiceDefinition, SpectraConfig, Providers, AcquireError, missing_configuration, default_to,
  validate_migration_root_folder,
}

pub record LocalServiceConfig : Type 0 where
  pub id : String
  pub name : String
  pub root_path : String

pub record SpectraServiceConfig : Type 0 where
  pub id : String
  pub name : String
  pub world : String
  pub root_id : String
  pub config_path : String
  pub diverging_tree_mode : Option Bool

pub record CloudServiceConfig : Type 0 where
  pub id : String
  pub name : String
  pub provider_id : String

pub data LoadError (E : Type 0) : Type 0 where
  local_missing_id spectra_missing_id cloud_missing_id : LoadError E
  missing_config_path missing_provider_id : String → LoadError E
  no_absolute_path : String → E → LoadError E

-- The services of ServiceManager.
abbrev pub Services : Type 0
Services = List (String × ServiceDefinition)

unfoldable pub get_service : Services → String → Option ServiceDefinition
get_service m id = lookup id m

unfoldable pub set_service : String → ServiceDefinition → Services → Services
set_service id def m = insert id def m

-- A definition that has the fields of its kind left out.
abbrev pub definition : String → String → ServiceType → ServiceDefinition
definition id name typ = record {
  id = id;
  name = default_to name id;
  type = typ;
  local_root = none;
  spectra = none;
  cloud_provider = none;
}

module _ {E : Type 0} (abs : String → Answer E String) where
  -- filepath.Clean(abs), with the error that names the service.
  abbrev pub absolute : String → String → Answer (LoadError E) String
  absolute id p = elim (abs p) [ ok q ↦ ok (clean q) | err e ↦ err (no_absolute_path id e) ]

  abbrev pub with_root : String → Answer (LoadError E) String → Answer (LoadError E) String
  with_root p cleaned = if str_eq p "" then ok "" else cleaned

  abbrev pub local_with :
      LocalServiceConfig → Answer (LoadError E) String → Answer (LoadError E) ServiceDefinition
  local_with svc (ok root) =
      ok (record (definition svc.id svc.name ServiceType.local) { local_root = some root })
  local_with svc (err e) = err e

  -- The bodies of the three loops of LoadServices, up to setService.
  unfoldable pub local_definition : LocalServiceConfig → Answer (LoadError E) ServiceDefinition
  local_definition svc =
      if str_eq svc.id ""
      then err local_missing_id
      else local_with svc (with_root svc.root_path (absolute svc.id svc.root_path))

  abbrev pub spectra_with :
      SpectraServiceConfig → Answer (LoadError E) String → Answer (LoadError E) ServiceDefinition
  spectra_with svc (ok config_path) = ok (record (definition svc.id svc.name ServiceType.spectra) {
    spectra = some (record {
      world = default_to svc.world "primary";
      root_id = default_to svc.root_id "root";
      config_path = config_path;
      diverging_tree_mode = svc.diverging_tree_mode;
    });
  })
  spectra_with svc (err e) = err e

  unfoldable pub spectra_definition : SpectraServiceConfig → Answer (LoadError E) ServiceDefinition
  spectra_definition svc =
      if str_eq svc.id ""
      then err spectra_missing_id
      else if str_eq svc.config_path ""
      then err (missing_config_path svc.id)
      else spectra_with svc (absolute svc.id svc.config_path)

  unfoldable pub cloud_definition : CloudServiceConfig → Answer (LoadError E) ServiceDefinition
  cloud_definition svc =
      if str_eq svc.id ""
      then err cloud_missing_id
      else if str_eq svc.provider_id ""
      then err (missing_provider_id svc.id)
      else ok (record (definition svc.id svc.name ServiceType.cloud) {
        cloud_provider = some svc.provider_id;
      })

  -- One of the loops: the services before one that is refused stay.
  abbrev pub load_next :
      Answer (LoadError E) ServiceDefinition
      → (Services → Option (LoadError E) × Services)
      → Services
      → Option (LoadError E) × Services
  load_next (ok def) rest m = rest (set_service def.id def m)
  load_next (err e) rest m = (some e, m)

  unfoldable pub load_each :
      {C : Type 0}
      → (C → Answer (LoadError E) ServiceDefinition)
      → List C
      → Services
      → Option (LoadError E) × Services
  load_each make [] m = (none, m)
  load_each make (svc ∷ svcs) m = load_next (make svc) (load_each make svcs) m

  abbrev pub unless_failed :
      (Services → Option (LoadError E) × Services)
      → Option (LoadError E) × Services
      → Option (LoadError E) × Services
  unless_failed next (none, m) = next m
  unless_failed next (some e, m) = (some e, m)

  unfoldable pub load_cloud_services :
      List CloudServiceConfig → Services → Option (LoadError E) × Services
  load_cloud_services svcs m = load_each cloud_definition svcs m

  unfoldable pub load_services :
      List LocalServiceConfig
      → List SpectraServiceConfig
      → List CloudServiceConfig
      → Services
      → Option (LoadError E) × Services
  load_services locals spectras clouds m =
      unless_failed (load_cloud_services clouds) (
        unless_failed (load_each spectra_definition spectras) (load_each local_definition locals m))

-- GetServiceDefinition is get_service, with ErrServiceNotFound for none.
pub data RootError : Type 0 where
  service_not_found : RootError
  refused_root : AcquireError → RootError

abbrev pub refused_by : Option AcquireError → Option RootError
refused_by none = none
refused_by (some e) = some (refused_root e)

-- ValidateMigrationRoot; `none` is success.
unfoldable pub validate_migration_root :
    {A : Type 0} → Providers A → Services → String → Folder → Option RootError
validate_migration_root p m id root = elim (get_service m id) [
  | none ↦ some service_not_found
  | some def ↦ elim def.type [
    | ServiceType.cloud ↦ elim def.cloud_provider [
      | none ↦ some (refused_root missing_configuration)
      | some provider ↦ refused_by (validate_migration_root_folder p provider root)
    ]
    | _ ↦ none
  ]
]
