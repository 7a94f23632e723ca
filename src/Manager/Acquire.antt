-- ===== src/Manager/Acquire.antt =====
-- pkg/fs/manager.go and manager_cloud.go: adapters for a service and a root. The providers'
-- sessions and the factories are parameters: whether a Spectra session is closed, what
-- CreateAdapter of a session and NewLocalFS give (an adapter, or an error known by its text), and
-- the forbidden root ids of a provider.
pub mod Balance
pub mod Browsed
use sylos_fs.Base.{
  ℕ, ℤ, pos, String, str_eq, List, [], ◌∷◌, Bool, true, false, ◌&&◌, ◌||◌, not, Option, none, some,
  Answer, ok, err, is_none, if◌then◌else◌,
}
use sylos_fs.Base.Dict.{lookup}
use sylos_fs.Types.Listing.{Folder}
use sylos_fs.Manager.Connections.{
  ServiceType, ServiceConnection, Pool, get_connection, increment_connection_ref_count,
  decrement_connection_ref_count, release_connection, release_cloud,
}

pub record Providers (A : Type 0) : Type 0 where
  pub is_closed : ℕ → Bool
  pub create_spectra : ℕ → String → String → Answer String A
  pub create_cloud : ℕ → Folder → Answer String A
  pub forbidden_roots : String → Option (List String)
  pub new_local : String → Answer String A

pub record SpectraConfig : Type 0 where
  pub world : String
  pub root_id : String
  pub config_path : String
  -- nil is `none`
  pub diverging_tree_mode : Option Bool

pub record ServiceDefinition : Type 0 where
  pub id : String
  pub name : String
  pub type : ServiceType
  pub local_root : Option String
  pub spectra : Option SpectraConfig
  pub cloud_provider : Option String

pub data AcquireError : Type 0 where
  empty_root missing_configuration forbidden_root unsupported_provider : AcquireError
  missing_connection_id connection_not_found wrong_type no_session closed_session : AcquireError
  -- The error of CreateAdapter or NewLocalFS itself, and one that wraps it.
  adapter_failed adapter_from_session_failed : String → AcquireError

-- The function that gives the adapter back.
pub data Release : Type 0 where
  nothing : Release
  by_release_connection by_release_cloud : String → Release

pub data Acquired (A : Type 0) : Type 0 where
  adapter : A → Release → Acquired A
  failed : AcquireError → Acquired A

unfoldable pub run_release : Release → Pool → Pool
unfolding release_connection release_cloud
run_release nothing m = m
run_release (by_release_connection id) m = release_connection id m
run_release (by_release_cloud id) m = release_cloud id m

abbrev pub contains : List String → String → Bool
contains [] a = false
contains (x ∷ xs) a = str_eq a x || contains xs a

-- ValidateMigrationRootFolder (pkg/cloud/session.go); `none` is success.
unfoldable pub validate_migration_root_folder :
    {A : Type 0} → Providers A → String → Folder → Option AcquireError
validate_migration_root_folder p provider_id root =
    if str_eq root.type "sharepoint_site"
      || (str_eq root.type "shared_with_me" || str_eq root.type "team_space")
    then some forbidden_root
    else elim (p.forbidden_roots provider_id) [
      | none ↦ some unsupported_provider
      | some ids ↦ if contains ids root.service_id then some forbidden_root else none
    ]

abbrev pub default_to : String → String → String
default_to s d = if str_eq s "" then d else s

-- The folder that acquireCloudAdapter hands to the session.
abbrev pub cloud_folder : Folder → Folder
cloud_folder root =
    let typed = record root { type = default_to root.type "folder" } in
    if str_eq typed.service_id "" && (str_eq typed.parent_id "" && str_eq typed.type "folder")
    then record typed { service_id = "root" }
    else typed

module _ {A : Type 0} (p : Providers A) where
  -- The last part of acquireSpectraAdapter, for what counting the connection gave.
  abbrev pub counted_spectra_adapter :
      SpectraConfig → String → String → ℕ → Option ServiceConnection × Pool → Acquired A × Pool
  counted_spectra_adapter cfg root id session (none, m) = (failed connection_not_found, m)
  counted_spectra_adapter cfg root id session (some conn, m) =
      elim (p.create_spectra session root cfg.world) [
        | err e ↦ (failed (adapter_from_session_failed e), release_connection id m)
        | ok a ↦ (adapter a (by_release_connection id), m)
      ]

  abbrev pub is_spectra : ServiceType → Bool
  is_spectra ServiceType.spectra = true
  is_spectra _ = false

  abbrev pub is_cloud : ServiceType → Bool
  is_cloud ServiceType.cloud = true
  is_cloud _ = false

  pub acquire_spectra_adapter : SpectraConfig → String → String → Pool → Acquired A × Pool
  unfolding get_connection increment_connection_ref_count release_connection
  acquire_spectra_adapter cfg root_id id m =
      if str_eq id "" then (failed missing_connection_id, m) else elim (get_connection m id) [
        | none ↦ (failed connection_not_found, m)
        | some conn ↦
            if is_spectra conn.typ
            then elim conn.session [
              | none ↦ (failed no_session, m)
              | some session ↦
                  if p.is_closed session
                  then (failed closed_session, m)
                  else counted_spectra_adapter cfg (default_to root_id cfg.root_id) id session
                      (increment_connection_ref_count id m)
            ]
            else (failed wrong_type, m)
      ]

  -- The last part of acquireCloudAdapter, for a connection that has been counted.
  abbrev pub cloud_adapter : Folder → String → ServiceConnection → Pool → Acquired A × Pool
  cloud_adapter root id conn m = elim conn.cloud_session [
    | none ↦ (failed wrong_type, (decrement_connection_ref_count id m).1)
    | some session ↦
        if is_cloud conn.typ
        then elim (p.create_cloud session (cloud_folder root)) [
          | err e ↦ (failed (adapter_failed e), (decrement_connection_ref_count id m).1)
          | ok a ↦ (adapter a (by_release_cloud id), m)
        ]
        else (failed wrong_type, (decrement_connection_ref_count id m).1)
  ]

  abbrev pub counted_cloud_adapter :
      Folder → String → Option ServiceConnection × Pool → Acquired A × Pool
  counted_cloud_adapter root id (none, m) = (failed connection_not_found, m)
  counted_cloud_adapter root id (some conn, m) = cloud_adapter root id conn m

  pub acquire_cloud_adapter : Option String → Folder → String → Pool → Acquired A × Pool
  unfolding increment_connection_ref_count decrement_connection_ref_count
      validate_migration_root_folder
  acquire_cloud_adapter none root id m = (failed missing_configuration, m)
  acquire_cloud_adapter (some provider) root id m =
      elim (validate_migration_root_folder p provider root) [
        | some e ↦ (failed e, m)
        | none ↦ counted_cloud_adapter root id (increment_connection_ref_count id m)
      ]

  -- AcquireAdapterWithOverride, with the local root taken from the service id or the location path.
  pub acquire_adapter : ServiceDefinition → Folder → String → Pool → Acquired A × Pool
  unfolding acquire_spectra_adapter acquire_cloud_adapter
  acquire_adapter def root id m = elim def.type [
    | ServiceType.local ↦
        let path = default_to root.service_id root.location_path in
        if str_eq path "" then (failed empty_root, m) else elim (p.new_local path) [
          | err e ↦ (failed (adapter_failed e), m)
          | ok a ↦ (adapter a nothing, m)
        ]
    | ServiceType.spectra ↦ elim def.spectra [
      | none ↦ (failed missing_configuration, m)
      | some cfg ↦ acquire_spectra_adapter cfg (default_to root.service_id "root") id m
    ]
    | ServiceType.cloud ↦ acquire_cloud_adapter def.cloud_provider root id m
  ]
