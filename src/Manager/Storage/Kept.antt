-- ===== src/Manager/Storage/Kept.antt =====
-- What GetStorageInfo of pkg/fs/manager_storage.go leaves of a connection.
use sylos_fs.Base.{ℕ, suc, String, str_eq, List, Option, none, some, Bool-cases, inl, inr, ◌≢◌}
use sylos_fs.Base.Text.{trim_space}
use sylos_fs.Manager.Connections.{ServiceType, ServiceConnection, Pool}
use sylos_fs.Manager.Connections.Lifetime.{Shows, held}
use sylos_fs.Manager.Acquire.{ServiceDefinition, Providers, Acquired, Release, run_release}
use sylos_fs.Manager.Acquire.Balance.{Settled, acquire_adapter-Settled}
use sylos_fs.Manager.Services.{Services, get_service}
use sylos_fs.Manager.Listing.{find_spectra_service_by_world, world_of}
use sylos_fs.Manager.Storage.{
  StorageInfo, GetStorageInfoRequest, acquired_info, world_info, get_spectra_storage_info,
  service_info, found_info, get_storage_info, spectra_root,
}

module _ {A E : Type 0} (p : Providers A) (usage : String → StorageInfo × Option E)
    (storage_info : A → String → Option (StorageInfo × Option E)) where
  acquired_info-Shows :
      (path id : String) (conn : ServiceConnection) (closed : List ℕ) (n : ℕ)
      (r : Acquired A × Pool)
      → Settled id conn closed n r
      → Shows id (some (held conn n)) closed (acquired_info p usage storage_info path r).1
  unfolding run_release
  acquired_info-Shows path id conn closed n (Acquired.failed e, m) s = s
  acquired_info-Shows path id conn closed n (Acquired.adapter a Release.nothing, m) s = s
  acquired_info-Shows path id conn closed n
        (Acquired.adapter a (Release.by_release_connection i), m) s =
      s.1
  acquired_info-Shows path id conn closed n (Acquired.adapter a (Release.by_release_cloud i), m) s =
      s.1

  world_info-Shows :
      (req : GetStorageInfoRequest) (conn : ServiceConnection) (closed : List ℕ) (n : ℕ) (m : Pool)
      (o : Option ServiceDefinition)
      → req.connection_id ≢ ""
      → Shows req.connection_id (some (held conn (suc n))) closed m
      → Shows req.connection_id
          (some (held conn (suc n)))
          closed
          (world_info p usage storage_info req m o).1
  world_info-Shows req conn closed n m none named v = v
  world_info-Shows req conn closed n m (some def) named v =
      elim (Bool-cases (str_eq req.connection_id "")) [
        | inl empty ↦ rw empty v
        | inr given ↦ rw given (
            acquired_info-Shows req.path req.connection_id conn closed (suc n) _ (
              acquire_adapter-Settled p def (spectra_root p usage storage_info) req.connection_id
                conn closed n m named v))
      ]

  found_info-Shows :
      (services : Services) (req : GetStorageInfoRequest) (conn : ServiceConnection)
      (closed : List ℕ) (n : ℕ) (m : Pool) (o : Option ServiceDefinition)
      → req.connection_id ≢ ""
      → Shows req.connection_id (some (held conn (suc n))) closed m
      → Shows req.connection_id
          (some (held conn (suc n)))
          closed
          (found_info p usage storage_info services req m o).1
  unfolding get_spectra_storage_info
  found_info-Shows services req conn closed n m none named v = v
  found_info-Shows services req conn closed n m (some def) named v = go def.type
    where
      go :
          (typ : ServiceType)
          → Shows req.connection_id
              (some (held conn (suc n)))
              closed
              (service_info p usage storage_info services req m def typ).1
      go ServiceType.local = v
      go ServiceType.spectra =
          world_info-Shows req conn closed n m
            (find_spectra_service_by_world (world_of req.role) services) named v
      go ServiceType.cloud = v

  -- GetStorageInfo, for any request and whatever it reports, leaves a named connection that other
  -- adapters hold counted as often as before, and closes no session.
  pub get_storage_info-Shows :
      (services : Services) (req : GetStorageInfoRequest) (conn : ServiceConnection)
      (closed : List ℕ) (n : ℕ) (m : Pool)
      → req.connection_id ≢ ""
      → Shows req.connection_id (some (held conn (suc n))) closed m
      → Shows req.connection_id
          (some (held conn (suc n)))
          closed
          (get_storage_info p usage storage_info services req m).1
  unfolding get_storage_info get_spectra_storage_info
  get_storage_info-Shows services req conn closed n m named v =
      let id = trim_space req.service_id in
      elim (Bool-cases (str_eq id "")) [
        | inl missing ↦ rw missing v
        | inr given ↦ elim (Bool-cases (str_eq id "local")) [
          | inl local ↦ rw (given, local) v
          | inr remote ↦ elim (Bool-cases (str_eq id "spectra")) [
            | inl spectra ↦
                rw (given, remote, spectra)
                  (world_info-Shows req conn closed n m
                    (find_spectra_service_by_world (world_of req.role) services) named v)
            | inr other ↦
                rw (given, remote, other)
                  (found_info-Shows services req conn closed n m (get_service services id) named v)
          ]
        ]
      ]
