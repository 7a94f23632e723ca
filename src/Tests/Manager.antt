-- ===== src/Tests/Manager.antt =====
-- Pages, connections, acquisitions, browsing and deletion at concrete inputs.
use sylos_fs.Base.{
  err, if◌then◌else◌, Option, ℕ, ◌+◌, ◌≤◌, pos, String, str_eq, eq_iff, List, [], ◌∷◌, true, false,
  none, some, ◌≡◌, ◌≢◌, inr, refl, arith, length, take, drop,
}
use sylos_fs.Base.Dict.{lookup}
use sylos_fs.Base.Text.{trim_space, to_lower}
use sylos_fs.Types.Listing.{Folder, File, ListResult, entries}
use sylos_fs.Manager.Storage.{
  StorageInfo, GetStorageInfoRequest, unavailable_storage, get_storage_info,
}
use sylos_fs.Manager.Storage.Kept.{get_storage_info-Shows}
use sylos_fs.Manager.Pagination.{apply_pagination, clamp_limit}
use sylos_fs.Manager.Pagination.Window.{apply_pagination-entries}
use sylos_fs.Manager.Pagination.Walk.{walk, walk-entries, folders_only_phantom}
use sylos_fs.Manager.Connections.{ServiceType, ServiceConnection, Pool}
use sylos_fs.Manager.Connections.Lifetime.{
  Shows, held, acquires, releases, releases_kept-acquires, releases_all-acquires,
}
use sylos_fs.Manager.Acquire.{
  Providers, SpectraConfig, ServiceDefinition, AcquireError, Acquired,
  validate_migration_root_folder, acquire_cloud_adapter, acquire_adapter,
}
use sylos_fs.Manager.Acquire.Balance.{Settled, acquire_adapter-Settled, failed_cloud_drops}
use sylos_fs.Manager.Mutations.{NodeRef, Adapter, validate_delete_node, delete_nodes}
use sylos_fs.Manager.Mutations.Deletion.{Deletes, delete_nodes-Deletes}
use sylos_fs.Cloud.Browse.{at_root}

abbrev docs : Folder
docs = at_root "d" "root" "docs" "folder"

abbrev note : File
note = record {
  service_id = "n";
  parent_id = "root";
  parent_path = "/";
  display_name = "note";
  location_path = "/note";
  last_updated = "";
  depth_level = pos 1;
  size = pos 3;
  type = "file";
}

abbrev listing : ListResult
listing = record { folders = docs ∷ docs ∷ []; files = note ∷ note ∷ note ∷ [] }

apply_pagination-entries_example :
    let page = (apply_pagination listing (pos 1) (pos 2) false).0 in
    (entries page.folders page.files
      ≡ take (clamp_limit (pos 2)) (drop 1 (entries listing.folders listing.files)))
    × (length page.folders + length page.files ≤ clamp_limit (pos 2))
apply_pagination-entries_example = apply_pagination-entries listing (pos 1) (pos 2)

walk-entries_example : walk 6 listing 0 2 ≡ entries listing.folders listing.files
walk-entries_example =
    walk-entries listing 2 6 (omega arith) (omega arith) (omega arith) (omega arith)

folders_only_phantom_example :
    ((apply_pagination listing (pos 0) (pos 3) true).1.has_more ≡ true)
    × ((apply_pagination listing (pos 3) (pos 3) true).0 ≡ record { folders = []; files = [] })
folders_only_phantom_example =
    folders_only_phantom listing 0 3 (omega arith) (omega arith) (omega arith) (omega arith)
      (omega arith)

abbrev box_connection : ServiceConnection
box_connection = record {
  typ = ServiceType.cloud;
  session = none;
  cloud_session = some 7;
  cloud_provider = "box";
  ref_count = pos 0;
}

abbrev spectra_connection : ServiceConnection
spectra_connection = record {
  typ = ServiceType.spectra;
  session = some 3;
  cloud_session = none;
  cloud_provider = "";
  ref_count = pos 0;
}

abbrev pool : Pool
pool = record { connections = ("b", box_connection) ∷ ("s", spectra_connection) ∷ []; closed = [] }

b_named : ◌≢◌ {A = String} "b" ""
b_named = ground (arith, eq_iff "b" "")

s_named : ◌≢◌ {A = String} "s" ""
s_named = ground (arith, eq_iff "s" "")

releases_kept-acquires_example :
    Shows "b" (some (held box_connection 1)) [] (releases 1 "b" (acquires 2 "b" pool))
unfolding lookup
releases_kept-acquires_example =
    releases_kept-acquires 2 1 "b" box_connection pool b_named refl (omega arith)

releases_all-acquires_example : Shows "b" none (7 ∷ []) (releases 2 "b" (acquires 2 "b" pool))
unfolding lookup
releases_all-acquires_example =
    releases_all-acquires 2 1 "b" box_connection pool b_named refl (omega arith)

abbrev failing : Providers ℕ
failing = record {
  is_closed = λ s. false;
  create_spectra = λ s root world. err "down";
  create_cloud = λ s root. err "down";
  forbidden_roots = λ provider. some ("0" ∷ []);
  new_local = λ path. err "down";
}

abbrev box_definition : ServiceDefinition
box_definition = record {
  id = "box";
  name = "Box";
  type = ServiceType.cloud;
  local_root = none;
  spectra = none;
  cloud_provider = some "box";
}

abbrev used : Pool
used = record { connections = ("b", held box_connection 1) ∷ []; closed = [] }

acquire_adapter-Settled_example :
    Settled "b" box_connection [] 1 (acquire_adapter failing box_definition docs "b" used)
unfolding lookup
acquire_adapter-Settled_example =
    acquire_adapter-Settled failing box_definition docs "b" box_connection [] 0 used b_named
      (record { pooled = refl; shut = refl })

failed_cloud_drops_example :
    ((acquire_cloud_adapter failing (some "box") docs "b" pool).0
      ≡ Acquired.failed (AcquireError.adapter_failed "down"))
    × Shows "b" none [] (acquire_cloud_adapter failing (some "box") docs "b" pool).1
unfolding validate_migration_root_folder lookup
failed_cloud_drops_example =
    failed_cloud_drops failing "box" docs "b" box_connection 7 pool "down" refl refl refl refl refl

abbrev world : SpectraConfig
world = record {
  world = "primary";
  root_id = "";
  config_path = "/etc/spectra";
  diverging_tree_mode = none;
}

shared_named : trim_space " shared_with_me " ≢ ""
unfolding trim_space
shared_named = ground (arith, eq_iff "shared_with_me" "")

abbrev shared : Folder
shared = at_root "sharedWithMe" "" "Shared with me" "shared_with_me"

-- An adapter whose world is the list of the ids that it was asked to delete.
abbrev logging : Adapter ℕ (List String)
logging = record {
  delete_node = λ id type w. (none, id ∷ w);
  create_folder = λ parent name w. (inr docs, w);
}

-- An adapter that fails for "b".
abbrev refusing : Adapter ℕ (List String)
refusing = record logging {
  delete_node = λ id type w. if str_eq id "b" then (some 5, w) else (none, id ∷ w);
}

abbrev named : String → NodeRef
named id = record { id = id; type = "file" }

abbrev nodes : List NodeRef
nodes = named "b" ∷ named "a" ∷ []

delete_nodes-Deletes_example :
    let ((error, result), v) = delete_nodes refusing (named "Root" ∷ nodes) [] in
    (error ≡ none) × Deletes refusing (named "Root" ∷ nodes) [] result.deleted result.errors v
delete_nodes-Deletes_example = delete_nodes-Deletes refusing (named "Root") nodes []

-- No id in the log is the root.
abbrev NoRoot : List String → Type 0
NoRoot [] = Unit
NoRoot (id ∷ ids) = (str_eq (to_lower (trim_space id)) "root" ≡ false) × NoRoot ids

deletes-NoRoot :
    (node : NodeRef) (v : List String)
    → validate_delete_node {E = ℕ} node ≡ none
    → NoRoot v
    → NoRoot (logging.delete_node node.id node.type v).1
unfolding validate_delete_node
deletes-NoRoot node v valid h = (ground arith, h)

abbrev box_storage : GetStorageInfoRequest
box_storage = record {
  service_id = "box";
  path = "";
  connection_id = "b";
  root_type = "";
  drive_id = "";
  role = "";
}

abbrev no_usage : String → StorageInfo × Option (Unit {0})
no_usage path = (unavailable_storage, none)

abbrev no_info : ℕ → String → Option (StorageInfo × Option (Unit {0}))
no_info a path = none

get_storage_info-Shows_example :
    Shows "b"
      (some (held box_connection 1))
      []
      (get_storage_info failing no_usage no_info (("box", box_definition) ∷ []) box_storage used).1
unfolding lookup
get_storage_info-Shows_example =
    get_storage_info-Shows failing no_usage no_info (("box", box_definition) ∷ []) box_storage
      box_connection [] 0 used b_named (record { pooled = refl; shut = refl })
