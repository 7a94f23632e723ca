-- ===== src/Adapters/Dropbox/Batch/Items.antt =====
-- pkg/fs/dropbox/batch.go: CreateFolderBatch and DeleteBatch. writeBatchMu is held during the call,
-- so that batches of one adapter do not overlap; a call runs in withClassifiedRetry.
use sylos_fs.Base.{
  ℕ, ◌+◌, String, List, [], ◌∷◌, ◌&&◌, Answer, ok, err, Call, map, length, ltb, ◌==◌, if◌then◌else◌,
}
use sylos_fs.Base.Text.{trim_space}
use sylos_fs.Types.Listing.{Folder}
use sylos_fs.Types.Locations.{normalize_location_path, logical_parent_from_create_metadata}
use sylos_fs.Credentials.Retry.{Env, Outcome}
use sylos_fs.Adapters.Classify.{ApiError}
use sylos_fs.Adapters.Calls.{Session}
use sylos_fs.Adapters.Calls.Results.{retried}
use sylos_fs.Adapters.Calls.Providers.{dropbox_provider}
use sylos_fs.Adapters.Dropbox.Paths.{
  DropboxFs, is_empty, is_root_ref, is_team_space, dropbox_path_ref, CreateError, wire, refused,
  create_api_path,
}
use sylos_fs.Adapters.Dropbox.Batch.{
  Err, BatchApi, BatchEntry, dropbox_batch_max_entries, create_folder_batch_entries,
  delete_batch_entries,
}
use sylos_fs.Adapters.Dropbox.Batch.Entries.{
  EntryResult, folder_success, delete_success, entry_results,
}

-- CreateFolderBatchItem
pub record CreateFolderBatchItem : Type 0 where
  pub parent_id : String
  pub name : String
  pub metadata : List (String × String)

-- An error of a whole batch.
pub data BatchError : Type 0 where
  too_many : ℕ → BatchError
  at_team_root : BatchError
  bad_item : ℕ → CreateError → BatchError
  missing_node_id : ℕ → BatchError
  call_failed : Outcome Err → BatchError
  wrong_count : ℕ → ℕ → BatchError

-- The wire path of an item, and the base path of what it becomes.
abbrev pub base_path_of : DropboxFs → List (String × String) → String
base_path_of d metadata =
    logical_parent_from_create_metadata metadata (normalize_location_path d.root.location_path)

abbrev pub prepared :
    Answer BatchError String → Answer BatchError (List String) → Answer BatchError (List String)
prepared (err e) rest = err e
prepared (ok p) (ok ps) = ok (p ∷ ps)
prepared (ok p) (err e) = err e

abbrev pub item_path : DropboxFs → ℕ → String → String → Answer BatchError String
item_path d i parent_id name =
    if is_team_space d.ctx && is_root_ref parent_id
    then err at_team_root
    else elim (create_api_path d parent_id name) [ wire p ↦ ok p | refused e ↦ err (bad_item i e) ]

-- The first loop of CreateFolderBatch, from the item number i.
unfoldable pub folder_paths :
    DropboxFs → ℕ → List CreateFolderBatchItem → Answer BatchError (List String)
folder_paths d i [] = ok []
folder_paths d i (item ∷ items) =
    prepared (item_path d i item.parent_id item.name) (folder_paths d (i + 1) items)

-- The first loop of DeleteBatch, over the node ids.
unfoldable pub delete_paths : ℕ → List String → Answer BatchError (List String)
delete_paths i [] = ok []
delete_paths i (node_id ∷ ids) =
    let id = trim_space node_id in
    prepared (if is_empty id then err (missing_node_id i) else ok (dropbox_path_ref id))
      (delete_paths (i + 1) ids)

module _ {W : Type 0} (session : Session ApiError W) (env : Env Err W) (api : BatchApi W) where
  -- After the call: its error, a wrong number of entries, or the results one by one.
  abbrev pub answered :
      {A : Type 0}
      → (String → BatchEntry → EntryResult A)
      → String
      → List String
      → Answer (Outcome Err) (List BatchEntry) × W
      → Answer BatchError (List (EntryResult A)) × W
  answered success operation bases (err e, w) = (err (call_failed e), w)
  answered success operation bases (ok entries, w) =
      if length entries == length bases
      then (let (rs, w') = entry_results session env.now success operation bases entries w in
          (ok rs, w'))
      else (err (wrong_count (length entries) (length bases)), w)

  -- The call, in withClassifiedRetry, for the paths that the first loop gave.
  abbrev pub batch_of :
      {A : Type 0}
      → (String → BatchEntry → EntryResult A)
      → String
      → (List String → Call W Err (List BatchEntry))
      → List String
      → Answer BatchError (List String)
      → Call W BatchError (List (EntryResult A))
  batch_of success operation call bases (err e) w = (err e, w)
  batch_of success operation call bases (ok paths) w =
      answered success operation bases
        (retried dropbox_provider session env operation [] (call paths) w)

  -- CreateFolderBatch
  unfoldable pub create_folder_batch :
      DropboxFs → List CreateFolderBatchItem → Call W BatchError (List (EntryResult Folder))
  unfolding folder_paths create_folder_batch_entries entry_results
  create_folder_batch d items w =
      if length items == 0
      then (ok [], w)
      else if ltb dropbox_batch_max_entries (length items)
      then (err (too_many (length items)), w)
      else batch_of folder_success "CreateFolderBatch" (create_folder_batch_entries api)
          (map (λ item. base_path_of d item.metadata) items) (folder_paths d 0 items) w

  -- DeleteBatch
  unfoldable pub delete_batch : List String → Call W BatchError (List (EntryResult (Unit {0})))
  unfolding delete_paths delete_batch_entries entry_results
  delete_batch node_ids w =
      if length node_ids == 0
      then (ok [], w)
      else if ltb dropbox_batch_max_entries (length node_ids)
      then (err (too_many (length node_ids)), w)
      else batch_of delete_success "DeleteBatch" (delete_batch_entries api) node_ids
          (delete_paths 0 node_ids) w
