-- ===== src/Adapters/Dropbox/Batch/Upload.antt =====
-- pkg/fs/dropbox/batch.go: UploadFilesBatch. The four goroutines that append at a time run here one
-- item after the other: each has its own session and its own place in `outcomes`. Each place that
-- closes bodies answers which ones it closes, by the numbers of their items.
use sylos_fs.Base.{
  ℕ, zero, suc, ◌+◌, String, List, [], ◌∷◌, ◌++◌ as append, ◌&&◌, Option, none, some, Answer, ok,
  err, map, length, get_elem?, ltb, ◌==◌, if◌then◌else◌, is_none,
}
use sylos_fs.Types.Listing.{File}
use sylos_fs.Credentials.Retry.{Env, Outcome, returns, get_or}
use sylos_fs.Adapters.Classify.{ApiError}
use sylos_fs.Adapters.Calls.{Session, clear_streak}
use sylos_fs.Adapters.Calls.Results.{retried}
use sylos_fs.Adapters.Calls.Providers.{dropbox_provider}
use sylos_fs.Adapters.Dropbox.Paths.{
  DropboxFs, is_root_ref, is_team_space, wire, refused, create_api_path,
}
use sylos_fs.Adapters.Dropbox.Sessions.{Body, Content, append_upload_session}
use sylos_fs.Adapters.Dropbox.Batch.{
  Err, BatchApi, BatchEntry, dropbox_upload_batch_max_entries, upload_session_start_batch,
  finish_batch_entries,
}
use sylos_fs.Adapters.Dropbox.Batch.Entries.{
  plain_error, EntryResult, failed, file_success, entry_result,
}
use sylos_fs.Adapters.Dropbox.Batch.Items.{
  BatchError, too_many, call_failed, wrong_count, at_team_root, bad_item, base_path_of,
}

-- UploadFilesBatchItem; a nil body is `none`.
pub record UploadItem (B : Type 0) : Type 0 where
  pub parent_id : String
  pub name : String
  pub metadata : List (String × String)
  pub body : Option (Body B Err)

-- appendOutcome
abbrev pub AppendOutcome : Type 0
AppendOutcome = Answer Err ℕ

-- The array `out`: an item without a result yet is `none`.
abbrev pub Results : Type 0
Results = List (Option (EntryResult File))

-- closeUploadBatchBodies: the numbers of the items with a body, from i on.
abbrev pub bodies : {B : Type 0} → ℕ → List (UploadItem B) → List ℕ
bodies i [] = []
bodies i (item ∷ items) =
    let others = bodies (i + 1) items in if is_none item.body then others else i ∷ others

-- The deferred body.Close() of a goroutine: a nil body has been replaced by one of its own.
abbrev pub close_body : {B : Type 0} → ℕ → Option (Body B Err) → List ℕ
close_body i none = []
close_body i (some body) = i ∷ []

-- xs[i] = x
abbrev pub set_at {ℓ} : {A : Type ℓ} → ℕ → A → List A → List A
set_at i x [] = []
set_at zero x (y ∷ ys) = x ∷ ys
set_at (suc i) x (y ∷ ys) = y ∷ set_at i x ys

-- The loop after the appends: a failed append is the item's error; the others are numbered for the
-- finish.
abbrev pub early_result : AppendOutcome → Option (EntryResult File)
early_result (err e) = some (failed (plain_error e))
early_result (ok offset) = none

abbrev pub finish_idx : ℕ → List AppendOutcome → List ℕ
finish_idx i [] = []
finish_idx i (err e ∷ outcomes) = finish_idx (i + 1) outcomes
finish_idx i (ok offset ∷ outcomes) = i ∷ finish_idx (i + 1) outcomes

abbrev pub finish_entries :
    List String → List String → List AppendOutcome → List (String × (ℕ × String))
finish_entries (id ∷ ids) (path ∷ paths) (err e ∷ outcomes) = finish_entries ids paths outcomes
finish_entries (id ∷ ids) (path ∷ paths) (ok offset ∷ outcomes) =
    (id, (offset, path)) ∷ finish_entries ids paths outcomes
finish_entries _ _ _ = []

abbrev pub with_path :
    String → Answer (BatchError × List ℕ) (List String) → Answer (BatchError × List ℕ) (List String)
with_path p (err e) = err e
with_path p (ok ps) = ok (p ∷ ps)

-- The first loop, over the items from number i on: both of its errors close the bodies of all items.
unfoldable pub upload_paths :
    {B : Type 0}
    → DropboxFs
    → List (UploadItem B)
    → ℕ
    → List (UploadItem B)
    → Answer (BatchError × List ℕ) (List String)
upload_paths d all i [] = ok []
upload_paths d all i (item ∷ items) =
    let rest = upload_paths d all (i + 1) items in
    if is_team_space d.ctx && is_root_ref item.parent_id
    then err (at_team_root, bodies 0 all)
    else elim (create_api_path d item.parent_id item.name) [
      | refused e ↦ err (bad_item i e, bodies 0 all)
      | wire p ↦ with_path p rest
    ]

-- A nil body is read as an empty one.
abbrev pub body_of : {B : Type 0} → Option (Body B Err) → Body B Err
body_of none = record { bytes = []; broken = none }
body_of (some body) = body

-- The error that the client gives before any session is started, if it gives one.
pub record Uploads (B W : Type 0) : Type 0 where
  pub client : W → Option Err
  pub content : Content B Err W
  pub chunk_size : ℕ

module _ {B W : Type 0} (session : Session ApiError W) (env : Env Err W) (api : BatchApi W)
    (up : Uploads B W) where
  -- The appends, each to its own session, from the item number i on; after its append an item's body
  -- is closed.
  unfoldable pub append_all :
      ℕ → List (UploadItem B) → List String → W → (List AppendOutcome × W) × List ℕ
  unfolding append_upload_session
  append_all i (item ∷ items) (id ∷ ids) w =
      let (r, (left, w')) =
        append_upload_session up.content up.chunk_size id (body_of item.body, w) in
      let ((rs, w''), closed) = append_all (i + 1) items ids w' in
      ((r ∷ rs, w''), append (close_body i item.body) closed)
  append_all i _ _ w = (([], w), [])

  -- The loop over the entries of finish_batch: the j-th is for the item finishIdx[j].
  unfoldable pub finish_loop : List String → List ℕ → List BatchEntry → Results → W → Results × W
  finish_loop bases (i ∷ idx) (entry ∷ entries) out w =
      let base = get_or (get_elem? bases i) "" in
      let (r, w') =
        entry_result session env.now file_success "UploadFilesBatchFinish" base entry w in
      finish_loop bases idx entries (set_at i (some r) out) w'
  finish_loop bases _ _ out w = (out, w)

  -- The end of the batch, once finish_batch has answered.
  abbrev pub written : Results × W → Answer BatchError Results × W
  written (out, w) = (ok out, clear_streak dropbox_provider session w)

  abbrev pub finished :
      List String
      → List AppendOutcome
      → Answer (Outcome Err) (List BatchEntry) × W
      → Answer BatchError Results × W
  finished bases outcomes (err e, w) = (err (call_failed e), w)
  finished bases outcomes (ok entries, w) =
      let idx = finish_idx 0 outcomes in
      if length entries == length idx
      then written (finish_loop bases idx entries (map early_result outcomes) w)
      else (err (wrong_count (length entries) (length idx)), w)

  abbrev pub finish :
      List String
      → List String
      → List String
      → List AppendOutcome × W
      → Answer BatchError Results × W
  finish ids paths bases (outcomes, w) =
      if length (finish_idx 0 outcomes) == 0
      then (ok (map early_result outcomes), w)
      else finished bases outcomes (
          retried dropbox_provider session env "UploadFilesBatchFinish" []
            (finish_batch_entries api (finish_entries ids paths outcomes)) w)

  -- After start_batch: its error closes all bodies, and else each goroutine closes its own.
  abbrev pub started :
      List (UploadItem B)
      → List String
      → List String
      → Answer (Outcome Err) (List String) × W
      → (Answer BatchError Results × W) × List ℕ
  started items paths bases (err e, w) = ((err (call_failed e), w), bodies 0 items)
  started items paths bases (ok ids, w) =
      let (appended, closed) = append_all 0 items ids w in (finish ids paths bases appended, closed)

  abbrev pub with_paths :
      List (UploadItem B)
      → List String
      → Answer (BatchError × List ℕ) (List String)
      → W
      → (Answer BatchError Results × W) × List ℕ
  with_paths items bases (err (e, closed)) w = ((err e, w), closed)
  with_paths items bases (ok paths) w = elim (up.client w) [
    | some e ↦ ((err (call_failed (returns (some e))), w), bodies 0 items)
    | none ↦ started items paths bases (
        retried dropbox_provider session env "UploadFilesBatchStart" []
          (upload_session_start_batch api (length items)) w)
  ]

  -- UploadFilesBatch: its answer, the world, and the bodies that it has closed.
  unfoldable pub upload_files_batch :
      DropboxFs → List (UploadItem B) → W → (Answer BatchError Results × W) × List ℕ
  unfolding append_all finish_loop upload_paths finish_batch_entries upload_session_start_batch
  upload_files_batch d items w =
      if length items == 0
      then ((ok [], w), [])
      else if ltb dropbox_upload_batch_max_entries (length items)
      then ((err (too_many (length items)), w), [])
      else with_paths items (map (λ item. base_path_of d item.metadata) items)
          (upload_paths d items 0 items) w
