-- ===== src/Adapters/Dropbox/Batch/Entries.antt =====
-- pkg/fs/dropbox/batch.go: what becomes of one entry. A failure for write contention is turned into a
-- rate limit, with a wait from the session's backoff schedule; any other failure is an API error.
use Prim.Native.String.{◌++◌}
use sylos_fs.Base.{
  ℕ, ℤ, pos, String, str_eq, Bool, false, ◌&&◌, ◌||◌, none, some, List, [], ◌∷◌, if◌then◌else◌, ltb,
}
use sylos_fs.Base.Text.{trim_space, to_lower, contains}
use sylos_fs.Base.Text.Decimal.{decimal}
use sylos_fs.Types.Listing.{Folder, File}
use sylos_fs.Types.Degradation.{FsDegradationKind}
use sylos_fs.Adapters.Classify.{ApiError}
use sylos_fs.Adapters.Classify.Dropbox.{is_write_contention_tag}
use sylos_fs.Adapters.Calls.{Session, throttle_backoff, record_degradation}
use sylos_fs.Adapters.Calls.Providers.{dropbox_provider}
use sylos_fs.Adapters.Dropbox.Paths.{
  FileMetadata, is_empty, folder_base_path, meta_to_folder, meta_to_file,
}
use sylos_fs.Adapters.Dropbox.Batch.{
  Err, errorf, BatchEntry, absent, malformed, decoded, flatten_dropbox_error_tag,
}

pub data EntryError : Type 0 where
  plain_error : Err → EntryError
  rate_limited : ℤ → Err → EntryError

-- An item of a batch call's answer: a value or an error.
pub data EntryResult (A : Type 0) : Type 0 where
  done : A → EntryResult A
  failed : EntryError → EntryResult A

-- The error tag of an entry: that of its failure, the failure's text where it has no tag, or the
-- entry's own.
abbrev pub failure_tag : BatchEntry → String
failure_tag e =
    let tag = trim_space e.tag in
    let flattened = flatten_dropbox_error_tag e.failure_tags in
    if is_empty e.failure
    then (if is_empty tag then "failure" else tag)
    else if is_empty flattened
    then e.failure
    else flattened

-- http.StatusConflict, for a conflict of a path.
abbrev pub failure_status : String → ℕ
failure_status tag = if contains (to_lower tag) "conflict" then 409 else 0

-- APIError.Error for an error with a summary.
abbrev pub api_error_text : String → ℕ → String
api_error_text summary status =
    if ltb 0 status
    then "dropbox: " ++ summary ++ " (HTTP " ++ decimal status ++ ")"
    else "dropbox: " ++ summary

-- dropboxErrorCode of an error whose tag is not empty once it is trimmed; else the fallback of the
-- summary, which is the same text here.
abbrev pub error_code : String → String
error_code tag =
    let code = to_lower (trim_space tag) in if is_empty code then "dropbox_error" else code

-- batchEntryFailureError
unfoldable pub batch_entry_failure_error : BatchEntry → Err
unfolding flatten_dropbox_error_tag
batch_entry_failure_error e =
    let tag = failure_tag e in
    let status = failure_status tag in
    record {
      needs_refresh = false;
      api = some (record { status = status; code = error_code tag; retry_after = pos 0 });
      message = api_error_text tag status;
    }

-- isDropboxWriteContentionError
unfoldable pub is_write_contention_error : Err → Bool
is_write_contention_error e =
    elim e.api [ none ↦ false | some api ↦ is_write_contention_tag api.code ]
    || is_write_contention_tag e.message

abbrev pub file_of_metadata : FileMetadata → EntryResult FileMetadata
file_of_metadata m =
    if is_empty (trim_space m.id) && is_empty (trim_space m.name)
    then failed (plain_error (errorf "dropbox: decode success file metadata: missing id and name"))
    else done m

-- decodeBatchSuccessFolder and decodeBatchSuccessFile
unfoldable pub decode_batch_success_folder : BatchEntry → EntryResult FileMetadata
decode_batch_success_folder e = elim e.metadata [
  | absent ↦ failed (plain_error (errorf "dropbox: decode success metadata: empty metadata"))
  | malformed ↦ failed (plain_error (errorf "dropbox: decode success metadata"))
  | decoded m ↦ done m
]

unfoldable pub decode_batch_success_file : BatchEntry → EntryResult FileMetadata
decode_batch_success_file e = elim e.flat [
  | absent ↦ failed (plain_error (errorf "dropbox: decode success file metadata: empty entry"))
  | malformed ↦ failed (plain_error (errorf "dropbox: decode success file metadata"))
  | decoded m ↦ file_of_metadata m
]

abbrev pub is_success : BatchEntry → Bool
is_success e = str_eq (trim_space e.tag) "success"

abbrev pub with_metadata :
    {A : Type 0} → (FileMetadata → A) → EntryResult FileMetadata → EntryResult A
with_metadata f (done m) = done (f m)
with_metadata f (failed e) = failed e

abbrev pub to_folder : String → FileMetadata → Folder
to_folder base m = meta_to_folder m (folder_base_path m base)

abbrev pub to_file : String → FileMetadata → File
to_file base m = meta_to_file m (folder_base_path m base)

-- The `success` case of each of the three calls.
abbrev pub folder_success : String → BatchEntry → EntryResult Folder
folder_success base e = with_metadata (to_folder base) (decode_batch_success_folder e)

abbrev pub delete_success : String → BatchEntry → EntryResult (Unit {0})
delete_success path e = done tt

abbrev pub file_success : String → BatchEntry → EntryResult File
file_success base e = with_metadata (to_file base) (decode_batch_success_file e)

module _ {W : Type 0} (session : Session ApiError W) (clock : W → ℕ) where
  -- The wait of a rate limit and the signal that it leaves.
  abbrev pub limited : String → Err → ℤ × W → EntryError × W
  limited operation e (backoff, w) = (
    rate_limited backoff e,
    record_degradation dropbox_provider session FsDegradationKind.rate_limit operation backoff
        (clock w) w,
  )

  -- mapBatchEntryFailure
  unfoldable pub map_batch_entry_failure : BatchEntry → String → W → EntryError × W
  unfolding record_degradation dropbox_provider batch_entry_failure_error is_write_contention_error
  map_batch_entry_failure entry operation w =
      let e = batch_entry_failure_error entry in
      if is_write_contention_error e
      then limited operation e (throttle_backoff dropbox_provider session none w)
      else (plain_error e, w)

  abbrev pub failed_with : {A : Type 0} → EntryError × W → EntryResult A × W
  failed_with (e, w) = (failed e, w)

  -- The body of the loop over the entries.
  abbrev pub entry_result :
      {A : Type 0}
      → (String → BatchEntry → EntryResult A)
      → String
      → String
      → BatchEntry
      → W
      → EntryResult A × W
  entry_result success operation base entry w =
      if is_success entry
      then (success base entry, w)
      else failed_with (map_batch_entry_failure entry operation w)

  -- The loop: each item's base with its entry, in order.
  unfoldable pub entry_results :
      {A : Type 0}
      → (String → BatchEntry → EntryResult A)
      → String
      → List String
      → List BatchEntry
      → W
      → List (EntryResult A) × W
  unfolding map_batch_entry_failure
  entry_results success operation (base ∷ bases) (entry ∷ entries) w =
      let (r, w') = entry_result success operation base entry w in
      let (rs, w'') = entry_results success operation bases entries w' in (r ∷ rs, w'')
  entry_results success operation _ _ w = ([], w)
