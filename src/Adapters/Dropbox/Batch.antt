-- ===== src/Adapters/Dropbox/Batch.antt =====
-- pkg/fs/dropbox/batch.go: what a batch call answers. A batch is complete at once, or a job that is
-- polled until it is; its entries succeed or fail one by one. JSON is read as what the source's
-- decoding makes of it.
pub mod Polling
pub mod Entries
pub mod Items
pub mod Mapping
pub mod Upload
pub mod Closing
pub mod Merging
pub mod Uploaded
use Prim.Native.String.{◌++◌}
use sylos_fs.Base.{
  ℕ, zero, suc, ◌+◌, ◌*◌, ℤ, pos, String, str_eq, List, [], ◌∷◌, Bool, true, false, not, ◌&&◌, ◌||◌,
  Option, none, some, Answer, ok, err, Call, succeed, fail, and_then, ◌>>=◌, length, ltb, ◌==◌,
  if◌then◌else◌,
}
use sylos_fs.Base.Text.{trim_space, to_lower, contains}
use sylos_fs.Base.Text.Decimal.{decimal}
use sylos_fs.Types.Degradation.{second}
use sylos_fs.Adapters.Classify.{ApiError, FsError}
use sylos_fs.Adapters.Dropbox.Paths.{FileMetadata, is_empty}

abbrev pub dropbox_batch_max_entries : ℕ
dropbox_batch_max_entries = 1000

abbrev pub dropbox_upload_batch_max_entries : ℕ
dropbox_upload_batch_max_entries = 500

-- Nanoseconds.
abbrev pub batch_poll_interval : ℕ
batch_poll_interval = 500000000

abbrev pub batch_poll_max_wait : ℕ
batch_poll_max_wait = 600 * second

-- A tagged JSON value, as flattenDropboxErrorTag reads it: no tag, a tag alone, or a tag with the
-- member that it names.
pub data Tagged : Type 0 where
  untagged : Tagged
  alone : String → Tagged
  nested : String → Tagged → Tagged

-- flattenDropboxErrorTag
unfoldable pub flatten_dropbox_error_tag : Tagged → String
flatten_dropbox_error_tag untagged = ""
flatten_dropbox_error_tag (alone tag) = tag
flatten_dropbox_error_tag (nested tag member) =
    let child = flatten_dropbox_error_tag member in
    if is_empty tag then "" else if is_empty child then tag else tag ++ "/" ++ child

-- Metadata in an entry: none, not decodable, or decoded.
pub data Decoded : Type 0 where
  absent malformed : Decoded
  decoded : FileMetadata → Decoded

-- batchEntryTagged: the `failure` member as text and as tags, the `metadata` member, and the entry
-- itself as the metadata of a file.
pub record BatchEntry : Type 0 where
  pub tag : String
  pub failure : String
  pub failure_tags : Tagged
  pub metadata : Decoded
  pub flat : Decoded

-- The `entries` of a response, each with what it is decoded to.
pub data RawEntries : Type 0 where
  no_entries not_a_list : RawEntries
  entries : List (Option BatchEntry) → RawEntries

pub record BatchLaunch : Type 0 where
  pub tag : String
  pub async_job_id : String
  pub entries : RawEntries

pub record BatchJobStatus : Type 0 where
  pub tag : String
  pub entries : RawEntries

abbrev pub Err : Type 0
Err = FsError ApiError

-- fmt.Errorf without a wrapped error.
abbrev pub errorf : String → Err
errorf message = record { needs_refresh = false; api = none; message = message }

-- What Dropbox answers, and the clock and the context of the caller.
pub record BatchApi (W : Type 0) : Type 0 where
  pub launch_create_folder_batch : List String → Call W Err BatchLaunch
  pub launch_delete_batch : List String → Call W Err BatchLaunch
  -- The session, the offset and the path of each file.
  pub launch_finish_batch : List (String × (ℕ × String)) → Call W Err BatchLaunch
  pub start_batch : ℕ → Call W Err (List String)
  pub check : String → String → Call W Err BatchJobStatus
  pub ctx_err : W → Option Err
  pub now : W → ℕ
  -- `select` on the context and a timer of batchPollInterval
  pub poll_wait : Call W Err (Unit {0})

-- decodeBatchEntries
pub decode_entry_list : ℕ → List (Option BatchEntry) → Answer Err (List BatchEntry)
decode_entry_list i [] = ok []
decode_entry_list i (none ∷ raw) = err (errorf ("dropbox: decode batch entry " ++ decimal i))
decode_entry_list i (some e ∷ raw) = elim (decode_entry_list (i + 1) raw) [
  | ok es ↦ ok (e ∷ es)
  | err x ↦ err x
]

unfoldable pub decode_batch_entries : RawEntries → Answer Err (List BatchEntry)
unfolding decode_entry_list
decode_batch_entries no_entries = err (errorf "dropbox: batch complete with empty entries")
decode_batch_entries not_a_list = err (errorf "dropbox: decode batch entries")
decode_batch_entries (entries raw) = decode_entry_list 0 raw

-- The cases of the two switches.
pub data JobTag : Type 0 where
  complete failed in_progress : JobTag
  unexpected : String → JobTag

abbrev pub job_tag : String → JobTag
job_tag given =
    let tag = trim_space given in
    if str_eq tag "complete"
    then complete
    else if str_eq tag "failed"
    then failed
    else if str_eq tag "in_progress"
    then in_progress
    else unexpected given

module _ {W : Type 0} (api : BatchApi W) where
  abbrev pub timed_out : String → Err
  timed_out job = errorf ("dropbox: batch job " ++ job ++ " timed out after 10m0s")

  -- After the wait of a job in progress: the context's error, or the next round.
  abbrev pub waited :
      (W → Option (Answer Err (List BatchEntry) × W))
      → Answer Err (Unit {0}) × W
      → Option (Answer Err (List BatchEntry) × W)
  waited again (ok u, w) = again w
  waited again (err e, w) = some (err e, w)

  abbrev pub after_status :
      String
      → (W → Option (Answer Err (List BatchEntry) × W))
      → BatchJobStatus
      → W
      → Option (Answer Err (List BatchEntry) × W)
  after_status job again status w = elim (job_tag status.tag) [
    | complete ↦ some (decode_batch_entries status.entries, w)
    | failed ↦ some (err (errorf ("dropbox: batch job " ++ job ++ " failed")), w)
    | in_progress ↦ waited again (api.poll_wait w)
    | unexpected tag ↦ some (err (errorf ("dropbox: unexpected batch check tag " ++ tag)), w)
  ]

  abbrev pub after_check :
      String
      → (W → Option (Answer Err (List BatchEntry) × W))
      → Answer Err BatchJobStatus × W
      → Option (Answer Err (List BatchEntry) × W)
  after_check job again (err e, w) = some (err e, w)
  after_check job again (ok status, w) = after_status job again status w

  -- The loop of resolveBatchEntries, `none` if the fuel runs out.
  unfoldable pub poll_loop : ℕ → String → String → ℕ → W → Option (Answer Err (List BatchEntry) × W)
  unfolding decode_batch_entries
  poll_loop zero endpoint job deadline w = none
  poll_loop (suc fuel) endpoint job deadline w = elim (api.ctx_err w) [
    | some e ↦ some (err e, w)
    | none ↦
        let again = poll_loop fuel endpoint job deadline in
        if ltb deadline (api.now w)
        then some (err (timed_out job), w)
        else after_check job again (api.check endpoint job w)
  ]

  -- The rounds until the deadline, with one more for the round that finds it passed.
  abbrev pub poll_rounds : ℕ
  poll_rounds = 1202

  abbrev pub or_unsettled :
      Option (Answer Err (List BatchEntry) × W) → W → Answer Err (List BatchEntry) × W
  or_unsettled (some r) w = r
  or_unsettled none w = (err (errorf "dropbox: batch job unsettled"), w)

  abbrev pub poll_job : String → String → Call W Err (List BatchEntry)
  poll_job endpoint job w =
      or_unsettled (poll_loop poll_rounds endpoint job (api.now w + batch_poll_max_wait) w) w

  -- resolveBatchEntries
  unfoldable pub resolve_batch_entries : String → BatchLaunch → Call W Err (List BatchEntry)
  unfolding poll_loop decode_batch_entries
  resolve_batch_entries endpoint launch w =
      let tag = trim_space launch.tag in
      let job = trim_space launch.async_job_id in
      if str_eq tag "complete"
      then (decode_batch_entries launch.entries, w)
      else if str_eq tag "async_job_id"
      then (if is_empty job
          then (err (errorf "dropbox: batch returned async_job_id with empty id"), w)
          else poll_job endpoint job w)
      else (err (errorf ("dropbox: unexpected batch launch tag " ++ tag)), w)

  -- createFolderBatch, deleteBatch and uploadSessionFinishBatch
  unfoldable pub create_folder_batch_entries : List String → Call W Err (List BatchEntry)
  create_folder_batch_entries paths = api.launch_create_folder_batch paths >>= λ launch.
      resolve_batch_entries "files/create_folder_batch/check" launch

  unfoldable pub delete_batch_entries : List String → Call W Err (List BatchEntry)
  delete_batch_entries paths = api.launch_delete_batch paths >>= λ launch.
      resolve_batch_entries "files/delete_batch/check" launch

  unfoldable pub finish_batch_entries : List (String × (ℕ × String)) → Call W Err (List BatchEntry)
  finish_batch_entries args = api.launch_finish_batch args >>= λ launch.
      resolve_batch_entries "files/upload_session/finish_batch/check" launch

  -- uploadSessionStartBatch, for at least one session.
  unfoldable pub upload_session_start_batch : ℕ → Call W Err (List String)
  upload_session_start_batch n =
      if n == 0
      then succeed []
      else api.start_batch n >>= λ ids.
          if length ids == n
          then succeed ids
          else fail (
              errorf (
                "dropbox: start_batch returned "
                ++ decimal (length ids)
                ++ " session ids for "
                ++ decimal n
                ++ " sessions"))
