-- ===== src/Adapters/Box/Writer.antt =====
-- pkg/fs/box: OpenWrite and OpenWriteWithSize of adapter.go, and the writer of transfer.go that streams
-- into an upload. The pipe between them is the reader that the upload is given; the model is of
-- writers whose writes to the pipe return. The limit of simple uploads is an argument, and
-- simple_upload_max_bytes is the source's.
pub mod Closed
use sylos_fs.Base.{
  ℕ, ℤ, pos, negsuc, String, List, [], ◌++◌, Bool, true, false, Option, none, some, Answer, ok, err,
  Call, leb, if◌then◌else◌,
}
use sylos_fs.Credentials.Retry.{Env, Outcome}
use sylos_fs.Adapters.Streams.{Body}
use sylos_fs.Adapters.Classify.{ApiError}
use sylos_fs.Adapters.Calls.{Session}
use sylos_fs.Adapters.Calls.Results.{retried, session_beside}
use sylos_fs.Adapters.Calls.Piped.{swapped, env_with}
use sylos_fs.Adapters.Calls.Providers.{box_provider}
use sylos_fs.Adapters.PendingFiles.{PendingFile, parse_sized_pending_file_id}
use sylos_fs.Adapters.Dropbox.Batch.{Err}
use sylos_fs.Adapters.Box.{Destination, new_file, version_of, Client, stream_chunked}

-- boxWriter, and the bytes that have gone into its pipe; the pending file's parent and name, or the
-- existing file, are its destination.
pub record BoxWriter (B : Type 0) : Type 0 where
  pub destination : Destination
  pub size : ℤ
  pub closed : Bool
  pub upload_started : Bool
  pub piped : List B

pub data WriterError : Type 0 where
  writer_closed size_required_create size_required_overwrite : WriterError
  upload_failed : Outcome Err → WriterError

abbrev pub destination_to : String → Option PendingFile → Destination
destination_to file_id none = version_of file_id
destination_to file_id (some f) = new_file f.parent_id f.name

abbrev pub size_of : Option PendingFile → ℤ
size_of none = negsuc 0
size_of (some f) = f.size

abbrev pub writer_of : {B : Type 0} → String → Option PendingFile → BoxWriter B
writer_of file_id pending = record {
  destination = destination_to file_id pending;
  size = size_of pending;
  closed = false;
  upload_started = false;
  piped = [];
}

unfoldable pub new_box_writer : {B : Type 0} → String → BoxWriter B
new_box_writer file_id = writer_of file_id (parse_sized_pending_file_id file_id)

-- OpenWriteWithSize; OpenWrite has the size -1.
unfoldable pub open_write_with_size : {B : Type 0} → String → ℤ → BoxWriter B
open_write_with_size file_id (pos n) = record (new_box_writer file_id) { size = pos n }
open_write_with_size file_id (negsuc n) = new_box_writer file_id

abbrev pub size_required : Destination → WriterError
size_required (new_file parent name) = size_required_create
size_required (version_of id) = size_required_overwrite

-- resolveSizeLocked
abbrev pub resolve_size : {B : Type 0} → BoxWriter B → Option WriterError
resolve_size w = elim w.size [ pos n ↦ none | negsuc n ↦ some (size_required w.destination) ]

-- Write: the first one starts the upload, if there is a size.
unfoldable pub write : {B : Type 0} → List B → BoxWriter B → Option WriterError × BoxWriter B
write p w =
    let started = record w { upload_started = true; piped = w.piped ++ p } in
    if w.closed
    then (some writer_closed, w)
    else if w.upload_started
    then (none, started)
    else elim (resolve_size w) [ none ↦ (none, started) | some e ↦ (some e, w) ]

abbrev pub operation_of : Destination → String
operation_of (new_file parent name) = "CreateFileUpload"
operation_of (version_of id) = "UploadFile"

-- The declared size; an upload that has been started has one.
abbrev pub declared : ℤ → ℕ
declared (pos n) = n
declared (negsuc n) = 0

module _ {B W : Type 0} (session : Session ApiError W) (env : Env Err W) (client : Client B Err W)
    (api_client : W → Option Err) (limit : ℕ) where
  -- The closure of streamUpload.
  abbrev pub attempt_upload : Destination → ℕ → Call (W × Body B Err) Err (Unit {0})
  attempt_upload destination size s = elim (api_client s.0) [
    | some e ↦ (err e, s)
    | none ↦
        if leb size limit
        then client.upload_file destination size s
        else swapped (stream_chunked client destination size) s
  ]

  -- streamUpload
  unfoldable pub stream_upload : Destination → ℕ → Call (W × Body B Err) (Outcome Err) (Unit {0})
  stream_upload destination size =
      retried box_provider (session_beside box_provider session (Body B Err)) (env_with env)
        (operation_of destination) tt (attempt_upload destination size)

  abbrev pub without_body : {R : Type 0} → R × (W × Body B Err) → R × W
  without_body (r, (w, body)) = (r, w)

  -- The closure of uploadEmpty: the reader of an empty text.
  abbrev pub attempt_empty : Destination → Call W Err (Unit {0})
  attempt_empty destination w = elim (api_client w) [
    | some e ↦ (err e, w)
    | none ↦
        without_body (client.upload_file destination 0 (w, record { bytes = []; broken = none }))
  ]

  -- uploadEmpty
  unfoldable pub upload_empty : Destination → Call W (Outcome Err) (Unit {0})
  upload_empty destination =
      retried box_provider session env (operation_of destination) tt (attempt_empty destination)

  abbrev pub closed_with :
      BoxWriter B → Answer (Outcome Err) (Unit {0}) × W → Option WriterError × (BoxWriter B × W)
  closed_with w (ok r, v) = (none, (record w { closed = true }, v))
  closed_with w (err e, v) = (some (upload_failed e), (record w { closed = true }, v))

  -- Close: the end of the stream, and what the upload answers.
  unfoldable pub close : BoxWriter B → W → Option WriterError × (BoxWriter B × W)
  close w v =
      if w.closed
      then (none, (w, v))
      else if w.upload_started
      then closed_with w (
          without_body (
            stream_upload w.destination (declared w.size)
              (v, record { bytes = w.piped; broken = none })))
      else closed_with w (upload_empty w.destination v)
