-- ===== src/Adapters/Dropbox/Streaming.antt =====
-- pkg/fs/dropbox/transfer.go: the upload of a writer's stream, and the writer's calls. The pipe
-- between them is the reader that the upload is given; what is read from it in one attempt is gone
-- in the next.
pub mod Truncated
use sylos_fs.Base.{
  ℕ, String, str_eq, List, [], ◌++◌, Bool, true, false, Option, none, some, Answer, ok, err, Call,
  succeed, fail, ◌>>=◌, if◌then◌else◌,
}
use sylos_fs.Types.Degradation.{FsDegradationState}
use sylos_fs.Credentials.Retry.{Env, Outcome}
use sylos_fs.Adapters.Classify.{ApiError}
use sylos_fs.Adapters.Calls.{Session, clear_streak}
use sylos_fs.Adapters.Calls.Results.{retried, session_beside}
use sylos_fs.Adapters.Calls.Providers.{dropbox_provider}
use sylos_fs.Adapters.Calls.Piped.{swapped, env_with}
use sylos_fs.Adapters.Dropbox.Paths.{DropboxFs}
use sylos_fs.Adapters.Dropbox.Paths.Pending.{
  Target, at_location, under_parent, existing, UploadPath, upload_to, at_team_root, no_create_path,
  resolve_upload_path,
}
use sylos_fs.Adapters.Dropbox.Sessions.{Body, Content, on_api, upload_session}
use sylos_fs.Adapters.Dropbox.Batch.{Err, errorf}

abbrev pub is_create : Target → Bool
is_create (existing id) = false
is_create _ = true

abbrev pub operation_of : Target → String
operation_of target = if is_create target then "CreateFileUpload" else "UploadFile"

-- The writer's state, and the bytes that have gone into its pipe.
pub record DropboxWriter (B : Type 0) : Type 0 where
  pub target : Target
  pub closed : Bool
  pub upload_started : Bool
  pub piped : List B
  pub committed_id : String

pub data WriterError : Type 0 where
  writer_closed : WriterError
  upload_failed : Outcome Err → WriterError

abbrev pub open_write : {B : Type 0} → Target → DropboxWriter B
open_write target = record {
  target = target;
  closed = false;
  upload_started = false;
  piped = [];
  committed_id = "";
}

-- Write: the first one starts the upload.
unfoldable pub write :
    {B : Type 0} → List B → DropboxWriter B → Option WriterError × DropboxWriter B
write p w =
    if w.closed
    then (some writer_closed, w)
    else (none, record w { upload_started = true; piped = w.piped ++ p })

module _ {B W : Type 0} (session : Session ApiError W) (env : Env Err W) (content : Content B Err W)
    (size : ℕ) (client : W → Option Err) where
  -- The client, then the path, then the upload: what the closures of streamUpload and uploadEmpty do.
  abbrev pub with_path :
      {V : Type 0}
      → (V → Option Err)
      → DropboxFs
      → Target
      → (String → Call V Err String)
      → Call V Err String
  with_path client_of d target upload v = elim (client_of v) [
    | some e ↦ (err e, v)
    | none ↦ elim (resolve_upload_path d target) [
      | upload_to p ↦ upload p v
      | at_team_root ↦
          (err (errorf "dropbox: cannot create files or folders at team space root"), v)
      | no_create_path e ↦ (err (errorf "dropbox: upload create path"), v)
    ]
  ]

  abbrev pub streak_cleared :
      Answer Err String × (W × Body B Err) → Answer Err String × (W × Body B Err)
  streak_cleared (ok id, (w, body)) = (ok id, (clear_streak dropbox_provider session w, body))
  streak_cleared (err e, s) = (err e, s)

  abbrev pub attempt_upload : DropboxFs → Target → Call (W × Body B Err) Err String
  attempt_upload d target =
      with_path (λ s. client s.0) d target
        (λ p s. streak_cleared (swapped (upload_session content size p) s))

  -- streamUpload: the id that it commits.
  unfoldable pub stream_upload : DropboxFs → Target → Call (W × Body B Err) (Outcome Err) String
  unfolding upload_session resolve_upload_path
  stream_upload d target =
      retried dropbox_provider (session_beside dropbox_provider session (Body B Err)) (env_with env)
        (operation_of target) "" (attempt_upload d target)

  -- uploadEmpty
  unfoldable pub upload_empty : DropboxFs → Target → Call W (Outcome Err) String
  unfolding resolve_upload_path
  upload_empty d target =
      retried dropbox_provider session env (operation_of target) ""
        (with_path client d target (λ p. content.upload p []))

  abbrev pub closed_with :
      DropboxWriter B → Answer (Outcome Err) String × W → Option WriterError × (DropboxWriter B × W)
  closed_with w (ok id, v) = (none, (record w { closed = true; committed_id = id }, v))
  closed_with w (err e, v) = (some (upload_failed e), (record w { closed = true }, v))

  abbrev pub without_body :
      Answer (Outcome Err) String × (W × Body B Err) → Answer (Outcome Err) String × W
  without_body (r, (w, body)) = (r, w)

  -- Close: the end of the stream, and what the upload answers.
  unfoldable pub close :
      DropboxFs → DropboxWriter B → W → Option WriterError × (DropboxWriter B × W)
  close d w v =
      if w.closed
      then (none, (w, v))
      else if w.upload_started
      then closed_with w
          (without_body (stream_upload d w.target (v, record { bytes = w.piped; broken = none })))
      else closed_with w (upload_empty d w.target v)
