-- ===== src/Adapters/Dropbox/Streaming/Truncated.antt =====
-- A streamed upload on a server that keeps sessions in order: whole when no call is refused, and
-- without its first chunk when the first append is refused with an expired token.
use sylos_fs.Base.{
  ℕ, ◌≤◌, pos, String, List, [], ◌∷◌, ◌++◌, true, false, Option, none, some, Answer, ok, err,
  length, drop, ◌≡◌, refl, sym, ap, ◌∙◌, append-nil, append_assoc,
}
use sylos_fs.Credentials.Retry.{Env, Outcome}
use sylos_fs.Adapters.Classify.{ApiError, is_auth_failure}
use sylos_fs.Adapters.Calls.{Session}
use sylos_fs.Adapters.Calls.Results.{session_beside, retried-refreshed, retried-success}
use sylos_fs.Adapters.Calls.Providers.{dropbox_provider}
use sylos_fs.Adapters.Calls.Piped.{env_with}
use sylos_fs.Adapters.Dropbox.Paths.{DropboxFs}
use sylos_fs.Adapters.Dropbox.Paths.Pending.{Target, upload_to, resolve_upload_path}
use sylos_fs.Adapters.Dropbox.Sessions.{Body}
use sylos_fs.Adapters.Dropbox.Sessions.Server.{Server, in_order}
use sylos_fs.Adapters.Dropbox.Sessions.Sent.{
  sound_body, server, upload_session-sent, upload_session-refused,
}
use sylos_fs.Adapters.Dropbox.Batch.{Err, errorf}
use sylos_fs.Adapters.Dropbox.Streaming.{
  operation_of, with_path, attempt_upload, stream_upload, upload_empty, DropboxWriter, WriterError,
  open_write, write, close,
}

abbrev pub out_of_order : Err
out_of_order = errorf "incorrect_offset"

-- A session whose token can be refreshed, and surroundings in which nothing else happens.
abbrev pub calm_session : {B : Type 0} → Session ApiError (Server B Err)
calm_session = record {
  degradation = λ s. none;
  put_degradation = λ d s. s;
  clear_access_token = λ s. s;
  refresh_access_token = λ s. (none, s);
  active_workers = λ s. pos 0;
}

abbrev pub calm_env : {B : Type 0} → Env Err (Server B Err)
calm_env = record {
  ctx_err = λ s. none;
  op = λ s. (none, s);
  sleep_ctx = λ d s. (none, s);
  now = λ s. 0;
  tracker = λ s. none;
  put_tracker = λ t s. s;
  is_needs_refresh = λ e. e.needs_refresh;
}

module _ {B : Type 0} (size : ℕ) (d : DropboxFs) (target : Target) where
  abbrev pub calm_upload :
      Server B Err × Body B Err → Answer (Outcome Err) String × (Server B Err × Body B Err)
  calm_upload =
      stream_upload calm_session calm_env (in_order out_of_order) size (λ s. none) d target

  abbrev reader : List B → Body B Err
  reader = sound_body out_of_order size

  abbrev one_attempt : Server B Err × Body B Err → Answer Err String × (Server B Err × Body B Err)
  one_attempt =
      attempt_upload calm_session calm_env (in_order out_of_order) size (λ s. none) d target

  -- The server after an upload of these bytes to the path.
  abbrev pub storing : String → List B → Server B Err
  storing p bytes = server out_of_order size bytes true (some (p, bytes)) []

  attempt-sent :
      (p : String) (s : Server B Err) (bytes : List B)
      → resolve_upload_path d target ≡ upload_to p
      → 1 ≤ size
      → s.refusals ≡ []
      → one_attempt (s, reader bytes) ≡ (ok "id:stored", (storing p bytes, reader []))
  attempt-sent p s bytes h one taken =
      rw (h, with_path, upload_session-sent out_of_order size p bytes s one taken) refl

  attempt-refused :
      (p : String) (s : Server B Err) (bytes : List B) (e : Err)
      → resolve_upload_path d target ≡ upload_to p
      → 1 ≤ size
      → 1 ≤ length bytes
      → s.refusals ≡ none ∷ some e ∷ []
      → one_attempt (s, reader bytes)
        ≡ (err e, (server out_of_order size [] false s.stored [], reader (drop size bytes)))
  attempt-refused p s bytes e h one some_bytes refuses =
      rw (h, with_path, upload_session-refused out_of_order size p bytes s e one some_bytes refuses)
        refl

  -- The writer after each of these pieces has been written to it.
  abbrev pub write_all : List (List B) → DropboxWriter B → DropboxWriter B
  write_all [] w = w
  write_all (p ∷ ps) w = write_all ps (write p w).1

  abbrev pub concat : List (List B) → List B
  concat [] = []
  concat (p ∷ ps) = p ++ concat ps

  abbrev streaming : List B → DropboxWriter B
  streaming piped = record (open_write target) { upload_started = true; piped = piped }

  write_all-piped :
      (ps : List (List B)) (piped : List B)
      → write_all ps (streaming piped) ≡ streaming (piped ++ concat ps)
  unfolding write
  write_all-piped [] piped = ap streaming (sym (append-nil piped))
  write_all-piped (p ∷ ps) piped =
      write_all-piped ps (piped ++ p) ∙ ap streaming (append_assoc piped p (concat ps))

  streamed :
      (p : String) (s : Server B Err) (bytes : List B)
      → resolve_upload_path d target ≡ upload_to p
      → 1 ≤ size
      → s.refusals ≡ []
      → calm_upload (s, reader bytes) ≡ (ok "id:stored", (storing p bytes, reader []))
  unfolding stream_upload dropbox_provider
  streamed p s bytes h one taken =
      retried-success dropbox_provider (session_beside dropbox_provider calm_session (Body B Err))
        (env_with calm_env) (operation_of target) "" "id:stored" one_attempt (s, reader bytes)
        (storing p bytes, reader []) refl (attempt-sent p s bytes h one taken)

  emptied :
      (p : String) (s : Server B Err)
      → resolve_upload_path d target ≡ upload_to p
      → s.refusals ≡ []
      → upload_empty calm_session calm_env (in_order out_of_order) size (λ s. none) d target s
        ≡ (ok "id:stored", record s { stored = some (p, []); refusals = [] })
  unfolding upload_empty dropbox_provider
  emptied p s h taken =
      let api = in_order out_of_order in
      let call =
        with_path calm_session calm_env api size (λ s. none) (λ s. none) d target
          (λ p. api.upload p []) in
      retried-success dropbox_provider calm_session calm_env (operation_of target) "" "id:stored"
        call s (record s { stored = some (p, []); refusals = [] }) refl
        (rw (h, with_path, taken) refl)

  abbrev pub calm_close :
      DropboxWriter B → Server B Err → Option WriterError × (DropboxWriter B × Server B Err)
  calm_close = close calm_session calm_env (in_order out_of_order) size (λ s. none) d

  -- Any pieces that are written, one after the other, to a writer that has been opened for a path,
  -- and then Close, on a server that refuses no call: Close succeeds, the writer has the id of the
  -- stored file, and what is stored under the path is the pieces joined. With no piece at all it is
  -- the empty file.
  pub close-stores :
      (p : String) (s : Server B Err) (ps : List (List B))
      → resolve_upload_path d target ≡ upload_to p
      → 1 ≤ size
      → s.refusals ≡ []
      → let (r, (w, s')) = calm_close (write_all ps (open_write target)) s in
        (r ≡ none) × (w.committed_id ≡ "id:stored") × (s'.stored ≡ some (p, concat ps))
  unfolding close write
  close-stores p s [] h one taken = rw (emptied p s h taken) (refl, refl, refl)
  close-stores p s (q ∷ ps) h one taken =
      rw (write_all-piped ps q, streamed p s (q ++ concat ps) h one taken) (refl, refl, refl)

  -- A stream of at least one byte, to a server that takes the start of the session, refuses the
  -- first append with an error of an expired token, and refuses nothing after that; the token is
  -- refreshed, and no error interrupts the reader. The upload succeeds, and stores the bytes
  -- without the first chunk.
  pub stream_upload-truncates :
      (p : String) (s : Server B Err) (bytes : List B) (e : Err)
      → resolve_upload_path d target ≡ upload_to p
      → 1 ≤ size
      → 1 ≤ length bytes
      → s.refusals ≡ none ∷ some e ∷ []
      → is_auth_failure (λ (api : ApiError). api.status) e ≡ true
      → calm_upload (s, sound_body out_of_order size bytes)
        ≡ (ok "id:stored", (storing p (drop size bytes), sound_body out_of_order size []))
  unfolding stream_upload dropbox_provider
  stream_upload-truncates p s bytes e h one some_bytes refuses auth =
      let between = server out_of_order size [] false s.stored [] in
      let left = reader (drop size bytes) in
      retried-refreshed dropbox_provider (session_beside dropbox_provider calm_session (Body B Err))
        (env_with calm_env) (operation_of target) "" "id:stored" one_attempt (s, reader bytes)
        (between, left) (between, left) (storing p (drop size bytes), reader []) e refl
        (attempt-refused p s bytes e h one some_bytes refuses) auth refl refl
        (attempt-sent p between (drop size bytes) h one refl)
