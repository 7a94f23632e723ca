-- ===== src/Adapters/Box/Writer/Closed.antt =====
-- What Close of pkg/fs/box/transfer.go has stored.
use sylos_fs.Base.{
  ℕ, ◌<◌, ℤ, pos, negsuc, String, List, [], ◌∷◌, ◌++◌, true, false, Option, none, some, Answer, ok,
  err, Call, leb, ◌≡◌, refl, sym, ap, ◌∙◌, arith, Option-cases, inl, inr,
}
use sylos_fs.Credentials.Retry.{Env, Outcome}
use sylos_fs.Adapters.Streams.{Body}
use sylos_fs.Adapters.Classify.{ApiError}
use sylos_fs.Adapters.Calls.{Session, clear_streak}
use sylos_fs.Adapters.Calls.Results.{retried-Obtained, retried-success, session_beside}
use sylos_fs.Adapters.Calls.Piped.{swapped, env_with}
use sylos_fs.Adapters.Calls.Providers.{box_provider}
use sylos_fs.Adapters.Dropbox.Batch.{Err}
use sylos_fs.Adapters.PendingFiles.{parse_sized_pending_file_id}
use sylos_fs.Adapters.Box.{Destination, version_of, Client, stream_chunked}
use sylos_fs.Adapters.Box.Sent.{Committed, stream_chunked-Committed}
use sylos_fs.Adapters.Box.Writer.{
  BoxWriter, size_required, size_required_overwrite, new_box_writer, writer_of, destination_to,
  open_write_with_size, write, attempt_upload, stream_upload, attempt_empty, upload_empty,
  closed_with, without_body, close, operation_of,
}

-- The destination of a writer for this id.
abbrev pub destination_of : String → Destination
destination_of file_id = destination_to file_id (parse_sized_pending_file_id file_id)

module _ {B W : Type 0} (session : Session ApiError W) (env : Env Err W) (client : Client B Err W)
    (api_client : W → Option Err) (limit : ℕ) where
  swapped-ok :
      {A R : Type 0} (call : Call (A × W) Err R) (u v : W) (body after : A) (r : R)
      → swapped call (u, body) ≡ (ok r, (v, after))
      → call (body, u) ≡ (ok r, (after, v))
  swapped-ok call u v body after r h = ap (λ q. (q.0, (q.1.1, q.1.0))) h

  clear_streak-beside :
      (v : W × Body B Err)
      → (clear_streak box_provider (session_beside box_provider session (Body B Err)) v).0
        ≡ clear_streak box_provider session v.0
  clear_streak-beside v = elim (Option-cases (session.degradation v.0)) [
    | inl none_there ↦ rw (clear_streak, none_there) refl
    | inr (d, there) ↦ rw (clear_streak, there) refl
  ]

  closed_with-ok :
      (w x : BoxWriter B) (r : Answer (Outcome Err) (Unit {0}) × W) (y : W)
      → closed_with session env client api_client limit w r ≡ (none, (x, y))
      → r ≡ (ok tt, y)
  closed_with-ok w x (ok r, v) y h = cc h
  closed_with-ok w x (err e, v) y h = absurd (cc h)

  attempt-Committed :
      (destination : Destination) (size : ℕ) (u v : W) (body after : Body B Err)
      → limit < size
      → attempt_upload session env client api_client limit destination size (u, body)
        ≡ (ok tt, (v, after))
      → Committed client destination size body after u v
  attempt-Committed destination size u v body after large h =
      let chunked : leb size limit ≡ false = ground arith in
      elim (Option-cases (api_client u)) [
        | inl there ↦ stream_chunked-Committed client destination size body after u v (
            swapped-ok (stream_chunked client destination size) u v body after tt
              (rw (attempt_upload, there, chunked) at h))
        | inr (e, missing) ↦ absurd (cc (rw (attempt_upload, missing) at h))
      ]

  open_existing :
      (file_id : String)
      → parse_sized_pending_file_id file_id ≡ none
      → open_write_with_size {B = B} file_id (negsuc 0) ≡ writer_of file_id none
  unfolding new_box_writer open_write_with_size
  open_existing file_id h = ap (writer_of file_id) h

  -- A writer that no Write has reached, and one whose upload has been started.
  abbrev fresh : Destination → ℤ → BoxWriter B
  fresh destination size = record {
    destination = destination;
    size = size;
    closed = false;
    upload_started = false;
    piped = [];
  }

  abbrev streaming : Destination → ℕ → List B → BoxWriter B
  streaming destination size piped = record {
    destination = destination;
    size = pos size;
    closed = false;
    upload_started = true;
    piped = piped;
  }

  -- The writer after each of these pieces has been written to it.
  abbrev pub write_all : List (List B) → BoxWriter B → BoxWriter B
  write_all [] w = w
  write_all (p ∷ ps) w = write_all ps (write p w).1

  write_all-streaming :
      (ps : List (List B)) (destination : Destination) (size : ℕ) (piped : List B)
      → (bytes : List B) × (write_all ps (streaming destination size piped)
          ≡ streaming destination size bytes)
  unfolding write
  write_all-streaming [] destination size piped = (piped, refl)
  write_all-streaming (p ∷ ps) destination size piped =
      write_all-streaming ps destination size (piped ++ p)

  open_write-fresh :
      (file_id : String) (size : ℕ)
      → open_write_with_size file_id (pos size) ≡ fresh (destination_of file_id) (pos size)
  unfolding open_write_with_size new_box_writer
  open_write-fresh file_id size = refl

  streaming-Committed :
      (destination : Destination) (size : ℕ) (piped : List B) (x : BoxWriter B) (v y : W)
      → limit < size
      → close session env client api_client limit (streaming destination size piped) v
        ≡ (none, (x, y))
      → (u : W) × (z : W) × (body : Body B Err) × (after : Body B Err) × Committed client
          destination size body after u z
        × (y ≡ clear_streak box_provider session z)
  unfolding close stream_upload
  streaming-Committed destination size piped x v y large h =
      let call = attempt_upload session env client api_client limit destination size in
      let reader : Body B Err = record { bytes = piped; broken = none } in
      let s = stream_upload session env client api_client limit destination size (v, reader) in
      let closing =
        closed_with-ok (streaming destination size piped) x
          (without_body session env client api_client limit s) y h in
      let good : s ≡ (ok tt, s.1) = ap (λ r. (r.0, s.1)) closing in
      let (u, z, worked, cleared) =
        retried-Obtained box_provider (session_beside box_provider session (Body B Err))
          (env_with env) (operation_of destination) tt call (v, reader) s.1 tt good in
      (
        u.0,
        z.0,
        u.1,
        z.1,
        attempt-Committed destination size u.0 z.0 u.1 z.1 large worked,
        sym (ap (λ r. r.1) closing) ∙ ap (λ q. q.0) cleared ∙ clear_streak-beside z,
      )

  -- A writer of a declared size above the limit of simple uploads, and at least one Write. When
  -- Close returns no error, an attempt has sent exactly the declared number of bytes to a session
  -- of the writer's destination and has committed them, and after it only the throttle streak has
  -- been cleared.
  pub close-Committed :
      (file_id : String) (size : ℕ) (p : List B) (ps : List (List B)) (x : BoxWriter B) (v y : W)
      → limit < size
      → close session env client api_client limit
          (write_all (p ∷ ps) (open_write_with_size file_id (pos size)))
          v
        ≡ (none, (x, y))
      → (u : W) × (z : W) × (body : Body B Err) × (after : Body B Err) × Committed client
          (destination_of file_id)
          size
          body
          after
          u
          z
        × (y ≡ clear_streak box_provider session z)
  unfolding write
  close-Committed file_id size p ps x v y large h =
      let (bytes, e) = write_all-streaming ps (destination_of file_id) size p in
      let written : write_all (p ∷ ps) (open_write_with_size file_id (pos size))
          ≡ streaming (destination_of file_id) size bytes =
        ap (write_all (p ∷ ps)) (open_write-fresh file_id size) ∙ e in
      streaming-Committed (destination_of file_id) size bytes x v y large
        (ap (λ w. close session env client api_client limit w v) (sym written) ∙ h)

  fresh-emptied :
      (destination : Destination) (p : List B) (v y : W) (left : Body B Err)
      → env.ctx_err v ≡ none
      → api_client v ≡ none
      → client.upload_file destination 0 (v, record { bytes = []; broken = none })
        ≡ (ok tt, (y, left))
      → let w = fresh destination (negsuc 0) in
        (write p w ≡ (some (size_required destination), w))
        × (close session env client api_client limit w v
            ≡ (none, (record w { closed = true }, clear_streak box_provider session y)))
  unfolding close write upload_empty
  fresh-emptied destination p v y left live there taken =
      let attempt : attempt_empty session env client api_client limit destination v ≡ (ok tt, y) =
        rw (attempt_empty, there, taken) refl in
      let emptied =
        retried-success box_provider session env (operation_of destination) tt tt
          (attempt_empty session env client api_client limit destination) v y live attempt in
      (refl, rw emptied refl)

  -- OpenWrite of an id that is not a pending file's, a Write, and Close. The Write is refused,
  -- since the size is not known; where the context is live, the client is there and the first
  -- attempt to upload no bytes as a version of the file succeeds, Close returns no error, and that
  -- version has been uploaded.
  pub close-empties :
      (file_id : String) (p : List B) (v y : W) (left : Body B Err)
      → parse_sized_pending_file_id file_id ≡ none
      → env.ctx_err v ≡ none
      → api_client v ≡ none
      → client.upload_file (version_of file_id) 0 (v, record { bytes = []; broken = none })
        ≡ (ok tt, (y, left))
      → let (refused, w) = write p (open_write_with_size file_id (negsuc 0)) in
        let (closing, (x, z)) = close session env client api_client limit w v in
        (refused ≡ some size_required_overwrite)
        × (closing ≡ none)
        × (z ≡ clear_streak box_provider session y)
  close-empties file_id p v y left existing live there taken =
      let (refused, closing) = fresh-emptied (version_of file_id) p v y left live there taken in
      rw (open_existing file_id existing, refused, closing) (refl, refl, refl)
