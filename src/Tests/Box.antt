-- ===== src/Tests/Box.antt =====
-- Box's pending files, sessions and writer at concrete inputs.
use sylos_fs.Base.{ℕ, ◌+◌, pos, negsuc, List, [], ◌∷◌, none, some, ok, ◌≡◌, refl, arith, length}
use sylos_fs.Base.Text.{contains_any, cut, trim_prefix}
use sylos_fs.Base.Text.Decimal.{parse_int, read_digits}
use sylos_fs.Credentials.Retry.{Env, attempt}
use sylos_fs.Credentials.ClassifiedRetry.{do_with_classified_retry}
use sylos_fs.Adapters.Calls.Results.{retried}
use sylos_fs.Adapters.Classify.{ApiError}
use sylos_fs.Adapters.Calls.{Session, clear_streak}
use sylos_fs.Adapters.Calls.Providers.{box_provider}
use sylos_fs.Adapters.Streams.{Body}
use sylos_fs.Adapters.Dropbox.Batch.{Err, errorf}
use sylos_fs.Adapters.PendingFiles.{
  pending_file_id, parse_sized_pending_file_id, parse-pending_file_id,
}
use sylos_fs.Adapters.Box.{
  UploadSession, UploadPart, new_file, version_of, Client, part_loop, part_size_of,
  abort_upload_session, stream_chunked, simple_upload_max_bytes,
}
use sylos_fs.Adapters.Box.Sent.{Committed, stream_chunked-Committed}
use sylos_fs.Adapters.Box.Sent.Refused.{Refused, stream_chunked-Refused}
use sylos_fs.Adapters.Box.Sent.Whole.{Reliable, stream_chunked-sent}
use sylos_fs.Adapters.Box.Writer.{
  BoxWriter, size_required_overwrite, open_write_with_size, write, close, new_box_writer,
  stream_upload,
}
use sylos_fs.Adapters.Box.Writer.Closed.{write_all, close-Committed, close-empties}

parse-pending_file_id_example :
    parse_sized_pending_file_id (pending_file_id "77" "a:b.txt" (negsuc 11))
    ≡ some (record { parent_id = "77"; name = "a:b.txt"; size = negsuc 11 })
unfolding contains_any
parse-pending_file_id_example =
    parse-pending_file_id "77" "a:b.txt" (negsuc 11) refl refl (omega arith)

abbrev part : ℕ → ℕ → UploadPart
part offset size = record { part_id = "p"; offset = offset; size = size; sha1 = "" }

abbrev session_of_two : UploadSession
session_of_two = record { id = "s"; part_size = pos 2; upload_part = ""; commit = "c"; abort = "a" }

-- The world counts the calls.
abbrev box : Client ℕ Err ℕ
box = record {
  create_session = λ d n w. (ok session_of_two, w + 1);
  upload_session_part = λ url chunk o n w. (ok (part o (length chunk)), w + 1);
  commit_upload_session = λ url parts digest w. (ok tt, w + 1);
  upload_file = λ d n s. (ok tt, (s.0 + 100, s.1));
  delete = λ url w. w + 1000;
  digest = λ bytes. "sha";
  path_escape = λ id. id;
  size_error = λ n m. errorf "size";
}

abbrev reader : List ℕ → Body ℕ Err
reader bytes = record { bytes = bytes; broken = none }

stream_chunked-Committed_example :
    Committed box (version_of "7") 3 (reader (1 ∷ 2 ∷ 3 ∷ 4 ∷ [])) (reader (4 ∷ [])) 0 4
unfolding stream_chunked part_loop part_size_of
stream_chunked-Committed_example =
    stream_chunked-Committed box (version_of "7") 3 (reader (1 ∷ 2 ∷ 3 ∷ 4 ∷ [])) (reader (4 ∷ []))
      0 4 refl

stream_chunked-Refused_example :
    Refused box (version_of "7") 3 (reader (1 ∷ 2 ∷ [])) (reader []) 0 1002 (errorf "size")
unfolding stream_chunked part_loop part_size_of abort_upload_session
stream_chunked-Refused_example =
    stream_chunked-Refused box (version_of "7") 3 (reader (1 ∷ 2 ∷ [])) (reader []) 0 1002
      (errorf "size") refl

abbrev reliable : Reliable box
reliable = record {
  creates = λ d n w. (session_of_two, w + 1, refl);
  sends = λ url chunk o n w. (part o (length chunk), w + 1, refl);
  commits = λ url ps digest w. (w + 1, refl);
}

stream_chunked-sent_example :
    (after : Body ℕ Err) × (v : ℕ) × (stream_chunked box
        (version_of "7")
        3
        (reader (1 ∷ 2 ∷ 3 ∷ 4 ∷ []), 0)
      ≡ (ok tt, (after, v)))
stream_chunked-sent_example =
    stream_chunked-sent box (version_of "7") 3 (reader (1 ∷ 2 ∷ 3 ∷ 4 ∷ [])) 0 reliable
      (omega arith)

abbrev session : Session ApiError ℕ
session = record {
  degradation = λ t. none;
  put_degradation = λ d t. t;
  clear_access_token = λ t. t;
  refresh_access_token = λ t. (none, t);
  active_workers = λ t. pos 1;
}

abbrev env : Env Err ℕ
env = record {
  ctx_err = λ t. none;
  op = λ t. (none, t);
  sleep_ctx = λ d t. (none, t);
  now = λ t. t;
  tracker = λ t. none;
  put_tracker = λ k t. t;
  is_needs_refresh = λ e. e.needs_refresh;
}

abbrev writer : BoxWriter ℕ
writer =
    write_all session env box (λ w. none) 2 ((1 ∷ []) ∷ (2 ∷ 3 ∷ []) ∷ [])
      (open_write_with_size "pending:0:x:a" (pos 3))

close-Committed_example :
    (u : ℕ) × (z : ℕ) × (body : Body ℕ Err) × (after : Body ℕ Err) × Committed box
      (new_file "0" "x:a")
      3
      body
      after
      u
      z
    × (4 ≡ clear_streak box_provider session z)
unfolding parse_sized_pending_file_id cut close write open_write_with_size new_box_writer
    stream_upload retried do_with_classified_retry attempt stream_chunked part_size_of trim_prefix
    parse_int read_digits
close-Committed_example =
    close-Committed session env box (λ w. none) 2 "pending:0:x:a" 3 (1 ∷ []) ((2 ∷ 3 ∷ []) ∷ []) _ 0
      4 (omega arith) refl

close-empties_example :
    let (refused, w) = write {B = ℕ} (1 ∷ 2 ∷ []) (open_write_with_size "7" (negsuc 0)) in
    let (closing, (x, z)) = close session env box (λ w. none) simple_upload_max_bytes w 0 in
    (refused ≡ some size_required_overwrite) × (closing ≡ none) × (z ≡ 100)
unfolding parse_sized_pending_file_id
close-empties_example =
    close-empties session env box (λ w. none) simple_upload_max_bytes "7" (1 ∷ 2 ∷ []) 0 100
      (reader []) refl refl refl refl
