-- ===== src/Tests/Adapters.antt =====
-- The classifiers, the throttled call, the local errors and the upload writer at concrete inputs.
use sylos_fs.Base.{
  ◌+◌, inr, ℕ, ◌%◌, pos, [], ◌∷◌, true, false, Option, none, some, ◌≡◌, refl, arith,
}
use sylos_fs.Types.Degradation.{FsDegradationState, new_fs_degradation_state, record_signal}
use sylos_fs.Credentials.Retry.{Env, returns}
use sylos_fs.Adapters.Classify.{ApiError, FsError, is_auth_failure}
use sylos_fs.Adapters.Classify.Box.{classify as classify_box}
use sylos_fs.Adapters.Calls.{Session, with_classified_retry}
use sylos_fs.Adapters.Calls.Providers.{box_provider}
use sylos_fs.Adapters.Calls.Throttled.{streak_of, scheduled_signal, with_classified_retry-throttled}
use sylos_fs.Adapters.Errno.{Errno, LocalError}
use sylos_fs.Adapters.Timeouts.{Calls, do_if}
use sylos_fs.Adapters.Timeouts.Attempts.{Explained, do_if-Explained}
use sylos_fs.Adapters.GraphWriter.{Limits, new_writer, upload}
use sylos_fs.Adapters.GraphWriter.Stream.{Upload, in_order, Multiple}
use sylos_fs.Adapters.GraphWriter.Closing.{upload-Stored}
use sylos_fs.Adapters.GraphWriter.Whole.{upload_whole}

abbrev answered : ℕ → FsError ApiError
answered status = record {
  needs_refresh = false;
  api = some (record { status = status; code = ""; retry_after = pos 0 });
  message = "answered";
}

-- A world that is a degradation state.
abbrev session : Session ApiError (Option FsDegradationState)
session = record {
  degradation = λ w. w;
  put_degradation = λ d w. d;
  clear_access_token = λ w. w;
  refresh_access_token = λ w. (none, w);
  active_workers = λ w. pos 1;
}

abbrev throttling : Env (FsError ApiError) (Option FsDegradationState)
throttling = record {
  ctx_err = λ w. none;
  op = λ w. (some (answered 429), w);
  sleep_ctx = λ d w. (none, w);
  now = λ w. 1000;
  tracker = λ w. none;
  put_tracker = λ t w. w;
  is_needs_refresh = λ e. e.needs_refresh;
}

abbrev idle : Option FsDegradationState
idle = some new_fs_degradation_state

with_classified_retry-throttled_example :
    ((with_classified_retry box_provider session throttling "UploadFile" idle).0
      ≡ returns (some (answered 429)))
    × ((v : Option FsDegradationState) × ((with_classified_retry box_provider session throttling
            "UploadFile" idle).1
          ≡ record_signal 1000
              (scheduled_signal 2 "UploadFile" 1000)
              (some (streak_of new_fs_degradation_state 2))))
unfolding box_provider classify_box is_auth_failure
with_classified_retry-throttled_example =
    with_classified_retry-throttled box_provider session throttling "UploadFile" (answered 429)
      (record { status = 429; code = ""; retry_after = pos 0 }) new_fs_degradation_state idle idle
      (λ d w. refl) refl refl refl refl refl refl refl

abbrev wrapping : Errno → LocalError
wrapping e = record {
  path_blocked = false;
  errno = some e;
  is_not_exist = false;
  is_permission = false;
}

abbrev small : Limits
small = record { upload_chunk_size = 3; simple_upload_max_bytes = 2 }

abbrev nothing_sent : Upload ℕ
nothing_sent = record { received = []; stored = none }

thirds : (n : ℕ) → Multiple 3 n → n % 3 ≡ 0
thirds _ Multiple.nothing = refl
thirds _ (Multiple.more n m) = omega (arith, thirds n m)

four_uneven : Multiple 3 4 → ⊥
four_uneven m = let e = thirds 4 m in absurd (omega arith)

upload-Stored_example :
    let (r, (w, u)) =
      upload small in_order
        ((1 ∷ 2 ∷ []) ∷ (3 ∷ 4 ∷ []) ∷ [])
        (new_writer small none)
        nothing_sent in
    (r ≡ none) × (u.stored ≡ some (1 ∷ 2 ∷ 3 ∷ 4 ∷ []))
upload-Stored_example = upload-Stored small ((1 ∷ 2 ∷ []) ∷ (3 ∷ 4 ∷ []) ∷ []) four_uneven

upload_whole_example :
    let (r, (w, u)) =
      upload small in_order ((1 ∷ 2 ∷ 3 ∷ []) ∷ []) (new_writer small none) nothing_sent in
    (r ≡ none) × (u.received ≡ 1 ∷ 2 ∷ 3 ∷ []) × (u.stored ≡ none)
upload_whole_example = upload_whole small (1 ∷ 2 ∷ 3 ∷ []) refl (omega arith)

-- Every call fails with an error that is worth another attempt; the world counts the calls.
abbrev failing : Calls ℕ ℕ ℕ
failing = record { ctx_err = λ w. none; fn = λ timeout w. (inr 5, w + 1); transient = λ w e. true }

do_if-Explained_example : Explained failing 60 3 0 (do_if failing 60 (pos 3) 0)
do_if-Explained_example = do_if-Explained failing 60 (pos 3) 0
