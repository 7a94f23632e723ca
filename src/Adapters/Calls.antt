-- ===== src/Adapters/Calls.antt =====
-- withClassifiedRetry of pkg/fs/box, dropbox and googledrive (classify.go), which are the same code but
-- for the classifier and Google Drive's tracker: the waits that throttled errors get, the signals they
-- leave in the session's degradation state, and the retry that every call runs in. The session's
-- degradation state is a part of the world W.
pub mod Throttled
pub mod Providers
pub mod Results
pub mod Piped
use sylos_fs.Base.{
  ℕ, ◌+◌, ℤ, pos, negsuc, ltb_ℤ, String, Bool, true, false, ◌||◌, Option, none, some, ◌==◌,
  if◌then◌else◌,
}
use sylos_fs.Types.ErrorClass.{FsErrorBucket, FsErrorClassification}
use sylos_fs.Types.Degradation.{
  FsDegradationKind, FsDegradationSignal, FsDegradationState, second, throttle_backoff_jitter,
  max_throttle_backoff, record_signal, schedule_throttle_backoff, clear_throttle_streak,
}
use sylos_fs.Types.Ambiguous.{AmbiguousErrorTracker}
use sylos_fs.Credentials.Retry.{Env, RetryConfig, Outcome}
use sylos_fs.Credentials.ClassifiedRetry.{ClassifiedRetryConfig, do_with_classified_retry}
use sylos_fs.Adapters.Classify.{FsError, is_auth_failure}

-- What differs between the three: the classifier, the status and the Retry-After of an API error, and
-- whether the session's tracker is handed to the retry.
pub record Provider (A : Type 0) : Type 0 where
  pub classify : Option (FsError A) → FsErrorClassification
  pub status : A → ℕ
  pub api_retry_after : A → ℤ
  pub tracked : Bool

pub record Session (A W : Type 0) : Type 0 where
  pub degradation : W → Option FsDegradationState
  pub put_degradation : Option FsDegradationState → W → W
  pub clear_access_token : W → W
  pub refresh_access_token : W → Option (FsError A) × W
  pub active_workers : W → ℤ

module _ {A W : Type 0} (p : Provider A) (session : Session A W) where
  -- throttleBackoff: Retry-After if the API error has one, else the degradation state's schedule.
  abbrev pub retry_after_of : Option A → ℤ
  retry_after_of none = pos 0
  retry_after_of (some api) = p.api_retry_after api

  abbrev pub scheduled : ℕ × Option FsDegradationState → W → ℤ × W
  scheduled (wait, d) w = (pos wait, session.put_degradation d w)

  abbrev pub throttle_backoff : Option A → W → ℤ × W
  throttle_backoff api w = elim (retry_after_of api) [
    | pos n ↦
        if n == 0
        then scheduled (schedule_throttle_backoff (session.degradation w)) w
        else (pos (n + throttle_backoff_jitter), w)
    | negsuc n ↦ scheduled (schedule_throttle_backoff (session.degradation w)) w
  ]

  abbrev pub with_wait : FsErrorClassification → ℤ × W → FsErrorClassification × W
  with_wait class (wait, w) = (record class { retry_after = wait }, w)

  -- classifyError
  pub classify_error : FsError A → W → FsErrorClassification × W
  unfolding schedule_throttle_backoff
  classify_error err w =
      let class = p.classify (some err) in
      elim class.bucket [
        | FsErrorBucket.throttle ↦ elim err.api [
          | some api ↦ with_wait class (throttle_backoff (some api) w)
          | none ↦
              if ltb_ℤ (pos 0) class.retry_after
              then (class, w)
              else with_wait class (throttle_backoff none w)
        ]
        | _ ↦ (class, w)
      ]

  -- recordDegradation
  unfoldable pub record_degradation : FsDegradationKind → String → ℤ → ℕ → W → W
  unfolding record_signal
  record_degradation kind operation wait now w = elim (session.degradation w) [
    | none ↦ w
    | some d ↦
        session.put_degradation
          (record_signal now
            (record { kind = kind; retry_after = wait; operation = operation; at = now }) (some d))
          w
  ]

  abbrev pub exhausted_wait : FsError A → W → ℤ × W
  exhausted_wait err w = elim err.api [
    | none ↦ (pos (second + throttle_backoff_jitter), w)
    | some api ↦ throttle_backoff (some api) w
  ]

  -- OnRateLimitExhausted
  pub on_exhausted : (W → ℕ) → String → FsError A → W → W
  unfolding record_degradation schedule_throttle_backoff
  on_exhausted clock operation err w =
      let (wait, w') = exhausted_wait err w in
      record_degradation FsDegradationKind.rate_limit operation wait (clock w') w'

  unfoldable pub config : (W → ℕ) → String → ClassifiedRetryConfig (FsError A) W
  unfolding classify_error on_exhausted record_degradation is_auth_failure
  config clock operation = record {
    base = record {
      refresh = some (λ w. session.refresh_access_token (session.clear_access_token w));
      is_auth_failure = some (is_auth_failure p.status);
      is_rate_limited = none;
      max_rate_limit_waits = pos 0;
      max_rate_limit_sleep = pos max_throttle_backoff;
      default_rate_limit_sleep = pos (second + throttle_backoff_jitter);
      max_iterations = pos 8;
      on_rate_limit_wait = some (λ wait attempt w.
          record_degradation FsDegradationKind.rate_limit operation wait (clock w) w);
      on_rate_limit_exhausted = some (on_exhausted clock operation);
    };
    operation = operation;
    classify = some classify_error;
    worker_count = some session.active_workers;
    max_ambiguous_retries = pos 0;
    max_generic_retries = pos 0;
    generic_retry_sleep = pos 0;
    ambiguous_retry_sleep = pos 0;
    on_suspected_throttle =
        if p.tracked
        then some (λ class attempt w.
          record_degradation FsDegradationKind.suspected_rate_limit operation (pos 250000000)
            (clock w) w)
        else none;
  }

  abbrev pub clear_streak : W → W
  clear_streak w = elim (session.degradation w) [
    | none ↦ w
    | some d ↦ session.put_degradation (clear_throttle_streak (some d)) w
  ]

  -- The operation, with the streak cleared after a success.
  abbrev pub after_call : Option (FsError A) × W → Option (FsError A) × W
  after_call (none, w) = (none, clear_streak w)
  after_call (some err, w) = (some err, w)

  abbrev pub call_env : Env (FsError A) W → Env (FsError A) W
  call_env env = record env {
    op = λ w. after_call (env.op w);
    tracker = if p.tracked then env.tracker else λ w. none;
  }

  -- withClassifiedRetry
  unfoldable pub with_classified_retry : Env (FsError A) W → String → W → Outcome (FsError A) × W
  unfolding config
  with_classified_retry env operation w =
      do_with_classified_retry (call_env env) (config env.now operation) w
