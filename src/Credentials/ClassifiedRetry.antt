-- ===== src/Credentials/ClassifiedRetry.antt =====
-- pkg/credentials/classified_retry.go: DoWithClassifiedRetry, over the loop of Credentials/Retry.
pub mod First
pub mod Refreshed
pub mod Unclassified
pub mod Rounds
pub mod Answers
pub mod Costs
pub mod Origin
use sylos_fs.Base.{
  ℕ, zero, suc, ◌+◌, ℤ, pos, negsuc, pos_part, ltb_ℤ, leb_ℤ, String, Bool, true, false, Option,
  none, some, if◌then◌else◌,
}
use sylos_fs.Types.ErrorClass.{FsErrorBucket, FsErrorClassification}
use sylos_fs.Types.Ambiguous.{AmbiguousErrorTracker, record_hit, suspected_throttle}
use sylos_fs.Credentials.Retry.{
  Env, RetryConfig, Outcome, returns, Waits, no_waits, Next, stop, again, positive_or,
  normalize_retry_config, notify_wait, after_sleep, rate_limited, throttled, refresh_or, auth_test,
  retry_loop,
}

pub record ClassifiedRetryConfig (E W : Type 0) : Type 0 where
  pub base : RetryConfig E W
  pub operation : String
  pub classify : Option (E → W → FsErrorClassification × W)
  pub worker_count : Option (W → ℤ)
  pub max_ambiguous_retries : ℤ
  pub max_generic_retries : ℤ
  pub generic_retry_sleep : ℤ
  pub ambiguous_retry_sleep : ℤ
  pub on_suspected_throttle : Option (FsErrorClassification → ℕ → W → W)

abbrev pub is_fatal : Option FsErrorClassification → Bool
is_fatal none = false
is_fatal (some class) = elim class.bucket [ FsErrorBucket.fatal ↦ true | _ ↦ false ]

module _ {E W : Type 0} (env : Env E W) where
  -- The defaults of the two configurations.
  abbrev pub with_defaults : ClassifiedRetryConfig E W → ClassifiedRetryConfig E W
  with_defaults cfg = record cfg {
    base = normalize_retry_config env cfg.base;
    max_ambiguous_retries = positive_or cfg.max_ambiguous_retries (pos 6);
    max_generic_retries = positive_or cfg.max_generic_retries (pos 3);
    generic_retry_sleep = positive_or cfg.generic_retry_sleep (pos 50000000);
    ambiguous_retry_sleep = positive_or cfg.ambiguous_retry_sleep (pos 100000000);
  }

  -- classifyAsThrottle: the RetryAfter of a throttle, by the class or by IsRateLimited.
  abbrev pub classify_as_throttle : RetryConfig E W → Option FsErrorClassification → E → Option ℤ
  classify_as_throttle base none err = rate_limited env base err
  classify_as_throttle base (some class) err = elim class.bucket [
    | FsErrorBucket.throttle ↦ some class.retry_after
    | _ ↦ rate_limited env base err
  ]

  abbrev pub notify_suspected : ClassifiedRetryConfig E W → FsErrorClassification → ℕ → W → W
  notify_suspected cfg class attempt w = elim cfg.on_suspected_throttle [
    | none ↦ w
    | some hook ↦ hook class attempt w
  ]

  abbrev pub workers : ClassifiedRetryConfig E W → W → ℤ
  workers cfg w = elim cfg.worker_count [ none ↦ pos 0 | some count ↦ count w ]

  -- The sleep of a promoted ambiguous error.
  abbrev pub promoted_sleep : RetryConfig E W → ℤ
  promoted_sleep base =
      if ltb_ℤ base.max_rate_limit_sleep base.default_rate_limit_sleep
      then base.max_rate_limit_sleep
      else base.default_rate_limit_sleep

  abbrev pub ambiguous_slept : Waits → Option E × W → Next E W
  ambiguous_slept s = after_sleep env (record s { ambiguous_waits = s.ambiguous_waits + 1 })

  abbrev pub promoted : ClassifiedRetryConfig E W → FsErrorClassification → Waits → W → Next E W
  promoted cfg class s w =
      let told = notify_suspected cfg class (s.ambiguous_waits + 1) w in
      ambiguous_slept s (
        env.sleep_ctx (promoted_sleep cfg.base)
          (notify_wait env cfg.base (promoted_sleep cfg.base) 1 told))

  abbrev pub neutral : ClassifiedRetryConfig E W → Waits → W → Next E W
  neutral cfg s w = ambiguous_slept s (env.sleep_ctx cfg.ambiguous_retry_sleep w)

  -- The ambiguous bucket: recorded in the tracker, and promoted if the tracker suspects a throttle.
  pub ambiguous_failed :
      ClassifiedRetryConfig E W → FsErrorClassification → Waits → E → W → Next E W
  ambiguous_failed cfg class s err w =
      if leb_ℤ cfg.max_ambiguous_retries (pos s.ambiguous_waits)
      then stop (returns (some err)) w
      else elim (env.tracker w) [
        | none ↦ neutral cfg s w
        | some t ↦
            let now = env.now w in
            let t' = record_hit now cfg.operation class.error_code (workers cfg w) now (some t) in
            let w' = env.put_tracker t' w in
            if suspected_throttle cfg.operation class.error_code t'
            then promoted cfg class s w'
            else neutral cfg s w'
      ]

  -- The retryable bucket.
  pub generic_failed : ClassifiedRetryConfig E W → Waits → E → W → Next E W
  generic_failed cfg s err w =
      if leb_ℤ cfg.max_generic_retries (pos s.generic_waits)
      then stop (returns (some err)) w
      else after_sleep env (record s { generic_waits = s.generic_waits + 1 })
          (env.sleep_ctx cfg.generic_retry_sleep w)

  pub by_bucket :
      ClassifiedRetryConfig E W → Option FsErrorClassification → Waits → E → W → Next E W
  unfolding ambiguous_failed generic_failed
  by_bucket cfg none s err w = stop (returns (some err)) w
  by_bucket cfg (some class) s err w = elim class.bucket [
    | FsErrorBucket.ambiguous ↦ ambiguous_failed cfg class s err w
    | FsErrorBucket.retryable ↦ generic_failed cfg s err w
    | _ ↦ stop (returns (some err)) w
  ]

  -- What follows a classification: fatal, throttle, or one of the bounded retries.
  pub dispatch : ClassifiedRetryConfig E W → Option FsErrorClassification → Waits → E → W → Next E W
  unfolding by_bucket throttled
  dispatch cfg class s err w =
      if is_fatal class
      then stop (returns (some err)) w
      else elim (classify_as_throttle cfg.base class err) [
        | some d ↦ throttled env cfg.base d s err w
        | none ↦ by_bucket cfg class (record s { rate_waits = 0 }) err w
      ]

  -- `hasClass` and `class`, and the world after the classifier has run.
  abbrev pub run_classify :
      Option (E → W → FsErrorClassification × W) → E → W → Option FsErrorClassification × W
  run_classify none err w = (none, w)
  run_classify (some classify) err w = let (class, w') = classify err w in (some class, w')

  pub classified : ClassifiedRetryConfig E W → Waits → E → W → Next E W
  unfolding dispatch
  classified cfg s err w =
      let (class, w') = run_classify cfg.classify err w in dispatch cfg class s err w'

  -- A failed operation: the auth refresh comes before the buckets.
  pub classified_failed : ClassifiedRetryConfig E W → Waits → E → W → Next E W
  unfolding classified refresh_or
  classified_failed cfg s err w =
      refresh_or env cfg.base.refresh (auth_test env cfg.base) s err w (classified cfg s err w)

  unfoldable pub do_with_classified_retry : ClassifiedRetryConfig E W → W → Outcome E × W
  unfolding classified_failed retry_loop
  do_with_classified_retry cfg w =
      let cfg' = with_defaults cfg in
      let max = cfg'.base.max_iterations in
      retry_loop env max (classified_failed cfg') (pos_part max) no_waits w
