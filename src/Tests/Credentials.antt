-- ===== src/Tests/Credentials.antt =====
-- The retry loop at a concrete world: the number of calls, with an operation that always fails.
use sylos_fs.Base.{
  ℕ, ◌+◌, ◌*◌, ◌≤◌, pos, false, true, Option, none, some, ◌≡◌, ◌≢◌, refl, ap, arith,
}
use sylos_fs.Types.ErrorClass.{FsErrorBucket, FsErrorClassification}
use sylos_fs.Credentials.Retry.{Env, RetryConfig, exceeded, classified_retry}
use sylos_fs.Credentials.ClassifiedRetry.{
  ClassifiedRetryConfig, with_defaults, run_classify, do_with_classified_retry,
}
use sylos_fs.Credentials.ClassifiedRetry.Answers.{do_with_classified_retry-ne-exceeded}
use sylos_fs.Credentials.ClassifiedRetry.Costs.{Metered, do_with_classified_retry-le}
use sylos_fs.Credentials.ClassifiedRetry.Origin.{Justified, do_with_classified_retry-Justified}
use sylos_fs.Credentials.AuthRetry.{do_with_auth_retry}
use sylos_fs.Credentials.ClassifiedRetry.Unclassified.{
  as_classified, do_with_classified_retry-do_with_auth_retry,
}

-- The world counts the operations; an error is a number.
abbrev env : Env ℕ ℕ
env = record {
  ctx_err = λ w. none;
  op = λ w. (some 7, w + 1);
  sleep_ctx = λ d w. (none, w);
  now = λ w. 0;
  tracker = λ w. none;
  put_tracker = λ t w. w;
  is_needs_refresh = λ e. false;
}

abbrev class_in : FsErrorBucket → FsErrorClassification
class_in bucket = record { bucket = bucket; error_code = "code"; retry_after = pos 5 }

abbrev cfg : FsErrorBucket → ClassifiedRetryConfig ℕ ℕ
cfg bucket = record {
  base = record {
    refresh = none;
    is_auth_failure = none;
    is_rate_limited = none;
    max_rate_limit_waits = pos 0;
    max_rate_limit_sleep = pos 64000000000;
    default_rate_limit_sleep = pos 1250000000;
    max_iterations = pos 20;
    on_rate_limit_wait = none;
    on_rate_limit_exhausted = none;
  };
  operation = "op";
  classify = some (λ e w. (class_in bucket, w));
  worker_count = none;
  max_ambiguous_retries = pos 0;
  max_generic_retries = pos 0;
  generic_retry_sleep = pos 0;
  ambiguous_retry_sleep = pos 0;
  on_suspected_throttle = none;
}

do_with_classified_retry-ne-exceeded_example :
    (do_with_classified_retry env (cfg FsErrorBucket.retryable) 0).0
    ≢ exceeded classified_retry (pos 20)
do_with_classified_retry-ne-exceeded_example =
    do_with_classified_retry-ne-exceeded env (cfg FsErrorBucket.retryable) 0 classified_retry
      (pos 20) refl (omega arith)

-- A refresh that costs 100, tried once for the error of the operation.
abbrev refresh_base : RetryConfig ℕ ℕ
refresh_base = record (cfg FsErrorBucket.retryable).base {
  refresh = some (λ w. (none, w + 100));
  is_auth_failure = some (λ e. true);
}

abbrev refreshing : ClassifiedRetryConfig ℕ ℕ
refreshing = record (cfg FsErrorBucket.retryable) { base = refresh_base }

abbrev run_refresh : Option (ℕ → Option ℕ × ℕ) → ℕ → ℕ
run_refresh none w = w
run_refresh (some refresh) w = (refresh w).1

costly : Metered env (with_defaults env refreshing) (λ w. w) 1 100
costly = record {
  ops = λ w. omega arith;
  sleeping = λ d w. omega arith;
  refreshing = λ refresh e w. omega (arith, ap (λ c. run_refresh c w) e);
  waiting = λ d n w. omega arith;
  exhausting = λ err w. omega arith;
  suspecting = λ class n w. omega arith;
  tracking = λ t w. omega arith;
  classifying = λ classify e err w. omega (arith, ap (λ c. (run_classify env c err w).1) e);
}

do_with_classified_retry-le_example :
    (do_with_classified_retry env refreshing 0).1 ≤ 0 + 1 * 20 + 100
do_with_classified_retry-le_example =
    do_with_classified_retry-le env refreshing (λ w. w) 1 100 0 costly

do_with_classified_retry-Justified_example :
    Justified env
      (with_defaults env (cfg FsErrorBucket.retryable))
      (do_with_classified_retry env (cfg FsErrorBucket.retryable) 0).0
      (do_with_classified_retry env (cfg FsErrorBucket.retryable) 0).1
do_with_classified_retry-Justified_example =
    do_with_classified_retry-Justified env (cfg FsErrorBucket.retryable) 0

-- Each error is a rate limit, of which three are waited for.
abbrev limited_base : RetryConfig ℕ ℕ
limited_base = record (cfg FsErrorBucket.fatal).base {
  is_rate_limited = some (λ e. some (pos e));
  max_rate_limit_waits = pos 3;
}

abbrev unclassified : ClassifiedRetryConfig ℕ ℕ
unclassified = record (cfg FsErrorBucket.fatal) { base = limited_base; classify = none }

do_with_classified_retry-do_with_auth_retry_example :
    do_with_classified_retry env unclassified 0
    ≡ as_classified (do_with_auth_retry env unclassified.base 0)
do_with_classified_retry-do_with_auth_retry_example =
    do_with_classified_retry-do_with_auth_retry env unclassified 0 refl refl
