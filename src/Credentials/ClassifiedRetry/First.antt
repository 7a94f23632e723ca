-- ===== src/Credentials/ClassifiedRetry/First.antt =====
-- Failures that DoWithClassifiedRetry hands back from the first attempt: fatal ones, and throttled ones
-- where the configuration leaves the waiting to the caller.
use sylos_fs.Base.{
  ℕ, zero, suc, ℤ, pos, negsuc, pos_part, Bool, false, Option, none, some, ◌≡◌, refl, ap, ◌∙◌,
  arith,
}
use sylos_fs.Types.ErrorClass.{FsErrorBucket, FsErrorClassification}
use sylos_fs.Credentials.Retry.{
  Env, Outcome, returns, Waits, no_waits, Next, stop, positive_or, nonnegative_or, attempt,
  throttled, refresh_or, notify_exhausted, auth_test, retry_loop,
}
use sylos_fs.Credentials.ClassifiedRetry.{
  ClassifiedRetryConfig, with_defaults, dispatch, run_classify, classified, classified_failed,
  do_with_classified_retry,
}

module _ {E W : Type 0} (env : Env E W) where
  attempt_failed :
      (failed : Waits → E → W → Next E W) (s : Waits) (w w1 : W) (err : E)
      → env.ctx_err w ≡ none
      → env.op w ≡ (some err, w1)
      → attempt env failed s w ≡ failed s err w1
  unfolding attempt
  attempt_failed failed s w w1 err live fails = rw (live, attempt, fails)

  refresh_or-no :
      (refresh : Option (W → Option E × W)) (is_auth : E → Bool) (s : Waits) (err : E) (w : W)
      (otherwise : Next E W)
      → is_auth err ≡ false
      → refresh_or env refresh is_auth s err w otherwise ≡ otherwise
  unfolding refresh_or
  refresh_or-no none is_auth s err w otherwise h = refl
  refresh_or-no (some refresh) is_auth s err w otherwise h = rw (h, refresh_or)

  classified_failed_lem :
      (cfg : ClassifiedRetryConfig E W) (s : Waits) (err : E) (w w' : W)
      (class : FsErrorClassification)
      → auth_test env cfg.base err ≡ false
      → run_classify env cfg.classify err w ≡ (some class, w')
      → classified_failed env cfg s err w ≡ dispatch env cfg (some class) s err w'
  unfolding classified_failed classified
  classified_failed_lem cfg s err w w' class h e =
      refresh_or-no cfg.base.refresh (auth_test env cfg.base) s err w (classified env cfg s err w) h
      ∙ ap (λ q. dispatch env cfg q.0 s err q.1) e

  dispatch-fatal :
      (cfg : ClassifiedRetryConfig E W) (class : FsErrorClassification) (s : Waits) (err : E)
      (w : W)
      → class.bucket ≡ FsErrorBucket.fatal
      → dispatch env cfg (some class) s err w ≡ stop (returns (some err)) w
  unfolding dispatch
  dispatch-fatal cfg class s err w h = ground arith

  dispatch-throttle :
      (cfg : ClassifiedRetryConfig E W) (class : FsErrorClassification) (s : Waits) (err : E)
      (w : W)
      → class.bucket ≡ FsErrorBucket.throttle
      → cfg.base.max_rate_limit_waits ≡ pos 0
      → dispatch env cfg (some class) s err w
        ≡ stop (returns (some err)) (notify_exhausted env cfg.base err w)
  unfolding dispatch throttled
  dispatch-throttle cfg class s err w h z = ground arith

  positive_or_positive :
      (x : ℤ) (n : ℕ) → (k : ℕ) × (pos_part (positive_or x (pos (suc n))) ≡ suc k)
  positive_or_positive (pos zero) n = (n, refl)
  positive_or_positive (pos (suc m)) n = (m, refl)
  positive_or_positive (negsuc m) n = (n, refl)

  loop_stop :
      (max : ℤ) (failed : Waits → E → W → Next E W) (left : ℕ) (s : Waits) (w w' : W)
      (r : Outcome E)
      → attempt env failed s w ≡ stop r w'
      → retry_loop env max failed (suc left) s w ≡ (r, w')
  unfolding retry_loop
  loop_stop max failed left s w w' r e = rw (e, retry_loop)

  first_stop :
      (cfg : ClassifiedRetryConfig E W) (w w' : W) (r : Outcome E)
      → attempt env (classified_failed env (with_defaults env cfg)) no_waits w ≡ stop r w'
      → do_with_classified_retry env cfg w ≡ (r, w')
  unfolding do_with_classified_retry
  first_stop cfg w w' r e =
      let cfg' = with_defaults env cfg in
      let (k, enough) = positive_or_positive cfg.base.max_iterations 63 in
      ap
        (λ left.
          retry_loop env cfg'.base.max_iterations (classified_failed env cfg') left no_waits w)
        enough
      ∙ loop_stop cfg'.base.max_iterations (classified_failed env cfg') k no_waits w w' r e

  -- With a live context, an operation that fails with an error that is no auth failure and is classed
  -- as fatal is called once: the error comes back in the world that the classifier left, with no sleep,
  -- no refresh and no hook.
  pub first_fatal :
      (cfg : ClassifiedRetryConfig E W) (w w1 w2 : W) (err : E) (class : FsErrorClassification)
      → env.ctx_err w ≡ none
      → env.op w ≡ (some err, w1)
      → auth_test env (with_defaults env cfg).base err ≡ false
      → run_classify env cfg.classify err w1 ≡ (some class, w2)
      → class.bucket ≡ FsErrorBucket.fatal
      → do_with_classified_retry env cfg w ≡ (returns (some err), w2)
  first_fatal cfg w w1 w2 err class live fails auth classed bucket =
      let cfg' = with_defaults env cfg in
      first_stop cfg w w2 _ (
        attempt_failed (classified_failed env cfg') no_waits w w1 err live fails
        ∙ classified_failed_lem cfg' no_waits err w1 w2 class auth classed
        ∙ dispatch-fatal cfg' class no_waits err w2 bucket)

  -- With a live context and a configuration of no rate-limit waits, an operation that fails with an
  -- error that is no auth failure and is classed as a throttle is called once: the error comes back,
  -- with no sleep, after the exhausted hook has been told.
  pub first_throttle :
      (cfg : ClassifiedRetryConfig E W) (w w1 w2 : W) (err : E) (class : FsErrorClassification)
      → env.ctx_err w ≡ none
      → env.op w ≡ (some err, w1)
      → auth_test env (with_defaults env cfg).base err ≡ false
      → run_classify env cfg.classify err w1 ≡ (some class, w2)
      → class.bucket ≡ FsErrorBucket.throttle
      → cfg.base.max_rate_limit_waits ≡ pos 0
      → do_with_classified_retry env cfg w
        ≡ (returns (some err), notify_exhausted env cfg.base err w2)
  first_throttle cfg w w1 w2 err class live fails auth classed bucket z =
      let cfg' = with_defaults env cfg in
      first_stop cfg w _ _ (
        attempt_failed (classified_failed env cfg') no_waits w w1 err live fails
        ∙ classified_failed_lem cfg' no_waits err w1 w2 class auth classed
        ∙ dispatch-throttle cfg' class no_waits err w2 bucket
            (ap (λ x. nonnegative_or x (pos 10)) z))
