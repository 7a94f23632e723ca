-- ===== src/Credentials/ClassifiedRetry/Unclassified.antt =====
-- DoWithClassifiedRetry against DoWithAuthRetry: what the newer loop makes of a configuration of
-- the older one.
use sylos_fs.Base.{
  ℕ, zero, suc, ◌+◌, ℤ, pos, negsuc, pos_part, leb_ℤ, Option, none, some, ◌≡◌, refl, sym, ap, ◌∙◌,
  Bool-cases, Option-cases, inl, inr,
}
use sylos_fs.Credentials.Retry.{
  Env, Outcome, returns, refresh_failed, exceeded, classified_retry, Waits, no_waits, Next, stop,
  again, rate_limited, attempt, after_op, after_sleep, throttled, refresh_or, retry_loop, auth_test,
  capped, notify_wait, notify_exhausted,
}
use sylos_fs.Credentials.AuthRetry.{
  auth_loop, auth_failed, auth_limited, auth_attempted, slept, do_with_auth_retry, capped_sleep,
  positive_sleep, tell_wait, tell_exhausted, auth_refresh,
}
use sylos_fs.Credentials.ClassifiedRetry.{
  ClassifiedRetryConfig, with_defaults, run_classify, by_bucket, dispatch, classified,
  classified_failed, do_with_classified_retry,
}

-- The answer of DoWithAuthRetry as DoWithClassifiedRetry words it: only the error about too many
-- iterations names the loop.
abbrev pub as_classified : {E W : Type 0} → Outcome E × W → Outcome E × W
as_classified (returns r, w) = (returns r, w)
as_classified (refresh_failed e f, w) = (refresh_failed e f, w)
as_classified (exceeded which max, w) = (exceeded classified_retry max, w)

module _ {E W : Type 0} (env : Env E W) (cfg : ClassifiedRetryConfig E W) where
  -- What follows a round of the classified loop.
  abbrev go_on : ℕ → Next E W → Outcome E × W
  go_on left (stop r w) = (r, w)
  go_on left (again s w) =
      retry_loop env cfg.base.max_iterations (classified_failed env cfg) left s w

  -- The rounds to come are the same in both loops.
  abbrev Agree : ℕ → Type 0
  Agree left =
      (s : Waits) (w : W)
      → retry_loop env cfg.base.max_iterations (classified_failed env cfg) left s w
        ≡ as_classified (auth_loop env cfg.base left s.refreshed s.rate_waits w)

  slept-same :
      (left : ℕ) (s : Waits) (a : Option E × W)
      → Agree left
      → go_on left (after_sleep env (record s { rate_waits = s.rate_waits + 1 }) a)
        ≡ as_classified (slept env (auth_loop env cfg.base left) s.refreshed s.rate_waits a)
  slept-same left s (none, w) ih = ih (record s { rate_waits = s.rate_waits + 1 }) w
  slept-same left s (some e, w) ih = refl

  capped-same :
      (d : ℤ) → capped env cfg.base d ≡ capped_sleep env cfg.base (positive_sleep env cfg.base d)
  capped-same (pos zero) = refl
  capped-same (pos (suc n)) = refl
  capped-same (negsuc n) = refl

  wait-same :
      (d : ℤ) (n : ℕ) (w : W)
      → notify_wait env cfg.base d n w ≡ tell_wait env cfg.base.on_rate_limit_wait d n w
  wait-same d n w = elim (Option-cases cfg.base.on_rate_limit_wait) [
    | inl e ↦ rw (e, notify_wait) refl
    | inr (hook, e) ↦ rw (e, notify_wait) refl
  ]

  exhausted-same :
      (err : E) (w : W)
      → notify_exhausted env cfg.base err w
        ≡ tell_exhausted env cfg.base.on_rate_limit_exhausted err w
  exhausted-same err w = elim (Option-cases cfg.base.on_rate_limit_exhausted) [
    | inl e ↦ rw (e, notify_exhausted) refl
    | inr (hook, e) ↦ rw (e, notify_exhausted) refl
  ]

  limited-same :
      (left : ℕ) (s : Waits) (d : ℤ) (err : E) (w : W)
      → Agree left
      → go_on left (throttled env cfg.base d s err w)
        ≡ as_classified (
            auth_limited env cfg.base
              (auth_loop env cfg.base left)
              s.refreshed
              s.rate_waits
              d
              err
              w)
  unfolding throttled
  limited-same left s d err w ih =
      elim (Bool-cases (leb_ℤ cfg.base.max_rate_limit_waits (pos s.rate_waits))) [
        | inl e ↦ rw (e) (ap (λ v. (returns (some err), v)) (exhausted-same err w))
        | inr e ↦
            let sleep = capped_sleep env cfg.base (positive_sleep env cfg.base d) in
            rw (e) (
              ap
                (λ x. go_on left (
                  after_sleep env (record s { rate_waits = s.rate_waits + 1 })
                    (env.sleep_ctx x (notify_wait env cfg.base x (s.rate_waits + 1) w))))
                (capped-same d)
              ∙ ap
                  (λ v. go_on left (
                    after_sleep env (record s { rate_waits = s.rate_waits + 1 })
                      (env.sleep_ctx sleep v)))
                  (wait-same sleep (s.rate_waits + 1) w)
              ∙ slept-same left s _ ih)
      ]

  -- Without a classifier and a refresh, only a rate limit goes on.
  dispatch-same :
      (left : ℕ) (s : Waits) (err : E) (w : W)
      → cfg.base.refresh ≡ none
      → Agree left
      → go_on left (dispatch env cfg none s err w)
        ≡ as_classified (
            auth_failed env cfg.base
              (auth_loop env cfg.base left)
              s.refreshed
              s.rate_waits
              (rate_limited env cfg.base err)
              err
              w)
  unfolding dispatch by_bucket
  dispatch-same left s err w r ih = elim (Option-cases (rate_limited env cfg.base err)) [
    | inl unlimited ↦ rw unlimited (
        ap
          (λ k.
            as_classified
              (auth_refresh env cfg.base (auth_loop env cfg.base left) k s.refreshed err w))
          (sym r))
    | inr (d, limit) ↦ rw limit (limited-same left s d err w ih)
  ]

  failed-same :
      (left : ℕ) (s : Waits) (err : E) (w : W)
      → cfg.classify ≡ none
      → cfg.base.refresh ≡ none
      → Agree left
      → go_on left (classified_failed env cfg s err w)
        ≡ as_classified (
            auth_failed env cfg.base
              (auth_loop env cfg.base left)
              s.refreshed
              s.rate_waits
              (rate_limited env cfg.base err)
              err
              w)
  unfolding classified_failed classified refresh_or
  failed-same left s err w c r ih =
      ap
        (λ k.
          go_on left
            (refresh_or env k (auth_test env cfg.base) s err w (classified env cfg s err w)))
        r
      ∙ ap
          (λ k.
            let (class, u) = run_classify env k err w in
            go_on left (dispatch env cfg class s err u))
          c
      ∙ dispatch-same left s err w r ih

  answer-same :
      (left : ℕ) (s : Waits) (a : Option E × W)
      → cfg.classify ≡ none
      → cfg.base.refresh ≡ none
      → Agree left
      → go_on left (after_op env (classified_failed env cfg) s a)
        ≡ as_classified
            (auth_attempted env cfg.base (auth_loop env cfg.base left) s.refreshed s.rate_waits a)
  answer-same left s (none, w) c r ih = refl
  answer-same left s (some err, w) c r ih = failed-same left s err w c r ih

  loop-same : (left : ℕ) → cfg.classify ≡ none → cfg.base.refresh ≡ none → Agree left
  unfolding retry_loop auth_loop attempt
  loop-same zero c r s w = refl
  loop-same (suc left) c r s w = elim (Option-cases (env.ctx_err w)) [
    | inl live ↦
        rw (live, retry_loop, auth_loop) (answer-same left s (env.op w) c r (loop-same left c r))
    | inr (e, done) ↦ rw (done, retry_loop, auth_loop) refl
  ]

-- With neither a classifier nor a refresh function, DoWithClassifiedRetry returns the same answer as
-- DoWithAuthRetry and leaves the same world, whatever the calls change in it; only the error about too
-- many iterations names the other loop.
pub do_with_classified_retry-do_with_auth_retry :
    {E W : Type 0} (env : Env E W) (cfg : ClassifiedRetryConfig E W) (w : W)
    → cfg.classify ≡ none
    → cfg.base.refresh ≡ none
    → do_with_classified_retry env cfg w ≡ as_classified (do_with_auth_retry env cfg.base w)
unfolding do_with_classified_retry do_with_auth_retry
do_with_classified_retry-do_with_auth_retry env cfg w c r =
    loop-same env (with_defaults env cfg) (pos_part (with_defaults env cfg).base.max_iterations) c r
      no_waits w
