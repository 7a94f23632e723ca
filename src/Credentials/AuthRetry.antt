-- ===== src/Credentials/AuthRetry.antt =====
-- pkg/credentials/retry.go: DoWithAuthRetry, a loop of its own beside that of classified_retry.go. Its
-- variables `refreshed` and `rateWaits` are arguments of the next round.
use sylos_fs.Base.{
  ℕ, zero, suc, ◌+◌, ℤ, pos, negsuc, pos_part, ltb_ℤ, leb_ℤ, Bool, true, false, not, ◌&&◌, Option,
  none, some, if◌then◌else◌,
}
use sylos_fs.Credentials.Retry.{
  Env, RetryConfig, Outcome, returns, refresh_failed, exceeded, auth_retry, normalize_retry_config,
  get_or, rate_limited,
}

module _ {E W : Type 0} (env : Env E W) where
  -- The rounds to come, for `refreshed`, `rateWaits` and the world.
  abbrev pub Rounds : Type 0
  Rounds = Bool → ℕ → W → Outcome E × W

  -- `if sleep <= 0`, then `if sleep > cfg.MaxRateLimitSleep`
  abbrev pub positive_sleep : RetryConfig E W → ℤ → ℤ
  positive_sleep cfg (pos zero) = cfg.default_rate_limit_sleep
  positive_sleep cfg (pos (suc n)) = pos (suc n)
  positive_sleep cfg (negsuc n) = cfg.default_rate_limit_sleep

  abbrev pub capped_sleep : RetryConfig E W → ℤ → ℤ
  capped_sleep cfg sleep =
      if ltb_ℤ cfg.max_rate_limit_sleep sleep then cfg.max_rate_limit_sleep else sleep

  -- OnRateLimitWait and OnRateLimitExhausted, which may be nil.
  abbrev pub tell_wait : Option (ℤ → ℕ → W → W) → ℤ → ℕ → W → W
  tell_wait none sleep attempt w = w
  tell_wait (some hook) sleep attempt w = hook sleep attempt w

  abbrev pub tell_exhausted : Option (E → W → W) → E → W → W
  tell_exhausted none err w = w
  tell_exhausted (some hook) err w = hook err w

  -- `if err := sleepCtx(ctx, sleep); err != nil`, else `rateWaits++`
  abbrev pub slept : Rounds → Bool → ℕ → Option E × W → Outcome E × W
  slept next refreshed rate_waits (some e, w) = (returns (some e), w)
  slept next refreshed rate_waits (none, w) = next refreshed (rate_waits + 1) w

  -- The body of `if d, ok := cfg.IsRateLimited(err); ok`.
  abbrev pub auth_limited : RetryConfig E W → Rounds → Bool → ℕ → ℤ → E → W → Outcome E × W
  auth_limited cfg next refreshed rate_waits d err w =
      let sleep = capped_sleep cfg (positive_sleep cfg d) in
      let told = tell_wait cfg.on_rate_limit_wait sleep (rate_waits + 1) w in
      if leb_ℤ cfg.max_rate_limit_waits (pos rate_waits)
      then (returns (some err), tell_exhausted cfg.on_rate_limit_exhausted err w)
      else slept next refreshed rate_waits (env.sleep_ctx sleep told)

  abbrev pub auth_refreshed : Rounds → E → Option E × W → Outcome E × W
  auth_refreshed next err (some rerr, w) = (refresh_failed err rerr, w)
  auth_refreshed next err (none, w) = next true 0 w

  -- After `rateWaits = 0`: the one refresh, or the error.
  abbrev pub auth_refresh :
      RetryConfig E W → Rounds → Option (W → Option E × W) → Bool → E → W → Outcome E × W
  auth_refresh cfg next none refreshed err w = (returns (some err), w)
  auth_refresh cfg next (some refresh) refreshed err w =
      if get_or cfg.is_auth_failure env.is_needs_refresh err && not refreshed
      then auth_refreshed next err (refresh w)
      else (returns (some err), w)

  -- After the operation.
  abbrev pub auth_failed : RetryConfig E W → Rounds → Bool → ℕ → Option ℤ → E → W → Outcome E × W
  auth_failed cfg next refreshed rate_waits (some d) err w =
      auth_limited cfg next refreshed rate_waits d err w
  auth_failed cfg next refreshed rate_waits none err w =
      auth_refresh cfg next cfg.refresh refreshed err w

  abbrev pub auth_attempted : RetryConfig E W → Rounds → Bool → ℕ → Option E × W → Outcome E × W
  auth_attempted cfg next refreshed rate_waits (none, w) = (returns none, w)
  auth_attempted cfg next refreshed rate_waits (some err, w) =
      auth_failed cfg next refreshed rate_waits (rate_limited env cfg err) err w

  -- `for i := 0; i < cfg.MaxIterations; i++`: the fuel is the number of iterations left.
  unfoldable pub auth_loop : RetryConfig E W → ℕ → Rounds
  auth_loop cfg zero refreshed rate_waits w = (exceeded auth_retry cfg.max_iterations, w)
  auth_loop cfg (suc left) refreshed rate_waits w = elim (env.ctx_err w) [
    | some e ↦ (returns (some e), w)
    | none ↦ auth_attempted cfg (auth_loop cfg left) refreshed rate_waits (env.op w)
  ]

  unfoldable pub do_with_auth_retry : RetryConfig E W → W → Outcome E × W
  do_with_auth_retry cfg w =
      let base = normalize_retry_config env cfg in
      auth_loop base (pos_part base.max_iterations) false 0 w
