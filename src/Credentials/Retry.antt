-- ===== src/Credentials/Retry.antt =====
-- pkg/credentials/retry.go: RetryConfig and its defaults, and the rounds of the loop of
-- classified_retry.go up to the classification. DoWithAuthRetry is in Credentials/AuthRetry. Errors
-- are a type E and everything that a call can see or change is a world W: the context, the clock,
-- the provider, the token store, the degradation state. What the caller passes in as closures are
-- functions on W.
use sylos_fs.Base.{
  ℕ, zero, suc, ◌+◌, ℤ, pos, negsuc, ltb_ℤ, leb_ℤ, Bool, true, false, not, ◌&&◌, Option, none, some,
  if◌then◌else◌,
}
use sylos_fs.Types.Ambiguous.{AmbiguousErrorTracker}

-- What the loops call besides the configuration's closures: the context, the operation, the timer
-- of sleepCtx, the clock, and the ambiguous-error tracker where the world holds one.
pub record Env (E W : Type 0) : Type 0 where
  pub ctx_err : W → Option E
  pub op : W → Option E × W
  pub sleep_ctx : ℤ → W → Option E × W
  pub now : W → ℕ
  pub tracker : W → Option AmbiguousErrorTracker
  pub put_tracker : Option AmbiguousErrorTracker → W → W
  pub is_needs_refresh : E → Bool

pub record RetryConfig (E W : Type 0) : Type 0 where
  pub refresh : Option (W → Option E × W)
  pub is_auth_failure : Option (E → Bool)
  pub is_rate_limited : Option (E → Option ℤ)
  pub max_rate_limit_waits : ℤ
  pub max_rate_limit_sleep : ℤ
  pub default_rate_limit_sleep : ℤ
  pub max_iterations : ℤ
  pub on_rate_limit_wait : Option (ℤ → ℕ → W → W)
  pub on_rate_limit_exhausted : Option (E → W → W)

-- The two loops, which their errors about too many iterations name.
pub data RetryLoop : Type 0 where
  auth_retry classified_retry : RetryLoop

-- What a call returns: nil or an error, an error wrapped with that of a failed refresh, or the
-- error about too many iterations.
pub data Outcome (E : Type 0) : Type 0 where
  returns : Option E → Outcome E
  refresh_failed : E → E → Outcome E
  exceeded : RetryLoop → ℤ → Outcome E

-- The variables of the loop.
pub record Waits : Type 0 where
  pub refreshed : Bool
  pub rate_waits : ℕ
  pub ambiguous_waits : ℕ
  pub generic_waits : ℕ

abbrev pub no_waits : Waits
no_waits = record { refreshed = false; rate_waits = 0; ambiguous_waits = 0; generic_waits = 0 }

-- One round ends the call or goes on to the next round.
pub data Next (E W : Type 0) : Type 0 where
  stop : Outcome E → W → Next E W
  again : Waits → W → Next E W

-- `if x <= 0 { x = default }` and `if x < 0 { x = default }`
abbrev pub positive_or : ℤ → ℤ → ℤ
positive_or (pos zero) d = d
positive_or (pos (suc n)) d = pos (suc n)
positive_or (negsuc n) d = d

abbrev pub nonnegative_or : ℤ → ℤ → ℤ
nonnegative_or (pos n) d = pos n
nonnegative_or (negsuc n) d = d

abbrev pub get_or {ℓ} : {A : Type ℓ} → Option A → A → A
get_or none d = d
get_or (some a) d = a

module _ {E W : Type 0} (env : Env E W) where
  abbrev pub normalize_retry_config : RetryConfig E W → RetryConfig E W
  normalize_retry_config cfg = record cfg {
    max_rate_limit_waits = nonnegative_or cfg.max_rate_limit_waits (pos 10);
    max_rate_limit_sleep = positive_or cfg.max_rate_limit_sleep (pos 60000000000);
    default_rate_limit_sleep = positive_or cfg.default_rate_limit_sleep (pos 1000000000);
    max_iterations = positive_or cfg.max_iterations (pos 64);
    is_auth_failure = some (get_or cfg.is_auth_failure env.is_needs_refresh);
  }

  -- Calls of hooks that may be nil.
  abbrev pub notify_wait : RetryConfig E W → ℤ → ℕ → W → W
  notify_wait cfg d attempt w = elim cfg.on_rate_limit_wait [
    | none ↦ w
    | some hook ↦ hook d attempt w
  ]

  abbrev pub notify_exhausted : RetryConfig E W → E → W → W
  notify_exhausted cfg err w = elim cfg.on_rate_limit_exhausted [
    | none ↦ w
    | some hook ↦ hook err w
  ]

  -- `sleep <= 0` becomes the default, and then no more than the cap is slept.
  abbrev pub capped : RetryConfig E W → ℤ → ℤ
  capped cfg d =
      let sleep = positive_or d cfg.default_rate_limit_sleep in
      if ltb_ℤ cfg.max_rate_limit_sleep sleep then cfg.max_rate_limit_sleep else sleep

  -- After a sleep the round ends with the context's error or goes on.
  abbrev pub after_sleep : Waits → Option E × W → Next E W
  after_sleep s (none, w) = again s w
  after_sleep s (some e, w) = stop (returns (some e)) w

  -- A rate limit: give up after enough waits, else tell the hook and sleep.
  unfoldable pub throttled : RetryConfig E W → ℤ → Waits → E → W → Next E W
  throttled cfg d s err w =
      if leb_ℤ cfg.max_rate_limit_waits (pos s.rate_waits)
      then stop (returns (some err)) (notify_exhausted cfg err w)
      else after_sleep (record s { rate_waits = s.rate_waits + 1 })
          (env.sleep_ctx (capped cfg d) (notify_wait cfg (capped cfg d) (s.rate_waits + 1) w))

  abbrev pub after_refresh : Waits → E → Option E × W → Next E W
  after_refresh s err (none, w) = again (record s { refreshed = true }) w
  after_refresh s err (some rerr, w) = stop (refresh_failed err rerr) w

  -- An auth failure is refreshed once; any other error goes to `otherwise`.
  unfoldable pub refresh_or :
      Option (W → Option E × W) → (E → Bool) → Waits → E → W → Next E W → Next E W
  refresh_or none is_auth s err w otherwise = otherwise
  refresh_or (some refresh) is_auth s err w otherwise =
      if is_auth err && not s.refreshed then after_refresh s err (refresh w) else otherwise

  abbrev pub auth_test : RetryConfig E W → E → Bool
  auth_test cfg = get_or cfg.is_auth_failure env.is_needs_refresh

  abbrev pub rate_limited : RetryConfig E W → E → Option ℤ
  rate_limited cfg err = elim cfg.is_rate_limited [ none ↦ none | some limited ↦ limited err ]

  abbrev pub after_op : (Waits → E → W → Next E W) → Waits → Option E × W → Next E W
  after_op failed s (none, w) = stop (returns none) w
  after_op failed s (some err, w) = failed s err w

  -- One round of the loop: the context, then the operation.
  unfoldable pub attempt : (Waits → E → W → Next E W) → Waits → W → Next E W
  attempt failed s w = elim (env.ctx_err w) [
    | some e ↦ stop (returns (some e)) w
    | none ↦ after_op failed s (env.op w)
  ]

  -- `for i := 0; i < MaxIterations; i++`: the fuel is the number of iterations left.
  unfoldable pub retry_loop : ℤ → (Waits → E → W → Next E W) → ℕ → Waits → W → Outcome E × W
  retry_loop max failed zero s w = (exceeded classified_retry max, w)
  retry_loop max failed (suc left) s w = elim (attempt failed s w) [
    | stop r w' ↦ (r, w')
    | again s' w' ↦ retry_loop max failed left s' w'
  ]
