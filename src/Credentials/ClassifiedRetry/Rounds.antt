-- ===== src/Credentials/ClassifiedRetry/Rounds.antt =====
-- The rounds of DoWithClassifiedRetry as a step relation: what one round may do, and why it ends.
use sylos_fs.Base.{
  ℕ, ◌+◌, ℤ, pos, leb_ℤ, Bool, true, false, not, ◌&&◌, Option, none, some, ◌≡◌, refl, inl, inr,
  arith, Bool-cases, Option-cases,
}
use sylos_fs.Types.ErrorClass.{FsErrorBucket, FsErrorClassification}
use sylos_fs.Types.Ambiguous.{AmbiguousErrorTracker, record_hit, suspected_throttle}
use sylos_fs.Credentials.Retry.{
  Env, returns, refresh_failed, Waits, Next, stop, again, attempt, throttled, refresh_or,
  after_sleep, after_op, after_refresh, notify_wait, notify_exhausted, auth_test, capped,
}
use sylos_fs.Credentials.ClassifiedRetry.{
  ClassifiedRetryConfig, is_fatal, classify_as_throttle, ambiguous_failed, generic_failed,
  by_bucket, dispatch, run_classify, classified, classified_failed, notify_suspected,
  promoted_sleep, workers, promoted, neutral,
}

-- What a round does to the world between the operation and its end, sleeps and refreshes apart:
-- it tells the hooks, records in the tracker and classifies.
pub data Quiet {E W : Type 0} (env : Env E W) (cfg : ClassifiedRetryConfig E W)
    : W → W → Type 0 where
  still : {w : W} → Quiet env cfg w w
  told :
      {w v : W} (d : ℤ) (n : ℕ)
      → Quiet env cfg w v
      → Quiet env cfg w (notify_wait env cfg.base d n v)
  exhausted :
      {w v : W} (err : E)
      → Quiet env cfg w v
      → Quiet env cfg w (notify_exhausted env cfg.base err v)
  suspected :
      {w v : W} (class : FsErrorClassification) (n : ℕ)
      → Quiet env cfg w v
      → Quiet env cfg w (notify_suspected env cfg class n v)
  tracked :
      {w v : W} (t : Option AmbiguousErrorTracker)
      → Quiet env cfg w v
      → Quiet env cfg w (env.put_tracker t v)
  classifies :
      {w v : W} (err : E) (classify : E → W → FsErrorClassification × W)
      → cfg.classify ≡ some classify
      → Quiet env cfg w v
      → Quiet env cfg w (classify err v).1

-- A retry that a limit still allows, and the counter that it raises.
pub data Spent {E W : Type 0} (cfg : ClassifiedRetryConfig E W) (s : Waits) : Waits → Type 0 where
  rate :
      leb_ℤ cfg.base.max_rate_limit_waits (pos s.rate_waits) ≡ false
      → Spent cfg s (record s { rate_waits = s.rate_waits + 1 })
  ambiguous :
      leb_ℤ cfg.max_ambiguous_retries (pos s.ambiguous_waits) ≡ false
      → Spent cfg s (record s { rate_waits = 0; ambiguous_waits = s.ambiguous_waits + 1 })
  generic :
      leb_ℤ cfg.max_generic_retries (pos s.generic_waits) ≡ false
      → Spent cfg s (record s { rate_waits = 0; generic_waits = s.generic_waits + 1 })

-- The end of a round after a failed operation has left the world w.
pub data Ends {E W : Type 0} (env : Env E W) (cfg : ClassifiedRetryConfig E W) (s : Waits) (err : E)
    (w : W) : Next E W → Type 0 where
  gives_up : {v : W} → Quiet env cfg w v → Ends env cfg s err w (stop (returns (some err)) v)
  sleeps :
      {v u : W} {t : Waits} (d : ℤ)
      → Quiet env cfg w v
      → Spent cfg s t
      → env.sleep_ctx d v ≡ (none, u)
      → Ends env cfg s err w (again t u)
  interrupted :
      {v u : W} {e : E} (d : ℤ)
      → Quiet env cfg w v
      → env.sleep_ctx d v ≡ (some e, u)
      → Ends env cfg s err w (stop (returns (some e)) u)
  refreshes :
      {u : W} (refresh : W → Option E × W)
      → cfg.base.refresh ≡ some refresh
      → s.refreshed ≡ false
      → refresh w ≡ (none, u)
      → Ends env cfg s err w (again (record s { refreshed = true }) u)
  refresh_fails :
      {u : W} {rerr : E} (refresh : W → Option E × W)
      → cfg.base.refresh ≡ some refresh
      → s.refreshed ≡ false
      → refresh w ≡ (some rerr, u)
      → Ends env cfg s err w (stop (refresh_failed err rerr) u)

pub data Round {E W : Type 0} (env : Env E W) (cfg : ClassifiedRetryConfig E W) (s : Waits) (w : W)
    : Next E W → Type 0 where
  cancelled : {e : E} → env.ctx_err w ≡ some e → Round env cfg s w (stop (returns (some e)) w)
  succeeds : {v : W} → env.op w ≡ (none, v) → Round env cfg s w (stop (returns none) v)
  fails :
      {v : W} {err : E} {n : Next E W}
      → env.op w ≡ (some err, v)
      → Ends env cfg s err v n
      → Round env cfg s w n

module _ {E W : Type 0} (env : Env E W) (cfg : ClassifiedRetryConfig E W) where
  after_sleep-Ends :
      {s t : Waits} {err : E} {w v : W} (d : ℤ) (r : Option E × W)
      → env.sleep_ctx d v ≡ r
      → Quiet env cfg w v
      → Spent cfg s t
      → Ends env cfg s err w (after_sleep env t r)
  after_sleep-Ends d (none, u) e q p = sleeps d q p e
  after_sleep-Ends d (some x, u) e q p = interrupted d q e

  throttled-Ends :
      {s : Waits} {err : E} {w v : W} (d : ℤ)
      → Quiet env cfg w v
      → Ends env cfg s err w (throttled env cfg.base d s err v)
  unfolding throttled
  throttled-Ends {s} {err} {w} {v} d q =
      elim (Bool-cases (leb_ℤ cfg.base.max_rate_limit_waits (pos s.rate_waits))) [
        | inl out ↦ rw out (gives_up (exhausted err q))
        | inr left ↦ rw left (
            after_sleep-Ends (capped env cfg.base d) _ refl
              (told (capped env cfg.base d) (s.rate_waits + 1) q) (rate left))
      ]

  generic_failed-Ends :
      (s : Waits) (err : E) {w v : W}
      → Quiet env cfg w v
      → Ends env cfg s err w (generic_failed env cfg (record s { rate_waits = 0 }) err v)
  unfolding generic_failed
  generic_failed-Ends s err q =
      elim (Bool-cases (leb_ℤ cfg.max_generic_retries (pos s.generic_waits))) [
        | inl out ↦ rw out (gives_up q)
        | inr left ↦ rw left (after_sleep-Ends cfg.generic_retry_sleep _ refl q (generic left))
      ]

  promoted-Ends :
      (class : FsErrorClassification) (s : Waits) (err : E) {w v : W}
      → leb_ℤ cfg.max_ambiguous_retries (pos s.ambiguous_waits) ≡ false
      → Quiet env cfg w v
      → Ends env cfg s err w (promoted env cfg class (record s { rate_waits = 0 }) v)
  promoted-Ends class s err left q =
      after_sleep-Ends (promoted_sleep env cfg.base) _ refl
        (told (promoted_sleep env cfg.base) 1 (suspected class (s.ambiguous_waits + 1) q))
        (ambiguous left)

  neutral-Ends :
      (s : Waits) (err : E) {w v : W}
      → leb_ℤ cfg.max_ambiguous_retries (pos s.ambiguous_waits) ≡ false
      → Quiet env cfg w v
      → Ends env cfg s err w (neutral env cfg (record s { rate_waits = 0 }) v)
  neutral-Ends s err left q = after_sleep-Ends cfg.ambiguous_retry_sleep _ refl q (ambiguous left)

  ambiguous_failed-Ends :
      (class : FsErrorClassification) (s : Waits) (err : E) {w : W} (v : W)
      → Quiet env cfg w v
      → Ends env cfg s err w (ambiguous_failed env cfg class (record s { rate_waits = 0 }) err v)
  unfolding ambiguous_failed
  ambiguous_failed-Ends class s err {w} v q =
      elim (Bool-cases (leb_ℤ cfg.max_ambiguous_retries (pos s.ambiguous_waits))) [
        | inl out ↦ rw out (gives_up q)
        | inr left ↦ elim (Option-cases (env.tracker v)) [
          | inl e ↦ rw (left, e) (neutral-Ends s err left q)
          | inr (t, e) ↦
              let now = env.now v in
              let t' =
                record_hit now cfg.operation class.error_code (workers env cfg v) now (some t) in
              elim (Bool-cases (suspected_throttle cfg.operation class.error_code t')) [
                | inl hot ↦ rw (left, e, hot) (promoted-Ends class s err left (tracked t' q))
                | inr cool ↦ rw (left, e, cool) (neutral-Ends s err left (tracked t' q))
              ]
        ]
      ]

  by_bucket-Ends :
      (class : Option FsErrorClassification) (s : Waits) (err : E) {w : W} (v : W)
      → Quiet env cfg w v
      → Ends env cfg s err w (by_bucket env cfg class (record s { rate_waits = 0 }) err v)
  unfolding by_bucket
  by_bucket-Ends none s err v q = gives_up q
  by_bucket-Ends (some class) s err {w} v q = go class.bucket refl
    where
      go :
          (b : FsErrorBucket)
          → class.bucket ≡ b
          → Ends env cfg s err w
              (by_bucket env cfg (some class) (record s { rate_waits = 0 }) err v)
      go FsErrorBucket.fatal e = simp (e, by_bucket) (gives_up q)
      go FsErrorBucket.throttle e = simp (e, by_bucket) (gives_up q)
      go FsErrorBucket.ambiguous e = simp (e, by_bucket) (ambiguous_failed-Ends class s err v q)
      go FsErrorBucket.retryable e = simp (e, by_bucket) (generic_failed-Ends s err q)

  dispatch-Ends :
      (class : Option FsErrorClassification) (s : Waits) (err : E) {w : W} (v : W)
      → Quiet env cfg w v
      → Ends env cfg s err w (dispatch env cfg class s err v)
  unfolding dispatch
  dispatch-Ends class s err v q = elim (Bool-cases (is_fatal class)) [
    | inl fatal ↦ rw fatal (gives_up q)
    | inr go ↦ elim (Option-cases (classify_as_throttle env cfg.base class err)) [
      | inl e ↦ rw (go, e) (by_bucket-Ends class s err v q)
      | inr (d, e) ↦ rw (go, e) (throttled-Ends d q)
    ]
  ]

  run_classify-Ends :
      (o : Option (E → W → FsErrorClassification × W)) (s : Waits) (err : E) (w : W)
      → cfg.classify ≡ o
      → let (class, v) = run_classify env o err w in
        Ends env cfg s err w (dispatch env cfg class s err v)
  run_classify-Ends none s err w e = dispatch-Ends none s err w still
  run_classify-Ends (some classify) s err w e =
      dispatch-Ends (some (classify err w).0) s err (classify err w).1
        (classifies err classify e still)

  classified-Ends :
      (s : Waits) (err : E) (w : W) → Ends env cfg s err w (classified env cfg s err w)
  unfolding classified
  classified-Ends s err w = run_classify-Ends cfg.classify s err w refl

  after_refresh-Ends :
      {s : Waits} {err : E} {w : W} (refresh : W → Option E × W) (r : Option E × W)
      → refresh w ≡ r
      → cfg.base.refresh ≡ some refresh
      → s.refreshed ≡ false
      → Ends env cfg s err w (after_refresh env s err r)
  after_refresh-Ends refresh (none, u) e c h = refreshes refresh c h e
  after_refresh-Ends refresh (some rerr, u) e c h = refresh_fails refresh c h e

  refresh_or-Ends :
      (o : Option (W → Option E × W)) (is_auth : E → Bool) (s : Waits) (err : E) (w : W)
      (n : Next E W)
      → cfg.base.refresh ≡ o
      → Ends env cfg s err w n
      → Ends env cfg s err w (refresh_or env o is_auth s err w n)
  unfolding refresh_or
  refresh_or-Ends none is_auth s err w n e ends = ends
  refresh_or-Ends (some refresh) is_auth s err w n e ends =
      elim (Bool-cases (is_auth err && not s.refreshed)) [
        | inl auth ↦
            let fresh : s.refreshed ≡ false = ground arith in
            rw auth (after_refresh-Ends refresh (refresh w) refl e fresh)
        | inr other ↦ rw other ends
      ]

  classified_failed-Ends :
      (s : Waits) (err : E) (w : W) → Ends env cfg s err w (classified_failed env cfg s err w)
  unfolding classified_failed
  classified_failed-Ends s err w =
      refresh_or-Ends cfg.base.refresh (auth_test env cfg.base) s err w _ refl
        (classified-Ends s err w)

  after_op-Round :
      (s : Waits) (w : W) (r : Option E × W)
      → env.op w ≡ r
      → Round env cfg s w (after_op env (classified_failed env cfg) s r)
  after_op-Round s w (none, v) e = succeeds e
  after_op-Round s w (some err, v) e = fails e (classified_failed-Ends s err v)

  -- Each round of the loop is one of these.
  pub attempt-Round :
      (s : Waits) (w : W) → Round env cfg s w (attempt env (classified_failed env cfg) s w)
  unfolding attempt
  attempt-Round s w = elim (Option-cases (env.ctx_err w)) [
    | inl live ↦ rw (live, attempt) (after_op-Round s w (env.op w) refl)
    | inr (e, gone) ↦ rw (gone, attempt) (cancelled gone)
  ]
