-- ===== src/Credentials/ClassifiedRetry/Answers.antt =====
-- Within its budget of retries DoWithClassifiedRetry ends with an answer of its own accord.
use sylos_fs.Base.{
  ℕ, zero, suc, ◌+◌, ◌-◌, ◌<◌, ℤ, pos, pos_part, leb_ℤ, true, ◌≡◌, ◌≢◌, refl, ap, subst, arith,
  if◌then◌else◌,
}
use sylos_fs.Credentials.Retry.{
  Env, RetryLoop, Outcome, exceeded, Waits, no_waits, Next, stop, again, attempt, retry_loop,
  nonnegative_or,
}
use sylos_fs.Credentials.ClassifiedRetry.{
  ClassifiedRetryConfig, with_defaults, classified_failed, do_with_classified_retry,
}
use sylos_fs.Credentials.ClassifiedRetry.Rounds.{
  Spent, rate, ambiguous, generic, Ends, gives_up, sleeps, interrupted, refreshes, refresh_fails,
  Round, cancelled, succeeds, fails, attempt-Round,
}

-- The retries that are left: one refresh, and what the two bounded buckets allow.
abbrev pub budget : {E W : Type 0} → ClassifiedRetryConfig E W → Waits → ℕ
budget cfg s =
    (if s.refreshed then 0 else 1)
    + (pos_part cfg.max_ambiguous_retries - s.ambiguous_waits)
    + (pos_part cfg.max_generic_retries - s.generic_waits)

module _ {E W : Type 0} (env : Env E W) (cfg : ClassifiedRetryConfig E W) where
  -- Without rate-limit waits in the loop, a round that goes on has spent some of the budget.
  Spent-budget :
      {s t : Waits}
      → leb_ℤ cfg.base.max_rate_limit_waits (pos 0) ≡ true
      → Spent cfg s t
      → budget cfg t < budget cfg s
  Spent-budget z (rate h) = absurd (ground arith)
  Spent-budget z (ambiguous h) = ground arith
  Spent-budget z (generic h) = ground arith

  abbrev Shrinks : ℕ → Next E W → Type 0
  Shrinks b (stop r w) = Unit {0}
  Shrinks b (again s w) = budget cfg s < b

  Ends-Shrinks :
      {s : Waits} {err : E} {w : W} {n : Next E W}
      → leb_ℤ cfg.base.max_rate_limit_waits (pos 0) ≡ true
      → Ends env cfg s err w n
      → Shrinks (budget cfg s) n
  Ends-Shrinks z (gives_up q) = tt
  Ends-Shrinks z (sleeps d q p h) = Spent-budget z p
  Ends-Shrinks z (interrupted d q h) = tt
  Ends-Shrinks z (refreshes r c f h) = ground arith
  Ends-Shrinks z (refresh_fails r c f h) = tt

  abbrev Answers : Outcome E → Type 0
  Answers (exceeded l m) = ⊥
  Answers _ = Unit {0}

  Ends-Answers :
      {s : Waits} {err : E} {w u : W} {r : Outcome E} → Ends env cfg s err w (stop r u) → Answers r
  Ends-Answers (gives_up q) = tt
  Ends-Answers (interrupted d q h) = tt
  Ends-Answers (refresh_fails r c f h) = tt

  Round-Answers : {s : Waits} {w u : W} {r : Outcome E} → Round env cfg s w (stop r u) → Answers r
  Round-Answers (cancelled h) = tt
  Round-Answers (succeeds h) = tt
  Round-Answers (fails h ends) = Ends-Answers ends

  Round-Shrinks :
      {s : Waits} {w : W} {n : Next E W}
      → leb_ℤ cfg.base.max_rate_limit_waits (pos 0) ≡ true
      → Round env cfg s w n
      → Shrinks (budget cfg s) n
  Round-Shrinks z (cancelled h) = tt
  Round-Shrinks z (succeeds h) = tt
  Round-Shrinks z (fails h ends) = Ends-Shrinks z ends

  abbrev pub loop : ℕ → Waits → W → Outcome E × W
  loop = retry_loop env cfg.base.max_iterations (classified_failed env cfg)

  pub loop-stop :
      (left : ℕ) (s : Waits) (w : W) {r : Outcome E} {v : W}
      → attempt env (classified_failed env cfg) s w ≡ stop r v
      → loop (suc left) s w ≡ (r, v)
  unfolding retry_loop
  loop-stop left s w e = rw (e, retry_loop)

  pub loop-again :
      (left : ℕ) (s : Waits) (w : W) {t : Waits} {v : W}
      → attempt env (classified_failed env cfg) s w ≡ again t v
      → loop (suc left) s w ≡ loop left t v
  unfolding retry_loop
  loop-again left s w e = rw (e, retry_loop)

  loop-Answers :
      (left : ℕ) (s : Waits) (w : W)
      → leb_ℤ cfg.base.max_rate_limit_waits (pos 0) ≡ true
      → budget cfg s < left
      → Answers (loop left s w).0
  loop-Answers zero s w z h = absurd (omega arith)
  loop-Answers (suc left) s w z h =
      go _ refl (attempt-Round env cfg s w) (λ t v k. loop-Answers left t v z k)
    where
      go :
          (n : Next E W)
          → attempt env (classified_failed env cfg) s w ≡ n
          → Round env cfg s w n
          → ((t : Waits) (v : W) → budget cfg t < left → Answers (loop left t v).0)
          → Answers (loop (suc left) s w).0
      go (stop r v) e round ih = rw (loop-stop left s w e) (Round-Answers round)
      go (again t v) e round ih =
          let less : budget cfg t < budget cfg s = Round-Shrinks z round in
          rw (loop-again left s w e) (ih t v (omega arith))

-- A call whose configuration does no rate-limit waits in the loop, and that allows more iterations
-- than one refresh, the ambiguous retries and the generic retries together, never ends by
-- running out of iterations.
pub do_with_classified_retry-ne-exceeded :
    {E W : Type 0} (env : Env E W) (cfg : ClassifiedRetryConfig E W) (w : W) (which : RetryLoop)
    (max : ℤ)
    → cfg.base.max_rate_limit_waits ≡ pos 0
    → let cfg' = with_defaults env cfg in
      1 + pos_part cfg'.max_ambiguous_retries + pos_part cfg'.max_generic_retries
        < pos_part cfg'.base.max_iterations
      → (do_with_classified_retry env cfg w).0 ≢ exceeded which max
unfolding do_with_classified_retry
do_with_classified_retry-ne-exceeded env cfg w which max z h e =
    let cfg' = with_defaults env cfg in
    let no_waiting : leb_ℤ cfg'.base.max_rate_limit_waits (pos 0) ≡ true =
      ap (λ x. leb_ℤ (nonnegative_or x (pos 10)) (pos 0)) z in
    subst (Answers env cfg') e (
      loop-Answers env cfg' (pos_part cfg'.base.max_iterations) no_waits w no_waiting
        (omega (arith, h)))
