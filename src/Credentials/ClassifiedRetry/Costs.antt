-- ===== src/Credentials/ClassifiedRetry/Costs.antt =====
-- What DoWithClassifiedRetry costs at most.
use sylos_fs.Base.{
  ℕ, zero, suc, ◌+◌, ◌*◌, ◌≤◌, ℤ, pos_part, Option, some, ◌≡◌, refl, ap, arith, if◌then◌else◌,
}
use sylos_fs.Types.ErrorClass.{FsErrorClassification}
use sylos_fs.Types.Ambiguous.{AmbiguousErrorTracker}
use sylos_fs.Credentials.Retry.{
  Env, Waits, no_waits, Next, stop, again, attempt, retry_loop, notify_wait, notify_exhausted,
}
use sylos_fs.Credentials.ClassifiedRetry.{
  ClassifiedRetryConfig, with_defaults, classified_failed, do_with_classified_retry,
  notify_suspected,
}
use sylos_fs.Credentials.ClassifiedRetry.Rounds.{
  Quiet, still, told, exhausted, suspected, tracked, classifies, Spent, rate, ambiguous, generic,
  Ends, gives_up, sleeps, interrupted, refreshes, refresh_fails, Round, cancelled, succeeds, fails,
  attempt-Round,
}
use sylos_fs.Credentials.ClassifiedRetry.Answers.{loop, loop-stop, loop-again}

-- What a meter on the world measures: an operation adds at most `o`, a refresh at most `r`, and
-- sleeping, classifying, recording and the hooks add nothing.
pub record Metered {E W : Type 0} (env : Env E W) (cfg : ClassifiedRetryConfig E W) (f : W → ℕ)
    (o r : ℕ) : Type 0 where
  pub ops : (w : W) → f (env.op w).1 ≤ f w + o
  pub sleeping : (d : ℤ) (w : W) → f (env.sleep_ctx d w).1 ≤ f w
  pub refreshing :
      (refresh : W → Option E × W)
      → cfg.base.refresh ≡ some refresh
      → (w : W) → f (refresh w).1 ≤ f w + r
  pub waiting : (d : ℤ) (n : ℕ) (w : W) → f (notify_wait env cfg.base d n w) ≤ f w
  pub exhausting : (err : E) (w : W) → f (notify_exhausted env cfg.base err w) ≤ f w
  pub suspecting :
      (class : FsErrorClassification) (n : ℕ) (w : W) → f (notify_suspected env cfg class n w) ≤ f w
  pub tracking : (t : Option AmbiguousErrorTracker) (w : W) → f (env.put_tracker t w) ≤ f w
  pub classifying :
      (classify : E → W → FsErrorClassification × W)
      → cfg.classify ≡ some classify
      → (err : E) (w : W) → f (classify err w).1 ≤ f w

module _ {E W : Type 0} (env : Env E W) (cfg : ClassifiedRetryConfig E W) (f : W → ℕ) (o r : ℕ)
    (m : Metered env cfg f o r) where
  Quiet-le : {w v : W} → Quiet env cfg w v → f v ≤ f w
  Quiet-le still = omega arith
  Quiet-le (told {v} d n q) = omega (arith, m.waiting d n v, Quiet-le q)
  Quiet-le (exhausted {v} err q) = omega (arith, m.exhausting err v, Quiet-le q)
  Quiet-le (suspected {v} class n q) = omega (arith, m.suspecting class n v, Quiet-le q)
  Quiet-le (tracked {v} t q) = omega (arith, m.tracking t v, Quiet-le q)
  Quiet-le (classifies {v} err c e q) = omega (arith, m.classifying c e err v, Quiet-le q)

  abbrev unspent : Waits → ℕ
  unspent s = if s.refreshed then 0 else r

  abbrev Costs : ℕ → Next E W → Type 0
  Costs b (stop x v) = f v ≤ b
  Costs b (again t v) = f v + unspent t ≤ b

  Spent-unspent : {s t : Waits} → Spent cfg s t → unspent t ≡ unspent s
  Spent-unspent (rate h) = refl
  Spent-unspent (ambiguous h) = refl
  Spent-unspent (generic h) = refl

  sleep-le : (d : ℤ) (w : W) {x : Option E} {u : W} → env.sleep_ctx d w ≡ (x, u) → f u ≤ f w
  sleep-le d w e = omega (arith, m.sleeping d w, ap (λ p. f p.1) e)

  refresh-le :
      (refresh : W → Option E × W) (w : W) {x : Option E} {u : W}
      → cfg.base.refresh ≡ some refresh
      → refresh w ≡ (x, u)
      → f u ≤ f w + r
  refresh-le refresh w c e = omega (arith, m.refreshing refresh c w, ap (λ p. f p.1) e)

  Ends-Costs :
      {s : Waits} {err : E} {w : W} {n : Next E W}
      → Ends env cfg s err w n
      → Costs (f w + unspent s) n
  Ends-Costs (gives_up q) = omega (arith, Quiet-le q)
  Ends-Costs (sleeps {v} d q p h) = omega (arith, Quiet-le q, sleep-le d v h, Spent-unspent p)
  Ends-Costs (interrupted {v} d q h) = omega (arith, Quiet-le q, sleep-le d v h)
  Ends-Costs {w} (refreshes c e fresh h) = ground (arith, refresh-le c w e h)
  Ends-Costs {w} (refresh_fails c e fresh h) = ground (arith, refresh-le c w e h)

  Costs-mono : {b c : ℕ} → b ≤ c → (n : Next E W) → Costs b n → Costs c n
  Costs-mono h (stop x v) k = omega arith
  Costs-mono h (again t v) k = omega arith

  op-le : (w : W) {x : Option E} {u : W} → env.op w ≡ (x, u) → f u ≤ f w + o
  op-le w e = omega (arith, m.ops w, ap (λ p. f p.1) e)

  Round-Costs :
      {s : Waits} {w : W} {n : Next E W} → Round env cfg s w n → Costs (f w + o + unspent s) n
  Round-Costs (cancelled h) = omega arith
  Round-Costs {w} (succeeds h) = omega (arith, op-le w h)
  Round-Costs {w} {n} (fails h ends) =
      let spent = op-le w h in Costs-mono (omega arith) n (Ends-Costs ends)

  loop-le :
      (left : ℕ) (s : Waits) (w : W) → f (loop env cfg left s w).1 ≤ f w + o * left + unspent s
  unfolding retry_loop
  loop-le zero s w = omega arith
  loop-le (suc left) s w = go _ refl (attempt-Round env cfg s w) (loop-le left)
    where
      go :
          (n : Next E W)
          → attempt env (classified_failed env cfg) s w ≡ n
          → Round env cfg s w n
          → ((t : Waits) (v : W) → f (loop env cfg left t v).1 ≤ f v + o * left + unspent t)
          → f (loop env cfg (suc left) s w).1 ≤ f w + o * suc left + unspent s
      go (stop x v) e round ih =
          rw (loop-stop env cfg left s w e) (omega (arith, Round-Costs round))
      go (again t v) e round ih =
          rw (loop-again env cfg left s w e) (omega (arith, Round-Costs round, ih t v))

-- Whatever the operation, the classifier and the hooks do, one call runs the operation at most
-- MaxIterations times and the refresh at most once: any meter to which an operation adds at most
-- `o` and a refresh at most `r` grows by at most MaxIterations times `o`, and `r`.
pub do_with_classified_retry-le :
    {E W : Type 0} (env : Env E W) (cfg : ClassifiedRetryConfig E W) (f : W → ℕ) (o r : ℕ) (w : W)
    → Metered env (with_defaults env cfg) f o r
    → f (do_with_classified_retry env cfg w).1
      ≤ f w + o * pos_part (with_defaults env cfg).base.max_iterations + r
unfolding do_with_classified_retry
do_with_classified_retry-le env cfg f o r w m =
    let cfg' = with_defaults env cfg in
    loop-le env cfg' f o r m (pos_part cfg'.base.max_iterations) no_waits w
