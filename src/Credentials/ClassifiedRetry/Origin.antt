-- ===== src/Credentials/ClassifiedRetry/Origin.antt =====
-- Where the answers of DoWithClassifiedRetry come from.
use sylos_fs.Base.{ℕ, zero, suc, ℤ, pos_part, Option, none, some, ◌≡◌, ◌⊎◌, refl, ap, ◌∙◌, inl, inr}
use sylos_fs.Credentials.Retry.{
  Env, Outcome, returns, refresh_failed, exceeded, classified_retry, Waits, no_waits, Next, stop,
  again, attempt, retry_loop,
}
use sylos_fs.Credentials.ClassifiedRetry.{
  ClassifiedRetryConfig, with_defaults, classified_failed, do_with_classified_retry,
}
use sylos_fs.Credentials.ClassifiedRetry.Rounds.{
  Ends, gives_up, interrupted, refresh_fails, Round, cancelled, succeeds, fails, attempt-Round,
}
use sylos_fs.Credentials.ClassifiedRetry.Answers.{loop, loop-stop, loop-again}

module _ {E W : Type 0} (env : Env E W) (cfg : ClassifiedRetryConfig E W) where
  -- An error is reported by the context, by the operation or by a sleep.
  abbrev pub Reported : E → Type 0
  Reported e =
      (w : W) × ((env.ctx_err w ≡ some e)
        ⊎ (((env.op w).0 ≡ some e) ⊎ ((d : ℤ) × ((env.sleep_ctx d w).0 ≡ some e))))

  abbrev pub Justified : Outcome E → W → Type 0
  Justified (returns none) v = (w : W) × (env.op w ≡ (none, v))
  Justified (returns (some e)) v = Reported e
  Justified (refresh_failed err rerr) v =
      (w : W) × (refresh : W → Option E × W) × ((env.op w).0 ≡ some err)
      × (cfg.base.refresh ≡ some refresh)
      × (refresh (env.op w).1 ≡ (some rerr, v))
  Justified (exceeded which max) v = (which ≡ classified_retry) × (max ≡ cfg.base.max_iterations)

  Ends-Justified :
      {s : Waits} {err : E} {w v u : W} {r : Outcome E}
      → env.op w ≡ (some err, v)
      → Ends env cfg s err v (stop r u)
      → Justified r u
  Ends-Justified {w} h (gives_up q) = (w, inr (inl (ap (λ p. p.0) h)))
  Ends-Justified h (interrupted {v} d q e) = (v, inr (inr (d, ap (λ p. p.0) e)))
  Ends-Justified {w} h (refresh_fails refresh c f e) =
      (w, refresh, ap (λ p. p.0) h, c, ap refresh (ap (λ p. p.1) h) ∙ e)

  Round-Justified :
      {s : Waits} {w v : W} {r : Outcome E} → Round env cfg s w (stop r v) → Justified r v
  Round-Justified {w} (cancelled h) = (w, inl h)
  Round-Justified {w} (succeeds h) = (w, h)
  Round-Justified (fails h ends) = Ends-Justified h ends

  loop-Justified :
      (left : ℕ) (s : Waits) (w : W) → Justified (loop env cfg left s w).0 (loop env cfg left s w).1
  unfolding retry_loop
  loop-Justified zero s w = (refl, refl)
  loop-Justified (suc left) s w = go _ refl (attempt-Round env cfg s w) (loop-Justified left)
    where
      go :
          (n : Next E W)
          → attempt env (classified_failed env cfg) s w ≡ n
          → Round env cfg s w n
          → ((t : Waits) (v : W) → Justified (loop env cfg left t v).0 (loop env cfg left t v).1)
          → Justified (loop env cfg (suc left) s w).0 (loop env cfg (suc left) s w).1
      go (stop r v) e round ih = rw (loop-stop env cfg left s w e) (Round-Justified round)
      go (again t v) e round ih = rw (loop-again env cfg left s w e) (ih t v)

-- Every answer is accounted for. Nil means that the last thing done was an operation that succeeded
-- and left the final world; a returned error was reported by the operation, the context or a
-- sleep; the refresh error wraps an error of the operation and that of the refresh run right after
-- it; and the iteration error names this loop and the limit in force.
pub do_with_classified_retry-Justified :
    {E W : Type 0} (env : Env E W) (cfg : ClassifiedRetryConfig E W) (w : W)
    → Justified env
        (with_defaults env cfg)
        (do_with_classified_retry env cfg w).0
        (do_with_classified_retry env cfg w).1
unfolding do_with_classified_retry
do_with_classified_retry-Justified env cfg w =
    let cfg' = with_defaults env cfg in
    loop-Justified env cfg' (pos_part cfg'.base.max_iterations) no_waits w
