-- ===== src/Credentials/ClassifiedRetry/Refreshed.antt =====
-- A call whose first attempt is an auth failure, with a refresh and a second attempt that succeed.
use sylos_fs.Base.{ℕ, suc, pos, pos_part, true, Option, none, some, ◌≡◌, refl, ap, ◌∙◌}
use sylos_fs.Credentials.Retry.{
  Env, returns, Waits, no_waits, stop, again, attempt, auth_test, refresh_or, positive_or,
}
use sylos_fs.Credentials.ClassifiedRetry.{
  ClassifiedRetryConfig, with_defaults, classified_failed, do_with_classified_retry,
}
use sylos_fs.Credentials.ClassifiedRetry.Answers.{loop, loop-stop, loop-again}

module _ {E W : Type 0} (env : Env E W) where
  refreshes :
      (cfg : ClassifiedRetryConfig E W) (w w1 w2 : W) (err : E) (refresh : W → Option E × W)
      → env.ctx_err w ≡ none
      → env.op w ≡ (some err, w1)
      → auth_test env cfg.base err ≡ true
      → cfg.base.refresh ≡ some refresh
      → refresh w1 ≡ (none, w2)
      → attempt env (classified_failed env cfg) no_waits w
        ≡ again (record no_waits { refreshed = true }) w2
  unfolding attempt classified_failed refresh_or
  refreshes cfg w w1 w2 err refresh live fails auth some_refresh renewed =
      rw (live, attempt, fails, classified_failed, some_refresh, refresh_or, auth, renewed) refl

  succeeds :
      (cfg : ClassifiedRetryConfig E W) (s : Waits) (w w1 : W)
      → env.ctx_err w ≡ none
      → env.op w ≡ (none, w1)
      → attempt env (classified_failed env cfg) s w ≡ stop (returns none) w1
  unfolding attempt
  succeeds cfg s w w1 live works = rw (live, attempt, works) refl

  -- With at least two iterations, a call whose first attempt is an auth failure, and whose refresh
  -- and second attempt succeed, succeeds: the second attempt starts in the world that the first one
  -- and the refresh have left.
  pub refreshed_lem :
      (cfg : ClassifiedRetryConfig E W) (w w1 w2 w3 : W) (err : E) (refresh : W → Option E × W)
      (n : ℕ)
      → cfg.base.max_iterations ≡ pos (suc (suc n))
      → env.ctx_err w ≡ none
      → env.op w ≡ (some err, w1)
      → auth_test env (with_defaults env cfg).base err ≡ true
      → cfg.base.refresh ≡ some refresh
      → refresh w1 ≡ (none, w2)
      → env.ctx_err w2 ≡ none
      → env.op w2 ≡ (none, w3)
      → do_with_classified_retry env cfg w ≡ (returns none, w3)
  unfolding do_with_classified_retry
  refreshed_lem cfg w w1 w2 w3 err refresh n iterations live fails auth some_refresh renewed live2
        works =
      let cfg' = with_defaults env cfg in
      let s = record no_waits { refreshed = true } in
      let left : pos_part cfg'.base.max_iterations ≡ suc (suc n) =
        ap (λ x. pos_part (positive_or x (pos 64))) iterations in
      ap (λ k. loop env cfg' k no_waits w) left
      ∙ loop-again env cfg' (suc n) no_waits w
          (refreshes cfg' w w1 w2 err refresh live fails auth some_refresh renewed)
      ∙ loop-stop env cfg' n s w2 (succeeds cfg' s w2 w3 live2 works)

  pub first_success :
      (cfg : ClassifiedRetryConfig E W) (w w1 : W) (n : ℕ)
      → cfg.base.max_iterations ≡ pos (suc n)
      → env.ctx_err w ≡ none
      → env.op w ≡ (none, w1)
      → do_with_classified_retry env cfg w ≡ (returns none, w1)
  unfolding do_with_classified_retry
  first_success cfg w w1 n iterations live works =
      let cfg' = with_defaults env cfg in
      let left : pos_part cfg'.base.max_iterations ≡ suc n =
        ap (λ x. pos_part (positive_or x (pos 64))) iterations in
      ap (λ k. loop env cfg' k no_waits w) left
      ∙ loop-stop env cfg' n no_waits w (succeeds cfg' no_waits w w1 live works)
