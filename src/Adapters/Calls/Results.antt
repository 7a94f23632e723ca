-- ===== src/Adapters/Calls/Results.antt =====
-- Calls of withClassifiedRetry whose closure sets a result variable of the caller: the variable
-- stands beside the world, with Go's zero value before the first attempt and after a failed one.
use sylos_fs.Base.{
  String, true, Option, none, some, Answer, ok, err, Call, ◌≡◌, refl, ap, ◌∙◌, inl, inr, subst,
  arith, Option-cases,
}
use sylos_fs.Credentials.Retry.{Env, Outcome, returns, refresh_failed, exceeded}
use sylos_fs.Credentials.ClassifiedRetry.{with_defaults}
use sylos_fs.Credentials.ClassifiedRetry.Origin.{Justified, do_with_classified_retry-Justified}
use sylos_fs.Credentials.ClassifiedRetry.Refreshed.{refreshed_lem, first_success}
use sylos_fs.Adapters.Classify.{FsError, is_auth_failure}
use sylos_fs.Adapters.Calls.{
  Provider, Session, clear_streak, after_call, call_env, config, with_classified_retry,
}

-- A function of the world alone, on the world with the variable.
abbrev beside : {W R B : Type 0} → (W → B × W) → W × R → B × (W × R)
beside f (w, r) = let (b, w') = f w in (b, (w', r))

-- The closure: `result, err = call()`.
abbrev pub assigned : {W E R : Type 0} → R → Answer E R × W → Option E × (W × R)
assigned zero (ok r, w) = (none, (w, r))
assigned zero (err e, w) = (some e, (w, zero))

module _ {A W : Type 0} (p : Provider A) (session : Session A W) where
  abbrev pub session_beside : (R : Type 0) → Session A (W × R)
  session_beside R = record {
    degradation = λ s. session.degradation s.0;
    put_degradation = λ d s. (session.put_degradation d s.0, s.1);
    clear_access_token = λ s. (session.clear_access_token s.0, s.1);
    refresh_access_token = beside session.refresh_access_token;
    active_workers = λ s. session.active_workers s.0;
  }

  abbrev pub env_beside :
      {R : Type 0} → Env (FsError A) W → R → Call W (FsError A) R → Env (FsError A) (W × R)
  env_beside {R} env zero call = record {
    ctx_err = λ s. env.ctx_err s.0;
    op = λ s. assigned zero (call s.0);
    sleep_ctx = λ d. beside (env.sleep_ctx d);
    now = λ s. env.now s.0;
    tracker = λ s. env.tracker s.0;
    put_tracker = λ t s. (env.put_tracker t s.0, s.1);
    is_needs_refresh = env.is_needs_refresh;
  }

  abbrev pub to_answer :
      {R : Type 0} → Outcome (FsError A) × (W × R) → Answer (Outcome (FsError A)) R × W
  to_answer (returns none, (w, r)) = (ok r, w)
  to_answer (o, (w, r)) = (err o, w)

  unfoldable pub retried :
      {R : Type 0}
      → Env (FsError A) W
      → String
      → R
      → Call W (FsError A) R
      → Call W (Outcome (FsError A)) R
  unfolding with_classified_retry
  retried {R} env operation zero call w =
      to_answer
        (with_classified_retry p (session_beside R) (env_beside env zero call) operation (w, zero))

  -- After a success the result is that of the last call.
  abbrev pub Obtained : {R : Type 0} → Call W (FsError A) R → R → W → Type 0
  Obtained call r w = (u : W) × (v : W) × (call u ≡ (ok r, v)) × (w ≡ clear_streak p session v)

  to_answer-ok :
      {R : Type 0} (o : Outcome (FsError A) × (W × R)) (r : R) (v : W)
      → to_answer o ≡ (ok r, v)
      → o ≡ (returns none, (v, r))
  to_answer-ok (returns none, (w, q)) r v h = cc h
  to_answer-ok (returns (some e), (w, q)) r v h = absurd (cc h)
  to_answer-ok (refresh_failed e f, (w, q)) r v h = absurd (cc h)
  to_answer-ok (exceeded loop n, (w, q)) r v h = absurd (cc h)

  after_call-none :
      {R : Type 0} (zero r : R) (a : Answer (FsError A) R × W) (v : W)
      → after_call p (session_beside R) (assigned zero a) ≡ (none, (v, r))
      → (u : W) × (a ≡ (ok r, u)) × (v ≡ clear_streak p session u)
  after_call-none zero r (err e, u) v h = absurd (cc h)
  after_call-none zero r (ok q, u) v h = elim (Option-cases (session.degradation u)) [
    | inl none_there ↦ (u, ground arith, ground arith)
    | inr (d, there) ↦ (u, ground arith, ground arith)
  ]

  pub retried-Obtained :
      {R : Type 0} (env : Env (FsError A) W) (operation : String) (zero : R)
      (call : Call W (FsError A) R) (w v : W) (r : R)
      → retried env operation zero call w ≡ (ok r, v)
      → Obtained call r v
  unfolding retried with_classified_retry
  retried-Obtained {R} env operation zero call w v r h =
      let s = session_beside R in
      let e = call_env p s (env_beside env zero call) in
      let cfg = config p s e.now operation in
      let ended = to_answer-ok _ r v h in
      let (u, last) =
        subst (λ o. Justified e (with_defaults e cfg) o.0 o.1) ended
          (do_with_classified_retry-Justified e cfg (w, zero)) in
      let (x, e1, e2) = after_call-none zero r (call u.0) v last in (u.0, x, e1, e2)

  after_call-success :
      {R : Type 0} (r : R) (v : W)
      → after_call p (session_beside R) (none, (v, r)) ≡ (none, (clear_streak p session v, r))
  after_call-success r v = elim (Option-cases (session.degradation v)) [
    | inl none_there ↦ rw (none_there, after_call, clear_streak) refl
    | inr (d, there) ↦ rw (there, after_call, clear_streak) refl
  ]

  -- A call whose first attempt is an auth failure, with a refresh and a second attempt that succeed.
  pub retried-refreshed :
      {R : Type 0} (env : Env (FsError A) W) (operation : String) (zero r : R)
      (call : Call W (FsError A) R) (w w1 w2 v : W) (e : FsError A)
      → env.ctx_err w ≡ none
      → call w ≡ (err e, w1)
      → is_auth_failure p.status e ≡ true
      → session.refresh_access_token (session.clear_access_token w1) ≡ (none, w2)
      → env.ctx_err w2 ≡ none
      → call w2 ≡ (ok r, v)
      → retried env operation zero call w ≡ (ok r, clear_streak p session v)
  unfolding retried with_classified_retry config
  retried-refreshed {R} env operation zero r call w w1 w2 v e live fails auth renewed live2 works =
      let s = session_beside R in
      let env' = call_env p s (env_beside env zero call) in
      let cfg = config p s env'.now operation in
      ap to_answer (
        refreshed_lem env' cfg (w, zero) (w1, zero) (w2, zero) (clear_streak p session v, r) e _ 6
          refl live (ap (λ a. after_call p s (assigned zero a)) fails) auth refl
          (ap (λ q. (q.0, (q.1, zero))) renewed) live2
          (ap (λ a. after_call p s (assigned zero a)) works ∙ after_call-success r v))

  pub retried-success :
      {R : Type 0} (env : Env (FsError A) W) (operation : String) (zero r : R)
      (call : Call W (FsError A) R) (w v : W)
      → env.ctx_err w ≡ none
      → call w ≡ (ok r, v)
      → retried env operation zero call w ≡ (ok r, clear_streak p session v)
  unfolding retried with_classified_retry config
  retried-success {R} env operation zero r call w v live works =
      let s = session_beside R in
      let env' = call_env p s (env_beside env zero call) in
      ap to_answer (
        first_success env' (config p s env'.now operation) (w, zero) (clear_streak p session v, r) 7
          refl live (ap (λ a. after_call p s (assigned zero a)) works ∙ after_call-success r v))
