-- ===== src/Adapters/Calls/Throttled.antt =====
-- What one throttled call leaves: the answer, the number of attempts and the degradation state.
use sylos_fs.Base.{ℕ, ◌+◌, ℤ, pos, String, false, Option, none, some, ◌≡◌, refl, ap, ◌∙◌, arith}
use sylos_fs.Types.ErrorClass.{FsErrorBucket}
use sylos_fs.Types.Degradation.{
  FsDegradationKind, FsDegradationSignal, FsDegradationState, throttle_backoff_jitter, backoff_base,
  record_signal, schedule_throttle_backoff,
}
use sylos_fs.Credentials.Retry.{Env, returns}
use sylos_fs.Credentials.ClassifiedRetry.First.{first_throttle}
use sylos_fs.Adapters.Classify.{FsError, is_auth_failure}
use sylos_fs.Adapters.Calls.{
  Provider, Session, throttle_backoff, classify_error, record_degradation, exhausted_wait,
  on_exhausted, config, after_call, call_env, with_classified_retry,
}

-- The session's degradation state can be read back where it has been replaced.
abbrev pub Reads : {A W : Type 0} → Session A W → Type 0
Reads {W = W} session =
    (d : Option FsDegradationState) (w : W) → session.degradation (session.put_degradation d w) ≡ d

-- The signal of a rate limit that was scheduled for the n-th consecutive throttle.
abbrev pub scheduled_signal : ℕ → String → ℕ → FsDegradationSignal
scheduled_signal n operation at = record {
  kind = FsDegradationKind.rate_limit;
  retry_after = pos (backoff_base n + throttle_backoff_jitter);
  operation = operation;
  at = at;
}

abbrev pub streak_of : FsDegradationState → ℕ → FsDegradationState
streak_of d n = record d { throttle_streak = n }

module _ {A W : Type 0} (p : Provider A) (session : Session A W) where
  throttle_backoff_streak :
      (api : A) (d : FsDegradationState) (w : W)
      → p.api_retry_after api ≡ pos 0
      → session.degradation w ≡ some d
      → throttle_backoff p session (some api) w ≡ (
        pos (backoff_base (d.throttle_streak + 1) + throttle_backoff_jitter),
        session.put_degradation (some (streak_of d (d.throttle_streak + 1))) w,
      )
  unfolding schedule_throttle_backoff
  throttle_backoff_streak api d w z h = ground arith

  classify_error_throttle :
      (err : FsError A) (api : A) (w : W)
      → (p.classify (some err)).bucket ≡ FsErrorBucket.throttle
      → err.api ≡ some api
      → classify_error p session err w ≡ (
        record (p.classify (some err)) {
          retry_after = (throttle_backoff p session (some api) w).0;
        },
        (throttle_backoff p session (some api) w).1,
      )
  unfolding classify_error
  classify_error_throttle err api w b a = ground arith

  record_degradation-some :
      (kind : FsDegradationKind) (operation : String) (wait : ℤ) (now : ℕ) (d : FsDegradationState)
      (w : W)
      → session.degradation w ≡ some d
      → record_degradation p session kind operation wait now w
        ≡ session.put_degradation
            (record_signal now
              (record { kind = kind; retry_after = wait; operation = operation; at = now })
              (some d))
            w
  unfolding record_degradation
  record_degradation-some kind operation wait now d w h = ground arith

  exhausted_wait_lem :
      (err : FsError A) (api : A) (w : W)
      → err.api ≡ some api
      → exhausted_wait p session err w ≡ throttle_backoff p session (some api) w
  exhausted_wait_lem err api w a = ground arith

  on_exhausted_lem :
      (clock : W → ℕ) (operation : String) (err : FsError A) (api : A) (d : FsDegradationState)
      (w : W)
      → Reads session
      → err.api ≡ some api
      → p.api_retry_after api ≡ pos 0
      → session.degradation w ≡ some d
      → let n = d.throttle_streak + 1 in
        let now = clock (session.put_degradation (some (streak_of d n)) w) in
        session.degradation (on_exhausted p session clock operation err w)
        ≡ record_signal now (scheduled_signal n operation now) (some (streak_of d n))
  unfolding on_exhausted
  on_exhausted_lem clock operation err api d w reads a z h =
      let n = d.throttle_streak + 1 in
      let v = session.put_degradation (some (streak_of d n)) w in
      ap
        (λ q.
          session.degradation (
            record_degradation p session FsDegradationKind.rate_limit operation q.0 (clock q.1)
              q.1))
        (exhausted_wait_lem err api w a ∙ throttle_backoff_streak api d w z h)
      ∙ ap session.degradation (
          record_degradation-some FsDegradationKind.rate_limit operation
            (pos (backoff_base n + throttle_backoff_jitter)) (clock v) (streak_of d n) v
            (reads (some (streak_of d n)) w))
      ∙ reads _ v

  -- A call that is answered with a throttle without a Retry-After, on a session with a degradation
  -- state: the error comes back; the state's streak is two higher than before; and the signal that is
  -- recorded asks for the backoff of that streak, from some reading of the clock.
  pub with_classified_retry-throttled :
      (env : Env (FsError A) W) (operation : String) (err : FsError A) (api : A)
      (d : FsDegradationState) (w w1 : W)
      → Reads session
      → env.ctx_err w ≡ none
      → env.op w ≡ (some err, w1)
      → is_auth_failure p.status err ≡ false
      → (p.classify (some err)).bucket ≡ FsErrorBucket.throttle
      → err.api ≡ some api
      → p.api_retry_after api ≡ pos 0
      → session.degradation w1 ≡ some d
      → let n = d.throttle_streak + 1 + 1 in
        let (answer, w') = with_classified_retry p session env operation w in
        (answer ≡ returns (some err))
        × ((v : W) × (session.degradation w'
              ≡ record_signal
                  (env.now v)
                  (scheduled_signal n operation (env.now v))
                  (some (streak_of d n))))
  unfolding with_classified_retry config
  with_classified_retry-throttled env operation err api d w w1 reads live fails auth b a z h =
      let n = d.throttle_streak + 1 in
      let w2 = session.put_degradation (some (streak_of d n)) w1 in
      let classed =
        classify_error_throttle err api w1 b a
        ∙ ap (λ q. (record (p.classify (some err)) { retry_after = q.0 }, q.1))
            (throttle_backoff_streak api d w1 z h) in
      let first =
        first_throttle (call_env p session env) (config p session env.now operation) w w1 w2 err _
          live (ap (after_call p session) fails) auth (ap (λ q. (some q.0, q.1)) classed) b refl in
      let w3 = session.put_degradation (some (streak_of d (n + 1))) w2 in
      (
        ap (λ q. q.0) first,
        (
          w3,
          ap (λ q. session.degradation q.1) first
              ∙ on_exhausted_lem env.now operation err api (streak_of d n) w2 reads a z
                  (reads _ w1),
        ),
      )
