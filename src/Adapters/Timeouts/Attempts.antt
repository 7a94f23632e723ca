-- ===== src/Adapters/Timeouts/Attempts.antt =====
-- Deadlines stay in their range, and every answer of DoIf is accounted for.
use sylos_fs.Base.{
  ℕ, zero, suc, ◌+◌, ◌/◌, subst, ◌≤◌, ℤ, pos, negsuc, ◌≤ℤ◌, true, false, Option, none, some, ◌≡◌,
  ◌⊎◌, inl, inr, refl, arith, Bool-cases, Option-cases,
}
use sylos_fs.Adapters.Timeouts.{
  min_chunk_bytes_per_sec, min_chunk, max_chunk, chunk_of_secs, chunk, Calls, Result, value, failed,
  gave_up, at_least_one, after_attempt, attempt_loop, do_if,
}

chunk_of_secs_mono :
    (x y : ℕ)
    → x ≤ y
    → (min_chunk ≤ chunk_of_secs x)
      × (chunk_of_secs x ≤ chunk_of_secs y)
      × (chunk_of_secs y ≤ max_chunk)
chunk_of_secs_mono x y h = (ground arith, ground arith, ground arith)

-- The seconds of a part: none for an empty part or an unknown size.
abbrev secs_of : ℤ → ℕ
secs_of (pos n) = n / min_chunk_bytes_per_sec
secs_of (negsuc n) = 0

chunk_lem : (a : ℤ) → chunk a ≡ chunk_of_secs (secs_of a)
unfolding chunk
chunk_lem (pos zero) = refl
chunk_lem (pos (suc n)) = refl
chunk_lem (negsuc n) = refl

secs_mono : (a b : ℤ) → a ≤ℤ b → secs_of a ≤ secs_of b
secs_mono (pos n) (pos m) h = omega arith
secs_mono (pos n) (negsuc m) h = absurd (omega arith)
secs_mono (negsuc n) (pos m) h = omega arith
secs_mono (negsuc n) (negsuc m) h = omega arith

-- A part's deadline is between 30 seconds and 5 minutes, and a larger part never has an earlier one.
pub chunk_mono :
    (a b : ℤ) → a ≤ℤ b → (min_chunk ≤ chunk a) × (chunk a ≤ chunk b) × (chunk b ≤ max_chunk)
chunk_mono a b h =
    rw (chunk_lem a, chunk_lem b) (chunk_of_secs_mono (secs_of a) (secs_of b) (secs_mono a b h))

module _ {V E W : Type 0} (calls : Calls V E W) (timeout : ℕ) where
  -- So many calls, one after the other and each while the context is live, that all fail with an error
  -- worth another attempt: the world that they leave, and the error of the last.
  pub data Failures : ℕ → W → Option E → W → Type 0 where
    no_failure : {w : W} → Failures 0 w none w
    failure :
        {n : ℕ} {w u v : W} {last : Option E} {e : E}
        → Failures n w last u
        → calls.ctx_err u ≡ none
        → calls.fn timeout u ≡ (inr e, v)
        → calls.transient v e ≡ true
        → Failures (suc n) w (some e) v

  -- What follows fewer failures than there are attempts, or as many.
  abbrev pub Explained : ℕ → W → Result V E × W → Type 0
  Explained attempts w (value x, v) =
      (n : ℕ) × (u : W) × (last : Option E) × Failures n w last u
      × (n + 1 ≤ attempts)
      × (calls.ctx_err u ≡ none)
      × (calls.fn timeout u ≡ (inl x, v))
  Explained attempts w (failed e, v) =
      (n : ℕ) × (u : W) × (last : Option E) × Failures n w last u
      × (n + 1 ≤ attempts)
      × (((calls.ctx_err u ≡ some e) × (v ≡ u))
          ⊎ ((calls.ctx_err u ≡ none)
              × (calls.fn timeout u ≡ (inr e, v))
              × (calls.transient v e ≡ false)))
  Explained attempts w (gave_up n last, v) = (n ≡ attempts) × Failures attempts w last v

  after_attempt-Explained :
      (attempts n : ℕ) (w u : W) (last : Option E) (a : (V ⊎ E) × W) (next : E → W → Result V E × W)
      → Failures n w last u
      → n + 1 ≤ attempts
      → calls.ctx_err u ≡ none
      → calls.fn timeout u ≡ a
      → ((e : E) (v : W) → Failures (suc n) w (some e) v → Explained attempts w (next e v))
      → Explained attempts w (after_attempt calls timeout a next)
  after_attempt-Explained attempts n w u last (inl x, v) next before below live h k =
      (n, u, last, before, below, live, h)
  after_attempt-Explained attempts n w u last (inr e, v) next before below live h k =
      elim (Bool-cases (calls.transient v e)) [
        | inl again ↦ rw again (k e v (failure before live h again))
        | inr final ↦ rw final (n, u, last, before, below, inr (live, h, final))
      ]

  attempt_loop-Explained :
      (attempts left n : ℕ) (last : Option E) (w u : W)
      → Failures n w last u
      → n + left ≡ attempts
      → Explained attempts w (attempt_loop calls timeout attempts left last u)
  unfolding attempt_loop
  attempt_loop-Explained attempts zero n last w u before counted =
      (refl, subst (λ k. Failures k w last u) (omega arith) before)
  attempt_loop-Explained attempts (suc left) n last w u before counted =
      elim (Option-cases (calls.ctx_err u)) [
        | inl live ↦
            rw (live, attempt_loop)
              (after_attempt-Explained attempts n w u last _ _ before (omega arith) live refl
                (λ e v after.
                  attempt_loop-Explained attempts left (suc n) (some e) w v after (omega arith)))
        | inr (e, done) ↦
            rw (done, attempt_loop) (n, u, last, before, omega arith, inl (done, refl))
      ]

  -- Every answer of DoIf comes after a run of calls that fail with transient errors. A value is
  -- that of the next call, and an error that is handed on is the context's or the next call's that
  -- is not transient: both come after fewer failures than there are attempts. DoIf gives up after
  -- exactly as many failures as there are attempts, with the error of the last. The attempts are as
  -- many as it is given, or one if these are fewer.
  pub do_if-Explained :
      (attempts : ℤ) (w : W) → Explained (at_least_one attempts) w (do_if calls timeout attempts w)
  unfolding do_if
  do_if-Explained attempts w =
      attempt_loop-Explained (at_least_one attempts) (at_least_one attempts) 0 none w w no_failure
        (omega arith)
