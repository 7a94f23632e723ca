-- ===== src/Adapters/Dropbox/Batch/Polling.antt =====
-- The polling of a batch job ends, and what it hands on is what the job was completed with.
use sylos_fs.Base.{
  ℕ, zero, suc, ◌+◌, ◌*◌, ◌≤◌, ◌<◌, String, List, false, Option, none, some, Answer, ok, err, ◌≡◌,
  refl, arith, ltb, Bool-cases, Option-cases, inl, inr,
}
use sylos_fs.Adapters.Dropbox.Batch.{
  Err, BatchApi, BatchEntry, BatchJobStatus, JobTag, complete, failed, in_progress, unexpected,
  job_tag, batch_poll_interval, batch_poll_max_wait, waited, after_check, poll_loop, poll_rounds,
}

module _ {W : Type 0} (api : BatchApi W) where
  -- The clock does not go back during a check, and a wait takes its time, as Go's monotonic clock
  -- has it.
  pub record Steady : Type 0 where
    pub checks : (endpoint job : String) (w : W) → api.now w ≤ api.now (api.check endpoint job w).1
    pub waits : (w : W) → api.now w + batch_poll_interval ≤ api.now (api.poll_wait w).1

  abbrev Settles : Option (Answer Err (List BatchEntry) × W) → Type 0
  Settles none = ⊥
  Settles (some r) = Unit {0}

  waited-Settles :
      (again : W → Option (Answer Err (List BatchEntry) × W)) (t : ℕ)
      (q : Answer Err (Unit {0}) × W)
      → t ≤ api.now q.1
      → ((v : W) → t ≤ api.now v → Settles (again v))
      → Settles (waited api again q)
  waited-Settles again t (ok u, v) h k = k v h
  waited-Settles again t (err x, v) h k = tt

  after_check-Settles :
      (job : String) (again : W → Option (Answer Err (List BatchEntry) × W)) (t : ℕ)
      (r : Answer Err BatchJobStatus × W)
      → Steady
      → t ≤ api.now r.1
      → ((v : W) → t + batch_poll_interval ≤ api.now v → Settles (again v))
      → Settles (after_check api job again r)
  after_check-Settles job again t (err e, w) s h k = tt
  after_check-Settles job again t (ok status, w) s h k = go (job_tag status.tag) refl
    where
      go :
          (tag : JobTag)
          → job_tag status.tag ≡ tag
          → Settles (after_check api job again (ok status, w))
      go complete e = rw (e, Settles) tt
      go failed e = rw (e, Settles) tt
      go (unexpected t') e = rw (e, Settles) tt
      go in_progress e =
          rw (e, Settles)
            (waited-Settles again (t + batch_poll_interval) (api.poll_wait w)
              (omega (arith, s.waits w)) k)

  -- One round, when the rounds that may follow settle.
  round-Settles :
      (fuel : ℕ) (endpoint job : String) (deadline : ℕ) (w : W)
      → Steady
      → ((v : W)
          → ltb deadline (api.now w) ≡ false
          → api.now w + batch_poll_interval ≤ api.now v
          → Settles (poll_loop api fuel endpoint job deadline v))
      → Settles (poll_loop api (suc fuel) endpoint job deadline w)
  unfolding poll_loop
  round-Settles fuel endpoint job deadline w s k = elim (Option-cases (api.ctx_err w)) [
    | inr (e, done) ↦ rw (done, Settles) tt
    | inl live ↦ elim (Bool-cases (ltb deadline (api.now w))) [
      | inl late ↦ rw (live, late, Settles) tt
      | inr early ↦
          rw (live, early, Settles)
            (after_check-Settles job (poll_loop api fuel endpoint job deadline) (api.now w)
              (api.check endpoint job w) s (s.checks endpoint job w) (λ v. k v early))
    ]
  ]

  -- With fuel for the rounds that fit before the deadline and one more, the loop settles.
  poll_loop-Settles :
      (k : ℕ) (endpoint job : String) (deadline : ℕ) (w : W)
      → Steady
      → deadline < api.now w + k * batch_poll_interval
      → Settles (poll_loop api (suc k) endpoint job deadline w)
  poll_loop-Settles zero endpoint job deadline w s h =
      round-Settles zero endpoint job deadline w s (λ v early later. absurd (ground arith))
  poll_loop-Settles (suc k) endpoint job deadline w s h =
      round-Settles (suc k) endpoint job deadline w s
        (λ v early later. poll_loop-Settles k endpoint job deadline v s (omega arith))

  some_of :
      (o : Option (Answer Err (List BatchEntry) × W))
      → Settles o
      → (r : Answer Err (List BatchEntry) × W) × (o ≡ some r)
  some_of none h = elim h [ ]
  some_of (some r) h = (r, refl)

  -- The polling of a job settles before its rounds are spent, when the clock does not go back
  -- during a check and every wait takes at least its half second.
  pub poll_loop-some :
      (endpoint job : String) (w : W)
      → Steady
      → (r : Answer Err (List BatchEntry) × W) × (poll_loop api
            (poll_rounds api)
            endpoint
            job
            (api.now w + batch_poll_max_wait)
            w
          ≡ some r)
  poll_loop-some endpoint job w s =
      some_of _
        (poll_loop-Settles 1201 endpoint job (api.now w + batch_poll_max_wait) w s (omega arith))
