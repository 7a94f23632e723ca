-- ===== src/Types/Degradation/Backoff.antt =====
-- The exponential backoff that ScheduleThrottleBackoff hands out.
use sylos_fs.Base.{
  ℕ, zero, suc, ◌+◌, ◌-◌, ◌*◌, ◌^◌, ◌≤◌, ◌<◌, List, [], ◌∷◌, Option, none, some, ◌≡◌, refl, ap, min,
  ltb, arith, if◌then◌else◌, get_elem?, false,
}
use sylos_fs.Types.Degradation.{
  FsDegradationState, second, throttle_backoff_jitter, max_throttle_backoff, backoff_base,
  schedule_throttle_backoff, clear_throttle_streak,
}

-- The sleeps that consecutive throttle episodes are given, with no success between them.
pub sleeps : ℕ → Option FsDegradationState → List ℕ
sleeps zero s = []
sleeps (suc n) s = let (d, s') = schedule_throttle_backoff s in d ∷ sleeps n s'

shift_below_cap : (j : ℕ) → j ≤ 5 → ltb max_throttle_backoff (second * 2 ^ j) ≡ false
shift_below_cap zero h = refl
shift_below_cap (suc zero) h = refl
shift_below_cap (suc (suc zero)) h = refl
shift_below_cap (suc (suc (suc zero))) h = refl
shift_below_cap (suc (suc (suc (suc zero)))) h = refl
shift_below_cap (suc (suc (suc (suc (suc zero))))) h = refl
shift_below_cap (suc (suc (suc (suc (suc (suc j)))))) h = absurd (omega arith)

backoff_base_lem : (k : ℕ) → backoff_base (k + 1) ≡ second * 2 ^ min k 5
backoff_base_lem k =
    let n : (if ltb 6 (k + 1) then 6 else k + 1) - 1 ≡ min k 5 = ground arith in
    rw (n, shift_below_cap (min k 5) (omega arith))

pow_bounds : (j : ℕ) → j ≤ 5 → (1 ≤ 2 ^ j) × (2 ^ j ≤ 32)
pow_bounds zero h = omega arith
pow_bounds (suc zero) h = omega arith
pow_bounds (suc (suc zero)) h = omega arith
pow_bounds (suc (suc (suc zero))) h = omega arith
pow_bounds (suc (suc (suc (suc zero)))) h = omega arith
pow_bounds (suc (suc (suc (suc (suc zero))))) h = omega arith
pow_bounds (suc (suc (suc (suc (suc (suc j)))))) h = absurd (omega arith)

sleeps-streak :
    (n i k : ℕ) (s : FsDegradationState)
    → s.throttle_streak ≡ k
    → i < n
    → get_elem? (sleeps n (some s)) i ≡ some (second * 2 ^ min (k + i) 5 + throttle_backoff_jitter)
unfolding sleeps schedule_throttle_backoff
sleeps-streak zero i k s e h = absurd (omega arith)
sleeps-streak (suc n) zero k s e h =
    let same : k + zero ≡ k = omega arith in rw (e, backoff_base_lem k, same)
sleeps-streak (suc n) (suc i) k s e h =
    let same : k + suc i ≡ k + 1 + i = omega arith in
    rw same (sleeps-streak n i (k + 1) _ (ap (λ t. t + 1) e) (omega arith))

-- After a success has cleared the streak, the consecutive throttle episodes of a state sleep for
-- 1s, 2s, 4s, 8s, 16s and from the sixth on 32s, each with the fixed 250ms added.
pub sleeps-clear_throttle_streak :
    (n i : ℕ) (s : FsDegradationState)
    → i < n
    → get_elem? (sleeps n (clear_throttle_streak (some s))) i
      ≡ some (second * 2 ^ min i 5 + throttle_backoff_jitter)
unfolding clear_throttle_streak
sleeps-clear_throttle_streak n i s h =
    let same : zero + i ≡ i = omega arith in
    rw same at (sleeps-streak n i zero (record s { throttle_streak = 0 }) refl h)

-- Whatever state it is in, and for a missing state too, ScheduleThrottleBackoff gives between
-- 1.25s and 32.25s, so the cap of 64s is never what limits the sleep.
pub schedule_throttle_backoff_bounds :
    (s : Option FsDegradationState)
    → (1250000000 ≤ (schedule_throttle_backoff s).0)
      × ((schedule_throttle_backoff s).0 ≤ 32250000000)
      × ((schedule_throttle_backoff s).0 < max_throttle_backoff)
unfolding schedule_throttle_backoff
schedule_throttle_backoff_bounds none = omega arith
schedule_throttle_backoff_bounds (some s) =
    let k = s.throttle_streak in
    let p = pow_bounds (min k 5) (omega arith) in omega (arith, backoff_base_lem k, p)
