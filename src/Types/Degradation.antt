-- ===== src/Types/Degradation.antt =====
-- pkg/types/degradation.go: FSDegradationState. A time is a number of nanoseconds since Go's zero
-- time, 0 being the zero time itself; a duration is an integer number of nanoseconds. The clock is
-- an argument. Each method runs under the state's lock or is one atomic operation, so the model
-- takes the state before the call and gives the state after it; a nil receiver is `none`.
pub mod Backoff
pub mod Signals
use sylos_fs.Base.{
  ℕ, zero, suc, ◌+◌, ◌-◌, ◌*◌, ◌^◌, ℤ, pos, negsuc, String, Bool, true, false, Option, none, some,
  ltb, ◌==◌, if◌then◌else◌,
}

pub data FsDegradationKind : Type 0 where
  rate_limit suspected_rate_limit high_latency packet_loss auth_refresh : FsDegradationKind

pub record FsDegradationSignal : Type 0 where
  pub kind : FsDegradationKind
  pub retry_after : ℤ
  pub operation : String
  pub at : ℕ

pub record FsDegradationSnapshot : Type 0 where
  pub rate_limited_until : ℕ
  pub recent_hits : ℕ

-- The ambiguous-error tracker that the state also holds is in Types/Ambiguous.antt.
pub record FsDegradationState : Type 0 where
  pub rate_limited_until : ℕ
  pub recent_hits : ℕ
  pub throttle_streak : ℕ

abbrev pub new_fs_degradation_state : FsDegradationState
new_fs_degradation_state = record { rate_limited_until = 0; recent_hits = 0; throttle_streak = 0 }

abbrev pub second : ℕ
second = 1000000000

abbrev pub throttle_backoff_jitter : ℕ
throttle_backoff_jitter = 250000000

abbrev pub max_throttle_backoff : ℕ
max_throttle_backoff = 64000000000

-- DegradationState: the snapshot, which resets nothing.
pub degradation_state : Option FsDegradationState → FsDegradationSnapshot
degradation_state none = record { rate_limited_until = 0; recent_hits = 0 }
degradation_state (some s) = record {
  rate_limited_until = s.rate_limited_until;
  recent_hits = s.recent_hits;
}

abbrev pub inflates : FsDegradationKind → Bool
inflates k = elim k [
  | FsDegradationKind.rate_limit ↦ true
  | FsDegradationKind.suspected_rate_limit ↦ true
  | _ ↦ false
]

-- The end of the wait that a signal asks for: none unless it inflates with a positive RetryAfter.
abbrev pub signal_until : ℕ → FsDegradationSignal → Option ℕ
signal_until now sig = elim sig.retry_after [
  | pos d ↦
      if d == 0
      then none
      else if inflates sig.kind
      then some ((if sig.at == 0 then now else sig.at) + d)
      else none
  | negsuc d ↦ none
]

abbrev pub later : ℕ → Option ℕ → ℕ
later t none = t
later t (some u) = if ltb t u then u else t

unfoldable pub record_signal :
    ℕ → FsDegradationSignal → Option FsDegradationState → Option FsDegradationState
record_signal now sig none = none
record_signal now sig (some s) = some (record s {
  recent_hits = s.recent_hits + 1;
  rate_limited_until = later s.rate_limited_until (signal_until now sig);
})

-- `time.Second << (n - 1)`, cut off at MaxThrottleBackoff, with n the streak cut off at 6.
abbrev pub backoff_base : ℕ → ℕ
backoff_base streak =
    let n : ℕ = if ltb 6 streak then 6 else streak in
    let base : ℕ = second * 2 ^ (n - 1) in
    if ltb max_throttle_backoff base then max_throttle_backoff else base

unfoldable pub schedule_throttle_backoff : Option FsDegradationState → ℕ × Option FsDegradationState
schedule_throttle_backoff none = (second + throttle_backoff_jitter, none)
schedule_throttle_backoff (some s) =
    let streak : ℕ = s.throttle_streak + 1 in
    (backoff_base streak + throttle_backoff_jitter, some (record s { throttle_streak = streak }))

unfoldable pub clear_throttle_streak : Option FsDegradationState → Option FsDegradationState
clear_throttle_streak none = none
clear_throttle_streak (some s) = some (record s { throttle_streak = 0 })

-- TakeRecentHits: read and reset in one atomic swap.
pub take_recent_hits : Option FsDegradationState → ℕ × Option FsDegradationState
take_recent_hits none = (0, none)
take_recent_hits (some s) = (s.recent_hits, some (record s { recent_hits = 0 }))
