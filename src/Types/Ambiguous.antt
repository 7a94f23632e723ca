-- ===== src/Types/Ambiguous.antt =====
-- pkg/types/ambiguous_tracker.go: AmbiguousErrorTracker. The map from telemetry keys to counters is
-- an association list with one entry for each key; a nil tracker is `none`. Times are numbers of
-- nanoseconds since Go's zero time, 0 being the zero time.
pub mod Counters
pub mod Promotion
use sylos_fs.Base.{
  ℕ, zero, suc, ◌+◌, ◌-◌, ℤ, pos, negsuc, sub_ℕ, leb_ℤ, String, str_eq, List, [], ◌∷◌, ◌++◌, Bool,
  true, false, ◌&&◌, ◌||◌, Option, none, some, length, drop, get_elem?, ltb, leb, ◌==◌,
  if◌then◌else◌,
}
use Prim.Native.String

-- The configuration as it is passed in, and with its defaults in place.
pub record AmbiguousTrackerConfig : Type 0 where
  pub min_samples : ℤ
  pub burst_count : ℤ
  pub burst_window : ℤ
  pub high_worker_floor : ℤ

pub record AmbiguousKeyStats : Type 0 where
  pub total : ℕ
  pub low_workers : ℕ
  pub high_workers : ℕ
  pub timestamps : List ℕ

pub record AmbiguousErrorTracker : Type 0 where
  pub min_samples : ℕ
  pub burst_count : ℕ
  pub burst_window : ℕ
  pub high_worker_floor : ℕ
  pub keys : List (String × AmbiguousKeyStats)

-- `if x <= 0 { x = default }`
abbrev pub or_default : ℤ → ℕ → ℕ
or_default (pos zero) d = d
or_default (pos (suc n)) d = suc n
or_default (negsuc n) d = d

pub new_ambiguous_error_tracker : AmbiguousTrackerConfig → AmbiguousErrorTracker
new_ambiguous_error_tracker cfg = record {
  min_samples = or_default cfg.min_samples 4;
  burst_count = or_default cfg.burst_count 3;
  burst_window = or_default cfg.burst_window 2000000000;
  high_worker_floor = or_default cfg.high_worker_floor 4;
  keys = [];
}

abbrev pub or_unknown : String → String
or_unknown s = if str_eq s "" then "unknown" else s

abbrev pub ambiguous_key : String → String → String
ambiguous_key operation error_code =
    String.◌++◌ (String.◌++◌ (or_unknown operation) ":") (or_unknown error_code)

abbrev pub no_stats : AmbiguousKeyStats
no_stats = record { total = 0; low_workers = 0; high_workers = 0; timestamps = [] }

pub find_stats : String → List (String × AmbiguousKeyStats) → Option AmbiguousKeyStats
find_stats key [] = none
find_stats key ((k, st) ∷ keys) = if str_eq k key then some st else find_stats key keys

pub put_stats :
    String
    → AmbiguousKeyStats
    → List (String × AmbiguousKeyStats)
    → List (String × AmbiguousKeyStats)
put_stats key st [] = (key, st) ∷ []
put_stats key st ((k, old) ∷ keys) =
    if str_eq k key then (key, st) ∷ keys else (k, old) ∷ put_stats key st keys

abbrev pub max_ts : ℕ
max_ts = 32

-- The newest 32 timestamps.
abbrev pub trim : List ℕ → List ℕ
trim ts = if ltb max_ts (length ts) then drop (length ts - max_ts) ts else ts

-- One occurrence, counted in the entry of its key.
abbrev pub count_hit : ℕ → ℤ → ℕ → AmbiguousKeyStats → AmbiguousKeyStats
count_hit floor worker_count at st =
    let high = leb_ℤ (pos floor) worker_count in
    record {
      total = st.total + 1;
      low_workers = if high then st.low_workers else st.low_workers + 1;
      high_workers = if high then st.high_workers + 1 else st.high_workers;
      timestamps = trim (st.timestamps ++ at ∷ []);
    }

abbrev pub stats_or_new : Option AmbiguousKeyStats → AmbiguousKeyStats
stats_or_new none = no_stats
stats_or_new (some st) = st

-- Record, under the lock; a zero time stands for the clock's.
pub record_hit :
    ℕ → String → String → ℤ → ℕ → Option AmbiguousErrorTracker → Option AmbiguousErrorTracker
record_hit now operation error_code worker_count at none = none
record_hit now operation error_code worker_count at (some t) =
    let key = ambiguous_key operation error_code in
    let when : ℕ = if at == 0 then now else at in
    let st = stats_or_new (find_stats key t.keys) in
    some (record t {
      keys = put_stats key (count_hit t.high_worker_floor worker_count when st) t.keys;
    })

-- The loop of hasBurst from an index on, over the timestamps behind it: the window of `count`
-- timestamps that begins there, as long as there is one.
pub burst_from : ℕ → ℕ → List ℕ → Bool
burst_from count window [] = false
burst_from count window (t ∷ ts) =
    let more = burst_from count window ts in
    elim (get_elem? (t ∷ ts) (count - 1)) [
      | none ↦ false
      | some u ↦ if leb_ℤ (sub_ℕ u t) (pos window) then true else more
    ]

pub has_burst : ℕ → ℕ → AmbiguousKeyStats → Bool
unfolding burst_from
has_burst count window st =
    if ltb (length st.timestamps) count then false else burst_from count window st.timestamps

-- The tests of SuspectedThrottle on the entry of the key.
pub throttle_like : AmbiguousErrorTracker → AmbiguousKeyStats → Bool
throttle_like t st =
    if ltb st.total t.min_samples
    then false
    else if has_burst t.burst_count t.burst_window st
    then if ltb st.high_workers 2
      then false
      else (leb (st.low_workers + 2) st.high_workers
          || ((st.low_workers == 0) && leb t.min_samples st.high_workers))
    else false

pub suspected_throttle : String → String → Option AmbiguousErrorTracker → Bool
suspected_throttle operation error_code none = false
suspected_throttle operation error_code (some t) =
    elim (find_stats (ambiguous_key operation error_code) t.keys) [
      | none ↦ false
      | some st ↦ throttle_like t st
    ]
