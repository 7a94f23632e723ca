-- ===== src/Types/Ambiguous/Counters.antt =====
-- The counters of the tracker over a history of occurrences.
use sylos_fs.Base.{
  ℕ, zero, suc, ◌+◌, ◌-◌, ℤ, pos, leb_ℤ, String, str_eq, eq_iff, List, [], ◌∷◌, ◌++◌, Bool, true,
  false, Option, none, some, ◌≡◌, refl, inl, inr, length, drop, length-append, length-drop,
  drop-append, drop-drop, append_assoc, append-nil, ◌∙◌, ltb, arith, if◌then◌else◌, ◌==◌,
  Bool-cases, min,
}
use sylos_fs.Types.Ambiguous.{
  AmbiguousKeyStats, AmbiguousErrorTracker, AmbiguousTrackerConfig, new_ambiguous_error_tracker,
  ambiguous_key, no_stats, find_stats, put_stats, count_hit, trim, stats_or_new, record_hit,
}

find_stats-put_stats :
    (key j : String) (st : AmbiguousKeyStats) (keys : List (String × AmbiguousKeyStats))
    → find_stats j (put_stats key st keys) ≡ (if str_eq key j then some st else find_stats j keys)
unfolding find_stats put_stats
find_stats-put_stats key j st [] = refl
find_stats-put_stats key j st ((k, old) ∷ keys) =
    ground (arith, eq_iff key j, eq_iff k key, eq_iff k j, find_stats-put_stats key j st keys)

-- One occurrence of an ambiguous error: what was running, with how many workers, and when.
pub record Occurrence : Type 0 where
  pub operation : String
  pub error_code : String
  pub worker_count : ℤ
  pub at : ℕ
  pub now : ℕ

abbrev pub key_of : Occurrence → String
key_of o = ambiguous_key o.operation o.error_code

pub observe : List Occurrence → Option AmbiguousErrorTracker → Option AmbiguousErrorTracker
observe [] t = t
observe (o ∷ os) t = observe os (record_hit o.now o.operation o.error_code o.worker_count o.at t)

-- How many occurrences of a history have a key, with many workers or with few.
pub hits : Bool → ℕ → String → List Occurrence → ℕ
hits high floor key [] = 0
hits high floor key (o ∷ os) =
    let rest = hits high floor key os in
    if str_eq (key_of o) key
    then if leb_ℤ (pos floor) o.worker_count
      then if high then suc rest else rest
      else if high
      then rest
      else suc rest
    else rest

abbrev pub stats_of : String → Option AmbiguousErrorTracker → AmbiguousKeyStats
stats_of key none = no_stats
stats_of key (some t) = stats_or_new (find_stats key t.keys)

-- The tracker after one occurrence.
abbrev pub after : Occurrence → AmbiguousErrorTracker → AmbiguousErrorTracker
after o t =
    let when : ℕ = if o.at == 0 then o.now else o.at in
    record t {
      keys =
          put_stats (key_of o)
            (count_hit t.high_worker_floor o.worker_count when (stats_of (key_of o) (some t)))
            t.keys;
    }

pub record_hit-after :
    (o : Occurrence) (t : AmbiguousErrorTracker)
    → record_hit o.now o.operation o.error_code o.worker_count o.at (some t) ≡ some (after o t)
unfolding record_hit
record_hit-after o t = refl

-- Only the entry of the occurrence's own key changes.
pub stats_of-after :
    (o : Occurrence) (t : AmbiguousErrorTracker) (key : String)
    → stats_of key (some (after o t)) ≡ (
        if str_eq (key_of o) key
        then count_hit t.high_worker_floor o.worker_count
            (if o.at == 0 then o.now else o.at)
            (stats_of key (some t))
        else stats_of key (some t))
stats_of-after o t key =
    rw (find_stats-put_stats (key_of o) key _ t.keys) (elim (Bool-cases (str_eq (key_of o) key)) [
      | inl same ↦ let e : key_of o ≡ key = (eq_iff _ _).0 same in rw (same, e)
      | inr other ↦ rw other
    ])

observe-counts :
    (os : List Occurrence) (t : AmbiguousErrorTracker) (key : String)
    → ((stats_of key (observe os (some t))).high_workers
        ≡ (stats_of key (some t)).high_workers + hits true t.high_worker_floor key os)
      × ((stats_of key (observe os (some t))).low_workers
          ≡ (stats_of key (some t)).low_workers + hits false t.high_worker_floor key os)
unfolding observe hits
observe-counts [] t key = omega arith
observe-counts (o ∷ os) t key =
    let ih = observe-counts os (after o t) key in
    rw (record_hit-after o t) (ground (arith, ih, stats_of-after o t key))

-- Every entry counts each occurrence once, as one with many workers or with few, and keeps the
-- newest timestamps, 32 at most.
pub record IsValid (st : AmbiguousKeyStats) : Type 0 where
  pub counted : st.total ≡ st.low_workers + st.high_workers
  pub kept : length st.timestamps ≡ min st.total 32

count_hit-IsValid :
    (floor : ℕ) (w : ℤ) (at : ℕ) (st : AmbiguousKeyStats)
    → IsValid st
    → IsValid (count_hit floor w at st)
count_hit-IsValid floor w at st v = record {
  counted = ground arith;
  kept = ground (
    arith,
    length-append st.timestamps (at ∷ []),
    length-drop (length (st.timestamps ++ at ∷ []) - 32) (st.timestamps ++ at ∷ []),
  );
}

-- The newest 32 entries of a list.
abbrev pub newest {ℓ} : {A : Type ℓ} → List A → List A
newest xs = drop (length xs - 32) xs

trim_lem : (ts : List ℕ) → trim ts ≡ newest ts
trim_lem ts = elim (Bool-cases (ltb 32 (length ts))) [
  | inl long ↦ rw long
  | inr short ↦ let e : length ts - 32 ≡ zero = ground arith in rw (short, e)
]

-- Trimming after each append keeps what trimming once at the end would keep.
newest-append_newest {ℓ} :
    {A : Type ℓ} (xs : List A) (x : A) → newest (newest xs ++ x ∷ []) ≡ newest (xs ++ x ∷ [])
newest-append_newest xs x =
    let n = length xs in
    let kept = newest xs in
    let m : length kept ≡ n - (n - 32) = length-drop (n - 32) xs in
    let k : length (kept ++ x ∷ []) ≡ length kept + 1 = length-append kept (x ∷ []) in
    let k' : length (xs ++ x ∷ []) ≡ n + 1 = length-append xs (x ∷ []) in
    let a : length kept + 1 - 32 - length kept ≡ zero = omega arith in
    let b : n + 1 - 32 - n ≡ zero = omega arith in
    let c : n - 32 + (length kept + 1 - 32) ≡ n + 1 - 32 = omega arith in
    rw (
      k,
      k',
      drop-append (length kept + 1 - 32) kept (x ∷ []),
      drop-append (n + 1 - 32) xs (x ∷ []),
      a,
      b,
      drop-drop (length kept + 1 - 32) (n - 32) xs,
      c,
    )

-- When the occurrences with a key happened, in the order in which they were recorded.
pub stamps : String → List Occurrence → List ℕ
stamps key [] = []
stamps key (o ∷ os) =
    let rest = stamps key os in
    if str_eq (key_of o) key then (if o.at == 0 then o.now else o.at) ∷ rest else rest

observe-stamps :
    (os : List Occurrence) (t : AmbiguousErrorTracker) (key : String) (before : List ℕ)
    → (stats_of key (some t)).timestamps ≡ newest before
    → (stats_of key (observe os (some t))).timestamps ≡ newest (before ++ stamps key os)
unfolding observe stamps
observe-stamps [] t key before h = rw append-nil h
observe-stamps (o ∷ os) t key before h =
    rw (record_hit-after o t) (elim (Bool-cases (str_eq (key_of o) key)) [
      | inl same ↦
          let at : ℕ = if o.at == 0 then o.now else o.at in
          let one : (stats_of key (some (after o t))).timestamps ≡ newest (before ++ at ∷ []) =
            rw (stats_of-after o t key, same, trim_lem, h) (newest-append_newest before at) in
          rw same (observe-stamps os (after o t) key (before ++ at ∷ []) one ∙ rw append_assoc)
      | inr other ↦
          rw other (observe-stamps os (after o t) key before (rw (stats_of-after o t key, other) h))
    ])

observe-IsValid :
    (os : List Occurrence) (t : AmbiguousErrorTracker) (key : String)
    → IsValid (stats_of key (some t))
    → IsValid (stats_of key (observe os (some t)))
unfolding observe
observe-IsValid [] t key v = v
observe-IsValid (o ∷ os) t key v = rw (record_hit-after o t) (
    observe-IsValid os (after o t) key (
      rw (stats_of-after o t key) (elim (Bool-cases (str_eq (key_of o) key)) [
        | inl same ↦ rw same (count_hit-IsValid _ _ _ _ v)
        | inr other ↦ rw other v
      ])))

-- After any history of occurrences a new tracker holds, for every key, the number of occurrences of
-- that key with many and with few workers, their sum as the total, and the times of the newest 32
-- of them; occurrences of other keys leave it alone.
pub observe-new :
    (cfg : AmbiguousTrackerConfig) (os : List Occurrence) (key : String)
    → let t = new_ambiguous_error_tracker cfg in
      let st = stats_of key (observe os (some t)) in
      (st.high_workers ≡ hits true t.high_worker_floor key os)
      × (st.low_workers ≡ hits false t.high_worker_floor key os)
      × (st.total ≡ hits false t.high_worker_floor key os + hits true t.high_worker_floor key os)
      × (st.timestamps ≡ newest (stamps key os))
unfolding new_ambiguous_error_tracker find_stats
observe-new cfg os key =
    let t = new_ambiguous_error_tracker cfg in
    let counts = observe-counts os t key in
    let valid = observe-IsValid os t key (omega arith) in
    let times = observe-stamps os t key [] refl in ground (arith, counts, valid, times)

pub observe-config :
    (os : List Occurrence) (t : AmbiguousErrorTracker)
    → (r : AmbiguousErrorTracker) × (observe os (some t) ≡ some r)
      × (r.min_samples ≡ t.min_samples)
      × (r.burst_count ≡ t.burst_count)
      × (r.burst_window ≡ t.burst_window)
unfolding observe
observe-config [] t = (t, refl, refl, refl, refl)
observe-config (o ∷ os) t =
    let (r, e, a, b, c) = observe-config os (after o t) in (r, rw (record_hit-after o t) e, a, b, c)
