-- ===== src/Types/Ambiguous/Promotion.antt =====
-- When an ambiguous error is promoted to a suspected throttle.
use sylos_fs.Base.{
  ℕ, zero, suc, ◌+◌, ◌-◌, ◌≤◌, ◌<◌, ℤ, pos, negsuc, sub_ℕ, leb_ℤ, ◌≤ℤ◌, String, List, [], ◌∷◌, true,
  false, none, some, ◌≡◌, refl, sym, subst, ◌⊎◌, ◌↔◌, inl, inr, length, get_elem?, arith,
  Bool-cases, Option-cases,
}
use sylos_fs.Types.Ambiguous.{
  AmbiguousKeyStats, AmbiguousErrorTracker, AmbiguousTrackerConfig, new_ambiguous_error_tracker,
  ambiguous_key, or_default, burst_from, has_burst, throttle_like, suspected_throttle,
}
use sylos_fs.Types.Ambiguous.Counters.{
  Occurrence, observe, hits, stamps, newest, stats_of, observe-new, observe-config,
}

-- `count` events, counted from one of them on, lie within the window.
abbrev pub Burst : ℕ → ℕ → List ℕ → Type 0
Burst count window ts =
    (i : ℕ) × (t : ℕ) × (u : ℕ) × (get_elem? ts i ≡ some t)
    × (get_elem? ts (i + (count - 1)) ≡ some u)
    × (sub_ℕ u t ≤ℤ pos window)

Burst-cast :
    {count count' window window' : ℕ} {ts ts' : List ℕ}
    → count ≡ count'
    → window ≡ window'
    → ts ≡ ts'
    → Burst count window ts
    → Burst count' window' ts'
Burst-cast {count} {count'} {window} {window'} {ts} {ts'} p q r b =
    subst (λ c. Burst c window' ts') p
      (subst (λ w. Burst count w ts') q (subst (Burst count window) r b))

get_elem?-none : (ts : List ℕ) (i j : ℕ) → i ≤ j → get_elem? ts i ≡ none → get_elem? ts j ≡ none
get_elem?-none [] i j h e = refl
get_elem?-none (t ∷ ts) zero j h e = cc
get_elem?-none (t ∷ ts) (suc i) zero h e = absurd (omega arith)
get_elem?-none (t ∷ ts) (suc i) (suc j) h e = get_elem?-none ts i j (omega arith) e

burst_from-Burst :
    (count window : ℕ) (ts : List ℕ) → burst_from count window ts ≡ true → Burst count window ts
unfolding burst_from
burst_from-Burst count window [] h = cc
burst_from-Burst count window (t ∷ ts) h = elim (Option-cases (get_elem? (t ∷ ts) (count - 1))) [
  | inl e ↦ cc (rw (e, burst_from) at h)
  | inr (u, e) ↦ elim (Bool-cases (leb_ℤ (sub_ℕ u t) (pos window))) [
    | inl near ↦
        let same : zero + (count - 1) ≡ count - 1 = omega arith in
        (zero, t, u, refl, rw same e, ground arith)
    | inr far ↦
        let (i, a, b, p, q, w) = burst_from-Burst count window ts (rw (e, burst_from, far) at h) in
        let same : suc i + (count - 1) ≡ suc (i + (count - 1)) = omega arith in
        (suc i, a, b, p, rw same q, w)
  ]
]

Burst-burst_from :
    (count window : ℕ) (ts : List ℕ) (i t u : ℕ)
    → get_elem? ts i ≡ some t
    → get_elem? ts (i + (count - 1)) ≡ some u
    → sub_ℕ u t ≤ℤ pos window
    → burst_from count window ts ≡ true
unfolding burst_from
Burst-burst_from count window [] i t u p q w = cc
Burst-burst_from count window (x ∷ ts) zero t u p q w =
    let same : zero + (count - 1) ≡ count - 1 = omega arith in
    let q' : get_elem? (x ∷ ts) (count - 1) ≡ some u = rw same at q in
    rw (q', burst_from) (ground arith)
Burst-burst_from count window (x ∷ ts) (suc i) t u p q w =
    let same : suc i + (count - 1) ≡ suc (i + (count - 1)) = omega arith in
    let q' : get_elem? ts (i + (count - 1)) ≡ some u = rw same at q in
    elim (Option-cases (get_elem? (x ∷ ts) (count - 1))) [
      | inl e ↦ cc (get_elem?-none (x ∷ ts) (count - 1) (suc (i + (count - 1))) (omega arith) e)
      | inr (v, e) ↦
          rw (e, burst_from, Burst-burst_from count window ts i t u p q' w) (ground arith)
    ]

get_elem?-lt : (ts : List ℕ) (i : ℕ) {t : ℕ} → get_elem? ts i ≡ some t → i < length ts
get_elem?-lt [] i e = cc
get_elem?-lt (t ∷ ts) zero e = omega arith
get_elem?-lt (t ∷ ts) (suc i) e = omega (arith, get_elem?-lt ts i e)

-- hasBurst finds a burst whenever the kept timestamps hold one, and only then.
pub has_burst_iff :
    (count window : ℕ) (st : AmbiguousKeyStats)
    → (has_burst count window st ≡ true) ↔ Burst count window st.timestamps
unfolding has_burst
has_burst_iff count window st = (
  λ h. burst_from-Burst count window st.timestamps (ground arith),
  λ b.
      let late = get_elem?-lt st.timestamps (b.0 + (count - 1)) b.4 in
      let found = Burst-burst_from count window st.timestamps b.0 b.1 b.2 b.3 b.4 b.5 in
      ground arith,
)

-- What a history shows of a key: enough occurrences, a burst among the newest 32 of them, and many
-- more of them under many workers than under few.
pub record Promoted (t : AmbiguousErrorTracker) (key : String) (os : List Occurrence) : Type 0 where
  pub enough :
      t.min_samples ≤ hits false t.high_worker_floor key os + hits true t.high_worker_floor key os
  pub burst : Burst t.burst_count t.burst_window (newest (stamps key os))
  pub loaded : 2 ≤ hits true t.high_worker_floor key os
  pub skewed :
      (hits false t.high_worker_floor key os + 2 ≤ hits true t.high_worker_floor key os)
      ⊎ ((hits false t.high_worker_floor key os ≡ 0)
          × (t.min_samples ≤ hits true t.high_worker_floor key os))

-- The tests of throttle_like, one by one.
throttle_like_iff :
    (t : AmbiguousErrorTracker) (st : AmbiguousKeyStats)
    → (throttle_like t st ≡ true) ↔ (
        (t.min_samples ≤ st.total)
        × (has_burst t.burst_count t.burst_window st ≡ true)
        × (2 ≤ st.high_workers)
        × ((st.low_workers + 2 ≤ st.high_workers)
            ⊎ ((st.low_workers ≡ 0) × (t.min_samples ≤ st.high_workers))))
unfolding throttle_like
throttle_like_iff t st = ground arith

-- An entry that is not there yet fails the tests like one that counts nothing.
suspected_throttle_lem :
    (operation error_code : String) (t : AmbiguousErrorTracker)
    → 1 ≤ t.min_samples
    → suspected_throttle operation error_code (some t)
      ≡ throttle_like t (stats_of (ambiguous_key operation error_code) (some t))
unfolding suspected_throttle throttle_like
suspected_throttle_lem operation error_code t h = ground arith

or_default-pos : (cfg : AmbiguousTrackerConfig) → 1 ≤ (new_ambiguous_error_tracker cfg).min_samples
unfolding new_ambiguous_error_tracker
or_default-pos cfg = go cfg.min_samples
  where
    go : (z : ℤ) → 1 ≤ or_default z 4
    go (pos zero) = omega arith
    go (pos (suc n)) = omega arith
    go (negsuc n) = omega arith

-- After any history on a new tracker, an ambiguous error is promoted to a suspected throttle exactly
-- when its key was seen often enough, in a burst, and markedly more under many workers than under
-- few.
pub suspected_throttle_iff :
    (cfg : AmbiguousTrackerConfig) (os : List Occurrence) (operation error_code : String)
    → let t = new_ambiguous_error_tracker cfg in
      (suspected_throttle operation error_code (observe os (some t)) ≡ true)
      ↔ Promoted t (ambiguous_key operation error_code) os
suspected_throttle_iff cfg os operation error_code =
    let t = new_ambiguous_error_tracker cfg in
    let key = ambiguous_key operation error_code in
    let (r, e, a, b, c) = observe-config os t in
    let low : 1 ≤ r.min_samples = omega (arith, or_default-pos cfg) in
    let counts : (stats_of key (some r)).high_workers ≡ hits true t.high_worker_floor key os =
      rw e at (observe-new cfg os key).0 in
    let few : (stats_of key (some r)).low_workers ≡ hits false t.high_worker_floor key os =
      rw e at (observe-new cfg os key).1 in
    let all : (stats_of key (some r)).total
        ≡ hits false t.high_worker_floor key os + hits true t.high_worker_floor key os =
      rw e at (observe-new cfg os key).2 in
    let times : (stats_of key (some r)).timestamps ≡ newest (stamps key os) =
      rw e at (observe-new cfg os key).3 in
    let tests = throttle_like_iff r (stats_of key (some r)) in
    let bursts = has_burst_iff r.burst_count r.burst_window (stats_of key (some r)) in
    rw (e, suspected_throttle_lem operation error_code r low)
      (
        λ h. record {
          enough = omega (arith, (tests.0 h).0);
          burst = Burst-cast b c times (bursts.0 (tests.0 h).1);
          loaded = omega (arith, (tests.0 h).2);
          skewed = omega (arith, (tests.0 h).3);
        },
        λ p. tests.1 (
          omega (arith, p),
          bursts.1 (Burst-cast (sym b) (sym c) (sym times) p.burst),
          omega (arith, p),
          omega (arith, p),
        ),
      )
