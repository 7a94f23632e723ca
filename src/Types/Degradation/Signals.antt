-- ===== src/Types/Degradation/Signals.antt =====
-- Signals of many operations on one shared state: no hit is lost, and the limit only moves forward.
use mathlib.Core.List.{Memᴰ}
use sylos_fs.Base.{
  ℕ, zero, suc, ◌+◌, ◌≤◌, ℤ, pos, negsuc, List, [], ◌∷◌, Bool, true, false, Option, none, some, ◌≡◌,
  refl, ◌⊎◌, ◌≢◌, Bool-cases, ap, subst, inl, inr, ltb, arith,
}
use sylos_fs.Types.Degradation.{
  FsDegradationKind, FsDegradationSignal, FsDegradationState, signal_until, later, record_signal,
  schedule_throttle_backoff, clear_throttle_streak, take_recent_hits, degradation_state,
}

-- The calls that workers and the observer make, in the order in which the lock lets them in.
pub data Call : Type 0 where
  records : ℕ → FsDegradationSignal → Call
  schedules clears takes : Call

-- The hits that a call hands to the observer.
pub step : Call → FsDegradationState → ℕ × Option FsDegradationState
step (records now sig) s = (0, record_signal now sig (some s))
step schedules s = (0, (schedule_throttle_backoff (some s)).1)
step clears s = (0, clear_throttle_streak (some s))
step takes s = take_recent_hits (some s)

pub run : List Call → ℕ → Option FsDegradationState → ℕ × Option FsDegradationState
run [] taken s = (taken, s)
run (c ∷ cs) taken none = (taken, none)
run (c ∷ cs) taken (some s) = let (n, s') = step c s in run cs (taken + n) s'

pub signals : List Call → ℕ
signals [] = 0
signals (records now sig ∷ cs) = suc (signals cs)
signals (_ ∷ cs) = signals cs

-- The latest deadline that the signals of a history ask for, from a first one on.
pub latest : ℕ → List Call → ℕ
latest t [] = t
latest t (records now sig ∷ cs) = latest (later t (signal_until now sig)) cs
latest t (_ ∷ cs) = latest t cs

-- Over any history of calls, the hits that the observer has taken and those still counted add up
-- to the hits at the start and one for each signal: none is lost or counted twice.
pub run_hits :
    (cs : List Call) (taken : ℕ) (s : FsDegradationState)
    → let (got, end) = run cs taken (some s) in
      got + (degradation_state end).recent_hits ≡ taken + s.recent_hits + signals cs
unfolding run step signals record_signal schedule_throttle_backoff clear_throttle_streak
    take_recent_hits degradation_state
run_hits [] taken s = omega arith
run_hits (records now sig ∷ cs) taken s = omega (arith, run_hits cs (taken + 0) _)
run_hits (schedules ∷ cs) taken s = omega (arith, run_hits cs (taken + 0) _)
run_hits (clears ∷ cs) taken s = omega (arith, run_hits cs (taken + 0) _)
run_hits (takes ∷ cs) taken s = omega (arith, run_hits cs (taken + s.recent_hits) _)

run_until :
    (cs : List Call) (taken : ℕ) (s : FsDegradationState)
    → (degradation_state (run cs taken (some s)).1).rate_limited_until
      ≡ latest s.rate_limited_until cs
unfolding run step latest record_signal schedule_throttle_backoff clear_throttle_streak
    take_recent_hits degradation_state
run_until [] taken s = refl
run_until (records now sig ∷ cs) taken s = run_until cs (taken + 0) _
run_until (schedules ∷ cs) taken s = run_until cs (taken + 0) _
run_until (clears ∷ cs) taken s = run_until cs (taken + 0) _
run_until (takes ∷ cs) taken s = run_until cs (taken + s.recent_hits) _

-- A call asks for the deadline t: a rate limit, known or suspected, with a positive RetryAfter that
-- counts from the signal's time, or from now where the signal has none.
pub data Asks : Call → ℕ → Type 0 where
  asks :
      (now d : ℕ) (sig : FsDegradationSignal)
      → (sig.kind ≡ FsDegradationKind.rate_limit)
        ⊎ (sig.kind ≡ FsDegradationKind.suspected_rate_limit)
      → sig.retry_after ≡ pos (suc d)
      → {t : ℕ} → ((sig.at ≡ 0) × (t ≡ now + suc d)) ⊎ ((sig.at ≢ 0) × (t ≡ sig.at + suc d))
      → Asks (records now sig) t

signal_until-Asks :
    (now : ℕ) (sig : FsDegradationSignal) {t : ℕ}
    → signal_until now sig ≡ some t
    → Asks (records now sig) t
signal_until-Asks now sig {t} e = go sig.retry_after refl e
  where
    go : (z : ℤ) → sig.retry_after ≡ z → signal_until now sig ≡ some t → Asks (records now sig) t
    go (pos zero) r h = absurd (ground arith)
    go (pos (suc d)) r h = asks now d sig (ground arith) r (ground arith)
    go (negsuc d) r h = absurd (ground arith)

Asks-signal_until :
    {c : Call} {t : ℕ}
    → Asks c t
    → (now : ℕ) (sig : FsDegradationSignal) → c ≡ records now sig
    → signal_until now sig ≡ some t
Asks-signal_until (asks now' d sig' k r w) now sig e = ground arith

le-latest : (cs : List Call) (s : ℕ) → s ≤ latest s cs
unfolding latest
le-latest [] s = omega arith
le-latest (records now sig ∷ cs) s =
    let h = le-latest cs (later s (signal_until now sig)) in ground arith
le-latest (schedules ∷ cs) s = le-latest cs s
le-latest (clears ∷ cs) s = le-latest cs s
le-latest (takes ∷ cs) s = le-latest cs s

abbrev is_records : Call → Bool
is_records (records now sig) = true
is_records _ = false

Asks-is_records : {c : Call} {t : ℕ} → Asks c t → is_records c ≡ true
Asks-is_records (asks now d sig k r w) = refl

Asks-le-later :
    {c : Call} {t : ℕ} (now : ℕ) (sig : FsDegradationSignal) (s : ℕ)
    → Asks c t
    → c ≡ records now sig
    → t ≤ later s (signal_until now sig)
Asks-le-later now sig s a e = let h = Asks-signal_until a now sig e in rw h (ground arith)

Asks-le-latest :
    {c : Call} {t : ℕ} (cs : List Call) (s : ℕ) → Memᴰ c cs → Asks c t → t ≤ latest s cs
unfolding latest
Asks-le-latest [] s m a = elim m [ ]
Asks-le-latest (records now sig ∷ cs) s (Memᴰ.head e) a =
    omega (arith, Asks-le-later now sig s a e, le-latest cs (later s (signal_until now sig)))
Asks-le-latest (schedules ∷ cs) s (Memᴰ.head e) a = cc (ap is_records e, Asks-is_records a)
Asks-le-latest (clears ∷ cs) s (Memᴰ.head e) a = cc (ap is_records e, Asks-is_records a)
Asks-le-latest (takes ∷ cs) s (Memᴰ.head e) a = cc (ap is_records e, Asks-is_records a)
Asks-le-latest (records now sig ∷ cs) s (Memᴰ.tail m) a = Asks-le-latest cs _ m a
Asks-le-latest (schedules ∷ cs) s (Memᴰ.tail m) a = Asks-le-latest cs s m a
Asks-le-latest (clears ∷ cs) s (Memᴰ.tail m) a = Asks-le-latest cs s m a
Asks-le-latest (takes ∷ cs) s (Memᴰ.tail m) a = Asks-le-latest cs s m a

abbrev pub Attained : List Call → ℕ → ℕ → Type 0
Attained cs s u = (u ≡ s) ⊎ ((c : Call) × Memᴰ c cs × Asks c u)

Attained-cons : (c : Call) (cs : List Call) {s u : ℕ} → Attained cs s u → Attained (c ∷ cs) s u
Attained-cons c cs (inl e) = inl e
Attained-cons c cs (inr (d, m, a)) = inr (d, Memᴰ.tail m, a)

latest_round :
    (now : ℕ) (sig : FsDegradationSignal) (cs : List Call) (s : ℕ) (o : Option ℕ)
    → signal_until now sig ≡ o
    → {u : ℕ} → Attained cs (later s o) u
    → Attained (records now sig ∷ cs) s u
latest_round now sig cs s o e (inr (c, m, a)) = inr (c, Memᴰ.tail m, a)
latest_round now sig cs s none e (inl h) = inl h
latest_round now sig cs s (some v) e {u} (inl h) = elim (Bool-cases (ltb s v)) [
  | inl up ↦
      let here : v ≡ u = ground arith in
      inr (
        records now sig,
        Memᴰ.head refl,
        subst (Asks (records now sig)) here (signal_until-Asks now sig e),
      )
  | inr same ↦ inl (ground arith)
]

latest-Attained : (cs : List Call) (s : ℕ) → Attained cs s (latest s cs)
unfolding latest
latest-Attained [] s = inl refl
latest-Attained (records now sig ∷ cs) s =
    latest_round now sig cs s (signal_until now sig) refl
      (latest-Attained cs (later s (signal_until now sig)))
latest-Attained (schedules ∷ cs) s = Attained-cons _ cs (latest-Attained cs s)
latest-Attained (clears ∷ cs) s = Attained-cons _ cs (latest-Attained cs s)
latest-Attained (takes ∷ cs) s = Attained-cons _ cs (latest-Attained cs s)

-- After any history of calls on a degradation state, the limit is no earlier than a deadline that
-- one of the history's signals asked for: a rate limit, known or suspected, with a positive
-- RetryAfter.
pub Asks-le-run :
    (cs : List Call) (taken : ℕ) (s : FsDegradationState) {c : Call} {t : ℕ}
    → Memᴰ c cs
    → Asks c t
    → t ≤ (degradation_state (run cs taken (some s)).1).rate_limited_until
Asks-le-run cs taken s m a = rw (run_until cs taken s) (Asks-le-latest cs s.rate_limited_until m a)

-- The limit after a history is the one before it or a deadline that a signal of the history asked
-- for, and it is never earlier than before: no other call moves it, and nothing moves it back.
pub run-Attained :
    (cs : List Call) (taken : ℕ) (s : FsDegradationState)
    → let until = (degradation_state (run cs taken (some s)).1).rate_limited_until in
      (s.rate_limited_until ≤ until) × Attained cs s.rate_limited_until until
run-Attained cs taken s =
    rw (run_until cs taken s)
      (le-latest cs s.rate_limited_until, latest-Attained cs s.rate_limited_until)
