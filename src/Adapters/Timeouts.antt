-- ===== src/Adapters/Timeouts.antt =====
-- pkg/fs/optimeout/optimeout.go: deadlines of parts and calls that are tried again. A call is a
-- function on the world W that is given its timeout; contexts and timers are parts of the world.
pub mod Attempts
use sylos_fs.Base.{
  ℕ, zero, suc, ◌+◌, ◌*◌, ◌/◌, ℤ, pos, negsuc, Bool, true, false, Option, none, some, ◌⊎◌, inl, inr,
  ltb, if◌then◌else◌,
}
use sylos_fs.Types.Degradation.{second}

abbrev pub min_chunk_bytes_per_sec : ℕ
min_chunk_bytes_per_sec = 1048576

abbrev pub min_chunk : ℕ
min_chunk = 30 * second

abbrev pub max_chunk : ℕ
max_chunk = 300 * second

abbrev pub chunk_of_secs : ℕ → ℕ
chunk_of_secs secs =
    if ltb 300 secs
    then max_chunk
    else if ltb (secs * second) min_chunk
    then min_chunk
    else secs * second

-- Chunk
pub chunk : ℤ → ℕ
chunk (pos zero) = min_chunk
chunk (pos (suc n)) = chunk_of_secs (suc n / min_chunk_bytes_per_sec)
chunk (negsuc n) = min_chunk

pub record Calls (V E W : Type 0) : Type 0 where
  pub ctx_err : W → Option E
  pub fn : ℕ → W → (V ⊎ E) × W
  pub transient : W → E → Bool

-- A value, an error that is handed on, or the last one of so many failed attempts.
pub data Result (V E : Type 0) : Type 0 where
  value : V → Result V E
  failed : E → Result V E
  gave_up : ℕ → Option E → Result V E

-- `if attempts < 1 { attempts = 1 }`
abbrev pub at_least_one : ℤ → ℕ
at_least_one (pos zero) = 1
at_least_one (pos (suc n)) = suc n
at_least_one (negsuc n) = 1

module _ {V E W : Type 0} (calls : Calls V E W) (timeout : ℕ) where
  -- After an attempt: its value, or its error, or the next attempts, which are given the error.
  abbrev pub after_attempt : (V ⊎ E) × W → (E → W → Result V E × W) → Result V E × W
  after_attempt (inl v, w) next = (value v, w)
  after_attempt (inr e, w) next = if calls.transient w e then next e w else (failed e, w)

  -- `for attempt := 1; attempt <= attempts; attempt++`, with the attempts left as fuel.
  pub attempt_loop : ℕ → ℕ → Option E → W → Result V E × W
  attempt_loop attempts zero last w = (gave_up attempts last, w)
  attempt_loop attempts (suc left) last w = elim (calls.ctx_err w) [
    | some e ↦ (failed e, w)
    | none ↦ after_attempt (calls.fn timeout w) (λ e w'. attempt_loop attempts left (some e) w')
  ]

  -- DoIf; Do, DoChunk, DoCommit and DoRPC are calls of it.
  pub do_if : ℤ → W → Result V E × W
  unfolding attempt_loop
  do_if attempts w = attempt_loop (at_least_one attempts) (at_least_one attempts) none w
