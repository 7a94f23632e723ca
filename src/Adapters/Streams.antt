-- ===== src/Adapters/Streams.antt =====
-- Readers, as uploads see them: a reader stands beside the world, since what has been read of it stays
-- read.
use sylos_fs.Base.{
  ℕ, List, Bool, true, false, Option, none, some, Call, ok, ◌≡◌, sym, ap, length, drop, leb,
  if◌then◌else◌,
}

-- What is left to read: its bytes, and then the end of the file or the reader's error.
pub record Body (B E : Type 0) : Type 0 where
  pub bytes : List B
  pub broken : Option E

-- How io.ReadFull ends, with io.ErrUnexpectedEOF taken for io.EOF.
pub data Standing (E : Type 0) : Type 0 where
  full at_eof : Standing E
  stuck : E → Standing E

abbrev pub standing : {B E : Type 0} → ℕ → Body B E → Standing E
standing size body =
    if leb size (length body.bytes)
    then full
    else elim body.broken [ none ↦ at_eof | some e ↦ stuck e ]

-- The reader after a chunk.
abbrev pub rest_of : {B E : Type 0} → ℕ → Body B E → Body B E
rest_of size body = record body { bytes = drop size body.bytes }

abbrev pub is_at_eof : {E : Type 0} → Standing E → Bool
is_at_eof at_eof = true
is_at_eof _ = false

-- A call that leaves the reader alone.
abbrev pub on_api : {B E W A : Type 0} → Call W E A → Call (Body B E × W) E A
on_api call (body, w) = let (r, w') = call w in (r, (body, w'))

pub on_api-ok :
    {B E W A : Type 0} (call : Call W E A) (body rest : Body B E) (s t : W) (a : A)
    → on_api call (body, s) ≡ (ok a, (rest, t))
    → (call s ≡ (ok a, t)) × (rest ≡ body)
on_api-ok call body rest s t a h = (ap (λ p. (p.0, p.1.1)) h, sym (ap (λ p. p.1.0) h))
