-- ===== src/Adapters/Dropbox/Sessions/Server.antt =====
-- A server as Dropbox documents its upload sessions: an append is taken where the session ends, until
-- one closes it; a finish at that offset stores the session's bytes under the path. A call
-- may be refused, which changes nothing else.
use sylos_fs.Base.{
  ℕ, String, List, [], ◌∷◌, ◌++◌, Bool, false, not, ◌&&◌, Option, none, some, ok, err, Call, length,
  ◌==◌, if◌then◌else◌,
}
use sylos_fs.Adapters.Dropbox.Sessions.{Content}

pub record Server (B E : Type 0) : Type 0 where
  pub received : List B
  pub closed : Bool
  pub stored : Option (String × List B)
  -- For the calls to come: taken, or refused with an error.
  pub refusals : List (Option E)

module _ {B E : Type 0} (out_of_order : E) where
  abbrev pub later_refusals : Server B E → Server B E
  later_refusals s = record s { refusals = elim s.refusals [ [] ↦ [] | _ ∷ rs ↦ rs ] }

  abbrev pub refusal : Server B E → Option E
  refusal s = elim s.refusals [ [] ↦ none | r ∷ rs ↦ r ]

  abbrev pub serve : {A : Type 0} → Call (Server B E) E A → Call (Server B E) E A
  serve call s = elim (refusal s) [
    | none ↦ call (later_refusals s)
    | some e ↦ (err e, later_refusals s)
  ]

  abbrev pub appended : ℕ → List B → Bool → Call (Server B E) E (Unit {0})
  appended offset chunk last s =
      if offset == length s.received && not s.closed
      then (ok tt, record s { received = s.received ++ chunk; closed = last })
      else (err out_of_order, s)

  abbrev pub finished : ℕ → String → Call (Server B E) E String
  finished offset path s =
      if offset == length s.received && s.closed
      then (ok "id:stored", record s { stored = some (path, s.received) })
      else (err out_of_order, s)

  abbrev pub in_order : Content B E (Server B E)
  in_order = record {
    append = λ id offset chunk last. serve (appended offset chunk last);
    start = serve (λ s. (ok "session", record s { received = []; closed = false }));
    finish = λ id offset path. serve (finished offset path);
    upload = λ path bytes. serve (λ s. (ok "id:stored", record s { stored = some (path, bytes) }));
  }
