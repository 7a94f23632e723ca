-- ===== src/Adapters/Dropbox/Sessions/Sent.antt =====
-- A stream that no error interrupts is stored as it was read; a retry of the upload after a refused
-- append stores what the first attempt had not read.
use sylos_fs.Base.{
  ℕ, zero, suc, ◌+◌, ◌≤◌, String, List, [], ◌∷◌, ◌++◌, Bool, true, false, Option, none, some, ok,
  err, Call, ◌≡◌, refl, sym, ap, ◌∙◌, arith, length, length-append, length-take, length-drop, take,
  drop, take-append-drop, take-cons, take_of_le, drop_of_le, append-nil, append_assoc, Bool-cases,
  leb, ◌==◌, inl, inr,
}
use sylos_fs.Adapters.Dropbox.Sessions.{
  Body, full, at_eof, Content, append_round, append_loop, append_upload_session, upload_session,
}
use sylos_fs.Adapters.Dropbox.Sessions.Server.{Server, in_order}

module _ {B E : Type 0} (out_of_order : E) (size : ℕ) where
  abbrev api : Content B E (Server B E)
  api = in_order out_of_order

  abbrev pub sound_body : List B → Body B E
  sound_body bytes = record { bytes = bytes; broken = none }

  -- An open session, and a closed one, on a server that refuses no call.
  abbrev pub server : List B → Bool → Option (String × List B) → List (Option E) → Server B E
  server received closed stored refusals = record {
    received = received;
    closed = closed;
    stored = stored;
    refusals = refusals;
  }

  append-sent :
      (id : String) (chunk : List B) (last : Bool) (received : List B)
      (st : Option (String × List B))
      → api.append id (length received) chunk last (server received false st [])
        ≡ (ok tt, server (received ++ chunk) last st [])
  append-sent id chunk last received st = ground arith

  full-sent :
      (id : String) (chunk : List B) (again : Call (Body B E × Server B E) E ℕ) (left : Body B E)
      (received : List B) (st : Option (String × List B))
      → append_round api size full id
          (length received)
          chunk
          again
          (left, server received false st [])
        ≡ again (left, server (received ++ chunk) false st [])
  full-sent id [] again left received st = rw (append-nil received)
  full-sent id (b ∷ chunk) again left received st =
      rw (append-sent id (b ∷ chunk) false received st)

  last-sent :
      (id : String) (chunk : List B) (again : Call (Body B E × Server B E) E ℕ) (left : Body B E)
      (received : List B) (st : Option (String × List B))
      → append_round api size at_eof id
          (length received)
          chunk
          again
          (left, server received false st [])
        ≡ (ok (length received + length chunk), (left, server (received ++ chunk) true st []))
  last-sent id [] again left received st =
      let z : length received + 0 ≡ length received = omega arith in
      rw (z, append-sent id [] true received st)
  last-sent id (b ∷ chunk) again left received st = rw (append-sent id (b ∷ chunk) true received st)

  append_loop-sent :
      (fuel : ℕ) (id : String) (bytes received : List B) (st : Option (String × List B))
      → 1 ≤ size
      → suc (length bytes) ≤ fuel
      → append_loop api size fuel id
          (length received)
          (sound_body bytes, server received false st [])
        ≡ (
          ok (length received + length bytes),
          (sound_body [], server (received ++ bytes) true st []),
        )
  unfolding append_loop
  append_loop-sent zero id bytes received st one enough = absurd (omega arith)
  append_loop-sent (suc fuel) id bytes received st one enough =
      let chunk = take size bytes in
      let again = append_loop api size fuel id (length received + length chunk) in
      let left = sound_body (drop size bytes) in
      elim (Bool-cases (leb size (length bytes))) [
        | inl whole ↦
            let grown = length-append received chunk in
            let ih =
              append_loop-sent fuel id (drop size bytes) (received ++ chunk) st one
                (ground (arith, length-drop size bytes)) in
            let joined : (received ++ chunk) ++ drop size bytes ≡ received ++ bytes =
              append_assoc received chunk (drop size bytes)
              ∙ ap (λ l. received ++ l) (take-append-drop size bytes) in
            let total : length (received ++ chunk) + length (drop size bytes)
                ≡ length received + length bytes =
              ground (arith, grown, length-take size bytes, length-drop size bytes) in
            rw (whole, full-sent id chunk again left received st)
              (ap
                  (λ n.
                    append_loop api size fuel id n (left, server (received ++ chunk) false st []))
                  (sym grown)
                ∙ ih
                ∙ ap
                    (λ n. (
                      ok n,
                      (sound_body [], server ((received ++ chunk) ++ drop size bytes) true st []),
                    ))
                    total
                ∙ ap
                    (λ l.
                      (ok (length received + length bytes), (sound_body [], server l true st [])))
                    joined)
        | inr short ↦
            let all = take_of_le size bytes (ground arith) in
            let nothing = drop_of_le size bytes (ground arith) in
            rw (short, last-sent id chunk again left received st, all, nothing) refl
      ]

  append_upload_session-sent :
      (id : String) (bytes : List B) (st : Option (String × List B))
      → 1 ≤ size
      → append_upload_session api size id (sound_body bytes, server [] false st [])
        ≡ (ok (length bytes), (sound_body [], server bytes true st []))
  unfolding append_upload_session
  append_upload_session-sent id bytes st one =
      append_loop-sent (suc (length bytes)) id bytes [] st one (omega arith)
      ∙ ap (λ n. (ok n, (sound_body [], server bytes true st []))) (omega arith)

  -- On a server that refuses no call, uploadSession stores under the path all the bytes of a reader
  -- without an error, whatever session the server held before. (The buffer has room for a byte.)
  pub upload_session-sent :
      (path : String) (bytes : List B) (s : Server B E)
      → 1 ≤ size
      → s.refusals ≡ []
      → upload_session api size path (sound_body bytes, s)
        ≡ (ok "id:stored", (sound_body [], server bytes true (some (path, bytes)) []))
  unfolding upload_session
  upload_session-sent path bytes s one taken =
      let sent = append_upload_session-sent "session" bytes s.stored one in
      let here : (length bytes == length bytes) ≡ true = ground arith in rw (taken, sent, here) refl

  -- An upload whose first append is refused has read the chunk.
  pub upload_session-refused :
      (path : String) (bytes : List B) (s : Server B E) (e : E)
      → 1 ≤ size
      → 1 ≤ length bytes
      → s.refusals ≡ none ∷ some e ∷ []
      → upload_session api size path (sound_body bytes, s)
        ≡ (err e, (sound_body (drop size bytes), server [] false s.stored []))
  unfolding upload_session append_upload_session append_loop
  upload_session-refused path [] s e one some_bytes refuses = absurd (omega arith)
  upload_session-refused path (b ∷ bytes) s e one some_bytes refuses =
      rw (refuses, take-cons size b bytes one) refl
