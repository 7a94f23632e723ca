-- ===== src/Adapters/Dropbox/Sessions/Append.antt =====
-- What a stream leaves in an upload session.
use sylos_fs.Base.{
  ℕ, zero, suc, ◌+◌, ◌≤◌, String, List, [], ◌∷◌, ◌++◌, Bool, true, false, none, ok, ◌≡◌, subst, ap,
  arith, length, length-append, take, take-append-drop, take_of_le, length-drop, ◌∙◌, append-nil,
  append_assoc, and_then-ok, Call, ◌⊎◌, inl, inr, Bool-cases, Option-cases, leb,
}
use sylos_fs.Adapters.Dropbox.Sessions.{
  Body, Standing, full, at_eof, stuck, Content, standing, rest_of, append_chunk, append_round,
  append_loop, close_session, append_upload_session, on_api,
}
use sylos_fs.Adapters.Streams.{on_api-ok}
use sylos_fs.Adapters.Dropbox.Sessions.Server.{Server, in_order}

module _ {B E : Type 0} (out_of_order : E) (size : ℕ) where
  abbrev api : Content B E (Server B E)
  api = in_order out_of_order

  -- The session is closed, with all of `content`, and the offset is its length.
  pub record Holds (content : List B) (offset : ℕ) (s : Server B E) : Type 0 where
    pub bytes : s.received ≡ content
    pub counted : offset ≡ length content
    pub complete : s.closed ≡ true

  -- What an append that has been taken leaves.
  record Grown (s : Server B E) (chunk : List B) (last : Bool) (t : Server B E) : Type 0 where
    longer : t.received ≡ s.received ++ chunk
    ended : t.closed ≡ last

  append-Grown :
      (id : String) (offset : ℕ) (chunk : List B) (last : Bool) (s t : Server B E)
      → api.append id offset chunk last s ≡ (ok tt, t)
      → Grown s chunk last t
  append-Grown id offset chunk last s t h = record {
    longer = ground (arith, h);
    ended = ground (arith, h);
  }

  append_chunk-Grown :
      (id : String) (offset : ℕ) (chunk : List B) (last closed : Bool) (s t : Server B E)
      → s.closed ≡ false
      → append_chunk api size id offset chunk last s ≡ (ok closed, t)
      → Grown s chunk closed t
  append_chunk-Grown id offset [] last closed s t opened h = record {
    longer = cc (h, append-nil s.received);
    ended = cc (h, opened);
  }
  append_chunk-Grown id offset (b ∷ chunk) last closed s t opened h =
      let (u, v, taken, done) = and_then-ok (api.append id offset (b ∷ chunk) last s) _ h in
      let g = append-Grown id offset (b ∷ chunk) last s v taken in
      record { longer = cc (g.longer, done); ended = cc (g.ended, done) }

  close_session-Holds :
      (id : String) (offset n : ℕ) (closed : Bool) (s t : Server B E)
      → s.closed ≡ closed
      → offset ≡ length s.received
      → close_session api size id offset closed s ≡ (ok n, t)
      → Holds s.received n t
  close_session-Holds id offset n true s t e reached h = record {
    bytes = ground (arith, h);
    counted = ground (arith, h);
    complete = ground (arith, h);
  }
  close_session-Holds id offset n false s t e reached h =
      let (u, v, taken, done) = and_then-ok (api.append id offset [] true s) _ h in
      let g = append-Grown id offset [] true s v taken in
      record {
        bytes = cc (g.longer, done, append-nil s.received);
        counted = cc (done, reached);
        complete = cc (g.ended, done);
      }

  append_chunk-open :
      (id : String) (offset : ℕ) (chunk : List B) (closed : Bool) (s t : Server B E)
      → append_chunk api size id offset chunk false s ≡ (ok closed, t)
      → closed ≡ false
  append_chunk-open id offset [] closed s t h = cc h
  append_chunk-open id offset (b ∷ chunk) closed s t h =
      let (u, v, taken, done) = and_then-ok (api.append id offset (b ∷ chunk) false s) _ h in
      cc done

  abbrev Round :
      Standing E
      → List B
      → Call (Body B E × Server B E) E ℕ
      → ℕ
      → Body B E × Server B E
      → Body B E
      → Server B E
      → Type 0
  Round full chunk again n end left s =
      (u : Server B E) × Grown s chunk false u × (again (left, u) ≡ (ok n, end))
  Round at_eof chunk again n end left s = Holds (s.received ++ chunk) n end.1
  Round (stuck e) chunk again n end left s = ⊥

  Grown-Holds :
      (s u t : Server B E) (chunk : List B) (closed : Bool) (id : String) (offset n : ℕ)
      → Grown s chunk closed u
      → offset ≡ length s.received
      → close_session api size id (offset + length chunk) closed u ≡ (ok n, t)
      → Holds (s.received ++ chunk) n t
  Grown-Holds s u t chunk closed id offset n g reached h =
      let l = length-append s.received chunk in
      let lon = g.longer in
      let long : length u.received ≡ length s.received + length chunk = cc (ap length lon, l) in
      let k =
        close_session-Holds id (offset + length chunk) n closed u t g.ended
          (omega (arith, reached, long)) h in
      subst (λ c. Holds c n t) lon k

  append_round-Round :
      (stands : Standing E) (id : String) (offset n : ℕ) (chunk : List B)
      (again : Call (Body B E × Server B E) E ℕ) (left : Body B E) (s : Server B E)
      (end : Body B E × Server B E)
      → s.closed ≡ false
      → offset ≡ length s.received
      → append_round api size stands id offset chunk again (left, s) ≡ (ok n, end)
      → Round stands chunk again n end left s
  append_round-Round full id offset n chunk again left s end opened reached h =
      let call = append_chunk api size id offset chunk false in
      let (closed, (l, u), taken, goes) = and_then-ok (on_api call (left, s)) _ h in
      let (took, same) = on_api-ok call left l s u closed taken in
      let c = append_chunk-open id offset chunk closed s u took in
      (
        u,
        subst (λ c. Grown s chunk c u) c
            (append_chunk-Grown id offset chunk false closed s u opened took),
        subst (λ l. again (l, u) ≡ (ok n, end)) same goes,
      )
  append_round-Round at_eof id offset n chunk again left s end opened reached h =
      let call = append_chunk api size id offset chunk true in
      let (closed, (l, u), taken, goes) = and_then-ok (on_api call (left, s)) _ h in
      let (took, same) = on_api-ok call left l s u closed taken in
      let (done, same') =
        on_api-ok (close_session api size id (offset + length chunk) closed) l end.0 u end.1 n
          goes in
      Grown-Holds s u end.1 chunk closed id offset n
        (append_chunk-Grown id offset chunk true closed s u opened took) reached done
  append_round-Round (stuck e) id offset n chunk again left s end opened reached h =
      let call = append_chunk api size id offset chunk false in
      let (closed, (l, u), taken, goes) = and_then-ok (on_api call (left, s)) _ h in
      absurd (cc goes)

  standing-cases :
      (body : Body B E)
      → ((standing size body ≡ full) × (size ≤ length body.bytes))
        ⊎ (((standing size body ≡ at_eof) × (body.broken ≡ none) × (length body.bytes ≤ size))
            ⊎ ((e : E) × (standing size body ≡ stuck e)))
  standing-cases body = elim (Bool-cases (leb size (length body.bytes))) [
    | inl whole ↦ inl (rw whole, ground arith)
    | inr short ↦ elim (Option-cases body.broken) [
      | inl sound ↦ inr (inl (rw (short, sound), sound, ground arith))
      | inr (e, broken) ↦ inr (inr (e, rw (short, broken)))
    ]
  ]

  append_loop-Holds :
      (fuel : ℕ) (id : String) (offset : ℕ) (body rest : Body B E) (s t : Server B E) (n : ℕ)
      → 1 ≤ size
      → suc (length body.bytes) ≤ fuel
      → s.closed ≡ false
      → offset ≡ length s.received
      → append_loop api size fuel id offset (body, s) ≡ (ok n, (rest, t))
      → Holds (s.received ++ body.bytes) n t × (body.broken ≡ none)
  unfolding append_loop
  append_loop-Holds zero id offset body rest s t n one enough opened reached h =
      absurd (omega arith)
  append_loop-Holds (suc fuel) id offset body rest s t n one enough opened reached h =
      let chunk = take size body.bytes in
      let again = append_loop api size fuel id (offset + length chunk) in
      let left = rest_of size body in
      let end : Body B E × Server B E = (rest, t) in
      let round : (stands : Standing E)
          → standing size body ≡ stands
          → Round stands chunk again n end left s =
        λ stands e. append_round-Round stands id offset n chunk again left s end opened reached (
          subst (λ st. append_round api size st id offset chunk again (left, s) ≡ (ok n, end)) e
            h) in
      elim (standing-cases body) [
        | inl (e, whole) ↦
            let (u, g, goes) = round full e in
            let lon = g.longer in
            let long : length u.received ≡ length s.received + length chunk =
              cc (ap length lon, length-append s.received chunk) in
            let (k, sound) =
              append_loop-Holds fuel id (offset + length chunk) left rest u t n one
                (omega (arith, length-drop size body.bytes)) g.ended (omega (arith, long)) goes in
            let joined : u.received ++ left.bytes ≡ s.received ++ body.bytes =
              ap (λ l. l ++ left.bytes) lon
              ∙ append_assoc s.received chunk left.bytes
              ∙ ap (λ l. s.received ++ l) (take-append-drop size body.bytes) in
            (subst (λ c. Holds c n t) joined k, sound)
        | inr (inl (e, sound, short)) ↦ (
          subst (λ c. Holds (s.received ++ c) n t) (take_of_le size body.bytes short)
              (round at_eof e),
          sound,
        )
        | inr (inr (x, e)) ↦ absurd (round (stuck x) e)
      ]

  -- If appendUploadSession succeeds on an open and empty session, then the reader came to the end of
  -- the file without an error, the session is closed and holds all that was to be read, and the
  -- offset that is answered is its length. (The buffer has room for at least one byte.)
  pub append_upload_session-Holds :
      (id : String) (body rest : Body B E) (s t : Server B E) (n : ℕ)
      → 1 ≤ size
      → s.received ≡ []
      → s.closed ≡ false
      → append_upload_session api size id (body, s) ≡ (ok n, (rest, t))
      → Holds body.bytes n t × (body.broken ≡ none)
  unfolding append_upload_session
  append_upload_session-Holds id body rest s t n one empty opened h =
      let (k, sound) =
        append_loop-Holds (suc (length body.bytes)) id 0 body rest s t n one (omega arith) opened
          (cc (ap length empty)) h in
      (subst (λ c. Holds (c ++ body.bytes) n t) empty k, sound)
