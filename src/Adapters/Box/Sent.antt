-- ===== src/Adapters/Box/Sent.antt =====
-- streamChunked of pkg/fs/box/transfer.go: the parts that it sends to a session and what it commits.
pub mod Halted
pub mod Refused
pub mod Whole
use sylos_fs.Base.{
  ℕ, zero, suc, ◌+◌, ◌≤◌, String, List, [], ◌∷◌, ◌++◌, true, false, Answer, ok, err, ◌≡◌, refl, sym,
  subst, ap, arith, length, length-append, take, take-append-drop, drop, ◌∙◌, append-nil,
  append_assoc, and_then-ok, Call, succeed, ◌⊎◌, inl, inr, Bool-cases, leb, ◌==◌, if◌then◌else◌,
}
use sylos_fs.Adapters.Streams.{
  Body, Standing, full, at_eof, stuck, standing, rest_of, on_api, on_api-ok,
}
use sylos_fs.Adapters.Box.{
  UploadSession, UploadPart, Destination, Client, part_size_of, Progress, advance, nothing_sent,
  upload_url, commit_url, abort_upload_session, send_part, part_round, need, part_loop,
  after_commit, commit_parts, in_session, stream_chunked,
}

-- Parts of at least one byte, one after the other from an offset on, that together are `bytes`; each
-- is at the offset where the one before it ends.
pub data Sends {B E W : Type 0} (client : Client B E W) (url : String) (size : ℕ)
    : ℕ → List B → List UploadPart → W → W → Type 0 where
  sent_nothing : {o : ℕ} {w : W} → Sends client url size o [] [] w w
  sent_part :
      {o : ℕ} {chunk rest : List B} {part : UploadPart} {parts : List UploadPart} {w v u : W}
      → client.upload_session_part url chunk o size w ≡ (ok part, v)
      → 1 ≤ length chunk
      → Sends client url size (o + length chunk) rest parts v u
      → Sends client url size o (chunk ++ rest) (part ∷ parts) w u

module _ {B E W : Type 0} (client : Client B E W) where
  -- From one progress to another.
  pub record Progressed (url : String) (size : ℕ) (p q : Progress B) (before after : List B)
      (w v : W) : Type 0 where
    bytes : List B
    parts : List UploadPart
    sends : Sends client url size p.offset bytes parts w v
    reached : q.offset ≡ p.offset + length bytes
    listed : q.parts ≡ p.parts ++ parts
    digested : q.hashed ≡ p.hashed ++ bytes
    read : before ≡ bytes ++ after

  halted :
      (url : String) (size : ℕ) (p q : Progress B) (body after : Body B E) (w v : W)
      → succeed {W = Body B E × W} {E = E} p (body, w) ≡ (ok q, (after, v))
      → Progressed url size p q body.bytes after.bytes w v
  halted url size p q body after w v h =
      let same : p ≡ q = cc h in
      let still : w ≡ v = cc h in
      let left : body ≡ after = cc h in
      record {
        bytes = [];
        parts = [];
        sends = subst (λ x. Sends client url size p.offset [] [] w x) still sent_nothing;
        reached = omega (arith, ap (λ (r : Progress B). r.offset) same);
        listed = cc (same, append-nil p.parts);
        digested = cc (same, append-nil p.hashed);
        read = ap (λ (b : Body B E). b.bytes) left;
      }

  continued :
      (url : String) (size : ℕ) (p q : Progress B) (chunk before after : List B) (part : UploadPart)
      (w v u : W)
      → client.upload_session_part url chunk p.offset size w ≡ (ok part, v)
      → 1 ≤ length chunk
      → Progressed url size (advance p chunk part) q before after v u
      → Progressed url size p q (chunk ++ before) after w u
  continued url size p q chunk before after part w v u uploaded some_bytes g = record {
    bytes = chunk ++ g.bytes;
    parts = part ∷ g.parts;
    sends = sent_part uploaded some_bytes g.sends;
    reached = omega (arith, g.reached, length-append chunk g.bytes);
    listed = g.listed ∙ append_assoc p.parts (part ∷ []) g.parts;
    digested = g.digested ∙ append_assoc p.hashed chunk g.bytes;
    read = ap (λ l. chunk ++ l) g.read ∙ sym (append_assoc chunk g.bytes after);
  }

  send_part-Progressed :
      (abort url : String) (size : ℕ) (chunk : List B) (p q : Progress B)
      (next : Progress B → Call (Body B E × W) E (Progress B)) (body after : Body B E) (w v : W)
      → send_part client abort url size chunk p next (body, w) ≡ (ok q, (after, v))
      → ((p' : Progress B) (w' : W)
          → next p' (body, w') ≡ (ok q, (after, v))
          → Progressed url size p' q body.bytes after.bytes w' v)
      → Progressed url size p q (chunk ++ body.bytes) after.bytes w v
  send_part-Progressed abort url size [] p q next body after w v h later =
      halted url size p q body after w v h
  send_part-Progressed abort url size (b ∷ chunk) p q next body after w v h later =
      go (client.upload_session_part url (b ∷ chunk) p.offset size w) refl
    where
      go :
          (r : Answer E UploadPart × W)
          → client.upload_session_part url (b ∷ chunk) p.offset size w ≡ r
          → Progressed url size p q ((b ∷ chunk) ++ body.bytes) after.bytes w v
      go (err e, u) failed = absurd (cc (rw failed at h))
      go (ok part, u) uploaded =
          continued url size p q (b ∷ chunk) body.bytes after.bytes part w u v uploaded
            (omega arith) (later (advance p (b ∷ chunk) part) u (rw uploaded at h))

  part_round-Progressed :
      (stands : Standing E) (abort url : String) (size : ℕ) (chunk : List B) (p q : Progress B)
      (again : Progress B → Call (Body B E × W) E (Progress B)) (body after : Body B E) (w v : W)
      → part_round client stands abort url size chunk p again (body, w) ≡ (ok q, (after, v))
      → ((p' : Progress B) (w' : W)
          → again p' (body, w') ≡ (ok q, (after, v))
          → Progressed url size p' q body.bytes after.bytes w' v)
      → Progressed url size p q (chunk ++ body.bytes) after.bytes w v
  part_round-Progressed (stuck e) abort url size chunk p q again body after w v h later =
      absurd (cc h)
  part_round-Progressed full abort url size chunk p q again body after w v h later =
      send_part-Progressed abort url size chunk p q again body after w v h later
  part_round-Progressed at_eof abort url size chunk p q again body after w v h later =
      send_part-Progressed abort url size chunk p q succeed body after w v h
        (λ p' w' e. halted url size p' q body after w' v e)

  pub part_loop-Progressed :
      (abort url : String) (part size fuel : ℕ) (p q : Progress B) (body after : Body B E) (w v : W)
      → part_loop client fuel abort url part size p (body, w) ≡ (ok q, (after, v))
      → Progressed url size p q body.bytes after.bytes w v
  unfolding part_loop
  part_loop-Progressed abort url part size zero p q body after w v h =
      halted url size p q body after w v h
  part_loop-Progressed abort url part size (suc fuel) p q body after w v h =
      elim (Bool-cases (leb size p.offset)) [
        | inl ended ↦ halted url size p q body after w v (rw ended at h)
        | inr more ↦
            let n = need client part size p.offset in
            let g =
              part_round-Progressed (standing n body) abort url size (take n body.bytes) p q
                (part_loop client fuel abort url part size) (rest_of n body) after w v
                (rw more at h)
                (λ p' w'.
                  part_loop-Progressed abort url part size fuel p' q (rest_of n body) after w' v) in
            subst (λ bytes. Progressed url size p q bytes after.bytes w v)
              (take-append-drop n body.bytes) g
      ]

  -- A session has been created, all the bytes of the declared size have been sent to it from the
  -- front of the reader on, and the commit names their parts and the digest of these bytes.
  pub record Committed (destination : Destination) (size : ℕ) (body after : Body B E) (w v : W)
      : Type 0 where
    pub session : UploadSession
    pub opened : W
    pub sent : W
    pub bytes : List B
    pub parts : List UploadPart
    pub creates : client.create_session destination size w ≡ (ok session, opened)
    pub sends : Sends client (upload_url client session) size 0 bytes parts opened sent
    pub commits :
        client.commit_upload_session (commit_url client session) parts (client.digest bytes) sent
        ≡ (ok tt, v)
    pub whole : length bytes ≡ size
    pub read : body.bytes ≡ bytes ++ after.bytes

  commit_parts-ok :
      (session : UploadSession) (size : ℕ) (q : Progress B) (body after : Body B E) (w v : W)
      → commit_parts client session size q (body, w) ≡ (ok tt, (after, v))
      → (q.offset ≡ size)
        × (client.commit_upload_session
              (commit_url client session)
              q.parts
              (client.digest q.hashed)
              w
            ≡ (ok tt, v))
        × (after ≡ body)
  commit_parts-ok session size q body after w v h = elim (Bool-cases (q.offset == size)) [
    | inl whole ↦
        let (done, same) =
          go
            (client.commit_upload_session (commit_url client session) q.parts
              (client.digest q.hashed) w)
            (rw whole at h) in
        (ground arith, done, same)
    | inr other ↦ absurd (cc (rw other at h))
  ]
    where
      go :
          (r : Answer E (Unit {0}) × W)
          → after_commit client session.abort (on_api (λ u. r) (body, w)) ≡ (ok tt, (after, v))
          → (r ≡ (ok tt, v)) × (after ≡ body)
      go (err e, u) h = absurd (cc h)
      go (ok x, u) h = (cc h, cc h)

  -- When streamChunked returns no error, it has created a session for the declared size, has sent it
  -- exactly that many bytes, the first of the reader, in parts at consecutive offsets, and has
  -- committed these parts with the digest of these bytes. The rest of the reader is left.
  pub stream_chunked-Committed :
      (destination : Destination) (size : ℕ) (body after : Body B E) (w v : W)
      → stream_chunked client destination size (body, w) ≡ (ok tt, (after, v))
      → Committed destination size body after w v
  unfolding stream_chunked
  stream_chunked-Committed destination size body after w v h =
      let (sess, (body', w1), created, inside) =
        and_then-ok (on_api (client.create_session destination size) (body, w)) _ h in
      let (creates, same) =
        on_api-ok (client.create_session destination size) body body' w w1 sess created in
      let (q, (body2, w2), looped, rest) =
        and_then-ok
          (part_loop client size sess.abort (upload_url client sess) (part_size_of sess) size
            nothing_sent (body', w1))
          _ inside in
      let (whole, commits, kept) = commit_parts-ok sess size q body2 after w2 v rest in
      let g =
        part_loop-Progressed sess.abort (upload_url client sess) (part_size_of sess) size size
          nothing_sent q body' body2 w1 w2 looped in
      record {
        session = sess;
        opened = w1;
        sent = w2;
        bytes = g.bytes;
        parts = g.parts;
        creates = creates;
        sends = g.sends;
        commits = rw (g.listed, g.digested) at commits;
        whole = omega (arith, whole, g.reached);
        read = cc (g.read, same, kept);
      }
