-- ===== src/Adapters/Box/Sent/Halted.antt =====
-- The errors of the loop over the parts in streamChunked of pkg/fs/box/transfer.go: what has been sent
-- before each of them, and the abort of the session.
use sylos_fs.Base.{
  ℕ, zero, suc, ◌+◌, ◌≤◌, String, str_eq, List, [], ◌∷◌, ◌++◌, Option, some, Answer, ok, err, ◌≡◌,
  refl, sym, subst, ap, arith, length, length-append, take, take-append-drop, drop, ◌∙◌,
  append_assoc, Call, succeed, inl, inr, Bool-cases, Option-cases, leb, if◌then◌else◌,
}
use sylos_fs.Adapters.Streams.{Body, Standing, full, at_eof, stuck, standing, rest_of}
use sylos_fs.Adapters.Box.{
  UploadPart, Client, Progress, advance, abort_upload_session, send_part, part_round, need,
  part_loop,
}
use sylos_fs.Adapters.Box.Sent.{Sends, sent_nothing, sent_part}

module _ {B E W : Type 0} (client : Client B E W) where
  -- The world after an abort: a session without a URL for it is left.
  abbrev pub after_abort : String → W → W
  after_abort abort w = if str_eq abort "" then w else client.delete abort w

  -- Why the loop over the parts ends in an error, in a world after the parts that have been sent: the
  -- reader fails, or the upload of the next part. `before` is what the reader had and `rest` what is
  -- left of it.
  pub data LoopCause (url : String) (size start : ℕ) (before rest : List B) (broken : Option E)
      (u last : W) (e : E) : Type 0 where
    read_failed :
        broken ≡ some e
        → start + length before + 1 ≤ size
        → last ≡ u
        → LoopCause url size start before rest broken u last e
    part_failed :
        (offset : ℕ) (chunk left : List B)
        → rest ≡ chunk ++ left
        → 1 ≤ length chunk
        → offset + length rest ≡ start + length before
        → client.upload_session_part url chunk offset size u ≡ (err e, last)
        → LoopCause url size start before rest broken u last e

  -- The loop has sent some parts, and then has failed and called abort.
  pub record LoopFailed (abort url : String) (size start : ℕ) (before : List B) (broken : Option E)
      (w v : W) (e : E) : Type 0 where
    pub bytes : List B
    pub parts : List UploadPart
    pub rest : List B
    pub sent : W
    pub last : W
    pub sends : Sends client url size start bytes parts w sent
    pub read : before ≡ bytes ++ rest
    pub cause : LoopCause url size start before rest broken sent last e
    pub ends : v ≡ after_abort abort last

  pub abort-after :
      (abort : String) (w : W) → abort_upload_session client abort w ≡ after_abort abort w
  unfolding abort_upload_session
  abort-after abort w = refl

  later-cause :
      (url : String) (size start : ℕ) (chunk before rest : List B) (broken : Option E) (u last : W)
      (e : E)
      → LoopCause url size (start + length chunk) before rest broken u last e
      → LoopCause url size start (chunk ++ before) rest broken u last e
  later-cause url size start chunk before rest broken u last e (read_failed b short same) =
      read_failed b (omega (arith, short, length-append chunk before)) same
  later-cause url size start chunk before rest broken u last e
        (part_failed offset next left split some_bytes at_offset failed) =
      part_failed offset next left split some_bytes
        (omega (arith, at_offset, length-append chunk before)) failed

  later-failed :
      (abort url : String) (size start : ℕ) (chunk before : List B) (broken : Option E)
      (part : UploadPart) (w u v : W) (e : E)
      → client.upload_session_part url chunk start size w ≡ (ok part, u)
      → 1 ≤ length chunk
      → LoopFailed abort url size (start + length chunk) before broken u v e
      → LoopFailed abort url size start (chunk ++ before) broken w v e
  later-failed abort url size start chunk before broken part w u v e uploaded some_bytes f =
      record {
        bytes = chunk ++ f.bytes;
        parts = part ∷ f.parts;
        rest = f.rest;
        sent = f.sent;
        last = f.last;
        sends = sent_part uploaded some_bytes f.sends;
        read = ap (λ l. chunk ++ l) f.read ∙ sym (append_assoc chunk f.bytes f.rest);
        cause = later-cause url size start chunk before f.rest broken f.sent f.last e f.cause;
        ends = f.ends;
      }

  send_part-LoopFailed :
      (abort url : String) (size : ℕ) (chunk : List B) (p : Progress B)
      (next : Progress B → Call (Body B E × W) E (Progress B)) (body after : Body B E) (w v : W)
      (e : E)
      → send_part client abort url size chunk p next (body, w) ≡ (err e, (after, v))
      → ((p' : Progress B) (w' : W)
          → next p' (body, w') ≡ (err e, (after, v))
          → LoopFailed abort url size p'.offset body.bytes body.broken w' v e)
      → LoopFailed abort url size p.offset (chunk ++ body.bytes) body.broken w v e
  send_part-LoopFailed abort url size [] p next body after w v e h later = absurd (cc h)
  send_part-LoopFailed abort url size (b ∷ chunk) p next body after w v e h later =
      go (client.upload_session_part url (b ∷ chunk) p.offset size w) refl
    where
      go :
          (r : Answer E UploadPart × W)
          → client.upload_session_part url (b ∷ chunk) p.offset size w ≡ r
          → LoopFailed abort url size p.offset ((b ∷ chunk) ++ body.bytes) body.broken w v e
      go (err x, u) failed =
          let h' = rw failed at h in
          let same : x ≡ e = cc h' in
          let ended : abort_upload_session client abort u ≡ v = cc h' in
          record {
            bytes = [];
            parts = [];
            rest = (b ∷ chunk) ++ body.bytes;
            sent = w;
            last = u;
            sends = sent_nothing;
            read = refl;
            cause =
                part_failed p.offset (b ∷ chunk) body.bytes refl (omega arith) refl
                  (cc (failed, same));
            ends = sym ended ∙ abort-after abort u;
          }
      go (ok part, u) uploaded =
          later-failed abort url size p.offset (b ∷ chunk) body.bytes body.broken part w u v e
            uploaded (omega arith) (later (advance p (b ∷ chunk) part) u (rw uploaded at h))

  standing-stuck :
      (n : ℕ) (body : Body B E) (x : E)
      → standing n body ≡ stuck x
      → (body.broken ≡ some x) × (length body.bytes + 1 ≤ n)
  standing-stuck n body x h = elim (Bool-cases (leb n (length body.bytes))) [
    | inl enough ↦ absurd (cc (rw enough at h))
    | inr short ↦ elim (Option-cases body.broken) [
      | inl none_broken ↦ absurd (cc (rw (short, none_broken) at h))
      | inr (y, broken) ↦
          let same : y ≡ x = cc (rw (short, broken) at h) in (cc (broken, same), ground arith)
    ]
  ]

  part_round-LoopFailed :
      (stands : Standing E) (abort url : String) (size n : ℕ) (p : Progress B)
      (again : Progress B → Call (Body B E × W) E (Progress B)) (body after : Body B E) (w v : W)
      (e : E)
      → standing n body ≡ stands
      → p.offset + n ≤ size
      → part_round client stands abort url size (take n body.bytes) p again (rest_of n body, w)
        ≡ (err e, (after, v))
      → ((p' : Progress B) (w' : W)
          → again p' (rest_of n body, w') ≡ (err e, (after, v))
          → LoopFailed abort url size p'.offset (drop n body.bytes) body.broken w' v e)
      → LoopFailed abort url size p.offset body.bytes body.broken w v e
  part_round-LoopFailed (stuck x) abort url size n p again body after w v e stands fits h later =
      let (broken, short) = standing-stuck n body x stands in
      let same : x ≡ e = cc h in
      let ended : abort_upload_session client abort w ≡ v = cc h in
      record {
        bytes = [];
        parts = [];
        rest = body.bytes;
        sent = w;
        last = w;
        sends = sent_nothing;
        read = refl;
        cause = read_failed (cc (broken, same)) (omega arith) refl;
        ends = sym ended ∙ abort-after abort w;
      }
  part_round-LoopFailed full abort url size n p again body after w v e stands fits h later =
      subst (λ bytes. LoopFailed abort url size p.offset bytes body.broken w v e)
        (take-append-drop n body.bytes)
        (send_part-LoopFailed abort url size (take n body.bytes) p again (rest_of n body) after w v
          e h later)
  part_round-LoopFailed at_eof abort url size n p again body after w v e stands fits h later =
      subst (λ bytes. LoopFailed abort url size p.offset bytes body.broken w v e)
        (take-append-drop n body.bytes)
        (send_part-LoopFailed abort url size (take n body.bytes) p succeed (rest_of n body) after w
          v e h (λ p' w' impossible. absurd (cc impossible)))

  pub part_loop-LoopFailed :
      (abort url : String) (part size fuel : ℕ) (p : Progress B) (body after : Body B E) (w v : W)
      (e : E)
      → part_loop client fuel abort url part size p (body, w) ≡ (err e, (after, v))
      → LoopFailed abort url size p.offset body.bytes body.broken w v e
  unfolding part_loop
  part_loop-LoopFailed abort url part size zero p body after w v e h = absurd (cc h)
  part_loop-LoopFailed abort url part size (suc fuel) p body after w v e h =
      elim (Bool-cases (leb size p.offset)) [
        | inl ended ↦ absurd (cc (rw ended at h))
        | inr more ↦
            let n = need client part size p.offset in
            part_round-LoopFailed (standing n body) abort url size n p
              (part_loop client fuel abort url part size) body after w v e refl (ground arith)
              (rw more at h)
              (λ p' w'.
                part_loop-LoopFailed abort url part size fuel p' (rest_of n body) after w' v e)
      ]
