-- ===== src/Adapters/Box/Sent/Refused.antt =====
-- The errors of streamChunked of pkg/fs/box/transfer.go: what has been sent before each of them,
-- and the abort of the session.
use sylos_fs.Base.{
  ℕ, ◌+◌, ◌≤◌, List, ◌++◌, false, some, Answer, ok, err, ◌≡◌, refl, sym, subst, ap, arith, length,
  length-append, ◌∙◌, inl, inr, Bool-cases, ◌==◌,
}
use sylos_fs.Adapters.Streams.{Body, on_api}
use sylos_fs.Adapters.Box.{
  UploadSession, UploadPart, Destination, Client, part_size_of, Progress, nothing_sent, upload_url,
  commit_url, abort_upload_session, part_loop, after_commit, commit_parts, in_session,
  stream_chunked,
}
use sylos_fs.Adapters.Box.Sent.{Sends, part_loop-Progressed}
use sylos_fs.Adapters.Box.Sent.Halted.{
  after_abort, LoopCause, read_failed, part_failed, abort-after, part_loop-LoopFailed,
}

module _ {B E W : Type 0} (client : Client B E W) where
  -- Why streamChunked fails in a session, in a world after the parts that have been sent: the reader
  -- fails before it has given the declared size; the upload of the next part fails, at the offset where
  -- those before it end; another number of bytes than the declared size has been sent; or these are
  -- all, and the commit of their parts and digest fails.
  pub data Cause (session : UploadSession) (size : ℕ) (body : Body B E) (bytes rest : List B)
      (parts : List UploadPart) (u last : W) (e : E) : Type 0 where
    body_failed :
        body.broken ≡ some e
        → length body.bytes + 1 ≤ size
        → last ≡ u
        → Cause session size body bytes rest parts u last e
    part_refused :
        (chunk left : List B)
        → rest ≡ chunk ++ left
        → 1 ≤ length chunk
        → client.upload_session_part (upload_url client session) chunk (length bytes) size u
          ≡ (err e, last)
        → Cause session size body bytes rest parts u last e
    wrong_size :
        (length bytes == size) ≡ false
        → e ≡ client.size_error (length bytes) size
        → last ≡ u
        → Cause session size body bytes rest parts u last e
    commit_refused :
        length bytes ≡ size
        → client.commit_upload_session (commit_url client session) parts (client.digest bytes) u
          ≡ (err e, last)
        → Cause session size body bytes rest parts u last e

  -- There is no session; or one has been opened, the first bytes of the reader have been sent to it in
  -- parts, one of the causes has made it fail, and then it has been aborted.
  pub data Refused (destination : Destination) (size : ℕ) (body after : Body B E) (w v : W) (e : E)
      : Type 0 where
    no_session :
        client.create_session destination size w ≡ (err e, v)
        → after ≡ body
        → Refused destination size body after w v e
    session_aborted :
        (session : UploadSession) (bytes rest : List B) (parts : List UploadPart)
        (opened sent last : W)
        → client.create_session destination size w ≡ (ok session, opened)
        → Sends client (upload_url client session) size 0 bytes parts opened sent
        → body.bytes ≡ bytes ++ rest
        → Cause session size body bytes rest parts sent last e
        → v ≡ after_abort client session.abort last
        → Refused destination size body after w v e

  Cause-loop :
      (session : UploadSession) (size : ℕ) (body : Body B E) (bytes rest : List B)
      (parts : List UploadPart) (u last : W) (e : E)
      → body.bytes ≡ bytes ++ rest
      → LoopCause client (upload_url client session) size 0 body.bytes rest body.broken u last e
      → Cause session size body bytes rest parts u last e
  Cause-loop session size body bytes rest parts u last e split (read_failed broken short same) =
      body_failed broken (omega arith) same
  Cause-loop session size body bytes rest parts u last e split
        (part_failed offset chunk left ends some_bytes at_offset failed) =
      let at_end : offset ≡ length bytes =
        omega (arith, at_offset, ap length split, length-append bytes rest) in
      part_refused chunk left ends some_bytes (rw at_end at failed)

  -- After the loop: the size is wrong, or the commit fails.
  commit_parts-err :
      (session : UploadSession) (size : ℕ) (q : Progress B) (body after rest_body : Body B E)
      (parts : List UploadPart) (bytes rest : List B) (u v : W) (e : E)
      → q.offset ≡ length bytes
      → q.parts ≡ parts
      → q.hashed ≡ bytes
      → commit_parts client session size q (rest_body, u) ≡ (err e, (after, v))
      → (last : W) × Cause session size body bytes rest parts u last e
        × (v ≡ after_abort client session.abort last)
  commit_parts-err session size q body after rest_body parts bytes rest u v e o p d h =
      elim (Bool-cases (q.offset == size)) [
        | inl whole ↦
            go
              (client.commit_upload_session (commit_url client session) q.parts
                (client.digest q.hashed) u)
              refl (ground arith) (rw whole at h)
        | inr other ↦
            let h' = rw other at h in
            let same : client.size_error q.offset size ≡ e = cc h' in
            let ended : abort_upload_session client session.abort u ≡ v = cc h' in
            (
              u,
              wrong_size (rw o at other) (sym same ∙ ap (λ n. client.size_error n size) o) refl,
              sym ended ∙ abort-after client session.abort u,
            )
      ]
    where
      go :
          (r : Answer E (Unit {0}) × W)
          → client.commit_upload_session
              (commit_url client session)
              q.parts
              (client.digest q.hashed)
              u
            ≡ r
          → q.offset ≡ size
          → after_commit client session.abort (on_api (λ t. r) (rest_body, u)) ≡ (err e, (after, v))
          → (last : W) × Cause session size body bytes rest parts u last e
            × (v ≡ after_abort client session.abort last)
      go (ok x, t) committed whole h = absurd (cc h)
      go (err x, t) committed whole h =
          let same : x ≡ e = cc h in
          let ended : abort_upload_session client session.abort t ≡ v = cc h in
          (
            t,
            commit_refused (sym o ∙ whole) (cc (rw (p, d) at committed, same)),
            sym ended ∙ abort-after client session.abort t,
          )

  in_session-err :
      (destination : Destination) (session : UploadSession) (size : ℕ) (body after : Body B E)
      (w opened v : W) (e : E)
      → client.create_session destination size w ≡ (ok session, opened)
      → in_session client session size (body, opened) ≡ (err e, (after, v))
      → Refused destination size body after w v e
  in_session-err destination session size body after w opened v e created h =
      go
        (part_loop client size session.abort (upload_url client session) (part_size_of session) size
          nothing_sent (body, opened))
        refl
    where
      go :
          (r : Answer E (Progress B) × (Body B E × W))
          → part_loop client size session.abort
              (upload_url client session)
              (part_size_of session)
              size
              nothing_sent
              (body, opened)
            ≡ r
          → Refused destination size body after w v e
      go (err x, (left, u)) looped =
          let h' = rw looped at h in
          let f =
            part_loop-LoopFailed client session.abort (upload_url client session)
              (part_size_of session) size size nothing_sent body left opened u x looped in
          let same : x ≡ e = cc h' in
          let ended : u ≡ v = cc h' in
          session_aborted session f.bytes f.rest f.parts opened f.sent f.last created f.sends f.read
            (subst (λ y. Cause session size body f.bytes f.rest f.parts f.sent f.last y) same
              (Cause-loop session size body f.bytes f.rest f.parts f.sent f.last x f.read f.cause))
            (sym ended ∙ f.ends)
      go (ok q, (left, u)) looped =
          let g =
            part_loop-Progressed client session.abort (upload_url client session)
              (part_size_of session) size size nothing_sent q body left opened u looped in
          let (last, cause, ends) =
            commit_parts-err session size q body after left g.parts g.bytes left.bytes u v e
              (omega (arith, g.reached)) g.listed g.digested (rw looped at h) in
          session_aborted session g.bytes left.bytes g.parts opened u last created g.sends g.read
            cause ends

  -- When streamChunked returns an error, either creating a session has failed with it, and nothing
  -- has been read; or a session has been opened, the first bytes of the reader have been sent to it
  -- in parts at consecutive offsets, and then the error is the reader's, short of the declared
  -- size, or that of the upload of the next part, or the error that the bytes sent are not as many
  -- as declared, or that of the commit. After each of these, the last thing done is the DELETE of
  -- the session's abort URL, if it has one.
  pub stream_chunked-Refused :
      (destination : Destination) (size : ℕ) (body after : Body B E) (w v : W) (e : E)
      → stream_chunked client destination size (body, w) ≡ (err e, (after, v))
      → Refused destination size body after w v e
  unfolding stream_chunked
  stream_chunked-Refused destination size body after w v e h =
      go (client.create_session destination size w) refl
    where
      go :
          (r : Answer E UploadSession × W)
          → client.create_session destination size w ≡ r
          → Refused destination size body after w v e
      go (err f, w') created = let h' = rw created at h in no_session (cc (created, h')) (cc h')
      go (ok sess, w') created =
          in_session-err destination sess size body after w w' v e created (rw created at h)
