-- ===== src/Adapters/Box/Sent/Whole.antt =====
-- streamChunked of pkg/fs/box/transfer.go: its calls when none of them fails.
use sylos_fs.Base.{
  ℕ, zero, suc, ◌+◌, ◌≤◌, String, List, [], ◌∷◌, true, ok, ◌≡◌, refl, arith, length, length-take,
  length-drop, take, Call, inl, inr, Bool-cases, leb, ◌==◌,
}
use sylos_fs.Adapters.Streams.{Body, full, standing, rest_of}
use sylos_fs.Adapters.Box.{
  UploadSession, UploadPart, Destination, Client, part_size_of, Progress, advance, nothing_sent,
  upload_url, commit_url, send_part, need, part_loop, stream_chunked,
}

part_size_of-pos : (sess : UploadSession) → 1 ≤ part_size_of sess
unfolding part_size_of
part_size_of-pos sess = ground arith

module _ {B E W : Type 0} (client : Client B E W) where
  -- A client none of whose calls fails.
  pub record Reliable : Type 0 where
    pub creates :
        (d : Destination) (n : ℕ) (w : W)
        → (s : UploadSession) × (v : W) × (client.create_session d n w ≡ (ok s, v))
    pub sends :
        (url : String) (chunk : List B) (o n : ℕ) (w : W)
        → (p : UploadPart) × (v : W) × (client.upload_session_part url chunk o n w ≡ (ok p, v))
    pub commits :
        (url : String) (ps : List UploadPart) (digest : String) (w : W)
        → (v : W) × (client.commit_upload_session url ps digest w ≡ (ok tt, v))

  send_part-sent :
      (r : Reliable) (abort url : String) (size : ℕ) (chunk : List B) (p : Progress B)
      (next : Progress B → Call (Body B E × W) E (Progress B)) (body : Body B E) (w : W)
      → 1 ≤ length chunk
      → (part : UploadPart) × (v : W) × (send_part client abort url size chunk p next (body, w)
          ≡ next (advance p chunk part) (body, v))
  send_part-sent r abort url size [] p next body w h = absurd (omega arith)
  send_part-sent r abort url size (b ∷ chunk) p next body w h =
      let (part, v, e) = r.sends url (b ∷ chunk) p.offset size w in (part, v, rw e refl)

  part_loop-sent :
      (r : Reliable) (abort url : String) (part size fuel : ℕ) (p : Progress B) (body : Body B E)
      (w : W)
      → 1 ≤ part
      → p.offset ≤ size
      → size ≤ p.offset + fuel
      → size ≤ p.offset + length body.bytes
      → (q : Progress B) × (after : Body B E) × (v : W) × (part_loop client fuel abort url part size
            p
            (body, w)
          ≡ (ok q, (after, v)))
        × (q.offset ≡ size)
  unfolding part_loop
  part_loop-sent r abort url part size zero p body w one below fuelled enough =
      (p, body, w, refl, omega arith)
  part_loop-sent r abort url part size (suc fuel) p body w one below fuelled enough =
      elim (Bool-cases (leb size p.offset)) [
        | inl ended ↦ (p, body, w, rw ended refl, ground arith)
        | inr more ↦
            let n = need client part size p.offset in
            let left : p.offset + 1 ≤ size = ground arith in
            let some_bytes : 1 ≤ n = ground arith in
            let fits : p.offset + n ≤ size = ground arith in
            let chunk = take n body.bytes in
            let counted : length chunk ≡ n = omega (arith, length-take n body.bytes) in
            let whole : standing n body ≡ full = ground arith in
            let (up, u, sent) =
              send_part-sent r abort url size chunk p (part_loop client fuel abort url part size)
                (rest_of n body) w (omega arith) in
            let (q, after, v, done, reached) =
              part_loop-sent r abort url part size fuel (advance p chunk up) (rest_of n body) u one
                (omega arith) (omega arith) (omega (arith, length-drop n body.bytes)) in
            (q, after, v, rw (more, whole, sent) done, reached)
      ]

  -- When no call fails and the reader has at least the declared number of bytes, streamChunked
  -- returns no error.
  pub stream_chunked-sent :
      (destination : Destination) (size : ℕ) (body : Body B E) (w : W)
      → Reliable
      → size ≤ length body.bytes
      → (after : Body B E) × (v : W) × (stream_chunked client destination size (body, w)
          ≡ (ok tt, (after, v)))
  unfolding stream_chunked
  stream_chunked-sent destination size body w r enough =
      let (sess, w1, created) = r.creates destination size w in
      let (q, after, w2, looped, reached) =
        part_loop-sent r sess.abort (upload_url client sess) (part_size_of sess) size size
          nothing_sent body w1 (part_size_of-pos sess) (omega arith) (omega arith) (omega arith) in
      let (v, committed) = r.commits (commit_url client sess) q.parts (client.digest q.hashed) w2 in
      let whole : (q.offset == size) ≡ true = ground arith in
      (after, v, rw (created, looped, whole, committed) refl)
