-- ===== src/Adapters/Dropbox/Sessions.antt =====
-- pkg/fs/dropbox/client.go: appendUploadSession and uploadSession. The content calls, each behind
-- DoChunkIf or DoCommitIf, are a parameter; the size of the buffer is an argument, and
-- upload_session_chunk is the source's. The reader is a part of the world, since what has been
-- read of it stays read. An offset is read as an unbounded number.
pub mod Append
pub mod Server
pub mod Sent
use sylos_fs.Base.{
  ℕ, zero, suc, ◌+◌, String, List, [], ◌∷◌, Bool, true, false, Option, none, some, Answer, ok, err,
  Call, succeed, fail, and_then, ◌>>=◌, length, take, drop, leb, if◌then◌else◌,
}
pub use sylos_fs.Adapters.Streams.{
  Body, Standing, full, at_eof, stuck, standing, rest_of, is_at_eof, on_api,
}

pub record Content (B E W : Type 0) : Type 0 where
  -- append_v2: the session, the offset, the bytes, `close`
  pub append : String → ℕ → List B → Bool → Call W E (Unit {0})
  -- upload_session/start, and finish with the session, the offset and the path: its answer is an id
  pub start : Call W E String
  pub finish : String → ℕ → String → Call W E String
  -- files/upload: the path and the bytes
  pub upload : String → List B → Call W E String

module _ {B E W : Type 0} (content : Content B E W) (size : ℕ) where
  -- `if n > 0`: the chunk is appended, and closes the session at the end of the file. The answer is
  -- the length of the chunk, and whether the session is closed.
  abbrev pub append_chunk : String → ℕ → List B → Bool → Call W E Bool
  append_chunk id offset [] last = succeed false
  append_chunk id offset (b ∷ chunk) last =
      content.append id offset (b ∷ chunk) last >>= λ _. succeed last

  -- After the loop: an empty append closes a session that is still open.
  abbrev pub close_session : String → ℕ → Bool → Call W E ℕ
  close_session id offset true = succeed offset
  close_session id offset false = content.append id offset [] true >>= λ _. succeed offset

  -- The end of a round: the next one, the end of the loop, or the reader's error.
  abbrev pub after_chunk :
      Standing E → String → ℕ → Bool → Call (Body B E × W) E ℕ → Call (Body B E × W) E ℕ
  after_chunk full id offset closed again = again
  after_chunk at_eof id offset closed again = on_api (close_session id offset closed)
  after_chunk (stuck e) id offset closed again = fail e

  -- One round, after the read.
  abbrev pub append_round :
      Standing E → String → ℕ → List B → Call (Body B E × W) E ℕ → Call (Body B E × W) E ℕ
  append_round stands id offset chunk again =
      on_api (append_chunk id offset chunk (is_at_eof stands)) >>= λ closed.
      after_chunk stands id (offset + length chunk) closed again

  -- The loop, with fuel: a round that goes on has read a whole buffer.
  unfoldable pub append_loop : ℕ → String → ℕ → Call (Body B E × W) E ℕ
  append_loop zero id offset (body, w) = (ok offset, (body, w))
  append_loop (suc fuel) id offset (body, w) =
      let chunk = take size body.bytes in
      append_round (standing size body) id offset chunk
        (append_loop fuel id (offset + length chunk)) (rest_of size body, w)

  unfoldable pub append_upload_session : String → Call (Body B E × W) E ℕ
  unfolding append_loop
  append_upload_session id (body, w) = append_loop (suc (length body.bytes)) id 0 (body, w)

  -- uploadSession
  unfoldable pub upload_session : String → Call (Body B E × W) E String
  unfolding append_upload_session
  upload_session path = do
    id ← on_api content.start
    offset ← append_upload_session id
    on_api (content.finish id offset path)
