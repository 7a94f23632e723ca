-- ===== src/Adapters/Box.antt =====
-- pkg/fs/box/transfer.go: the upload of a declared number of bytes in parts of a session. The calls of
-- client.go, with the tries of DoChunkIf and DoCommitIf in them, are a parameter, and so are
-- the digest and the escape of a session's id; sizes and offsets are read as unbounded numbers.
pub mod Sent
pub mod Writer
use Prim.Native.String.{◌++◌}
use sylos_fs.Base.{
  ℕ, zero, suc, ◌+◌, ◌-◌, ℤ, pos, negsuc, String, str_eq, List, [], ◌∷◌, ◌++◌ as append, Option,
  none, some, Answer, ok, err, Call, succeed, fail, ◌>>=◌, length, take, leb, ◌==◌, if◌then◌else◌,
}
use sylos_fs.Adapters.Streams.{Body, Standing, full, at_eof, stuck, standing, rest_of, on_api}

pub record UploadSession : Type 0 where
  pub id : String
  pub part_size : ℤ
  -- session_endpoints
  pub upload_part : String
  pub commit : String
  pub abort : String

pub record UploadPart : Type 0 where
  pub part_id : String
  pub offset : ℕ
  pub size : ℕ
  pub sha1 : String

-- What is written: a new file of a parent, or a version of an existing one.
pub data Destination : Type 0 where
  new_file : String → String → Destination
  version_of : String → Destination

pub record Client (B E W : Type 0) : Type 0 where
  -- CreateUploadSession and CreateUploadSessionForFile, with the declared size
  pub create_session : Destination → ℕ → Call W E UploadSession
  -- uploadSessionPartWithRetry: the URL, the chunk, its offset and the declared size
  pub upload_session_part : String → List B → ℕ → ℕ → Call W E UploadPart
  -- commitUploadSessionWithRetry: the URL, the parts and the digest
  pub commit_upload_session : String → List UploadPart → String → Call W E (Unit {0})
  -- UploadNewFile and UploadFileVersion: the declared size, and the reader beside the world
  pub upload_file : Destination → ℕ → Call (W × Body B E) E (Unit {0})
  -- The DELETE of AbortUploadSession.
  pub delete : String → W → W
  -- base64 of SHA-1
  pub digest : List B → String
  -- url.PathEscape
  pub path_escape : String → String
  -- "box: uploaded %d bytes but declared size %d"
  pub size_error : ℕ → ℕ → E

abbrev pub simple_upload_max_bytes : ℕ
simple_upload_max_bytes = 52428800

-- partSize: 8 MiB if the session has none.
unfoldable pub part_size_of : UploadSession → ℕ
part_size_of sess = elim sess.part_size [
  | pos zero ↦ 8388608
  | pos (suc n) ↦ suc n
  | negsuc n ↦ 8388608
]

-- What the loop has sent: `offset`, `parts`, and what the digest has been fed.
pub record Progress (B : Type 0) : Type 0 where
  pub offset : ℕ
  pub parts : List UploadPart
  pub hashed : List B

abbrev pub advance : {B : Type 0} → Progress B → List B → UploadPart → Progress B
advance p chunk part = record {
  offset = p.offset + length chunk;
  parts = append p.parts (part ∷ []);
  hashed = append p.hashed chunk;
}

abbrev pub nothing_sent : {B : Type 0} → Progress B
nothing_sent = record { offset = 0; parts = []; hashed = [] }

module _ {B E W : Type 0} (client : Client B E W) where
  -- uploadURL and commitURL; there is no such default for abortURL.
  abbrev pub session_url : UploadSession → String
  session_url sess =
      "https://upload.box.com/api/2.0/files/upload_sessions/" ++ client.path_escape sess.id

  unfoldable pub upload_url : UploadSession → String
  upload_url sess = if str_eq sess.upload_part "" then session_url sess else sess.upload_part

  unfoldable pub commit_url : UploadSession → String
  commit_url sess = if str_eq sess.commit "" then session_url sess ++ "/commit" else sess.commit

  -- AbortUploadSession, whose error the callers drop.
  unfoldable pub abort_upload_session : String → W → W
  abort_upload_session url w = if str_eq url "" then w else client.delete url w

  -- `abort(); return err`
  abbrev pub fail_aborting : {A : Type 0} → String → E → Call (Body B E × W) E A
  fail_aborting abort e (body, w) = (err e, (body, abort_upload_session abort w))

  -- After the upload of a part; `next` is what follows.
  abbrev pub after_part :
      String
      → List B
      → Progress B
      → (Progress B → Call (Body B E × W) E (Progress B))
      → Answer E UploadPart × (Body B E × W)
      → Answer E (Progress B) × (Body B E × W)
  after_part abort chunk p next (err e, s) = fail_aborting abort e s
  after_part abort chunk p next (ok part, s) = next (advance p chunk part) s

  -- A part that is not empty is uploaded. The write to the digest has no error: that of a hash
  -- never has.
  abbrev pub send_part :
      String
      → String
      → ℕ
      → List B
      → Progress B
      → (Progress B → Call (Body B E × W) E (Progress B))
      → Call (Body B E × W) E (Progress B)
  send_part abort url size [] p next s = (ok p, s)
  send_part abort url size (b ∷ chunk) p next s =
      after_part abort (b ∷ chunk) p next
        (on_api (client.upload_session_part url (b ∷ chunk) p.offset size) s)

  -- One round, after the read; `again` is the next round.
  abbrev pub part_round :
      Standing E
      → String
      → String
      → ℕ
      → List B
      → Progress B
      → (Progress B → Call (Body B E × W) E (Progress B))
      → Call (Body B E × W) E (Progress B)
  part_round (stuck e) abort url size chunk p again = fail_aborting abort e
  part_round at_eof abort url size chunk p again = send_part abort url size chunk p succeed
  part_round full abort url size chunk p again = send_part abort url size chunk p again

  -- min(partSize, w.size - offset)
  abbrev pub need : ℕ → ℕ → ℕ → ℕ
  need part size offset = if leb part (size - offset) then part else size - offset

  -- The loop, with fuel: a round that goes on has sent at least a byte.
  unfoldable pub part_loop :
      ℕ → String → String → ℕ → ℕ → Progress B → Call (Body B E × W) E (Progress B)
  part_loop zero abort url part size p s = (ok p, s)
  part_loop (suc fuel) abort url part size p (body, w) =
      let n = need part size p.offset in
      let round =
        part_round (standing n body) abort url size (take n body.bytes) p
          (part_loop fuel abort url part size) in
      if leb size p.offset then (ok p, (body, w)) else round (rest_of n body, w)

  -- After the commit.
  abbrev pub after_commit :
      String → Answer E (Unit {0}) × (Body B E × W) → Answer E (Unit {0}) × (Body B E × W)
  after_commit abort (err e, s) = fail_aborting abort e s
  after_commit abort (ok r, s) = (ok r, s)

  -- After the loop: the offset has to be the declared size.
  abbrev pub commit_parts : UploadSession → ℕ → Progress B → Call (Body B E × W) E (Unit {0})
  commit_parts sess size p s =
      if p.offset == size
      then after_commit sess.abort (
          on_api (client.commit_upload_session (commit_url sess) p.parts (client.digest p.hashed))
            s)
      else fail_aborting sess.abort (client.size_error p.offset size) s

  -- What follows the creation of the session.
  abbrev pub in_session : UploadSession → ℕ → Call (Body B E × W) E (Unit {0})
  in_session sess size =
      part_loop size sess.abort (upload_url sess) (part_size_of sess) size nothing_sent
      >>= commit_parts sess size

  -- streamChunked
  unfoldable pub stream_chunked : Destination → ℕ → Call (Body B E × W) E (Unit {0})
  unfolding part_loop
  stream_chunked destination size =
      on_api (client.create_session destination size) >>= λ sess. in_session sess size
