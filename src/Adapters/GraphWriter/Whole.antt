-- ===== src/Adapters/GraphWriter/Whole.antt =====
-- The stream that ends with a whole fragment: its last fragment went out with the total unknown.
use sylos_fs.Base.{
  ℕ, zero, suc, ◌+◌, ◌<◌, negsuc, List, [], ◌∷◌, true, false, none, length, take_of_le, drop_of_le,
  ◌≡◌, refl, arith,
}
use sylos_fs.Adapters.GraphWriter.{
  Limits, Writer, new_writer, ensure_session, total_of, send, flush, flush_final, write, close,
  write_all, upload,
}
use sylos_fs.Adapters.GraphWriter.Stream.{Upload, in_order}

module _ {B : Type 0} (limits : Limits) where
  abbrev before : Upload B
  before = record { received = []; stored = none }

  -- The writer and the server once the fragment is out.
  abbrev sent : Writer B
  sent = record {
    declared_size = negsuc 0;
    closed = false;
    buf = [];
    offset = 0 + limits.upload_chunk_size;
    session_started = true;
    simple_only = false;
  }

  abbrev after : List B → Upload B
  after p = record { received = p; stored = none }

  flush_short :
      (left : ℕ) (w : Writer B) (u : Upload B)
      → length w.buf < limits.upload_chunk_size
      → flush limits in_order left w u ≡ (none, (w, u))
  unfolding flush
  flush_short zero w u h = refl
  flush_short (suc left) w u h = ground arith

  abbrev loaded : List B → Writer B
  loaded p = record (new_writer limits none) { buf = p }

  send_whole :
      (p : List B)
      → length p ≡ limits.upload_chunk_size
      → send limits in_order limits.upload_chunk_size
          (total_of (loaded p).declared_size)
          (ensure_session limits in_order (loaded p) before)
        ≡ (none, (false, (sent, after p)))
  unfolding ensure_session new_writer
  send_whole p h =
      let t = take_of_le limits.upload_chunk_size p (omega arith) in
      let d = drop_of_le limits.upload_chunk_size p (omega arith) in ground arith

  write_whole :
      (p : List B)
      → length p ≡ limits.upload_chunk_size
      → limits.simple_upload_max_bytes < limits.upload_chunk_size
      → write limits in_order p (new_writer limits none) before ≡ (none, (sent, after p))
  unfolding write new_writer flush
  write_whole [] h larger = absurd (omega arith)
  write_whole (b ∷ p) h larger =
      let t = take_of_le limits.upload_chunk_size (b ∷ p) (omega arith) in
      let d = drop_of_le limits.upload_chunk_size (b ∷ p) (omega arith) in
      let f = flush_short (length p) sent (after (b ∷ p)) (omega arith) in rw (t, d) (ground arith)

  -- An upload of unknown size of exactly one fragment, where a fragment is larger than what PutContent
  -- takes: the write and Close succeed, the server has received all the bytes, and it has not stored
  -- the file.
  pub upload_whole :
      (p : List B)
      → length p ≡ limits.upload_chunk_size
      → limits.simple_upload_max_bytes < limits.upload_chunk_size
      → let (r, (w, u)) = upload limits in_order (p ∷ []) (new_writer limits none) before in
        (r ≡ none) × (u.received ≡ p) × (u.stored ≡ none)
  unfolding upload write_all close flush_final
  upload_whole p h larger = rw (write_whole p h larger) (refl, refl, refl)
