-- ===== src/Adapters/GraphWriter/Closing.antt =====
-- Close at the end of a stream of unknown size: the last bytes complete the upload.
use sylos_fs.Base.{
  ℕ, ◌+◌, pos, negsuc, List, [], ◌++◌, true, false, not, ◌&&◌, Option, none, some, length,
  length-append, take_of_le, leb, ◌≡◌, ◌≢◌, ◌⊎◌, inl, inr, refl, sym, ap, ◌∙◌, arith, Bool-cases,
}
use sylos_fs.Adapters.GraphWriter.{
  Limits, Writer, WriteError, new_writer, send, ended, flush_final, close, and_then, write_all,
  upload,
}
use sylos_fs.Adapters.GraphWriter.Stream.{
  Upload, in_order, Multiple, nothing, concat, Holds, ensured, Stands, write_all-Stands,
}

add_zero : (n : ℕ) → n + 0 ≡ n
add_zero n = omega arith

module _ {B : Type 0} (limits : Limits) where
  -- No error, and the server has stored `content`.
  abbrev pub Stored : List B → Option (WriteError Unit) × (Writer B × Upload B) → Type 0
  Stored content (r, (w, u)) = (r ≡ none) × (u.stored ≡ some content)

  sent_last :
      (content : List B) (w : Writer B) (u : Upload B)
      → u.received ++ w.buf ≡ content
      → w.offset ≡ length u.received
      → Stored content (
          ended limits in_order (
            send limits in_order
              (length w.buf)
              (pos (w.offset + length w.buf))
              (none, (record w { session_started = true }, u))))
  sent_last content w u bytes reached =
      let all = take_of_le (length w.buf) w.buf (omega arith) in
      let grown = length-append u.received w.buf in rw all (ground arith)

  flush_final_lem :
      (w : Writer B) (u : Upload B)
      → (w.session_started ≡ false → u.received ≡ [])
      → length w.buf ≢ 0
      → flush_final limits in_order w u
        ≡ ended limits in_order (
            send limits in_order
              (length w.buf)
              (pos (w.offset + length w.buf))
              (none, (record w { session_started = true }, u)))
  unfolding flush_final
  flush_final_lem w u fresh some_left = let e = ensured limits w u fresh in ground arith

  -- Close is one PutContent of the buffer, or the last fragment.
  close_lem :
      (w : Writer B) (u : Upload B)
      → w.closed ≡ false
      → w.simple_only ≡ false
      → w.declared_size ≡ negsuc 0
      → let w' = record w { closed = true } in
        ((w.session_started ≡ false)
          × (close limits in_order w u
              ≡ (none, (record w' { buf = [] }, record u { stored = some w.buf }))))
        ⊎ (close limits in_order w u ≡ flush_final limits in_order w' u)
  unfolding close
  close_lem w u opened streaming unknown =
      elim (Bool-cases
        (not w.session_started && leb (length w.buf) limits.simple_upload_max_bytes)) [
          | inl kept ↦ inl (ground arith)
          | inr sent ↦ inr (ground arith)
        ]

  close-Stored :
      (content : List B) (w : Writer B) (u : Upload B)
      → Holds limits content w u
      → (Multiple limits.upload_chunk_size (length content) → ⊥)
      → Stored content (close limits in_order w u)
  close-Stored content w u h uneven =
      let w' = record w { closed = true } in
      let some_left : length w.buf ≢ 0 = λ e.
        uneven (
          rw (← h.bytes, length-append u.received w.buf, e, add_zero (length u.received)) h.full) in
      elim (close_lem w u h.opened h.streaming h.unknown) [
        | inl (not_started, kept) ↦
            rw kept (refl, ap some (sym (ap (λ l. l ++ w.buf) (h.fresh not_started)) ∙ h.bytes))
        | inr sent ↦
            rw (sent, flush_final_lem w' u h.fresh some_left)
              (sent_last content w' u h.bytes h.reached)
      ]

  new_writer-Holds :
      Holds limits [] (new_writer {B = B} limits none) (record { received = []; stored = none })
  unfolding new_writer
  new_writer-Holds = record {
    unknown = refl;
    opened = refl;
    streaming = refl;
    bytes = refl;
    reached = refl;
    unstored = refl;
    full = nothing;
    fresh = λ e. refl;
  }

  and_then-Stored :
      (content : List B) (s : Option (WriteError Unit) × (Writer B × Upload B))
      → Stands limits content s
      → (Multiple limits.upload_chunk_size (length content) → ⊥)
      → Stored content (and_then limits in_order s (close limits in_order))
  and_then-Stored content (some e, s) (bad, k) uneven = absurd (cc bad)
  and_then-Stored content (none, (w, u)) (ok, k) uneven = close-Stored content w u k uneven

  -- An upload of unknown size to a server that takes fragments in order: however the bytes are cut
  -- into writes, if their number is no multiple of the fragment size then every write and Close
  -- succeed and the server has stored exactly the bytes written, in order.
  pub upload-Stored :
      (ps : List (List B))
      → (Multiple limits.upload_chunk_size (length (concat ps)) → ⊥)
      → let (r, (w, u)) =
          upload limits in_order ps
            (new_writer limits none)
            (record { received = []; stored = none }) in
        (r ≡ none) × (u.stored ≡ some (concat ps))
  unfolding upload
  upload-Stored ps uneven =
      and_then-Stored (concat ps)
        (write_all limits in_order ps (new_writer limits none)
          (record { received = []; stored = none }))
        (write_all-Stands limits ps [] (new_writer limits none)
          (record { received = []; stored = none }) new_writer-Holds)
        uneven
