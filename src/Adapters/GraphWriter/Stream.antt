-- ===== src/Adapters/GraphWriter/Stream.antt =====
-- What a stream of writes leaves on a server that takes fragments in order: an upload of unknown size.
use sylos_fs.Base.{
  ℕ, zero, suc, ◌+◌, ◌≤◌, ℤ, pos, negsuc, List, [], ◌∷◌, ◌++◌, append-nil, append_assoc, Bool, true,
  false, not, ◌&&◌, Option, none, some, length, length-append, length-take, take, drop,
  take-append-drop, ltb, leb, ◌==◌, if◌then◌else◌, ◌≡◌, ◌⊎◌, inl, inr, refl, sym, ap, ◌∙◌, arith,
  Bool-cases,
}
use sylos_fs.Adapters.GraphWriter.{
  Limits, refused, accepted, Graph, Writer, WriteError, ensure_session, total_of, send, flush,
  write, and_then, write_all, is_negative,
}

pub record Upload (B : Type 0) : Type 0 where
  pub received : List B
  pub stored : Option (List B)

abbrev pub is_complete : ℤ → ℕ → Bool
is_complete (pos n) m = n == m
is_complete (negsuc n) m = false

-- A server as Graph documents it: fragments are taken where the last one ended, and the file is stored
-- with the fragment that reaches the total, or by PutContent.
abbrev pub in_order : {B : Type 0} → Graph B Unit (Upload B)
in_order = record {
  create_session = λ u. (none, record u { received = [] });
  put_fragment = λ chunk offset total u.
      let all = u.received ++ chunk in
      if offset == length u.received
      then if is_complete total (length all)
        then (accepted true, record { received = all; stored = some all })
        else (accepted false, record u { received = all })
      else (refused tt, u);
  put_content = λ body u. (none, record u { stored = some body });
}

-- A sum of fragments of c bytes.
pub data Multiple (c : ℕ) : ℕ → Type 0 where
  nothing : Multiple c 0
  more : (n : ℕ) → Multiple c n → Multiple c (n + c)

abbrev pub concat : {B : Type 0} → List (List B) → List B
concat [] = []
concat (p ∷ ps) = p ++ concat ps

module _ {B : Type 0} (limits : Limits) where
  -- Where a stream of unknown size stands after the bytes of `content`.
  pub record Holds (content : List B) (w : Writer B) (u : Upload B) : Type 0 where
    pub unknown : w.declared_size ≡ negsuc 0
    pub opened : w.closed ≡ false
    pub streaming : w.simple_only ≡ false
    pub bytes : u.received ++ w.buf ≡ content
    pub reached : w.offset ≡ length u.received
    pub unstored : u.stored ≡ none
    pub full : Multiple limits.upload_chunk_size (length u.received)
    pub fresh : w.session_started ≡ false → u.received ≡ []

  abbrev after_fragment : Writer B → Writer B
  after_fragment w = record w {
    session_started = true;
    offset = w.offset + limits.upload_chunk_size;
    buf = drop limits.upload_chunk_size w.buf;
  }

  abbrev with_fragment : Writer B → Upload B → Upload B
  with_fragment w u = record u { received = u.received ++ take limits.upload_chunk_size w.buf }

  pub sent_fragment :
      (content : List B) (w : Writer B) (u : Upload B)
      → Holds content w u
      → send limits in_order limits.upload_chunk_size
          (total_of w.declared_size)
          (none, (record w { session_started = true }, u))
        ≡ (none, (false, (after_fragment w, with_fragment w u)))
  sent_fragment content w u h = let r = h.reached in let d = h.unknown in ground arith

  pub ensured :
      (w : Writer B) (u : Upload B)
      → (w.session_started ≡ false → u.received ≡ [])
      → ensure_session limits in_order w u ≡ (none, (record w { session_started = true }, u))
  unfolding ensure_session
  ensured w u fresh = elim (Bool-cases w.session_started) [
    | inl started ↦ ground arith
    | inr not_started ↦ let e = fresh not_started in ground arith
  ]

  length-take_of_le : (n : ℕ) (xs : List B) → n ≤ length xs → length (take n xs) ≡ n
  length-take_of_le n xs h = omega (arith, length-take n xs)

  fragment-Holds :
      (content : List B) (w : Writer B) (u : Upload B)
      → Holds content w u
      → limits.upload_chunk_size ≤ length w.buf
      → Holds content (after_fragment w) (with_fragment w u)
  fragment-Holds content w u h enough =
      let c = limits.upload_chunk_size in
      let taken = length-take_of_le c w.buf enough in
      let grown = length-append u.received (take c w.buf) in
      record {
        unknown = h.unknown;
        opened = h.opened;
        streaming = h.streaming;
        bytes =
            append_assoc u.received (take c w.buf) (drop c w.buf)
            ∙ ap (λ l. u.received ++ l) (take-append-drop c w.buf)
            ∙ h.bytes;
        reached = omega (arith, taken, grown, h.reached);
        unstored = h.unstored;
        full = rw (grown, taken) (more (length u.received) h.full);
        fresh = λ e. absurd (cc e);
      }

  -- No error, and the stream stands at `content`.
  abbrev pub Stands : List B → Option (WriteError Unit) × (Writer B × Upload B) → Type 0
  Stands content (r, (w, u)) = (r ≡ none) × Holds content w u

  flush-Stands :
      (left : ℕ) (content : List B) (w : Writer B) (u : Upload B)
      → Holds content w u
      → Stands content (flush limits in_order left w u)
  unfolding flush
  flush-Stands zero content w u h = (refl, h)
  flush-Stands (suc left) content w u h =
      elim (Bool-cases (ltb (length w.buf) limits.upload_chunk_size)) [
        | inl short ↦ rw (short, flush) (refl, h)
        | inr long ↦
            let ih =
              flush-Stands left content (after_fragment w) (with_fragment w u)
                (fragment-Holds content w u h (ground arith)) in
            rw (long, flush, ensured w u h.fresh, sent_fragment content w u h) ih
      ]

  more_bytes :
      (content p : List B) (w : Writer B) (u : Upload B)
      → Holds content w u
      → Holds (content ++ p) (record w { buf = w.buf ++ p }) u
  more_bytes content p w u h = record {
    unknown = h.unknown;
    opened = h.opened;
    streaming = h.streaming;
    bytes = sym (append_assoc u.received w.buf p) ∙ ap (λ l. l ++ p) h.bytes;
    reached = h.reached;
    unstored = h.unstored;
    full = h.full;
    fresh = h.fresh;
  }

  write_empty :
      (w : Writer B) (u : Upload B)
      → w.closed ≡ false
      → write limits in_order [] w u ≡ (none, (w, u))
  unfolding write
  write_empty w u opened = ground arith

  -- Bytes that are kept for a single PutContent, or fragments of what the buffer then holds.
  write_bytes :
      (b : B) (p : List B) (w : Writer B) (u : Upload B)
      → w.closed ≡ false
      → w.simple_only ≡ false
      → let w' = record w { buf = w.buf ++ b ∷ p } in
        (write limits in_order (b ∷ p) w u ≡ (none, (w', u)))
        ⊎ (write limits in_order (b ∷ p) w u ≡ flush limits in_order (length w'.buf) w' u)
  unfolding write
  write_bytes b p w u opened streaming =
      let w' = record w { buf = w.buf ++ b ∷ p } in
      elim (Bool-cases (
        not w.session_started
        && (is_negative w.declared_size && leb (length w'.buf) limits.simple_upload_max_bytes))) [
          | inl kept ↦ inl (ground arith)
          | inr sent ↦ inr (ground arith)
        ]

  write-Stands :
      (content p : List B) (w : Writer B) (u : Upload B)
      → Holds content w u
      → Stands (content ++ p) (write limits in_order p w u)
  write-Stands content [] w u h = rw (write_empty w u h.opened, append-nil content) (refl, h)
  write-Stands content (b ∷ p) w u h =
      let m = more_bytes content (b ∷ p) w u h in
      let w' = record w { buf = w.buf ++ b ∷ p } in
      elim (write_bytes b p w u h.opened h.streaming) [
        | inl kept ↦ rw kept (refl, m)
        | inr sent ↦ rw sent (flush-Stands (length w'.buf) (content ++ b ∷ p) w' u m)
      ]

  and_then-Stands :
      (content rest : List B) (s : Option (WriteError Unit) × (Writer B × Upload B))
      (next : Writer B → Upload B → Option (WriteError Unit) × (Writer B × Upload B))
      → Stands content s
      → ((w : Writer B) (u : Upload B) → Holds content w u → Stands rest (next w u))
      → Stands rest (and_then limits in_order s next)
  and_then-Stands content rest (some e, s) next (bad, k) f = absurd (cc bad)
  and_then-Stands content rest (none, (w, u)) next (ok, k) f = f w u k

  pub write_all-Stands :
      (ps : List (List B)) (content : List B) (w : Writer B) (u : Upload B)
      → Holds content w u
      → Stands (content ++ concat ps) (write_all limits in_order ps w u)
  unfolding write_all
  write_all-Stands [] content w u h = rw (append-nil content) (refl, h)
  write_all-Stands (p ∷ ps) content w u h =
      and_then-Stands (content ++ p) (content ++ (p ++ concat ps)) (write limits in_order p w u) _
        (write-Stands content p w u h)
        (λ w' u' k.
          rw (← append_assoc content p (concat ps)) (write_all-Stands ps (content ++ p) w' u' k))
