-- ===== src/Adapters/GraphWriter.antt =====
-- pkg/fs/msgraph/transfer.go: the streaming upload writer. Bytes are a type B. The Graph API, behind
-- the client and its classified retry, is a parameter: a world W that its calls change and what they
-- answer. The two sizes are arguments; graph_limits has the source's values.
pub mod Stream
pub mod Closing
pub mod Whole
use sylos_fs.Base.{
  ℕ, zero, suc, ◌+◌, ℤ, pos, negsuc, String, List, [], ◌∷◌, ◌++◌, Bool, true, false, not, ◌&&◌,
  ◌||◌, Option, none, some, length, take, drop, ltb, leb, ◌==◌, if◌then◌else◌,
}

pub record Limits : Type 0 where
  pub upload_chunk_size : ℕ
  pub simple_upload_max_bytes : ℕ

abbrev pub graph_limits : Limits
graph_limits = record { upload_chunk_size = 5242880; simple_upload_max_bytes = 4194304 }

pub data Answer (E : Type 0) : Type 0 where
  refused : E → Answer E
  accepted : Bool → Answer E

-- CreateUploadSession, PutUploadFragment (the bytes, their offset, the total or -1) and PutContent.
pub record Graph (B E W : Type 0) : Type 0 where
  pub create_session : W → Option E × W
  pub put_fragment : List B → ℕ → ℤ → W → Answer E × W
  pub put_content : List B → W → Option E × W

pub record Writer (B : Type 0) : Type 0 where
  pub declared_size : ℤ
  pub closed : Bool
  pub buf : List B
  pub offset : ℕ
  pub session_started : Bool
  pub simple_only : Bool

pub data WriteError (E : Type 0) : Type 0 where
  writer_closed simple_upload_exceeded : WriteError E
  api_error : E → WriteError E

-- NewWriter: what ParsePendingFileID found as the size, or `none` for the id of an existing file.
pub new_writer : {B : Type 0} → Limits → Option ℤ → Writer B
new_writer limits size = record {
  declared_size = elim size [ none ↦ negsuc 0 | some n ↦ n ];
  closed = false;
  buf = [];
  offset = 0;
  session_started = false;
  simple_only = elim size [ some (pos n) ↦ leb n limits.simple_upload_max_bytes | _ ↦ false ];
}

abbrev pub is_negative : ℤ → Bool
is_negative (pos n) = false
is_negative (negsuc n) = true

-- What is sent of the total: the declared size, or -1.
abbrev pub total_of : ℤ → ℤ
total_of n = if is_negative n then negsuc 0 else n

abbrev pub to_write_error : {E : Type 0} → Option E → Option (WriteError E)
to_write_error none = none
to_write_error (some e) = some (api_error e)

module _ {B E W : Type 0} (limits : Limits) (graph : Graph B E W) where
  abbrev pub Step : Type 0
  Step = Option (WriteError E) × (Writer B × W)

  -- simplePutLocked
  abbrev pub simple_put : Writer B → W → Step
  simple_put w v =
      let (r, v') = graph.put_content w.buf v in (to_write_error r, (record w { buf = [] }, v'))

  abbrev pub session_made : Writer B → Option E × W → Step
  session_made w (none, v) = (none, (record w { session_started = true }, v))
  session_made w (some e, v) = (some (api_error e), (w, v))

  -- ensureSessionLocked
  pub ensure_session : Writer B → W → Step
  ensure_session w v =
      if w.session_started then (none, (w, v)) else session_made w (graph.create_session v)

  -- After a fragment of n bytes has been put; the buffer holds what is left.
  abbrev pub fragment_put :
      Writer B → ℕ → Answer E × W → Option (WriteError E) × (Bool × (Writer B × W))
  fragment_put w n (refused e, v) = (some (api_error e), (true, (w, v)))
  fragment_put w n (accepted true, v) =
      (none, (true, (record w { offset = w.offset + n; buf = [] }, v)))
  fragment_put w n (accepted false, v) = (none, (false, (record w { offset = w.offset + n }, v)))

  -- One fragment behind ensureSessionLocked: the first n bytes of the buffer with the given total; the
  -- Boolean is true where the loop ends.
  abbrev pub send : ℕ → ℤ → Step → Option (WriteError E) × (Bool × (Writer B × W))
  send n total (some e, (w, v)) = (some e, (true, (w, v)))
  send n total (none, (w, v)) =
      fragment_put (record w { buf = drop n w.buf }) n
        (graph.put_fragment (take n w.buf) w.offset total v)

  abbrev pub ended : Option (WriteError E) × (Bool × (Writer B × W)) → Step
  ended (r, (stop, s)) = (r, s)

  abbrev pub is_ended : Option (WriteError E) × (Bool × (Writer B × W)) → Bool
  is_ended (r, (stop, s)) = stop

  -- flushSessionChunksLocked(false), with fuel for the fragments.
  pub flush : ℕ → Writer B → W → Step
  unfolding ensure_session
  flush zero w v = (none, (w, v))
  flush (suc left) w v =
      let sent = send limits.upload_chunk_size (total_of w.declared_size) (ensure_session w v) in
      let rest = flush left (ended sent).1.0 (ended sent).1.1 in
      if ltb (length w.buf) limits.upload_chunk_size
      then (none, (w, v))
      else if is_ended sent
      then ended sent
      else rest

  -- flushSessionChunksLocked(true): the whole buffer goes in one fragment, if there is one.
  pub flush_final : Writer B → W → Step
  unfolding ensure_session
  flush_final w v =
      if length w.buf == 0
      then (if not w.session_started && w.offset == 0 then simple_put w v else (none, (w, v)))
      else ended (send (length w.buf) (pos (w.offset + length w.buf)) (ensure_session w v))

  -- A buffer of n bytes has at most n fragments, if a fragment is not empty.
  abbrev pub flush_all : Writer B → W → Step
  flush_all w v = flush (length w.buf) w v

  pub write : List B → Writer B → W → Step
  unfolding flush
  write p w v =
      let more = record w { buf = w.buf ++ p } in
      if w.closed
      then (some writer_closed, (w, v))
      else if length p == 0
      then (none, (w, v))
      else if w.simple_only
      then if ltb limits.simple_upload_max_bytes (length more.buf)
        then (some simple_upload_exceeded, (more, v))
        else (none, (more, v))
      else if not w.session_started
          && (is_negative w.declared_size && leb (length more.buf) limits.simple_upload_max_bytes)
      then (none, (more, v))
      else flush_all more v

  pub close : Writer B → W → Step
  unfolding flush_final
  close w v =
      let w' = record w { closed = true } in
      if w.closed
      then (none, (w, v))
      else if w.simple_only
          || (not w.session_started
              && (is_negative w.declared_size && leb (length w.buf) limits.simple_upload_max_bytes))
      then simple_put w' v
      else flush_final w' v

  -- Suspend
  pub suspend : Writer B → Writer B
  suspend w = if w.closed then w else record w { closed = true; buf = [] }

  abbrev pub and_then : Step → (Writer B → W → Step) → Step
  and_then (some e, s) next = (some e, s)
  and_then (none, (w, v)) next = next w v

  -- Write for each part in turn, up to the first error.
  pub write_all : List (List B) → Writer B → W → Step
  unfolding write
  write_all [] w v = (none, (w, v))
  write_all (p ∷ ps) w v = and_then (write p w v) (λ w' v'. write_all ps w' v')

  -- The parts, and then Close.
  pub upload : List (List B) → Writer B → W → Step
  unfolding write_all close
  upload ps w v = and_then (write_all ps w v) close
