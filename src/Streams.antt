-- ===== src/Streams.antt =====
-- frontend/src/openapi/core/serverSentEvents.gen.ts: how the client of event streams reads the pieces
-- of a response. The requests and their repetition are in Streams/Client.
--
-- `parse_json` is `JSON.parse`, none when it throws; `parse_int` is `Number.parseInt`, none for NaN;
-- `validate` and `transform` are the caller's `responseValidator` and `responseTransformer`, which
-- may throw, too.
pub mod Client
pub mod Splits
pub mod Pieces
use brackets.Base.{
  Bool, List, Option, Text, [], codes, drop, false, if◌then◌else◌, join, length, none, some, split,
  starts_with, true, ℕ, ℤ, ◌&&◌, ◌++◌, ◌==◌, ◌∷◌,
}
use brackets.Tournament.{trim_start}

-- `buffer.replace(/\r\n?/g, '\n')`
pub normalize_from : (after_return : Bool) → Text → Text
normalize_from after [] = []
normalize_from after (c ∷ s) =
    let rest = normalize_from (c == 13) s in
    if c == 13 then 10 ∷ rest else if after && c == 10 then rest else c ∷ rest

unfoldable pub normalize : Text → Text
unfolding normalize_from
normalize s = normalize_from false s

-- The pieces that end with an empty line, and what stands behind the last of them.
abbrev pub Split : Type 0
Split = List Text × Text

abbrev pub put_char : ℕ → Split → Split
put_char c ([], rest) = ([], c ∷ rest)
put_char c (chunk ∷ chunks, rest) = ((c ∷ chunk) ∷ chunks, rest)

abbrev pub add_chunk : Split → Split
add_chunk (chunks, rest) = ([] ∷ chunks, rest)

-- `buffer.split('\n\n')`, and its last part apart.
unfoldable pub split_blank : Text → Split
split_blank [] = ([], [])
split_blank (c ∷ []) = ([], c ∷ [])
split_blank (c ∷ d ∷ s) =
    let closed = add_chunk (split_blank s) in
    let longer = put_char c (split_blank (d ∷ s)) in if c == 10 && d == 10 then closed else longer

-- What outlives a chunk: `lastEventId` and `retryDelay`.
pub record StreamState : Type 0 where
  pub last_event_id : Option Text
  pub retry_delay : ℤ

-- What the lines of a chunk have said so far.
pub record ChunkState : Type 0 where
  pub data_lines : List Text
  pub event_name : Option Text
  pub stream : StreamState

-- `line.replace(/^data:\s*/, '')`, for a line that starts with the field's name.
abbrev field_value : (field line : Text) → Text
field_value field line = trim_start (drop (length field) line)

pub data StreamData (Value : Type 0) : Type 0 where
  json : Value → StreamData Value
  raw : Text → StreamData Value

pub record StreamEvent (Value : Type 0) : Type 0 where
  pub payload : Option (StreamData Value)
  pub event : Option Text
  pub id : Option Text
  pub retry : ℤ

-- What the caller sees: a call of `onSseEvent`, and a value that the generator yields.
pub data Delivery (Value : Type 0) : Type 0 where
  on_event : StreamEvent Value → Delivery Value
  yielded : StreamData Value → Delivery Value

-- The state, what was delivered, and whether nothing was thrown.
pub record Progress (Value : Type 0) : Type 0 where
  pub state : StreamState
  pub deliveries : List (Delivery Value)
  pub is_sound : Bool

-- What was delivered before.
abbrev pub after : {Value : Type 0} → List (Delivery Value) → Progress Value → Progress Value
after before p = record p { deliveries = before ++ p.deliveries }

module _ (parse_int : Text → Option ℤ) where
  unfoldable pub handle_line : Text → ChunkState → ChunkState
  unfolding starts_with trim_start
  handle_line line s =
      if starts_with line (codes "data:")
      then record s { data_lines = s.data_lines ++ field_value (codes "data:") line ∷ [] }
      else if starts_with line (codes "event:")
      then record s { event_name = some (field_value (codes "event:") line) }
      else if starts_with line (codes "id:")
      then record s {
        stream = record s.stream { last_event_id = some (field_value (codes "id:") line) };
      }
      else if starts_with line (codes "retry:")
      then elim (parse_int (field_value (codes "retry:") line)) [
        | none ↦ s
        | some delay ↦ record s { stream = record s.stream { retry_delay = delay } }
      ]
      else s

  unfoldable pub handle_lines : List Text → ChunkState → ChunkState
  unfolding handle_line
  handle_lines [] s = s
  handle_lines (line ∷ lines) s = handle_lines lines (handle_line line s)

module _ {Value : Type 0} (parse_json : Text → Option Value) (validate : Value → Bool)
    (transform : Value → Option Value) where
  -- The data of a chunk with lines of data: none when the validator or the transformer throws.
  abbrev received : Text → Option (StreamData Value)
  received text = elim (parse_json text) [
    | none ↦ some (raw text)
    | some v ↦
        if validate v then elim (transform v) [ none ↦ none | some w ↦ some (json w) ] else none
  ]

  abbrev event_of : Option (StreamData Value) → ChunkState → StreamEvent Value
  event_of payload s = record {
    payload = payload;
    event = s.event_name;
    id = s.stream.last_event_id;
    retry = s.stream.retry_delay;
  }

  abbrev deliver : List Text → ChunkState → Progress Value
  deliver [] s = record {
    state = s.stream;
    deliveries = on_event (event_of none s) ∷ [];
    is_sound = true;
  }
  deliver (line ∷ lines) s = elim (received (join (codes "\n") (line ∷ lines))) [
    | none ↦ record { state = s.stream; deliveries = []; is_sound = false }
    | some payload ↦ record {
      state = s.stream;
      deliveries = on_event (event_of (some payload) s) ∷ yielded payload ∷ [];
      is_sound = true;
    }
  ]

  module _ (parse_int : Text → Option ℤ) where
    -- One round of the loop over the chunks.
    unfoldable pub handle_chunk : StreamState → Text → Progress Value
    unfolding handle_lines join split
    handle_chunk state chunk =
        let s =
          handle_lines parse_int (split 10 chunk)
            (record { data_lines = []; event_name = none; stream = state }) in
        deliver s.data_lines s

    -- The loop, which an exception ends.
    unfoldable pub handle_chunks : StreamState → List Text → Progress Value
    unfolding handle_chunk
    handle_chunks state [] = record { state = state; deliveries = []; is_sound = true }
    handle_chunks state (chunk ∷ chunks) =
        let p = handle_chunk state chunk in
        let rest = after p.deliveries (handle_chunks p.state chunks) in
        if p.is_sound then rest else p

    -- The loop over the pieces that the reader gives, with the buffer before them.
    unfoldable pub read_pieces : StreamState → (buffer : Text) → List Text → Progress Value
    unfolding handle_chunks normalize split_blank
    read_pieces state buffer [] = record { state = state; deliveries = []; is_sound = true }
    read_pieces state buffer (piece ∷ pieces) =
        let (chunks, rest) = split_blank (normalize (buffer ++ piece)) in
        let p = handle_chunks state chunks in
        let more = after p.deliveries (read_pieces p.state rest pieces) in
        if p.is_sound then more else p
