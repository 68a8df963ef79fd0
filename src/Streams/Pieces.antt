-- ===== src/Streams/Pieces.antt =====
-- The events of a stream do not depend on how its response is cut into pieces.
use brackets.Base.{
  Bool, Bool-cases, Lacks, Lacks-append, List, Option, Text, [], ap, append-nil, append_assoc,
  arith, false, if◌then◌else◌, inl, inr, refl, sym, ℤ, ◌++◌, ◌∙◌, ◌∷◌, ◌≡◌,
}
use brackets.Streams.{
  Split, normalize, split_blank, StreamState, Progress, after, Delivery, handle_chunk,
  handle_chunks, read_pieces,
}
use brackets.Streams.Splits.{
  resumed, Unbroken, whole, normalize-buffer, normalize-whole, normalize-Lacks, split_blank-append,
  split_blank-rest, split_blank-Lacks,
}

-- What stands between two pieces: no carriage return and no whole chunk.
abbrev IsRest : Text → Type 0
IsRest buffer = Lacks 13 buffer × ((split_blank buffer).0 ≡ [])

Unbroken-tail : (p : Text) (ps : List Text) → Unbroken (p ∷ ps) → Unbroken ps
Unbroken-tail p [] h = tt
Unbroken-tail p (q ∷ ps) h = h.1

text-IsRest : (buffer p : Text) → IsRest buffer → IsRest (split_blank (buffer ++ normalize p)).1
unfolding normalize
text-IsRest buffer p h = (
  split_blank-Lacks 13 (buffer ++ normalize p)
      (Lacks-append 13 buffer (normalize p) h.0 (normalize-Lacks false p)),
  split_blank-rest (buffer ++ normalize p),
)

module _ {Value : Type 0} (parse_json : Text → Option Value) (validate : Value → Bool)
    (transform : Value → Option Value) (parse_int : Text → Option ℤ) where
  -- The chunks of the whole text, in turn.
  abbrev pub read_whole : StreamState → Text → Progress Value
  read_whole state text =
      handle_chunks parse_json validate transform parse_int state (split_blank (normalize text)).0

  abbrev chunks_of : StreamState → List Text → Progress Value
  chunks_of = handle_chunks parse_json validate transform parse_int

  -- What follows sound progress.
  abbrev then_do : Progress Value → (StreamState → Progress Value) → Progress Value
  then_do p f = if p.is_sound then after p.deliveries (f p.state) else p

  after-then_do :
      (ds : List (Delivery Value)) (p : Progress Value) (f : StreamState → Progress Value)
      → then_do (after ds p) f ≡ after ds (then_do p f)
  after-then_do ds p f = ground (arith, append_assoc ds p.deliveries (f p.state).deliveries)

  then_do_assoc :
      (p : Progress Value) (f g : StreamState → Progress Value)
      → then_do (then_do p f) g ≡ then_do p (λ s. then_do (f s) g)
  then_do_assoc p f g = elim (Bool-cases p.is_sound) [
    | inl sound ↦ rw sound (after-then_do p.deliveries (f p.state) g)
    | inr thrown ↦ rw thrown refl
  ]

  handle_chunks-append :
      (state : StreamState) (chunks more : List Text)
      → chunks_of state (chunks ++ more) ≡ then_do (chunks_of state chunks) (λ s. chunks_of s more)
  unfolding handle_chunks
  handle_chunks-append state [] more = refl
  handle_chunks-append state (chunk ∷ chunks) more =
      let q = handle_chunk parse_json validate transform parse_int state chunk in
      ap (λ r. if q.is_sound then after q.deliveries r else q)
        (handle_chunks-append q.state chunks more)
      ∙ sym (then_do_assoc q (λ s. chunks_of s chunks) (λ s. chunks_of s more))

  pieces_whole :
      (state : StreamState) (buffer : Text) (pieces : List Text)
      → IsRest buffer
      → Unbroken pieces
      → read_pieces parse_json validate transform parse_int state buffer pieces
        ≡ chunks_of state (split_blank (buffer ++ normalize (whole pieces))).0
  unfolding read_pieces handle_chunks
  pieces_whole state buffer [] h k = rw (append-nil buffer, h.1) refl
  pieces_whole state buffer (p ∷ ps) h k =
      let text = buffer ++ normalize p in
      let found = split_blank text in
      let q = chunks_of state found.0 in
      let behind = normalize (whole ps) in
      let cut : split_blank (buffer ++ normalize (p ++ whole ps)) ≡ resumed found behind =
        ap (λ t. split_blank (buffer ++ t)) (normalize-whole p ps k)
        ∙ ap split_blank (sym (append_assoc buffer (normalize p) behind))
        ∙ split_blank-append text behind in
      rw (normalize-buffer buffer p h.0) (
        ap (λ r. if q.is_sound then after q.deliveries r else q)
          (pieces_whole q.state found.1 ps (text-IsRest buffer p h) (Unbroken-tail p ps k))
        ∙ sym (handle_chunks-append state found.0 (split_blank (found.1 ++ behind)).0)
        ∙ sym (ap (λ (x : Split). chunks_of state x.0) cut))

  -- However a response is cut into pieces, its events are those of the whole text, if no piece but
  -- the last ends in a carriage return.
  pub read_pieces-read_whole :
      (state : StreamState) (pieces : List Text)
      → Unbroken pieces
      → read_pieces parse_json validate transform parse_int state [] pieces
        ≡ read_whole state (whole pieces)
  unfolding split_blank
  read_pieces-read_whole state pieces h = pieces_whole state [] pieces (tt, refl) h
