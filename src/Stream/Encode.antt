-- ===== src/Stream/Encode.antt =====
-- The envelope that `_stream` of client.py puts round a request, and what the decoder makes of such
-- envelopes.
use deixic_python.Base.{
  ℕ, zero, suc, ◌+◌, ◌/◌, ◌%◌, ◌≤◌, ◌≡◌, refl, ap, ◌∙◌, sym, String, Option, none, some, List, [],
  ◌∷◌, ◌++◌, ltb, ok, arith, length, take, drop, take-length, drop-length, append-nil, false,
  length-append, All,
}
use deixic_python.Value.{Value, dict, Fields, get}
use deixic_python.Stream.{
  emit, stop, pending, ended, exhausted, be32, max_frame_bytes, envelope, framed, step, yield,
  drain_loop, drain, feed, loop, decode,
}
use deixic_python.Stream.Chunks.{joined, decode-joined}

-- `struct.pack(">BI", flags, len(payload)) + payload`
unfoldable pub pack : ℕ → List ℕ → List ℕ
pack flags payload =
    let n = length payload in
    flags ∷ (n / 16777216 % 256) ∷ (n / 65536 % 256) ∷ (n / 256 % 256) ∷ (n % 256) ∷ payload

be32-bytes :
    (n : ℕ)
    → n ≤ 16777216
    → be32 (n / 16777216 % 256) (n / 65536 % 256) (n / 256 % 256) (n % 256) ≡ n
be32-bytes n h = omega arith

length-pack :
    (flags : ℕ) (payload rest : List ℕ)
    → length (pack flags payload ++ rest) ≡ 5 + length payload + length rest
unfolding pack
length-pack flags payload rest = omega (arith, length-append payload rest)

not-ltb : (a b : ℕ) → b ≤ a → ltb a b ≡ false
not-ltb a b h = ground arith

module _ {M : Type 0} (parse : List ℕ → Option M) (json_loads : List ℕ → Option Value)
    (headers : List (String × String)) (print : M → List ℕ) where
  -- The bytes of a stream: an envelope for each message, and the end envelope with its document.
  abbrev pub stream_bytes : List M → List ℕ → List ℕ
  stream_bytes [] document = pack 2 document
  stream_bytes (m ∷ ms) document = pack 0 (print m) ++ stream_bytes ms document

  framed-whole :
      (flags size : ℕ) (body : List ℕ)
      → size ≤ max_frame_bytes
      → size ≤ length body
      → framed parse json_loads headers flags size body
        ≡ envelope parse json_loads headers flags (take size body) (drop size body)
  unfolding framed
  framed-whole flags size body small whole =
      rw (not-ltb max_frame_bytes size small, not-ltb (length body) size whole)

  step-pack :
      (flags : ℕ) (payload rest : List ℕ)
      → length payload ≤ max_frame_bytes
      → step parse json_loads headers (pack flags payload ++ rest)
        ≡ envelope parse json_loads headers flags payload rest
  unfolding step pack
  step-pack flags payload rest h = rw (be32-bytes (length payload) h) (
      framed-whole flags (length payload) (payload ++ rest) h
        (omega (arith, length-append payload rest))
      ∙ rw (take-length payload rest, drop-length payload rest))

  module _ (document : List ℕ) (fields : Fields)
      (document_small : length document ≤ max_frame_bytes)
      (document_parsed : json_loads document ≡ some (dict fields))
      (no_error : get "error" fields ≡ none) where
    step-end : step parse json_loads headers (pack 2 document) ≡ stop
    unfolding envelope
    step-end =
        ap (step parse json_loads headers) (sym (append-nil (pack 2 document)))
        ∙ step-pack 2 document [] document_small
        ∙ rw (document_parsed, no_error)

    -- Every message is printed as bytes that parse back, in at most 16 MiB.
    abbrev pub Printable : M → Type 0
    Printable m = (parse (print m) ≡ some m) × (length (print m) ≤ max_frame_bytes)

    step-message :
        (m : M) (rest : List ℕ)
        → Printable m
        → step parse json_loads headers (pack 0 (print m) ++ rest) ≡ emit m rest
    unfolding envelope
    step-message m rest (parsed, small) = step-pack 0 (print m) rest small ∙ rw parsed

    length-stream_bytes : (ms : List M) → 1 ≤ length (stream_bytes ms document)
    length-stream_bytes [] =
        omega (arith, length-pack 2 document [], ap length (append-nil (pack 2 document)))
    length-stream_bytes (m ∷ ms) = omega (arith, length-pack 0 (print m) (stream_bytes ms document))

    drain_loop-stream_bytes :
        (f : ℕ) (ms : List M)
        → All Printable ms
        → length (stream_bytes ms document) ≤ f
        → drain_loop parse json_loads headers f (stream_bytes ms document) ≡ (ms, ended)
    unfolding drain_loop
    drain_loop-stream_bytes zero ms ps h = absurd (omega (arith, length-stream_bytes ms))
    drain_loop-stream_bytes (suc f) [] ps h = rw step-end
    drain_loop-stream_bytes (suc f) (m ∷ ms) (p, ps) h =
        rw (step-message m (stream_bytes ms document) p) (
          ap (yield parse json_loads headers m) (
            drain_loop-stream_bytes f ms ps
              (omega (arith, length-pack 0 (print m) (stream_bytes ms document)))))

    feed-nonempty :
        (bytes : List ℕ)
        → 1 ≤ length bytes
        → feed parse json_loads headers (pending []) bytes ≡ drain parse json_loads headers bytes
    unfolding feed
    feed-nonempty [] h = absurd (omega arith)
    feed-nonempty (x ∷ bytes) h = refl

    -- A body that holds an envelope for each of some messages and then an end envelope without an
    -- error, cut into any chunks, is decoded into just these messages, and the stream ends well. The
    -- messages' bytes parse back and take at most 16 MiB each, as does the end envelope's document,
    -- which is a JSON object with no `error`.
    pub decode-stream_bytes :
        (chunks : List (List ℕ)) (ms : List M)
        → joined chunks ≡ stream_bytes ms document
        → All Printable ms
        → decode parse json_loads headers chunks exhausted
          ≡ record { messages = ms; outcome = ok tt }
    unfolding loop drain
    decode-stream_bytes chunks ms cut ps =
        let bytes = stream_bytes ms document in
        decode-joined parse json_loads headers chunks (bytes ∷ []) exhausted
          (cut ∙ sym (append-nil bytes))
        ∙ unfold decode in
          rw (
            feed-nonempty bytes (length-stream_bytes ms),
            drain_loop-stream_bytes (length bytes) ms ps (omega arith),
            append-nil,
          )
