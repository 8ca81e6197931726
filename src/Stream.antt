-- ===== src/Stream.antt =====
-- `_decode_stream` of client.py: enveloped frames out of the chunks of a streaming response.
pub mod Drain
pub mod Fuel
pub mod Chunks
pub mod Encode
use deixic_python.Base.{
  ℕ, zero, suc, ◌+◌, ◌*◌, ◌<>◌, Bool, true, false, Option, none, some, List, [], ◌∷◌, ◌++◌, ltb,
  ◌==◌, if◌then◌else◌, Result, ok, err, length, take, drop, String,
}
use deixic_python.Base.Decimal.{str_ℕ}
use deixic_python.Value.{Value, Fields, get, as_dict}
use deixic_python.Errors.{DeixicError, plain_error, Kind, protocol, transport, connect_stream_error}

abbrev pub max_frame_bytes : ℕ
max_frame_bytes = 16 * 1024 * 1024

abbrev pub protocol_error : String → DeixicError
protocol_error message = plain_error message protocol

abbrev pub bytes_after_end : DeixicError
bytes_after_end = protocol_error "Deixic stream returned bytes after its end envelope"

-- `struct.unpack(">I", …)`
abbrev pub be32 : ℕ → ℕ → ℕ → ℕ → ℕ
be32 a b c d = ((a * 256 + b) * 256 + c) * 256 + d

-- What one round of the loop over the buffer does: it waits for bytes, raises, sees the end envelope,
-- or yields a message and goes on with the rest of the buffer.
pub data Step (M : Type 0) : Type 0 where
  wait : Step M
  fail : DeixicError → Step M
  stop : Step M
  emit : M → List ℕ → Step M

-- Where the loop over the buffer stops: with bytes that make no whole frame, at the end envelope, or
-- at an exception.
pub data Status : Type 0 where
  pending : List ℕ → Status
  ended : Status
  failed : DeixicError → Status

-- How the iteration over the chunks ends: by itself, by a `DeixicError`, or by another exception.
pub data Ending : Type 0 where
  exhausted : Ending
  deixic_raised : DeixicError → Ending
  other_raised : Ending

-- The messages that the generator yields, and how it ends behind them.
pub record Run (M : Type 0) : Type 0 where
  pub messages : List M
  pub outcome : Result DeixicError (Unit {0})

module _ {M : Type 0} (parse : List ℕ → Option M) (json_loads : List ℕ → Option Value)
    (headers : List (String × String)) where
  -- The body of `if flags == 0x02`, on the payload and the bytes behind it.
  end_rest : List ℕ → Step M
  end_rest [] = stop
  end_rest (x ∷ rest) = fail bytes_after_end

  end_object : List ℕ → Option Fields → Step M
  end_object frame none = fail (protocol_error "Deixic stream returned an invalid error envelope")
  end_object frame (some fields) = fail (connect_stream_error json_loads frame headers)

  end_error : List ℕ → List ℕ → Option Value → Step M
  unfolding end_rest end_object
  end_error frame rest none = end_rest rest
  end_error frame rest (some error) = end_object frame (as_dict (some error))

  end_fields : List ℕ → List ℕ → Option Fields → Step M
  unfolding end_error
  end_fields frame rest none =
      fail (protocol_error "Deixic stream returned a non-object end envelope")
  end_fields frame rest (some document) = end_error frame rest (get "error" document)

  end_document : List ℕ → List ℕ → Option Value → Step M
  unfolding end_fields
  end_document frame rest none =
      fail (protocol_error "Deixic stream returned an invalid end envelope")
  end_document frame rest (some document) = end_fields frame rest (as_dict (some document))

  data_message : List ℕ → Option M → Step M
  data_message rest none = fail (protocol_error "Deixic stream returned an invalid protobuf frame")
  data_message rest (some message) = emit message rest

  -- A whole frame, by its flags.
  envelope : ℕ → List ℕ → List ℕ → Step M
  unfolding end_document data_message
  envelope flags frame rest =
      if flags == 2
      then end_document frame rest (json_loads frame)
      else if flags == 0
      then data_message rest (parse frame)
      else fail (protocol_error ("Deixic stream used unsupported envelope flags: " <> str_ℕ flags))

  -- The five bytes of a header, with the bytes behind them.
  framed : ℕ → ℕ → List ℕ → Step M
  unfolding envelope
  framed flags size body =
      if ltb max_frame_bytes size
      then fail (protocol_error "Deixic stream frame exceeds the 16 MiB SDK limit")
      else if ltb (length body) size
      then wait
      else envelope flags (take size body) (drop size body)

  -- One round of `while len(buffer) >= 5`.
  pub step : List ℕ → Step M
  unfolding framed
  step (flags ∷ a ∷ b ∷ c ∷ d ∷ body) = framed flags (be32 a b c d) body
  step _ = wait

  abbrev pub yield : M → List M × Status → List M × Status
  yield m (ms, s) = (m ∷ ms, s)

  -- The rest of the loop behind one round.
  abbrev pub follow : (List ℕ → List M × Status) → List ℕ → Step M → List M × Status
  follow again buffer wait = ([], pending buffer)
  follow again buffer (fail e) = ([], failed e)
  follow again buffer stop = ([], ended)
  follow again buffer (emit m rest) = yield m (again rest)

  -- `while len(buffer) >= 5`. A round that goes on takes at least five bytes, so the buffer's length
  -- is fuel enough.
  pub drain_loop : ℕ → List ℕ → List M × Status
  unfolding step
  drain_loop zero buffer = ([], pending buffer)
  drain_loop (suc fuel) buffer = follow (drain_loop fuel) buffer (step buffer)

  pub drain : List ℕ → List M × Status
  unfolding drain_loop
  drain buffer = drain_loop (length buffer) buffer

  abbrev pub after : List M → Run M → Run M
  after ms r = record r { messages = ms ++ r.messages }

  -- The tests behind the loop over the chunks, and the `except` clauses. An exception of the loop over
  -- the buffer ends the iteration before the chunks can.
  abbrev pub finish : Ending → Status → Result DeixicError (Unit {0})
  finish ending (failed e) = err e
  finish (deixic_raised e) s = err e
  finish other_raised s = err (plain_error "Deixic stream transport failed" transport)
  finish exhausted (pending []) = err (protocol_error "Deixic stream ended without an end envelope")
  finish exhausted (pending (x ∷ xs)) =
      err (protocol_error "Deixic stream ended with an incomplete frame")
  finish exhausted ended = ok tt

  -- What one chunk does. Empty chunks are skipped.
  pub feed : Status → List ℕ → List M × Status
  feed s [] = ([], s)
  feed (pending buffer) (x ∷ chunk) = drain (buffer ++ x ∷ chunk)
  feed ended (x ∷ chunk) = ([], failed bytes_after_end)
  feed (failed e) (x ∷ chunk) = ([], failed e)

  -- `for chunk in response.iter_content(…)`, over the chunks that are still to come.
  pub loop : List (List ℕ) → Ending → Status → Run M
  loop [] ending s = record { messages = []; outcome = finish ending s }
  loop (chunk ∷ chunks) ending s = let (ms, s') = feed s chunk in after ms (loop chunks ending s')

  -- The generator that `_decode_stream` returns.
  unfoldable pub decode : List (List ℕ) → Ending → Run M
  unfolding drain feed loop
  decode chunks ending = loop chunks ending (pending [])
