-- ===== src/Protocol/Protobuf.antt =====
-- protocol/protobuf.py: batches of frames with a four-byte big-endian length. A payload is a list of
-- bytes. `parse` is the generated message class with the validation of the event: a decoded event, or
-- nothing; the two ways to fail differ in the message text only.
pub mod Framing
pub mod Limits
mod Tests
use android_apm_server.Prelude.{
  ℕ, zero, suc, ◌+◌, ◌-◌, ◌*◌, ◌/◌, ◌%◌, Bool, true, false, Option, none, some, List, [], ◌∷◌, ◌++◌,
  length, take, drop, leb, ltb, ◌==◌, if◌then◌else◌,
}
use android_apm_server.Errors.{
  ApiError, Result, ok, err, ◌>>=◌, ◌>>◌, refuse_if, failure, failure_at,
}

-- PROTOBUF_LENGTH_BYTES
abbrev pub length_bytes : ℕ
length_bytes = 4

-- int.from_bytes(bytes, "big")
abbrev pub big_endian : ℕ → List ℕ → ℕ
big_endian high [] = high
big_endian high (b ∷ bytes) = big_endian (high * 256 + b) bytes

abbrev pub invalid_frame : ℕ → ApiError
invalid_frame index = failure_at 422 "invalid_event" index

abbrev pub too_large : ApiError
too_large = failure 413 "payload_too_large"

-- The checks of one frame, up to its message: its length.
unfoldable pub frame_length : ℕ → ℕ → ℕ → List ℕ → Result ℕ
frame_length max_events max_event_bytes index payload =
    let size = big_endian 0 (take length_bytes payload) in
    refuse_if (leb max_events index) too_large
    >> (refuse_if (ltb (length payload) length_bytes) (invalid_frame index)
        >> (refuse_if (leb size 0) (invalid_frame index)
            >> (refuse_if (ltb max_event_bytes size) too_large
                >> (refuse_if (ltb (length payload) (length_bytes + size)) (invalid_frame index)
                    >> ok size))))

-- `except DecodeError` and `except (ValueError, ValidationError)`
abbrev pub parsed : {E : Type 0} → ℕ → Option E → Result E
parsed index none = err (invalid_frame index)
parsed index (some event) = ok event

module _ {E : Type 0} (parse : List ℕ → Option E) (max_events max_event_bytes : ℕ) where
  -- The loop. `payload` is what is behind the cursor, and each turn takes at least five bytes of it,
  -- so that its length is enough fuel.
  unfoldable pub decode_frames : ℕ → ℕ → List ℕ → Result (List E)
  unfolding frame_length
  decode_frames fuel index [] = ok []
  decode_frames zero index (b ∷ payload) = err (invalid_frame index)
  decode_frames (suc fuel) index (b ∷ payload) =
      frame_length max_events max_event_bytes index (b ∷ payload) >>= λ size.
      parsed index (parse (take size (drop length_bytes (b ∷ payload)))) >>= λ event.
      decode_frames fuel (suc index) (drop size (drop length_bytes (b ∷ payload))) >>= λ events.
      ok (event ∷ events)

  unfoldable pub decode_protobuf_batch : List ℕ → Result (List E)
  unfolding decode_frames
  decode_protobuf_batch [] = err (failure_at 422 "invalid_event" 0)
  decode_protobuf_batch (b ∷ payload) = decode_frames (length (b ∷ payload)) 0 (b ∷ payload)
