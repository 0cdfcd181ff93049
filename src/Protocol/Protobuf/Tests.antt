-- ===== src/Protocol/Protobuf/Tests.antt =====
-- A batch of two frames, and the theorems on it.
use android_apm_server.Prelude.{ℕ, ◌≤◌, ◌≡◌, refl, arith, Option, none, some, List, [], ◌∷◌}
use android_apm_server.Errors.{ok}
use android_apm_server.Protocol.Protobuf.{decode_frames, decode_protobuf_batch, frame_length}
use android_apm_server.Protocol.Protobuf.Framing.{frames, frame, decode_protobuf_batch-frames}
use android_apm_server.Protocol.Protobuf.Limits.{decode_frames-fuel, decode_protobuf_batch-bounds}

-- An event is the first byte of its message.
abbrev first_byte : List ℕ → Option ℕ
first_byte [] = none
first_byte (b ∷ bytes) = some b

abbrev first_or_zero : List ℕ → ℕ
first_or_zero [] = 0
first_or_zero (b ∷ bytes) = b

abbrev batch : List ℕ
batch = 0 ∷ 0 ∷ 0 ∷ 1 ∷ 7 ∷ 0 ∷ 0 ∷ 0 ∷ 2 ∷ 8 ∷ 9 ∷ []

two_frames : frames ((7 ∷ []) ∷ (8 ∷ 9 ∷ []) ∷ []) ≡ batch
unfolding frames frame
two_frames = refl

two_events : decode_protobuf_batch first_byte 2 100 batch ≡ ok (7 ∷ 8 ∷ [])
unfolding decode_protobuf_batch decode_frames frame_length
two_events = refl

decode_protobuf_batch-frames_example :
    decode_protobuf_batch first_byte 2 100 (frames ((7 ∷ []) ∷ (8 ∷ 9 ∷ []) ∷ [])) ≡ ok (7 ∷ 8 ∷ [])
decode_protobuf_batch-frames_example =
    decode_protobuf_batch-frames first_byte 2 100 first_or_zero (7 ∷ []) ((8 ∷ 9 ∷ []) ∷ [])
      (omega arith) (omega arith)
      ((omega arith, omega arith, refl), ((omega arith, omega arith, refl), tt))

decode_frames-fuel_example :
    decode_frames first_byte 2 100 11 0 batch ≡ decode_frames first_byte 2 100 40 0 batch
decode_frames-fuel_example =
    decode_frames-fuel first_byte 2 100 11 40 0 batch (omega arith) (omega arith)

decode_protobuf_batch-bounds_example : (1 ≤ 2) × (2 ≤ 2) × (10 ≤ 11)
decode_protobuf_batch-bounds_example =
    decode_protobuf_batch-bounds first_byte 2 100 batch (7 ∷ 8 ∷ []) two_events
