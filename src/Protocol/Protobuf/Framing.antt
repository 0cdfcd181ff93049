-- ===== src/Protocol/Protobuf/Framing.antt =====
-- Frames as an SDK writes them, and `decode_protobuf_batch` of protocol/protobuf.py on them.
use android_apm_server.Prelude.{
  ℕ, zero, suc, ◌+◌, ◌*◌, ◌/◌, ◌%◌, ◌≤◌, ◌<◌, ◌≡◌, refl, ap, Option, some, List, [], ◌∷◌, ◌++◌,
  length, take, drop, All, arith, map, length-append,
}
use android_apm_server.Errors.{ok, ◌>>=◌}
use android_apm_server.Protocol.Protobuf.{frame_length, decode_frames, decode_protobuf_batch}

-- The frame of a message: its length in four bytes, and the message.
unfoldable pub frame : List ℕ → List ℕ
frame message =
    let n = length message in
    n / 16777216 % 256 ∷ n / 65536 % 256 ∷ n / 256 % 256 ∷ n % 256 ∷ message

unfoldable pub frames : List (List ℕ) → List ℕ
unfolding frame
frames [] = []
frames (m ∷ ms) = frame m ++ frames ms

length_digits :
    (n : ℕ)
    → n < 4294967296
    → (((0 * 256 + n / 16777216 % 256) * 256 + n / 65536 % 256) * 256 + n / 256 % 256) * 256
        + n % 256
      ≡ n
length_digits n h = omega arith

take-append : {A : Type 0} (xs ys : List A) → take (length xs) (xs ++ ys) ≡ xs
take-append [] ys = refl
take-append (x ∷ xs) ys = ap (◌∷◌ x) (take-append xs ys)

drop-append : {A : Type 0} (xs ys : List A) → drop (length xs) (xs ++ ys) ≡ ys
drop-append [] ys = refl
drop-append (x ∷ xs) ys = drop-append xs ys

frame_length-frame :
    (max_events max_event_bytes index : ℕ) (m rest : List ℕ)
    → index < max_events
    → 1 ≤ length m
    → length m ≤ max_event_bytes
    → max_event_bytes < 4294967296
    → frame_length max_events max_event_bytes index (frame m ++ rest) ≡ ok (length m)
unfolding frame_length frame
frame_length-frame max_events max_event_bytes index m rest room some_bytes small wide =
    rw (length_digits (length m) (omega arith)) (ground (arith, length-append m rest))

module _ {E : Type 0} (parse : List ℕ → Option E) (max_events max_event_bytes : ℕ) where
  -- What a frame holds: a message that is not empty, not too long, and parses.
  abbrev pub Holds : (List ℕ → E) → List ℕ → Type 0
  Holds event m = (1 ≤ length m) × (length m ≤ max_event_bytes) × (parse m ≡ some (event m))

  -- One turn of the loop on a frame.
  decode-frame :
      (event : List ℕ → E) (fuel index : ℕ) (m rest : List ℕ)
      → index < max_events
      → max_event_bytes < 4294967296
      → Holds event m
      → decode_frames parse max_events max_event_bytes (suc fuel) index (frame m ++ rest) ≡ (
          decode_frames parse max_events max_event_bytes fuel (suc index) rest >>= λ events.
          ok (event m ∷ events))
  unfolding decode_frames frame
  decode-frame event fuel index m rest room wide (some_bytes, small, parses) =
      let size =
        frame_length-frame max_events max_event_bytes index m rest room some_bytes small wide in
      rw (size, take-append m rest, parses, drop-append m rest) refl

  decode_frames-frames :
      (event : List ℕ → E) (fuel index : ℕ) (ms : List (List ℕ))
      → length (frames ms) ≤ fuel
      → index + length ms ≤ max_events
      → max_event_bytes < 4294967296
      → All (Holds event) ms
      → decode_frames parse max_events max_event_bytes fuel index (frames ms) ≡ ok (map event ms)
  unfolding frames frame decode_frames
  decode_frames-frames event fuel index [] enough room wide h = refl
  decode_frames-frames event zero index (m ∷ ms) enough room wide h =
      absurd (ground (arith, enough))
  decode_frames-frames event (suc fuel) index (m ∷ ms) enough room wide h =
      rw (decode-frame event fuel index m (frames ms) (omega arith) wide h.0) (
        ap (λ r. r >>= λ events. ok (event m ∷ events))
          (decode_frames-frames event fuel (suc index) ms
            (omega (arith, length-append m (frames ms), enough)) (omega arith) wide h.1))

  -- A batch of frames is decoded to its messages, in order: each message is not empty, within the
  -- limit of an event and parses, and there are one to `max_events` of them.
  pub decode_protobuf_batch-frames :
      (event : List ℕ → E) (m : List ℕ) (ms : List (List ℕ))
      → length (m ∷ ms) ≤ max_events
      → max_event_bytes < 4294967296
      → All (Holds event) (m ∷ ms)
      → decode_protobuf_batch parse max_events max_event_bytes (frames (m ∷ ms))
        ≡ ok (map event (m ∷ ms))
  unfolding decode_protobuf_batch frames frame
  decode_protobuf_batch-frames event m ms room wide h =
      decode_frames-frames event (length (frames (m ∷ ms))) 0 (m ∷ ms) (omega arith) (omega arith)
        wide h
