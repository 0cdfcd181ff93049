-- ===== src/Protocol/Protobuf/Limits.antt =====
-- The limits of a batch in protocol/protobuf.py, and its loop.
use android_apm_server.Prelude.{
  ℕ, zero, suc, ◌+◌, ◌*◌, ◌≤◌, ◌≡◌, refl, ap, Option, List, [], ◌∷◌, length, take, drop, arith,
  length-drop,
}
use android_apm_server.Errors.{ok, ◌>>=◌, found_ok, bind-congr}
use android_apm_server.Protocol.Protobuf.{
  length_bytes, frame_length, decode_frames, decode_protobuf_batch, parsed,
}

behind :
    (size b : ℕ) (payload : List ℕ)
    → length (drop size (drop length_bytes (b ∷ payload))) ≤ length payload
behind size b payload = omega (
  arith,
  length-drop size (drop length_bytes (b ∷ payload)),
  length-drop length_bytes (b ∷ payload),
)

frame_length-ok :
    (max_events max_event_bytes index : ℕ) (payload : List ℕ) (size : ℕ)
    → frame_length max_events max_event_bytes index payload ≡ ok size
    → (suc index ≤ max_events) × (1 ≤ size) × (size ≤ max_event_bytes) × (4 + size ≤ length payload)
unfolding frame_length
frame_length-ok max_events max_event_bytes index payload size h = ground (arith, h)

module _ {E : Type 0} (parse : List ℕ → Option E) (max_events max_event_bytes : ℕ) where
  -- The loop on a payload does not depend on its fuel, where that is at least the payload's length.
  pub decode_frames-fuel :
      (fuel fuel' index : ℕ) (payload : List ℕ)
      → length payload ≤ fuel
      → length payload ≤ fuel'
      → decode_frames parse max_events max_event_bytes fuel index payload
        ≡ decode_frames parse max_events max_event_bytes fuel' index payload
  unfolding decode_frames
  decode_frames-fuel fuel fuel' index [] h h' = refl
  decode_frames-fuel zero fuel' index (b ∷ payload) h h' = absurd (omega arith)
  decode_frames-fuel (suc fuel) zero index (b ∷ payload) h h' = absurd (omega arith)
  decode_frames-fuel (suc fuel) (suc fuel') index (b ∷ payload) h h' =
      bind-congr (frame_length max_events max_event_bytes index (b ∷ payload)) _ _ (λ size.
        bind-congr (parsed index (parse (take size (drop length_bytes (b ∷ payload))))) _ _
          (λ event.
            ap (λ r. r >>= λ events. ok (event ∷ events))
              (decode_frames-fuel fuel fuel' (suc index)
                (drop size (drop length_bytes (b ∷ payload))) (omega (arith, behind size b payload))
                (omega (arith, behind size b payload)))))

  decode_frames-bounds :
      (fuel index : ℕ) (payload : List ℕ) (events : List E)
      → index ≤ max_events
      → decode_frames parse max_events max_event_bytes fuel index payload ≡ ok events
      → (index + length events ≤ max_events) × (length events * 5 ≤ length payload)
  unfolding decode_frames
  decode_frames-bounds fuel index [] events room h =
      let same : [] ≡ events = cc h in
      let counted : 0 ≡ length events = ap length same in
      (omega (arith, counted), omega (arith, counted))
  decode_frames-bounds zero index (b ∷ payload) events room h = absurd (cc)
  decode_frames-bounds (suc fuel) index (b ∷ payload) events room h =
      let (size, (sized, h1)) =
        found_ok (frame_length max_events max_event_bytes index (b ∷ payload)) _ events h in
      let (event, (read, h2)) =
        found_ok (parsed index (parse (take size (drop length_bytes (b ∷ payload))))) _ events h1 in
      let (others, (more, h3)) =
        found_ok
          (decode_frames parse max_events max_event_bytes fuel (suc index)
            (drop size (drop length_bytes (b ∷ payload))))
          (λ es. ok (event ∷ es)) events h2 in
      let (next, some_bytes, small, whole) =
        frame_length-ok max_events max_event_bytes index (b ∷ payload) size sized in
      let (count, room') =
        decode_frames-bounds fuel (suc index) (drop size (drop length_bytes (b ∷ payload))) others
          next more in
      let same : (event ∷ others) ≡ events = cc h3 in
      let counted : suc (length others) ≡ length events = ap length same in
      (
        omega (arith, count, counted),
        omega (
          arith,
          room',
          counted,
          length-drop size (drop length_bytes (b ∷ payload)),
          length-drop length_bytes (b ∷ payload),
        ),
      )

  decode_frames-some :
      (fuel index b : ℕ) (payload : List ℕ) (events : List E)
      → decode_frames parse max_events max_event_bytes (suc fuel) index (b ∷ payload) ≡ ok events
      → 1 ≤ length events
  unfolding decode_frames
  decode_frames-some fuel index b payload events h =
      let (size, (sized, h1)) =
        found_ok (frame_length max_events max_event_bytes index (b ∷ payload)) _ events h in
      let (event, (read, h2)) =
        found_ok (parsed index (parse (take size (drop length_bytes (b ∷ payload))))) _ events h1 in
      let (others, (more, h3)) =
        found_ok
          (decode_frames parse max_events max_event_bytes fuel (suc index)
            (drop size (drop length_bytes (b ∷ payload))))
          (λ es. ok (event ∷ es)) events h2 in
      let same : (event ∷ others) ≡ events = cc h3 in
      let counted : suc (length others) ≡ length events = ap length same in omega (arith, counted)

  -- An accepted batch has at least one event and at most `max_events`, and at most a fifth as many as
  -- it has bytes.
  pub decode_protobuf_batch-bounds :
      (payload : List ℕ) (events : List E)
      → decode_protobuf_batch parse max_events max_event_bytes payload ≡ ok events
      → (1 ≤ length events) × (length events ≤ max_events) × (length events * 5 ≤ length payload)
  unfolding decode_protobuf_batch
  decode_protobuf_batch-bounds [] events h = absurd (cc)
  decode_protobuf_batch-bounds (b ∷ payload) events h =
      let (count, room) =
        decode_frames-bounds (length (b ∷ payload)) 0 (b ∷ payload) events (omega arith) h in
      (decode_frames-some (length payload) 0 b payload events h, omega (arith, count), room)
