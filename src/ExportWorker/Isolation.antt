-- ===== src/ExportWorker/Isolation.antt =====
-- The batch that worker.py exports, and the rows that it sets aside.
use android_apm_server.Prelude.{
  ◌≡◌, refl, ◌∙◌, ◌⊎◌, inl, inr, Bool, not, Option, none, some, List, [], ◌∷◌, is_none, select,
  arith, Bool-cases,
}
use android_apm_server.Db.Models.{InboxEvent}
use android_apm_server.ExportWorker.{
  isolate, encoded, encode_valid, encode_or_isolate, encode_isolated_batch,
}

module _ {P : Type 0} (build : List InboxEvent → Option P) (no_payload : P) where
  abbrev pub is_invalid : InboxEvent → Bool
  is_invalid event = is_none (build (event ∷ []))

  isolate-select :
      (events : List InboxEvent)
      → (isolate build no_payload events).0 ≡ select (λ e. not (is_invalid e)) events
        × ((isolate build no_payload events).1 ≡ select is_invalid events)
  unfolding isolate
  isolate-select [] = (refl, refl)
  isolate-select (event ∷ events) =
      let (valid, invalid) = isolate-select events in
      elim (Bool-cases (is_invalid event)) [
        | inl e ↦ rw e (valid, cc invalid)
        | inr e ↦ rw e (cc valid, invalid)
      ]

  encoded-parts :
      (o : Option P) (valid invalid exportable rest : List InboxEvent) (payload : P)
      → encoded build no_payload o valid invalid ≡ some (payload, exportable, rest)
      → (o ≡ some payload) × (exportable ≡ valid) × (rest ≡ invalid)
  encoded-parts none valid invalid exportable rest payload h = absurd (cc)
  encoded-parts (some p) valid invalid exportable rest payload h = ground (arith, h)

  encode_valid-parts :
      (valid invalid exportable rest : List InboxEvent) (payload : P)
      → encode_valid build no_payload valid invalid ≡ some (payload, exportable, rest)
      → (exportable ≡ valid)
        × (rest ≡ invalid)
        × ((build exportable ≡ some payload) ⊎ (exportable ≡ []))
  encode_valid-parts [] invalid exportable rest payload h = ground (arith, h)
  encode_valid-parts (event ∷ valid) invalid exportable rest payload h =
      let (built, same, same_rest) =
        encoded-parts (build (event ∷ valid)) (event ∷ valid) invalid exportable rest payload h in
      (same, same_rest, inl (cc (built, same)))

  encode_or_isolate-parts :
      (o : Option P) (events exportable rest : List InboxEvent) (payload : P)
      → build events ≡ o
      → encode_or_isolate build no_payload o events ≡ some (payload, exportable, rest)
      → ((build exportable ≡ some payload) ⊎ (exportable ≡ []))
        × (((build events ≡ some payload) × (exportable ≡ events) × (rest ≡ []))
            ⊎ ((build events ≡ none)
                × (exportable ≡ select (λ e. not (is_invalid e)) events)
                × (rest ≡ select is_invalid events)))
  encode_or_isolate-parts (some p) events exportable rest payload b h =
      let same : exportable ≡ events = ground (arith, h) in
      let none_left : rest ≡ [] = ground (arith, h) in
      let sent : some p ≡ some payload = ground (arith, h) in
      (inl (cc (b, same, sent)), inl (b ∙ sent, same, none_left))
  encode_or_isolate-parts none events exportable rest payload b h =
      let (valid, invalid) = isolate-select events in
      let (same, same_rest, sent) =
        encode_valid-parts (isolate build no_payload events).0 (isolate build no_payload events).1
          exportable rest payload h in
      (sent, inr (b, cc (same, valid), cc (same_rest, invalid)))

  -- Where the cycle does not raise: if the batch can be encoded as a whole, that encoding is the
  -- payload, all rows are exported and none is set aside. If it cannot, the rows that can be encoded
  -- alone are exported, in their order, and the others are set aside, in their order. The payload is
  -- always the encoding of the rows that are exported, or there are none.
  pub encode_isolated_batch-parts :
      (events exportable invalid : List InboxEvent) (payload : P)
      → encode_isolated_batch build no_payload events ≡ some (payload, exportable, invalid)
      → ((build exportable ≡ some payload) ⊎ (exportable ≡ []))
        × (((build events ≡ some payload) × (exportable ≡ events) × (invalid ≡ []))
            ⊎ ((build events ≡ none)
                × (exportable ≡ select (λ e. not (is_invalid e)) events)
                × (invalid ≡ select is_invalid events)))
  unfolding encode_isolated_batch
  encode_isolated_batch-parts events exportable invalid payload h =
      encode_or_isolate-parts (build events) events exportable invalid payload refl h
