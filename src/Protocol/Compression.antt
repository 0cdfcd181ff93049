-- ===== src/Protocol/Compression.antt =====
-- protocol/compression.py: one gzip member within a limit. The decompressor of zlib is a record of its
-- operations; `none` is zlib.error.
pub mod Bounded
mod Tests
use android_apm_server.Prelude.{
  ℕ, zero, suc, ◌+◌, ◌-◌, Bool, true, false, not, ◌||◌, Option, none, some, List, [], ◌∷◌, ◌++◌,
  length, take, drop, ltb, leb, if◌then◌else◌,
}
use android_apm_server.Errors.{ApiError, Result, ok, err, ◌>>=◌, ◌>>◌, refuse_if, failure}

-- zlib.decompressobj: each operation has the output and the next state.
pub record Decompressor (State : Type 0) : Type 0 where
  pub start : State
  pub decompress : State → List ℕ → ℕ → Option (List ℕ × State)
  pub flush : State → ℕ → Option (List ℕ × State)
  pub unconsumed_tail : State → Bool
  pub eof : State → Bool
  pub unused_data : State → Bool

abbrev pub chunk_bytes : ℕ
chunk_bytes = 65536

abbrev pub too_large : ApiError
too_large = failure 413 "payload_too_large"

abbrev pub invalid_gzip : ApiError
invalid_gzip = failure 400 "invalid_gzip"

abbrev pub or_invalid : {A : Type 0} → Option A → Result A
or_invalid none = err invalid_gzip
or_invalid (some a) = ok a

module _ {State : Type 0} (z : Decompressor State) (max_output_bytes : ℕ) where
  -- The loop; `payload` is what is behind the cursor, and each turn takes some of it.
  unfoldable pub inflate : ℕ → List ℕ → List ℕ × State → Result (List ℕ × State)
  inflate fuel [] done = ok done
  inflate zero (b ∷ payload) done = err too_large
  inflate (suc fuel) (b ∷ payload) (output, state) =
      refuse_if (ltb max_output_bytes (length output)) too_large
      >> (or_invalid (
            z.decompress state (take chunk_bytes (b ∷ payload))
              ((max_output_bytes - length output) + 1))
          >>= λ produced.
              refuse_if
                (ltb max_output_bytes (length (output ++ produced.0))
                  || z.unconsumed_tail produced.1)
                too_large
              >> inflate fuel (drop chunk_bytes (b ∷ payload)) (output ++ produced.0, produced.1))

  -- The checks at the end. `max_output_bytes - len(output)` is not negative here.
  unfoldable pub finish_inflate : List ℕ × State → Result (List ℕ)
  finish_inflate (output, state) =
      or_invalid (z.flush state ((max_output_bytes - length output) + 1)) >>= λ rest.
      refuse_if (ltb max_output_bytes (length (output ++ rest.0))) too_large
      >> (refuse_if (not (z.eof rest.1)) invalid_gzip
          >> (refuse_if (z.unused_data rest.1) invalid_gzip >> ok (output ++ rest.0)))

  unfoldable pub decompress_gzip_bounded : List ℕ → Result (List ℕ)
  unfolding inflate finish_inflate
  decompress_gzip_bounded payload =
      inflate (length payload) payload ([], z.start) >>= finish_inflate
