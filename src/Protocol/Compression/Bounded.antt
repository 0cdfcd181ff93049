-- ===== src/Protocol/Compression/Bounded.antt =====
-- `decompress_gzip_bounded` of protocol/compression.py: the member that it accepts, and its loop.
use android_apm_server.Prelude.{
  ℕ, zero, suc, ◌+◌, ◌-◌, ◌≤◌, ◌≡◌, refl, sym, ap, true, false, not, ◌||◌, Option, none, some, List,
  [], ◌∷◌, ◌++◌, length, length-drop, take, drop, arith, ltb, subst, not-false,
}
use android_apm_server.Errors.{ok, ◌>>◌, refuse_if, found_ok, passes, bind-congr}
use android_apm_server.Protocol.Compression.{
  Decompressor, chunk_bytes, too_large, invalid_gzip, or_invalid, inflate, finish_inflate,
  decompress_gzip_bounded,
}

module _ {State : Type 0} (z : Decompressor State) (max_output_bytes : ℕ) where
  -- The output is what the loop and the last flush produced; after them the decompressor has seen the end
  -- of the member, and nothing behind it.
  pub record IsWhole (payload output : List ℕ) : Type 0 where
    pub before : List ℕ × State
    pub last : List ℕ × State
    pub inflated : inflate z max_output_bytes (length payload) payload ([], z.start) ≡ ok before
    pub flushed : z.flush before.1 ((max_output_bytes - length before.0) + 1) ≡ some last
    pub joined : output ≡ before.0 ++ last.0
    pub bounded : length output ≤ max_output_bytes
    pub ended : z.eof last.1 ≡ true
    pub alone : z.unused_data last.1 ≡ false

  or_invalid-some :
      {A : Type 0} (value : Option A) (a : A) → or_invalid value ≡ ok a → value ≡ some a
  or_invalid-some none a h = absurd (cc)
  or_invalid-some (some b) a h = cc h

  finish_inflate-IsWhole :
      (payload : List ℕ) (before : List ℕ × State) (output : List ℕ)
      → inflate z max_output_bytes (length payload) payload ([], z.start) ≡ ok before
      → finish_inflate z max_output_bytes before ≡ ok output
      → IsWhole payload output
  unfolding finish_inflate
  finish_inflate-IsWhole payload (before, state) output inflated h =
      let flush = z.flush state ((max_output_bytes - length before) + 1) in
      let (rest, (flushed, h1)) = found_ok (or_invalid flush) _ output h in
      let all = before ++ rest.0 in
      let alone = refuse_if (z.unused_data rest.1) invalid_gzip >> ok all in
      let whole = refuse_if (not (z.eof rest.1)) invalid_gzip >> alone in
      let (small, h2) = passes (ltb max_output_bytes (length all)) too_large whole output h1 in
      let (ended, h3) = passes (not (z.eof rest.1)) invalid_gzip alone output h2 in
      let (unused, h4) = passes (z.unused_data rest.1) invalid_gzip (ok all) output h3 in
      let same : all ≡ output = cc h4 in
      record {
        before = (before, state);
        last = rest;
        inflated = inflated;
        flushed = or_invalid-some flush rest flushed;
        joined = sym same;
        bounded = subst (λ o. length o ≤ max_output_bytes) same (ground (arith, small));
        ended = not-false (z.eof rest.1) ended;
        alone = unused;
      }

  -- An accepted body is not longer than the limit; it is what the loop and the last flush produced, after
  -- which the decompressor is at the end of the member and has nothing behind it.
  pub decompress_gzip_bounded-IsWhole :
      (payload output : List ℕ)
      → decompress_gzip_bounded z max_output_bytes payload ≡ ok output
      → IsWhole payload output
  unfolding decompress_gzip_bounded
  decompress_gzip_bounded-IsWhole payload output h =
      let (done, (inflated, h1)) =
        found_ok (inflate z max_output_bytes (length payload) payload ([], z.start)) _ output h in
      finish_inflate-IsWhole payload done output inflated h1

  inflate-fuels :
      (fuel fuel' : ℕ) (payload : List ℕ) (done : List ℕ × State)
      → length payload ≤ fuel
      → length payload ≤ fuel'
      → inflate z max_output_bytes fuel payload done ≡ inflate z max_output_bytes fuel' payload done
  unfolding inflate
  inflate-fuels fuel fuel' [] done h h' = refl
  inflate-fuels zero fuel' (b ∷ payload) done h h' = absurd (omega (arith, h))
  inflate-fuels (suc fuel) zero (b ∷ payload) done h h' = absurd (omega (arith, h'))
  inflate-fuels (suc fuel) (suc fuel') (b ∷ payload) (output, state) h h' =
      let behind = drop chunk_bytes (b ∷ payload) in
      let size = length-drop chunk_bytes (b ∷ payload) in
      ap (λ after. refuse_if (ltb max_output_bytes (length output)) too_large >> after)
        (bind-congr
          (or_invalid (
            z.decompress state (take chunk_bytes (b ∷ payload))
              ((max_output_bytes - length output) + 1)))
          _ _
          (λ produced.
            ap
              (λ after.
                refuse_if
                  (ltb max_output_bytes (length (output ++ produced.0))
                    || z.unconsumed_tail produced.1)
                  too_large
                >> after)
              (inflate-fuels fuel fuel' behind (output ++ produced.0, produced.1)
                (omega (arith, size, h)) (omega (arith, size, h')))))

  -- The loop does not depend on its fuel, where that is at least the length of the payload.
  pub inflate-fuel :
      (fuel : ℕ) (payload : List ℕ) (done : List ℕ × State)
      → length payload ≤ fuel
      → inflate z max_output_bytes fuel payload done
        ≡ inflate z max_output_bytes (length payload) payload done
  inflate-fuel fuel payload done h =
      inflate-fuels fuel (length payload) payload done h (omega arith)
