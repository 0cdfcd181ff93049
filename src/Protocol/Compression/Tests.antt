-- ===== src/Protocol/Compression/Tests.antt =====
-- A decompressor that copies its input, up to a byte that ends the member.
use android_apm_server.Prelude.{
  ℕ, zero, suc, ◌≡◌, refl, Bool, true, false, some, List, [], ◌∷◌, length, take, ltb,
}
use android_apm_server.Errors.{ok}
use android_apm_server.Protocol.Compression.{
  Decompressor, inflate, finish_inflate, decompress_gzip_bounded,
}
use android_apm_server.Protocol.Compression.Bounded.{IsWhole, decompress_gzip_bounded-IsWhole}

-- The state is whether something is left, whether the end was seen, and whether more was behind it.
abbrev member : List ℕ → List ℕ × List ℕ × Bool
member [] = ([], [], false)
member (zero ∷ rest) = ([], rest, true)
member (suc b ∷ rest) = let (body, behind, ended) = member rest in (suc b ∷ body, behind, ended)

abbrev any_left : List ℕ → Bool
any_left [] = false
any_left (b ∷ rest) = true

abbrev copier : Decompressor (Bool × Bool × Bool)
copier = record {
  start = (false, false, false);
  decompress = λ state input n.
      let (body, behind, ended) = member input in
      some (take n body, (ltb n (length body), ended, any_left behind));
  flush = λ state n. some ([], state);
  unconsumed_tail = λ state. state.0;
  eof = λ state. state.1;
  unused_data = λ state. state.2;
}

copied : decompress_gzip_bounded copier 3 (5 ∷ 6 ∷ 0 ∷ []) ≡ ok (5 ∷ 6 ∷ [])
unfolding decompress_gzip_bounded inflate finish_inflate
copied = refl

decompress_gzip_bounded-IsWhole_example : IsWhole copier 3 (5 ∷ 6 ∷ 0 ∷ []) (5 ∷ 6 ∷ [])
decompress_gzip_bounded-IsWhole_example =
    decompress_gzip_bounded-IsWhole copier 3 (5 ∷ 6 ∷ 0 ∷ []) (5 ∷ 6 ∷ []) copied
