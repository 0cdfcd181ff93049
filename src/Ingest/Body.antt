-- ===== src/Ingest/Body.antt =====
-- The body that `_read_body_bounded` of api/ingest.py returns.
use android_apm_server.Prelude.{
  ℕ, ◌+◌, ◌≤◌, ◌<◌, ◌≡◌, ap, ◌∙◌, inl, inr, String, Option, List, [], ◌∷◌, ◌++◌, length,
  length-append, arith, ltb, leb, Bool-cases, if◌then◌else◌,
}
use mathlib.Core.List.{append_assoc, append-nil}
use android_apm_server.Errors.{Result, ok, err, ◌>>◌}
use android_apm_server.Ingest.Headers.{
  payload_too_large, check_length, read_chunks, read_body_bounded,
}

abbrev pub concat : List (List ℕ) → List ℕ
concat [] = []
concat (chunk ∷ chunks) = chunk ++ concat chunks

-- A body within a limit, or the refusal.
abbrev pub within : ℕ → List ℕ → Result (List ℕ)
within max_bytes body = if leb (length body) max_bytes then ok body else err payload_too_large

within_over :
    (max_bytes : ℕ) (body : List ℕ)
    → max_bytes < length body
    → err payload_too_large ≡ within max_bytes body
within_over max_bytes body h = ground (arith, h)

read_chunks-within :
    (max_bytes : ℕ) (body : List ℕ) (chunks : List (List ℕ))
    → length body ≤ max_bytes
    → read_chunks max_bytes body chunks ≡ within max_bytes (body ++ concat chunks)
unfolding read_chunks
read_chunks-within max_bytes body [] h = rw (append-nil body) (ground (arith, h))
read_chunks-within max_bytes body (chunk ∷ chunks) h =
    let joined = append_assoc body chunk (concat chunks) in
    let size = length-append body chunk in
    elim (Bool-cases (ltb max_bytes (length body + length chunk))) [
      | inl e ↦
          let all = length-append (body ++ chunk) (concat chunks) in
          rw e (
            within_over max_bytes ((body ++ chunk) ++ concat chunks) (ground (arith, e, size, all))
            ∙ ap (within max_bytes) joined)
      | inr e ↦ rw e (
          read_chunks-within max_bytes (body ++ chunk) chunks (ground (arith, e, size))
          ∙ ap (within max_bytes) joined)
    ]

-- Where the declared length is absent or is a number within the limit, the body is the chunks in their
-- order, or it is refused as too large exactly if they have more bytes than the limit, whatever the
-- declared length; where the declared length is refused, so is the body.
pub read_body_bounded-within :
    (content_length : Option String) (max_bytes : ℕ) (chunks : List (List ℕ))
    → read_body_bounded content_length max_bytes chunks
      ≡ (check_length content_length max_bytes >> within max_bytes (concat chunks))
unfolding read_body_bounded
read_body_bounded-within content_length max_bytes chunks =
    ap (λ body. check_length content_length max_bytes >> body)
      (read_chunks-within max_bytes [] chunks (omega arith))
