-- ===== src/Auth/Bearer.antt =====
-- The Authorization header of auth.py, query_auth.py and ci_auth.py: "Bearer ", the prefix of the
-- audience, the key id and the secret, with "_" between them. Text is a list of code points here.
use android_apm_server.Prelude.{
  ℕ, ◌≤◌, ◌≡◌, ◌≢◌, refl, sym, ap, ◌∙◌, String, Bool, true, false, not, ◌&&◌, Option, none, some,
  List, [], ◌∷◌, ◌++◌, length, arith, leb, ◌==◌, codes, same_codes, if◌then◌else◌, Bool-cases, inl,
  inr, All,
}

-- text.removeprefix(prefix), where the text starts with it
unfoldable pub remove_prefix : List ℕ → List ℕ → Option (List ℕ)
remove_prefix [] s = some s
remove_prefix (c ∷ p) [] = none
remove_prefix (c ∷ p) (d ∷ s) = let rest = remove_prefix p s in if c == d then rest else none

abbrev cons_left : ℕ → Option (List ℕ × List ℕ) → Option (List ℕ × List ℕ)
cons_left c none = none
cons_left c (some (before, behind)) = some (c ∷ before, behind)

-- The text before the first separator, and what is behind it.
unfoldable pub cut : List ℕ → Option (List ℕ × List ℕ)
cut [] = none
cut (c ∷ s) = let rest = cons_left c (cut s) in if c == b'_' then some ([], s) else rest

abbrev no_code : List ℕ → Bool
no_code [] = true
no_code (c ∷ s) = false

abbrev with_first : List ℕ → Option (List ℕ × List ℕ) → Option (List ℕ × List ℕ × List ℕ)
with_first first none = none
with_first first (some (second, third)) = some (first, second, third)

abbrev cut_again : Option (List ℕ × List ℕ) → Option (List ℕ × List ℕ × List ℕ)
cut_again none = none
cut_again (some (first, others)) = with_first first (cut others)

-- The parts of a token with three parts: split("_", maxsplit=2).
unfoldable pub token_parts : List ℕ → Option (List ℕ × List ℕ × List ℕ)
unfolding cut
token_parts token = cut_again (cut token)

-- The id and the secret, where the token is of this audience and both are there.
unfoldable pub accept_parts : List ℕ → Option (List ℕ × List ℕ × List ℕ) → Option (List ℕ × List ℕ)
accept_parts prefix none = none
accept_parts prefix (some (first, second, third)) =
    if same_codes first prefix && not (no_code second) && not (no_code third)
    then some (second, third)
    else none

abbrev pub max_header_length : ℕ
max_header_length = 256

abbrev pub parse_token : List ℕ → Option (List ℕ) → Option (List ℕ × List ℕ)
parse_token prefix none = none
parse_token prefix (some token) = accept_parts prefix (token_parts token)

unfoldable pub parse_header : List ℕ → List ℕ → Option (List ℕ × List ℕ)
unfolding remove_prefix token_parts accept_parts
parse_header prefix header =
    if leb (length header) max_header_length
    then parse_token prefix (remove_prefix (codes "Bearer ") header)
    else none

-- parse_bearer_token, _parse_query_bearer and _parse_ci_bearer differ in the prefix.
unfoldable pub parse_bearer : List ℕ → Option String → Option (List ℕ × List ℕ)
unfolding parse_header
parse_bearer prefix none = none
parse_bearer prefix (some authorization) = parse_header prefix (codes authorization)

-- generate_ingest_key and its namesakes: the token of an id and a secret.
unfoldable pub plaintext : List ℕ → List ℕ → List ℕ → List ℕ
plaintext prefix key_id secret = prefix ++ (b'_' ∷ (key_id ++ (b'_' ∷ secret)))

abbrev pub NoSeparator : List ℕ → Type 0
NoSeparator = All (λ c. c ≢ b'_')

cut-append :
    (before behind : List ℕ)
    → NoSeparator before
    → cut (before ++ (b'_' ∷ behind)) ≡ some (before, behind)
unfolding cut
cut-append [] behind h = refl
cut-append (c ∷ before) behind h = ground (arith, cut-append before behind h.1)

pub same_codes_refl : (s : List ℕ) → same_codes s s ≡ true
same_codes_refl [] = refl
same_codes_refl (c ∷ s) = ground (arith, same_codes_refl s)

pub same_codes_eq : (s t : List ℕ) → same_codes s t ≡ true → s ≡ t
same_codes_eq [] [] h = refl
same_codes_eq [] (d ∷ t) h = absurd (cc)
same_codes_eq (c ∷ s) [] h = absurd (cc)
same_codes_eq (c ∷ s) (d ∷ t) h = ground (arith, same_codes_eq s t)

abbrev pub bearer : List ℕ → List ℕ
bearer token = codes "Bearer " ++ token

token_parts-plaintext :
    (prefix id secret : List ℕ)
    → NoSeparator prefix
    → NoSeparator id
    → token_parts (plaintext prefix id secret) ≡ some (prefix, id, secret)
unfolding token_parts plaintext
token_parts-plaintext prefix id secret no_prefix no_id =
    rw (cut-append prefix (id ++ (b'_' ∷ secret)) no_prefix, cut-append id secret no_id) refl

accept_parts-own :
    (prefix : List ℕ) (i : ℕ) (id : List ℕ) (s : ℕ) (secret : List ℕ)
    → accept_parts prefix (some (prefix, i ∷ id, s ∷ secret)) ≡ some (i ∷ id, s ∷ secret)
unfolding accept_parts
accept_parts-own prefix i id s secret = rw (same_codes_refl prefix) refl

-- The server reads back the id and the secret of each key that it hands out: the prefix and the id
-- have no separator, the secret may have some, id and secret are not empty, and the header is not
-- longer than 256 characters.
pub parse_header-plaintext :
    (prefix : List ℕ) (i : ℕ) (id : List ℕ) (s : ℕ) (secret : List ℕ)
    → NoSeparator prefix
    → NoSeparator (i ∷ id)
    → length (bearer (plaintext prefix (i ∷ id) (s ∷ secret))) ≤ max_header_length
    → parse_header prefix (bearer (plaintext prefix (i ∷ id) (s ∷ secret)))
      ≡ some (i ∷ id, s ∷ secret)
unfolding parse_header
parse_header-plaintext prefix i id s secret no_prefix no_id short =
    let within : leb (length (bearer (plaintext prefix (i ∷ id) (s ∷ secret)))) max_header_length
        ≡ true =
      ground arith in
    rw within (
      ap (accept_parts prefix) (token_parts-plaintext prefix (i ∷ id) (s ∷ secret) no_prefix no_id)
      ∙ accept_parts-own prefix i id s secret)

same_audience :
    (prefix prefix' first : List ℕ)
    → prefix ≢ prefix'
    → same_codes first prefix ≡ true
    → same_codes first prefix' ≡ false
same_audience prefix prefix' first apart h = elim (Bool-cases (same_codes first prefix')) [
  | inl e ↦ absurd (apart (sym (same_codes_eq first prefix h) ∙ same_codes_eq first prefix' e))
  | inr e ↦ e
]

accept_parts-audience :
    (prefix prefix' : List ℕ) (parts : Option (List ℕ × List ℕ × List ℕ)) (found : List ℕ × List ℕ)
    → prefix ≢ prefix'
    → accept_parts prefix parts ≡ some found
    → accept_parts prefix' parts ≡ none
unfolding accept_parts
accept_parts-audience prefix prefix' none found apart h = refl
accept_parts-audience prefix prefix' (some (first, second, third)) found apart h =
    elim (Bool-cases (same_codes first prefix)) [
      | inl e ↦ rw (same_audience prefix prefix' first apart e) refl
      | inr e ↦ absurd (ground (arith, e, h))
    ]

parse_token-audience :
    (prefix prefix' : List ℕ) (token : Option (List ℕ)) (found : List ℕ × List ℕ)
    → prefix ≢ prefix'
    → parse_token prefix token ≡ some found
    → parse_token prefix' token ≡ none
parse_token-audience prefix prefix' none found apart h = refl
parse_token-audience prefix prefix' (some token) found apart h =
    accept_parts-audience prefix prefix' (token_parts token) found apart h

-- A header that is accepted for one audience is refused for every other.
pub parse_header-audience :
    (prefix prefix' header : List ℕ) (found : List ℕ × List ℕ)
    → prefix ≢ prefix'
    → parse_header prefix header ≡ some found
    → parse_header prefix' header ≡ none
unfolding parse_header
parse_header-audience prefix prefix' header found apart h =
    elim (Bool-cases (leb (length header) max_header_length)) [
      | inl e ↦ simp e (
          parse_token-audience prefix prefix' (remove_prefix (codes "Bearer ") header) found apart
            (ground (arith, e, h)))
      | inr e ↦ absurd (ground (arith, e, h))
    ]
