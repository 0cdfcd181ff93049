-- ===== src/Identity/Separation.antt =====
-- The messages that identity.py digests, and the key ring that it parses.
use android_apm_server.Prelude.{
  ℕ, suc, ◌≤◌, ◌≡◌, ◌≢◌, refl, sym, inl, inr, String, false, ◌||◌, Option, none, some, List, [],
  ◌∷◌, ◌++◌, All, length, arith, codes, leb, ltb, is_empty, Bool-cases, Option-cases, subst,
}
use android_apm_server.Json.{Json, Fields}
use android_apm_server.Identity.{
  InstallationHmacKeyRing, min_key_bytes, max_key_versions, installation_hmac_domain, find_secret,
  digest_message, digest, parse, parse_keys, parse_entry, count_fields, add_key, with_active,
}

abbrev pub NoNul : List ℕ → Type 0
NoNul = All (λ c. c ≢ 0)

cancel : (xs ys zs : List ℕ) → (xs ++ ys) ≡ (xs ++ zs) → ys ≡ zs
cancel [] ys zs h = h
cancel (x ∷ xs) ys zs h = cancel xs ys zs (cc h)

split_at_nul :
    (s t u v : List ℕ) → NoNul s → NoNul t → (s ++ (0 ∷ u)) ≡ (t ++ (0 ∷ v)) → (s ≡ t) × (u ≡ v)
split_at_nul [] [] u v hs ht h = (refl, cc h)
split_at_nul [] (d ∷ t) u v hs ht h = absurd (ground (arith, h, ht.0))
split_at_nul (c ∷ s) [] u v hs ht h = absurd (ground (arith, h, hs.0))
split_at_nul (c ∷ s) (d ∷ t) u v hs ht h =
    let (same, rest) = split_at_nul s t u v hs.1 ht.1 (cc h) in
    let first : c ≡ d = ground (arith, h) in (cc (first, same), rest)

-- The messages of two pairs of a tenant and an installation are the same only for the same pair, where
-- no tenant has a NUL character.
pub digest_message-injective :
    (tenant tenant' installation installation' : String)
    → NoNul (codes tenant)
    → NoNul (codes tenant')
    → digest_message tenant installation ≡ digest_message tenant' installation'
    → (codes tenant ≡ codes tenant') × (codes installation ≡ codes installation')
unfolding digest_message
digest_message-injective tenant tenant' installation installation' h h' e =
    split_at_nul (codes tenant) (codes tenant') (codes installation) (codes installation') h h'
      (cc (cancel installation_hmac_domain _ _ e))

Ring-with_active :
    (active : String) (keys : Option (List (String × List ℕ))) (ring : InstallationHmacKeyRing)
    (decode64 : String → Option (List ℕ))
    → with_active decode64 active keys ≡ some ring
    → (keys ≡ some ring.keys) × (find_secret ring.active_version ring.keys ≢ none)
Ring-with_active active none ring decode64 h = absurd (cc)
Ring-with_active active (some keys) ring decode64 h =
    elim (Option-cases (find_secret active keys)) [
      | inl e ↦ absurd (ground (arith, e, h))
      | inr (secret, e) ↦ (ground (arith, e, h), ground (arith, e, h))
    ]

module _ (decode64 : String → Option (List ℕ)) where
  parse_entry-length :
      (version : String) (encoded : Json) (secret : List ℕ)
      → parse_entry decode64 version encoded ≡ some secret
      → (min_key_bytes ≤ length secret) × (is_empty version ≡ false)
  unfolding parse_entry
  parse_entry-length version (Json.str encoded) secret h = elim (Option-cases (decode64 encoded)) [
    | inl e ↦ absurd (ground (arith, e, h))
    | inr (bytes, e) ↦ ground (arith, e, h)
  ]
  parse_entry-length version Json.null secret h = absurd (cc)
  parse_entry-length version (Json.bool b) secret h = absurd (cc)
  parse_entry-length version (Json.nat n) secret h = absurd (cc)
  parse_entry-length version (Json.negative n) secret h = absurd (cc)
  parse_entry-length version (Json.real t) secret h = absurd (cc)
  parse_entry-length version (Json.arr items) secret h = absurd (cc)
  parse_entry-length version (Json.obj fs) secret h = absurd (cc)

  abbrev pub IsStrong : String × List ℕ → Type 0
  IsStrong key = (min_key_bytes ≤ length key.1) × (is_empty key.0 ≡ false)

  add_key-some :
      (version : String) (secret : Option (List ℕ)) (rest : Option (List (String × List ℕ)))
      (keys : List (String × List ℕ))
      → add_key decode64 version secret rest ≡ some keys
      → (s : List ℕ) × (ks : List (String × List ℕ)) × (secret ≡ some s)
        × (rest ≡ some ks)
        × (keys ≡ (version, s) ∷ ks)
  add_key-some version (some s) (some ks) keys h = (s, ks, refl, refl, cc h)
  add_key-some version none rest keys h = absurd (cc)
  add_key-some version (some s) none keys h = absurd (cc)

  parse_keys-IsStrong :
      (document : Fields) (keys : List (String × List ℕ))
      → parse_keys decode64 document ≡ some keys
      → (length keys ≡ count_fields decode64 document) × All IsStrong keys
  unfolding parse_keys
  parse_keys-IsStrong Fields.end keys h =
      let same : [] ≡ keys = cc h in subst (λ ks. (length ks ≡ 0) × All IsStrong ks) same (refl, tt)
  parse_keys-IsStrong (Fields.field version encoded rest) keys h =
      let (s, ks, entry, more, same) =
        add_key-some version (parse_entry decode64 version encoded) (parse_keys decode64 rest) keys
          h in
      let (size, strong) = parse_keys-IsStrong rest ks more in
      subst (λ l. (length l ≡ suc (count_fields decode64 rest)) × All IsStrong l) (sym same)
        (omega (arith, size), (parse_entry-length version encoded s entry, strong))

  -- A key ring that is accepted has 1 to 16 keys of at least 32 bytes, none under an empty version, and
  -- pseudonymizes every installation under its active version.
  pub parse-ok :
      (hmac : List ℕ → List ℕ → String) (document : Option Json) (active : String)
      (ring : InstallationHmacKeyRing)
      → parse decode64 document active ≡ some ring
      → (1 ≤ length ring.keys)
        × (length ring.keys ≤ max_key_versions)
        × All IsStrong ring.keys
        × ((tenant installation : String) → digest hmac ring tenant installation none ≢ none)
  unfolding parse digest
  parse-ok hmac none active ring h = absurd (cc)
  parse-ok hmac (some (Json.obj document)) active ring h =
      let bounded : (ltb max_key_versions (count_fields decode64 document)
            || leb (count_fields decode64 document) 0)
          ≡ false =
        elim (Bool-cases (
          ltb max_key_versions (count_fields decode64 document)
          || leb (count_fields decode64 document) 0)) [
            | inl e ↦ absurd (ground (arith, e, h))
            | inr e ↦ e
          ] in
      let (parsed, found) =
        Ring-with_active active (parse_keys decode64 document) ring decode64
          (ground (arith, bounded, h)) in
      let (size, strong) = parse_keys-IsStrong document ring.keys parsed in
      (
        ground (arith, bounded, size),
        ground (arith, bounded, size),
        strong,
        λ tenant installation e. elim (Option-cases (find_secret ring.active_version ring.keys)) [
          | inl missing ↦ absurd (found missing)
          | inr (secret, there) ↦ absurd (ground (arith, there, e))
        ],
      )
  parse-ok hmac (some Json.null) active ring h = absurd (cc)
  parse-ok hmac (some (Json.bool b)) active ring h = absurd (cc)
  parse-ok hmac (some (Json.nat n)) active ring h = absurd (cc)
  parse-ok hmac (some (Json.negative n)) active ring h = absurd (cc)
  parse-ok hmac (some (Json.real t)) active ring h = absurd (cc)
  parse-ok hmac (some (Json.str t)) active ring h = absurd (cc)
  parse-ok hmac (some (Json.arr items)) active ring h = absurd (cc)
