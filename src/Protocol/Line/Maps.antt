-- ===== src/Protocol/Line/Maps.antt =====
-- The keys of the segments and of the maps of one line of protocol/line.py.
use android_apm_server.Prelude.{
  ◌≡◌, inl, inr, String, Bool, false, Option, none, some, List, [], ◌∷◌, ◌++◌, arith, All,
  All-append, is_empty, select, str_eq, eq_iff, split, partition, Bool-cases, Option-cases, subst,
}
use android_apm_server.Protocol.Line.{Pairs, has_pair, add_pair, parse_pairs, parse_map}

-- No key stands twice, and none is empty.
abbrev pub HasDistinctKeys : Pairs → Type 0
HasDistinctKeys [] = Unit
HasDistinctKeys (pair ∷ pairs) =
    (is_empty pair.0 ≡ false)
    × All (λ other. str_eq other.0 pair.0 ≡ false) pairs
    × HasDistinctKeys pairs

HasDistinctKeys-append :
    (pairs : Pairs) (key value : String)
    → HasDistinctKeys pairs
    → is_empty key ≡ false
    → has_pair key pairs ≡ false
    → HasDistinctKeys (pairs ++ (key, value) ∷ [])
HasDistinctKeys-append [] key value d filled fresh = (filled, tt, tt)
HasDistinctKeys-append ((k, v) ∷ pairs) key value d filled fresh = (
  d.0,
  All-append (λ other. str_eq other.0 k ≡ false) pairs ((key, value) ∷ []) d.1
      (ground (arith, fresh, eq_iff k key, eq_iff key k), tt),
  HasDistinctKeys-append pairs key value d.2 filled (ground (arith, fresh)),
)

add_pair-HasDistinctKeys :
    (pair : String × Option String) (pairs pairs' : Pairs)
    → HasDistinctKeys pairs
    → add_pair pair pairs ≡ some pairs'
    → HasDistinctKeys pairs'
add_pair-HasDistinctKeys (key, none) pairs pairs' d h = absurd (cc)
add_pair-HasDistinctKeys (key, some value) pairs pairs' d h = elim (Bool-cases (is_empty key)) [
  | inl e ↦ absurd (ground (arith, e, h))
  | inr e ↦ elim (Bool-cases (has_pair key pairs)) [
    | inl e' ↦ absurd (ground (arith, e, e', h))
    | inr e' ↦
        let same : pairs ++ (key, value) ∷ [] ≡ pairs' = ground (arith, e, e', h) in
        subst HasDistinctKeys same (HasDistinctKeys-append pairs key value d e e')
  ]
]

pub parse_pairs-HasDistinctKeys :
    (items : List String) (pairs pairs' : Pairs)
    → HasDistinctKeys pairs
    → parse_pairs items pairs ≡ some pairs'
    → HasDistinctKeys pairs'
unfolding parse_pairs
parse_pairs-HasDistinctKeys [] pairs pairs' d h = subst HasDistinctKeys (cc h) d
parse_pairs-HasDistinctKeys (item ∷ items) pairs pairs' d h =
    elim (Option-cases (add_pair (partition b'=' item) pairs)) [
      | inl e ↦ absurd (ground (arith, e, h))
      | inr (next, e) ↦
          parse_pairs-HasDistinctKeys items next pairs'
            (add_pair-HasDistinctKeys (partition b'=' item) pairs next d e) (ground (arith, e, h))
    ]

pub parse_map-HasDistinctKeys :
    (value : Option String) (pairs : Pairs) → parse_map value ≡ some pairs → HasDistinctKeys pairs
unfolding parse_map
parse_map-HasDistinctKeys none pairs h =
    let same : [] ≡ pairs = cc h in subst HasDistinctKeys same tt
parse_map-HasDistinctKeys (some value) pairs h = elim (Bool-cases (is_empty value)) [
  | inl e ↦ let same : [] ≡ pairs = ground (arith, e, h) in subst HasDistinctKeys same tt
  | inr e ↦ parse_pairs-HasDistinctKeys (split b',' value) [] pairs tt (ground (arith, e, h))
]

select-All :
    (test : String × String → Bool) (P : String × String → Type 0) (pairs : Pairs)
    → All P pairs
    → All P (select test pairs)
select-All test P [] h = tt
select-All test P (pair ∷ pairs) h = elim (Bool-cases (test pair)) [
  | inl e ↦ rw e (h.0, select-All test P pairs h.1)
  | inr e ↦ rw e (select-All test P pairs h.1)
]

pub select-HasDistinctKeys :
    (test : String × String → Bool) (pairs : Pairs)
    → HasDistinctKeys pairs
    → HasDistinctKeys (select test pairs)
select-HasDistinctKeys test [] d = tt
select-HasDistinctKeys test (pair ∷ pairs) d =
    let rest = select-HasDistinctKeys test pairs d.2 in
    elim (Bool-cases (test pair)) [
      | inl e ↦ rw e (d.0, select-All test (λ other. str_eq other.0 pair.0 ≡ false) pairs d.1, rest)
      | inr e ↦ rw e rest
    ]
