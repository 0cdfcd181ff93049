-- ===== src/Db/Table/Claims.antt =====
-- `SELECT ... WHERE test ORDER BY id LIMIT n` and an update of the selected rows by their keys.
use android_apm_server.Prelude.{
  ℕ, zero, suc, ◌+◌, ◌<◌, ◌≡◌, refl, ap, ◌∙◌, inl, inr, Bool, true, false, List, [], ◌∷◌, map,
  arith, Bool-cases, All, All-take, All-map, All-select, select, take, contains, length, ◌==◌, ◌||◌,
}
use android_apm_server.Db.Table.{update_where, count_where, update_first, Ascending}
use android_apm_server.Db.Table.Rows.{update_where-congr}

module _ {A : Type 0} (key : A → ℕ) where
  -- UPDATE ... SET f for the rows that a query returned
  unfoldable pub update_chosen : List A → (A → A) → List A → List A
  update_chosen chosen f xs = update_where (λ x. contains (map key chosen) (key x)) f xs

  contains_above : (k : ℕ) (xs : List A) → All (λ y. k < key y) xs → contains (map key xs) k ≡ false
  contains_above k [] h = refl
  contains_above k (x ∷ xs) h = ground (arith, contains_above k xs h.1)

  All_nothing : (f : A → A) (xs : List A) → update_where (λ x. false) f xs ≡ xs
  unfolding update_where
  All_nothing f [] = refl
  All_nothing f (x ∷ xs) = rw (All_nothing f xs)

  not_behind :
      (chosen xs : List A) (k : ℕ)
      → All (λ y. k < key y) xs
      → All
          (λ y.
            (k == key y || contains (map key chosen) (key y)) ≡ contains (map key chosen) (key y))
          xs
  not_behind chosen [] k h = tt
  not_behind chosen (x ∷ xs) k h = (ground arith, not_behind chosen xs k h.1)

  above_chosen :
      (n k : ℕ) (test : A → Bool) (xs : List A)
      → All (λ y. k < key y) xs
      → contains (map key (take n (select test xs))) k ≡ false
  above_chosen n k test xs h = contains_above k (take n (select test xs)) (
      All-take (λ y. k < key y) n (select test xs)
        (All-map (λ y. (k < key y) × (test y ≡ true)) (λ y p. p.0) (select test xs)
          (All-select (λ y. k < key y) test xs h)))

  -- The rest of the table, behind a row that is chosen first.
  update_behind :
      (chosen : List A) (f : A → A) (x : A) (xs : List A)
      → All (λ y. key x < key y) xs
      → update_chosen (x ∷ chosen) f xs ≡ update_chosen chosen f xs
  unfolding update_chosen
  update_behind chosen f x xs h =
      update_where-congr (λ y. contains (map key (x ∷ chosen)) (key y))
        (λ y. contains (map key chosen) (key y)) f xs (not_behind chosen xs (key x) h)

  update_chosen_head :
      (chosen : List A) (f : A → A) (x : A) (xs : List A)
      → update_chosen (x ∷ chosen) f (x ∷ xs) ≡ f x ∷ update_chosen (x ∷ chosen) f xs
  unfolding update_chosen update_where
  update_chosen_head chosen f x xs = ground arith

  update_chosen_skip :
      (chosen : List A) (f : A → A) (x : A) (xs : List A)
      → contains (map key chosen) (key x) ≡ false
      → update_chosen chosen f (x ∷ xs) ≡ x ∷ update_chosen chosen f xs
  unfolding update_chosen update_where
  update_chosen_skip chosen f x xs h = rw h

  update_chosen_nil : (f : A → A) (xs : List A) → update_chosen [] f xs ≡ xs
  unfolding update_chosen
  update_chosen_nil f xs = All_nothing f xs

  pub update_chosen-first :
      (n : ℕ) (test : A → Bool) (f : A → A) (xs : List A)
      → Ascending key xs
      → update_chosen (take n (select test xs)) f xs ≡ update_first n test f xs
  unfolding update_first
  update_chosen-first zero test f [] h = update_chosen_nil f []
  update_chosen-first (suc n) test f [] h = update_chosen_nil f []
  update_chosen-first zero test f (x ∷ xs) h = update_chosen_nil f (x ∷ xs)
  update_chosen-first (suc n) test f (x ∷ xs) h = elim (Bool-cases (test x)) [
    | inl e ↦
        rw (e, update_first)
          (update_chosen_head (take n (select test xs)) f x xs
            ∙ ap (◌∷◌ (f x)) (
                update_behind (take n (select test xs)) f x xs h.0
                ∙ update_chosen-first n test f xs h.1))
    | inr e ↦
        rw (e, update_first)
          (update_chosen_skip (take (suc n) (select test xs)) f x xs
              (above_chosen (suc n) (key x) test xs h.0)
            ∙ ap (◌∷◌ x) (update_chosen-first (suc n) test f xs h.1))
  ]

  count_where_none :
      (test : A → Bool) (xs : List A) → All (λ x. test x ≡ false) xs → count_where test xs ≡ 0
  unfolding count_where
  count_where_none test [] h = refl
  count_where_none test (x ∷ xs) h = rw (h.0, count_where_none test xs h.1)

  count_where-congr :
      (test test' : A → Bool) (xs : List A)
      → All (λ x. test x ≡ test' x) xs
      → count_where test xs ≡ count_where test' xs
  unfolding count_where
  count_where-congr test test' [] h = refl
  count_where-congr test test' (x ∷ xs) h = rw (h.0, count_where-congr test test' xs h.1)

  none_chosen : (xs : List A) → All (λ x. contains [] (key x) ≡ false) xs
  none_chosen [] = tt
  none_chosen (x ∷ xs) = (refl, none_chosen xs)

  count_behind :
      (chosen xs : List A) (x : A)
      → All (λ y. key x < key y) xs
      → count_where (λ y. contains (map key (x ∷ chosen)) (key y)) xs
        ≡ count_where (λ y. contains (map key chosen) (key y)) xs
  count_behind chosen xs x h =
      count_where-congr (λ y. contains (map key (x ∷ chosen)) (key y))
        (λ y. contains (map key chosen) (key y)) xs (not_behind chosen xs (key x) h)

  count_head :
      (chosen xs : List A) (x : A)
      → count_where (λ y. contains (map key (x ∷ chosen)) (key y)) (x ∷ xs)
        ≡ 1 + count_where (λ y. contains (map key (x ∷ chosen)) (key y)) xs
  unfolding count_where
  count_head chosen xs x = ground arith

  count_skip :
      (chosen xs : List A) (x : A)
      → contains (map key chosen) (key x) ≡ false
      → count_where (λ y. contains (map key chosen) (key y)) (x ∷ xs)
        ≡ count_where (λ y. contains (map key chosen) (key y)) xs
  unfolding count_where
  count_skip chosen xs x h = ground arith

  -- Each chosen row stands in the table once.
  pub count_chosen :
      (n : ℕ) (test : A → Bool) (xs : List A)
      → Ascending key xs
      → count_where (λ x. contains (map key (take n (select test xs))) (key x)) xs
        ≡ length (take n (select test xs))
  count_chosen zero test [] h = count_where_none _ [] tt
  count_chosen (suc n) test [] h = count_where_none _ [] tt
  count_chosen zero test (x ∷ xs) h = count_where_none _ (x ∷ xs) (none_chosen (x ∷ xs))
  count_chosen (suc n) test (x ∷ xs) h = elim (Bool-cases (test x)) [
    | inl e ↦ simp e (
        omega (
          arith,
          count_head (take n (select test xs)) xs x,
          count_behind (take n (select test xs)) xs x h.0,
          count_chosen n test xs h.1,
        ))
    | inr e ↦ simp e (
        count_skip (take (suc n) (select test xs)) xs x (above_chosen (suc n) (key x) test xs h.0)
        ∙ count_chosen (suc n) test xs h.1)
  ]
