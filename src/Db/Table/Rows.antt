-- ===== src/Db/Table/Rows.antt =====
-- The statements of Db/Table.antt, row by row.
use android_apm_server.Prelude.{
  ℕ, zero, suc, ◌<◌, ◌≡◌, refl, inl, inr, Bool, true, false, List, [], ◌∷◌, arith, Bool-cases, All,
}
use android_apm_server.Db.Table.{update_where, count_where, update_first, Pointwise, Ascending}

module _ {A : Type 0} where
  pub Pointwise-update_where :
      (R : A → A → Type 0) (test : A → Bool) (f : A → A) (xs : List A)
      → ((x : A) → test x ≡ true → R x (f x))
      → ((x : A) → R x x)
      → Pointwise R xs (update_where test f xs)
  unfolding update_where
  Pointwise-update_where R test f [] hit keep = tt
  Pointwise-update_where R test f (x ∷ xs) hit keep = elim (Bool-cases (test x)) [
    | inl e ↦ rw e (hit x e, Pointwise-update_where R test f xs hit keep)
    | inr e ↦ rw e (keep x, Pointwise-update_where R test f xs hit keep)
  ]

  -- The same with what is known of every row, and of the rows that are left alone.
  pub Pointwise-update_where_of :
      (P : A → Type 0) (R : A → A → Type 0) (test : A → Bool) (f : A → A) (xs : List A)
      → ((x : A) → P x → test x ≡ true → R x (f x))
      → ((x : A) → P x → test x ≡ false → R x x)
      → All P xs
      → Pointwise R xs (update_where test f xs)
  unfolding update_where
  Pointwise-update_where_of P R test f [] hit keep h = tt
  Pointwise-update_where_of P R test f (x ∷ xs) hit keep h = elim (Bool-cases (test x)) [
    | inl e ↦ rw e (hit x h.0 e, Pointwise-update_where_of P R test f xs hit keep h.1)
    | inr e ↦ rw e (keep x h.0 e, Pointwise-update_where_of P R test f xs hit keep h.1)
  ]

  pub Pointwise-refl : (R : A → A → Type 0) (xs : List A) → ((x : A) → R x x) → Pointwise R xs xs
  Pointwise-refl R [] keep = tt
  Pointwise-refl R (x ∷ xs) keep = (keep x, Pointwise-refl R xs keep)

  pub Pointwise-map :
      (R S : A → A → Type 0) (xs ys : List A)
      → ((x y : A) → R x y → S x y)
      → Pointwise R xs ys
      → Pointwise S xs ys
  Pointwise-map R S [] [] f p = tt
  Pointwise-map R S [] (y ∷ ys) f p = elim p [ ]
  Pointwise-map R S (x ∷ xs) [] f p = elim p [ ]
  Pointwise-map R S (x ∷ xs) (y ∷ ys) f p = (f x y p.0, Pointwise-map R S xs ys f p.1)

  pub Pointwise-trans :
      (R : A → A → Type 0) (xs ys zs : List A)
      → ((x y z : A) → R x y → R y z → R x z)
      → Pointwise R xs ys
      → Pointwise R ys zs
      → Pointwise R xs zs
  Pointwise-trans R [] [] [] t p q = tt
  Pointwise-trans R [] [] (z ∷ zs) t p q = elim q [ ]
  Pointwise-trans R [] (y ∷ ys) zs t p q = elim p [ ]
  Pointwise-trans R (x ∷ xs) [] zs t p q = elim p [ ]
  Pointwise-trans R (x ∷ xs) (y ∷ ys) [] t p q = elim q [ ]
  Pointwise-trans R (x ∷ xs) (y ∷ ys) (z ∷ zs) t p q =
      (t x y z p.0 q.0, Pointwise-trans R xs ys zs t p.1 q.1)

  pub Pointwise-update_first :
      (R : A → A → Type 0) (n : ℕ) (test : A → Bool) (f : A → A) (xs : List A)
      → ((x : A) → test x ≡ true → R x (f x))
      → ((x : A) → R x x)
      → Pointwise R xs (update_first n test f xs)
  unfolding update_first
  Pointwise-update_first R n test f [] hit keep = tt
  Pointwise-update_first R zero test f (x ∷ xs) hit keep = (keep x, Pointwise-refl R xs keep)
  Pointwise-update_first R (suc n) test f (x ∷ xs) hit keep = elim (Bool-cases (test x)) [
    | inl e ↦ rw e (hit x e, Pointwise-update_first R n test f xs hit keep)
    | inr e ↦ rw e (keep x, Pointwise-update_first R (suc n) test f xs hit keep)
  ]

  -- What every row had, the new rows have something for, if each pair of rows passes it on.
  pub All-Pointwise :
      (P Q : A → Type 0) (R : A → A → Type 0) (xs ys : List A)
      → ((x y : A) → R x y → P x → Q y)
      → Pointwise R xs ys
      → All P xs
      → All Q ys
  All-Pointwise P Q R [] [] step p h = tt
  All-Pointwise P Q R [] (y ∷ ys) step p h = elim p [ ]
  All-Pointwise P Q R (x ∷ xs) [] step p h = elim p [ ]
  All-Pointwise P Q R (x ∷ xs) (y ∷ ys) step p h =
      (step x y p.0 h.0, All-Pointwise P Q R xs ys step p.1 h.1)

  pub All-update_where :
      (P : A → Type 0) (test : A → Bool) (f : A → A) (xs : List A)
      → ((x : A) → test x ≡ true → P x → P (f x))
      → All P xs
      → All P (update_where test f xs)
  unfolding update_where
  All-update_where P test f [] step h = tt
  All-update_where P test f (x ∷ xs) step h = elim (Bool-cases (test x)) [
    | inl e ↦ rw e (step x e h.0, All-update_where P test f xs step h.1)
    | inr e ↦ rw e (h.0, All-update_where P test f xs step h.1)
  ]

  -- An update whose test no row passes does nothing.
  pub update_where_none :
      (test : A → Bool) (f : A → A) (xs : List A)
      → All (λ x. test x ≡ false) xs
      → (update_where test f xs ≡ xs) × (count_where test xs ≡ 0)
  unfolding update_where count_where
  update_where_none test f [] h = (refl, refl)
  update_where_none test f (x ∷ xs) h =
      let ih = update_where_none test f xs h.1 in (rw (h.0, ih.0), rw (h.0, ih.1))

  pub update_where-congr :
      (test test' : A → Bool) (f : A → A) (xs : List A)
      → All (λ x. test x ≡ test' x) xs
      → update_where test f xs ≡ update_where test' f xs
  unfolding update_where
  update_where-congr test test' f [] h = refl
  update_where-congr test test' f (x ∷ xs) h = rw (h.0, update_where-congr test test' f xs h.1)

  -- An update that leaves the key alone leaves the keys ascending.
  All-key :
      (key : A → ℕ) (R : A → A → Type 0) (k : ℕ) (xs ys : List A)
      → ((x y : A) → R x y → key y ≡ key x)
      → Pointwise R xs ys
      → All (λ y. k < key y) xs
      → All (λ y. k < key y) ys
  All-key key R k xs ys same p h =
      All-Pointwise (λ y. k < key y) (λ y. k < key y) R xs ys (λ x y r lt. rw (same x y r) lt) p h

  pub Ascending-Pointwise :
      (key : A → ℕ) (R : A → A → Type 0) (xs ys : List A)
      → ((x y : A) → R x y → key y ≡ key x)
      → Pointwise R xs ys
      → Ascending key xs
      → Ascending key ys
  Ascending-Pointwise key R [] [] same p h = tt
  Ascending-Pointwise key R [] (y ∷ ys) same p h = elim p [ ]
  Ascending-Pointwise key R (x ∷ xs) [] same p h = elim p [ ]
  Ascending-Pointwise key R (x ∷ xs) (y ∷ ys) same p h = (
    rw (same x y p.0) (All-key key R (key x) xs ys same p.1 h.0),
    Ascending-Pointwise key R xs ys same p.1 h.1,
  )

  -- What holds of the changed rows and of the others.
  pub All-update_where_of :
      (Q : A → Type 0) (test : A → Bool) (f : A → A) (xs : List A)
      → ((x : A) → test x ≡ true → Q (f x))
      → ((x : A) → test x ≡ false → Q x)
      → All Q (update_where test f xs)
  unfolding update_where
  All-update_where_of Q test f [] hit keep = tt
  All-update_where_of Q test f (x ∷ xs) hit keep = elim (Bool-cases (test x)) [
    | inl e ↦ rw e (hit x e, All-update_where_of Q test f xs hit keep)
    | inr e ↦ rw e (keep x e, All-update_where_of Q test f xs hit keep)
  ]

  -- Two tables with the same answers to a test have the same count.
  pub count_where-Pointwise :
      (P : A → Type 0) (R : A → A → Type 0) (test test' : A → Bool) (xs ys : List A)
      → ((x y : A) → P x → R x y → test x ≡ test' y)
      → All P xs
      → Pointwise R xs ys
      → count_where test xs ≡ count_where test' ys
  unfolding count_where
  count_where-Pointwise P R test test' [] [] same h p = refl
  count_where-Pointwise P R test test' [] (y ∷ ys) same h p = elim p [ ]
  count_where-Pointwise P R test test' (x ∷ xs) [] same h p = elim p [ ]
  count_where-Pointwise P R test test' (x ∷ xs) (y ∷ ys) same h p =
      rw (same x y h.0 p.0, count_where-Pointwise P R test test' xs ys same h.1 p.1)

  pub count_where-update_where :
      (test test' : A → Bool) (f : A → A) (xs : List A)
      → ((x : A) → test' (f x) ≡ test' x)
      → count_where test' (update_where test f xs) ≡ count_where test' xs
  unfolding count_where update_where
  count_where-update_where test test' f [] same = refl
  count_where-update_where test test' f (x ∷ xs) same =
      ground (arith, same x, count_where-update_where test test' f xs same)
