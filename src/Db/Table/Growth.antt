-- ===== src/Db/Table/Growth.antt =====
-- Tables that keep their rows in their places, up to a relation, and may have more rows behind them.
use android_apm_server.Prelude.{
  ℕ, ◌<◌, ◌≡◌, refl, sym, Bool, false, List, [], ◌∷◌, ◌++◌, All, All-map,
}
use android_apm_server.Db.Table.{Pointwise, Ascending, count_where}

module _ {A : Type 0} where
  abbrev pub Grows : (A → A → Type 0) → List A → List A → Type 0
  Grows R [] ys = Unit
  Grows R (x ∷ xs) [] = ⊥
  Grows R (x ∷ xs) (y ∷ ys) = R x y × Grows R xs ys

  module _ (R : A → A → Type 0) where
    pub Pointwise-Grows : (xs ys : List A) → Pointwise R xs ys → Grows R xs ys
    Pointwise-Grows [] ys p = tt
    Pointwise-Grows (x ∷ xs) [] p = elim p [ ]
    Pointwise-Grows (x ∷ xs) (y ∷ ys) p = (p.0, Pointwise-Grows xs ys p.1)

    pub Grows-append : (xs added : List A) → ((x : A) → R x x) → Grows R xs (xs ++ added)
    Grows-append [] added keep = tt
    Grows-append (x ∷ xs) added keep = (keep x, Grows-append xs added keep)

    pub Grows-trans :
        (xs ys zs : List A)
        → ((x y z : A) → R x y → R y z → R x z)
        → Grows R xs ys
        → Grows R ys zs
        → Grows R xs zs
    Grows-trans [] ys zs t p q = tt
    Grows-trans (x ∷ xs) [] zs t p q = elim p [ ]
    Grows-trans (x ∷ xs) (y ∷ ys) [] t p q = elim q [ ]
    Grows-trans (x ∷ xs) (y ∷ ys) (z ∷ zs) t p q = (t x y z p.0 q.0, Grows-trans xs ys zs t p.1 q.1)

  pub Pointwise-then :
      (R S T : A → A → Type 0) (xs ys zs : List A)
      → ((x y z : A) → R x y → S y z → T x z)
      → Pointwise R xs ys
      → Pointwise S ys zs
      → Pointwise T xs zs
  Pointwise-then R S T [] [] [] t p q = tt
  Pointwise-then R S T [] [] (z ∷ zs) t p q = elim q [ ]
  Pointwise-then R S T [] (y ∷ ys) zs t p q = elim p [ ]
  Pointwise-then R S T (x ∷ xs) [] zs t p q = elim p [ ]
  Pointwise-then R S T (x ∷ xs) (y ∷ ys) [] t p q = elim q [ ]
  Pointwise-then R S T (x ∷ xs) (y ∷ ys) (z ∷ zs) t p q =
      (t x y z p.0 q.0, Pointwise-then R S T xs ys zs t p.1 q.1)

  pub Pointwise-flip :
      (R S : A → A → Type 0) (xs ys : List A)
      → ((x y : A) → R x y → S y x)
      → Pointwise R xs ys
      → Pointwise S ys xs
  Pointwise-flip R S [] [] f p = tt
  Pointwise-flip R S [] (y ∷ ys) f p = elim p [ ]
  Pointwise-flip R S (x ∷ xs) [] f p = elim p [ ]
  Pointwise-flip R S (x ∷ xs) (y ∷ ys) f p = (f x y p.0, Pointwise-flip R S xs ys f p.1)

  All-both :
      (P Q S : A → Type 0) (xs : List A)
      → ((x : A) → P x → Q x → S x)
      → All P xs
      → All Q xs
      → All S xs
  All-both P Q S [] f p q = tt
  All-both P Q S (x ∷ xs) f p q = (f x p.0 q.0, All-both P Q S xs f p.1 q.1)

  -- A row with a key above all old keys is new.
  abbrev pub IsNewFalse : (A → ℕ) → (A → Bool) → List A → A → Type 0
  IsNewFalse key test xs y = All (λ x. key x < key y) xs → test y ≡ false

  count_where-none :
      (test : A → Bool) (ys : List A) → All (λ y. test y ≡ false) ys → count_where test ys ≡ 0
  unfolding count_where
  count_where-none test [] h = refl
  count_where-none test (y ∷ ys) h = rw (h.0, count_where-none test ys h.1)

  -- Old rows answer alike and new ones not at all: the counts are the same.
  pub count_where-Grows :
      (key : A → ℕ) (P : A → Type 0) (R : A → A → Type 0) (test test' : A → Bool) (xs ys : List A)
      → ((x y : A) → R x y → key y ≡ key x)
      → ((x y : A) → P x → R x y → test x ≡ test' y)
      → Ascending key ys
      → All (IsNewFalse key test' xs) ys
      → All P xs
      → Grows R xs ys
      → count_where test' ys ≡ count_where test xs
  unfolding count_where
  count_where-Grows key P R test test' [] ys same alike a new h g =
      count_where-none test' ys (All-map (IsNewFalse key test' []) (λ y f. f tt) ys new)
  count_where-Grows key P R test test' (x ∷ xs) [] same alike a new h g = elim g [ ]
  count_where-Grows key P R test test' (x ∷ xs) (y ∷ ys) same alike a new h g =
      rw
        (
          sym (alike x y h.0 g.0),
          count_where-Grows key P R test test' xs ys same alike a.1
              (All-both (λ z. key y < key z) (IsNewFalse key test' (x ∷ xs))
                (IsNewFalse key test' xs) ys (λ z l f below. f (rw⁻¹ (same x y g.0) l, below)) a.0
                new.1)
              h.1 g.1,
        )
        refl

  -- Old rows pass something on, and new ones have it anyway.
  pub All-Grows :
      (key : A → ℕ) (P Q : A → Type 0) (R : A → A → Type 0) (xs ys : List A)
      → ((x y : A) → R x y → key y ≡ key x)
      → ((x y : A) → R x y → P x → Q y)
      → Ascending key ys
      → All (λ y. All (λ x. key x < key y) xs → Q y) ys
      → All P xs
      → Grows R xs ys
      → All Q ys
  All-Grows key P Q R [] ys same step a new h g =
      All-map (λ y. All (λ x. key x < key y) [] → Q y) (λ y f. f tt) ys new
  All-Grows key P Q R (x ∷ xs) [] same step a new h g = elim g [ ]
  All-Grows key P Q R (x ∷ xs) (y ∷ ys) same step a new h g = (
    step x y g.0 h.0,
    All-Grows key P Q R xs ys same step a.1
        (All-both (λ z. key y < key z) (λ z. All (λ x'. key x' < key z) (x ∷ xs) → Q z)
          (λ z. All (λ x'. key x' < key z) xs → Q z) ys
          (λ z l f below. f (rw⁻¹ (same x y g.0) l, below)) a.0 new.1)
        h.1 g.1,
  )

  pub Grows-then :
      (R S T : A → A → Type 0) (xs ys zs : List A)
      → ((x y z : A) → R x y → S y z → T x z)
      → Grows R xs ys
      → Grows S ys zs
      → Grows T xs zs
  Grows-then R S T [] ys zs t p q = tt
  Grows-then R S T (x ∷ xs) [] zs t p q = elim p [ ]
  Grows-then R S T (x ∷ xs) (y ∷ ys) [] t p q = elim q [ ]
  Grows-then R S T (x ∷ xs) (y ∷ ys) (z ∷ zs) t p q =
      (t x y z p.0 q.0, Grows-then R S T xs ys zs t p.1 q.1)
