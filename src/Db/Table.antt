-- ===== src/Db/Table.antt =====
-- SQL statements on one table, as the modules of androidapm_server/db issue them. A table is the
-- list of its rows in primary-key order, so `ORDER BY id LIMIT n` is a selection and then `take n`.
pub mod Rows
pub mod Claims
pub mod Growth
use android_apm_server.Prelude.{ℕ, zero, suc, ◌+◌, ◌<◌, Bool, List, [], ◌∷◌, All, if◌then◌else◌}

module _ {ℓ} {A : Type ℓ} where
  -- UPDATE ... SET f WHERE test
  unfoldable pub update_where : (A → Bool) → (A → A) → List A → List A
  update_where test f [] = []
  update_where test f (x ∷ xs) = (if test x then f x else x) ∷ update_where test f xs

  -- the rowcount of that statement
  unfoldable pub count_where : (A → Bool) → List A → ℕ
  count_where test [] = 0
  count_where test (x ∷ xs) = (if test x then 1 else 0) + count_where test xs

  -- The same update stopped after `n` rows: what `SELECT ... LIMIT n` and a loop over it do.
  unfoldable pub update_first : ℕ → (A → Bool) → (A → A) → List A → List A
  update_first n test f [] = []
  update_first zero test f (x ∷ xs) = x ∷ xs
  update_first (suc n) test f (x ∷ xs) =
      let hit = f x ∷ update_first n test f xs in
      let miss = x ∷ update_first (suc n) test f xs in if test x then hit else miss

  -- Two tables with the same rows in the same places, up to `R`.
  abbrev pub Pointwise : (A → A → Type 0) → List A → List A → Type 0
  Pointwise R [] [] = Unit
  Pointwise R [] (y ∷ ys) = ⊥
  Pointwise R (x ∷ xs) [] = ⊥
  Pointwise R (x ∷ xs) (y ∷ ys) = R x y × Pointwise R xs ys

  -- A primary key: every row's is below those of the rows behind it.
  abbrev pub Ascending : (A → ℕ) → List A → Type 0
  Ascending key [] = Unit
  Ascending key (x ∷ xs) = All (λ y. key x < key y) xs × Ascending key xs
