-- ===== src/Errors.antt =====
-- errors.py: an expected request failure, and results that may be one. The message texts are left out;
-- `retry_after` is the Retry-After header.
use android_apm_server.Prelude.{ℕ, String, Bool, true, false, Option, none, some, ◌≡◌, refl}

pub record ApiError : Type 0 where
  pub status_code : ℕ
  pub code : String
  pub retryable : Bool
  pub event_index : Option ℕ
  pub retry_after : Option ℕ

pub data Result {ℓ} (A : Type ℓ) : Type ℓ where
  ok : A → Result A
  err : ApiError → Result A

module _ {ℓ κ} {A : Type ℓ} {B : Type κ} where
  -- What follows runs only where nothing was raised.
  infixl 5 ◌>>=◌
  abbrev pub ◌>>=◌ : Result A → (A → Result B) → Result B
  err raised >>= after = err raised
  ok value >>= after = after value

  infixl 5 ◌>>◌
  abbrev pub ◌>>◌ : Result A → Result B → Result B
  err raised >> after = err raised
  ok value >> after = after

-- `if bad: raise error`
abbrev pub refuse_if : Bool → ApiError → Result (Unit {0})
refuse_if true e = err e
refuse_if false e = ok tt

-- ApiError(status, code, message)
abbrev pub failure : ℕ → String → ApiError
failure status code = record {
  status_code = status;
  code = code;
  retryable = false;
  event_index = none;
  retry_after = none;
}

-- ApiError(status, code, message, False, index)
abbrev pub failure_at : ℕ → String → ℕ → ApiError
failure_at status code index = record {
  status_code = status;
  code = code;
  retryable = false;
  event_index = some index;
  retry_after = none;
}

-- ApiError(status, code, message, True, headers={"Retry-After": seconds})
abbrev pub busy : ℕ → String → ℕ → ApiError
busy status code seconds = record {
  status_code = status;
  code = code;
  retryable = true;
  event_index = none;
  retry_after = some seconds;
}

-- What a success has passed.
pub found_ok :
    {A B : Type 0} (m : Result A) (k : A → Result B) (b : B)
    → (m >>= k) ≡ ok b
    → (a : A) × ((m ≡ ok a) × (k a ≡ ok b))
found_ok (ok a) k b h = (a, (refl, h))
found_ok (err e) k b h = absurd (cc)

pub after_ok : {A B : Type 0} (m : Result A) (k : Result B) (b : B) → (m >> k) ≡ ok b → k ≡ ok b
after_ok (ok a) k b h = h
after_ok (err e) k b h = absurd (cc)

pub passes :
    {B : Type 0} (bad : Bool) (e : ApiError) (k : Result B) (b : B)
    → (refuse_if bad e >> k) ≡ ok b
    → (bad ≡ false) × (k ≡ ok b)
passes true e k b h = absurd (cc)
passes false e k b h = (refl, h)

pub bind-congr :
    {A B : Type 0} (m : Result A) (k k' : A → Result B)
    → ((a : A) → k a ≡ k' a)
    → (m >>= k) ≡ (m >>= k')
bind-congr (ok a) k k' h = h a
bind-congr (err e) k k' h = refl

pub found_then :
    {A B : Type 0} (m : Result A) (k : Result B) (b : B)
    → (m >> k) ≡ ok b
    → (a : A) × ((m ≡ ok a) × (k ≡ ok b))
found_then (ok a) k b h = (a, (refl, h))
found_then (err e) k b h = absurd (cc)

-- What holds of every success, with each step that it has passed, holds of the success of the whole.
pub then_any :
    {A B : Type 0} (P : B → Type 0) (b : B) (m : Result A) (k : A → Result B)
    → ((a : A) → m ≡ ok a → k a ≡ ok b → P b)
    → (m >>= k) ≡ ok b
    → P b
then_any P b (ok a) k step h = step a refl h
then_any P b (err e) k step h = absurd (cc)
