-- ===== src/Db/Leases.antt =====
-- db/leases.py: the fencing token of one claim. The random part, `uuid.uuid4().hex`, is an argument.
-- `lease_write_time` and `lease_claim_time` read the database clock; the operations take that reading
-- as their argument `observed`.
use android_apm_server.Prelude.{
  ℕ, ◌+◌, ◌-◌, ◌≤◌, ◌≡◌, refl, String, text_length, text_take, text_length-text_take, arith,
}
use text.Mathlib.TextLemmas.{nil-append, cons-append}
use Prim.Native.String.{◌++◌}

abbrev pub max_lease_owner_length : ℕ
max_lease_owner_length = 128

unfoldable pub new_lease_owner : String → String → String
new_lease_owner worker token =
    text_take (max_lease_owner_length - text_length token - 1) worker ++ (":" ++ token)

text_length-append : (s t : String) → text_length (s ++ t) ≡ text_length s + text_length t
text_length-append String.[] t = rw (nil-append t) (omega arith)
text_length-append (String.◌∷◌ c s) t =
    rw (cons-append c s t) (omega (arith, text_length-append s t))

-- A claim token fits its column, whatever the name of the worker, for a random part of at most 127
-- characters; and the random part stands whole behind a colon.
pub new_lease_owner-bound :
    (worker token : String)
    → text_length token ≤ 127
    → (text_length (new_lease_owner worker token) ≤ max_lease_owner_length)
      × ((name : String) × (new_lease_owner worker token ≡ name ++ (":" ++ token)))
unfolding new_lease_owner
new_lease_owner-bound worker token h =
    let name = text_take (max_lease_owner_length - text_length token - 1) worker in
    (
      omega (
        arith,
        text_length-append name (":" ++ token),
        text_length-append ":" token,
        text_length-text_take (max_lease_owner_length - text_length token - 1) worker,
        h,
      ),
      (name, refl),
    )
