-- ===== src/RemoteConfig.antt =====
-- remote_config.py: the rollout of a configuration, and the checks before it is signed. HMAC-SHA-256 of
-- the salt and an installation is an argument, as are the signature and the canonical JSON. A time is a
-- number of microseconds.
pub mod Rollout
mod Tests
use android_apm_server.Prelude.{
  ℕ, ◌+◌, ◌*◌, ◌%◌, ◌≤◌, ◌<◌, String, Bool, true, false, not, ◌&&◌, Option, none, some, List, [],
  ◌∷◌, leb, ltb, take, if◌then◌else◌,
}
use android_apm_server.Json.{Json}
use android_apm_server.Protocol.Protobuf.{big_endian}

-- ROLLOUT_DENOMINATOR
abbrev pub rollout_denominator : ℕ
rollout_denominator = 10000

-- The place of an installation among 10000.
abbrev pub bucket : (String → String → List ℕ) → String → String → ℕ
bucket digest salt installation =
    big_endian 0 (take 8 (digest salt installation)) % rollout_denominator

unfoldable pub rollout_includes : (String → String → List ℕ) → String → String → ℕ → Bool
rollout_includes digest salt installation basis_points =
    let within = ltb (bucket digest salt installation) basis_points in
    if leb basis_points 0
    then false
    else (if leb rollout_denominator basis_points then true else within)

-- An integer: `pos n` is n, and `negsuc n` is -(n + 1).
pub data ℤ : Type 0 where
  pos negsuc : ℕ → ℤ

abbrev pub is_positive : ℤ → Bool
is_positive (pos n) = ltb 0 n
is_positive (negsuc n) = false

-- 0 <= rollout_basis_points <= ROLLOUT_DENOMINATOR
abbrev pub is_share : ℤ → Bool
is_share (pos n) = leb n rollout_denominator
is_share (negsuc n) = false

-- The fields that the signature covers.
pub record Unsigned : Type 0 where
  pub revision : ℤ
  pub issued_at : ℕ
  pub expires_at : ℕ
  pub rollout_basis_points : ℤ
  pub payload : Json
  pub key_id : String

pub record SignedConfig : Type 0 where
  pub covered : Unsigned
  pub signature : List ℕ

-- `none` where a ValueError is raised.
unfoldable pub sign_config : (Unsigned → List ℕ) → Unsigned → Option SignedConfig
sign_config sign u =
    let signed : Option SignedConfig = some (record { covered = u; signature = sign u }) in
    if is_positive u.revision
    then (if leb u.expires_at u.issued_at
        then none
        else (if is_share u.rollout_basis_points then signed else none))
    else none
