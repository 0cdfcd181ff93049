-- ===== src/RemoteConfig/Rollout.antt =====
-- `rollout_includes` of remote_config.py.
use android_apm_server.Prelude.{ℕ, ◌≤◌, ◌<◌, ◌≡◌, refl, String, true, false, List, arith}
use android_apm_server.RemoteConfig.{rollout_denominator, bucket, rollout_includes}

-- A rollout only grows: an installation that a smaller share includes is in every larger one. No
-- installation is in a share of zero, each is in the whole, and within it the place of the
-- installation decides.
pub rollout_includes-monotone :
    (digest : String → String → List ℕ) (salt installation : String) (basis_points larger : ℕ)
    → basis_points ≤ larger
    → (rollout_includes digest salt installation basis_points ≡ true
        → rollout_includes digest salt installation larger ≡ true)
      × (rollout_includes digest salt installation 0 ≡ false)
      × (rollout_includes digest salt installation rollout_denominator ≡ true)
      × (rollout_includes digest salt installation basis_points ≡ true
          → bucket digest salt installation < basis_points)
      × (bucket digest salt installation < basis_points
          → rollout_includes digest salt installation basis_points ≡ true)
unfolding rollout_includes
rollout_includes-monotone digest salt installation basis_points larger h =
    (ground arith, refl, refl, ground arith, ground arith)
