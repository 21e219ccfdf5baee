-- ===== src/Policy/Velocity.antt =====
-- tesaurus-policy/src/velocity.rs: the caps on external value, per signature and per window.
pub mod Window
use tesaurus.Prelude.{
  ℕ, ◌-◌, Bool, ◌&&◌, List, Result, ok, ◌>>=◌, ◌>>◌, reject_if, try_fold, add_checked, ltb, leb,
  if◌then◌else◌,
}
use tesaurus.Policy.Constants.{velocity_per_sig_sats, velocity_per_144_sats, velocity_window_blocks}
use tesaurus.Policy.Error.{PolicyErrorCode, PolicyResult, PolicyCheck}

pub record VelocitySample : Type 0 where
  pub tip_height : ℕ
  pub external_sats : ℕ

unfoldable pub check_velocity_cap : ℕ → ℕ → PolicyCheck
check_velocity_cap external_sats cap = reject_if (ltb cap external_sats) PolicyErrorCode.velocity

pub check_velocity_per_signature : ℕ → PolicyCheck
unfolding check_velocity_cap
check_velocity_per_signature external_sats = check_velocity_cap external_sats velocity_per_sig_sats

-- The body of the loop over the samples.
add_sample : ℕ → ℕ → ℕ → VelocitySample → PolicyResult ℕ
add_sample window_start tip_height total sample =
    if leb window_start sample.tip_height && leb sample.tip_height tip_height
    then add_checked PolicyErrorCode.velocity (λ (s : VelocitySample). s.external_sats) total sample
    else ok total

unfoldable pub check_velocity_window_capped : List VelocitySample → ℕ → ℕ → ℕ → ℕ → PolicyCheck
unfolding check_velocity_cap add_sample
check_velocity_window_capped samples tip_height this_external per_sig_sats per_window_sats = do
  check_velocity_cap this_external per_sig_sats
  let window_start = tip_height - (velocity_window_blocks - 1)
  total ← try_fold (add_sample window_start tip_height) this_external samples
  reject_if (ltb per_window_sats total) PolicyErrorCode.velocity

pub check_velocity_window : List VelocitySample → ℕ → ℕ → PolicyCheck
unfolding check_velocity_window_capped
check_velocity_window samples tip_height this_external =
    check_velocity_window_capped samples tip_height this_external velocity_per_sig_sats
      velocity_per_144_sats
