-- ===== src/Policy/Velocity/Window.antt =====
-- What the window check of tesaurus-policy/src/velocity.rs accepts.
use tesaurus.Prelude.{
  ℕ, ◌+◌, ◌-◌, ◌≤◌, ◌<◌, ◌≡◌, ◌↔◌, Bool, ◌&&◌, List, [], ◌∷◌, arith, ok, err, sum_of, keep,
  try_fold, ltb, leb, u64_size,
}
use tesaurus.Policy.Error.{PolicyErrorCode}
use tesaurus.Policy.Velocity.{
  VelocitySample, check_velocity_cap, add_sample, check_velocity_window_capped,
}

-- A sample counts if it was signed at one of the last 144 heights that end at `tip`.
abbrev pub is_recent : ℕ → VelocitySample → Bool
is_recent tip sample = ltb tip (sample.tip_height + 144) && leb sample.tip_height tip

-- The external value signed in the trailing window, as an exact number.
abbrev pub window_sum : ℕ → List VelocitySample → ℕ
window_sum tip samples =
    sum_of (λ (s : VelocitySample). s.external_sats) (keep (is_recent tip) samples)

-- The loop returns the exact sum if it fits `u64`, and stops with the code for velocity if not.
loop_lem :
    (tip : ℕ) (samples : List VelocitySample) (total : ℕ)
    → total < u64_size
    → (total + window_sum tip samples < u64_size
        → try_fold (add_sample (tip - 143) tip) total samples ≡ ok (total + window_sum tip samples))
      × (u64_size ≤ total + window_sum tip samples
          → try_fold (add_sample (tip - 143) tip) total samples ≡ err PolicyErrorCode.velocity)
unfolding try_fold add_sample
loop_lem tip [] total fits = ground arith
loop_lem tip (s ∷ samples) total fits =
    ground (arith, loop_lem tip samples total, loop_lem tip samples (total + s.external_sats))

module _ (samples : List VelocitySample) (tip this per_sig per_window : ℕ) where
  -- For amounts and a window cap that fit `u64`, the check passes exactly when this external amount
  -- is within the cap per signature and, with all that was signed at the last 144 heights, within
  -- the cap of the window.
  pub check_velocity_window_capped_iff :
      this < u64_size
      → per_window < u64_size
      → (check_velocity_window_capped samples tip this per_sig per_window ≡ ok tt)
        ↔ ((this ≤ per_sig) × (this + window_sum tip samples ≤ per_window))
  unfolding check_velocity_window_capped
  check_velocity_window_capped_iff fits cap = (
    λ h. ground (arith, loop_lem tip samples this),
    λ h. ground (arith, loop_lem tip samples this),
  )

  -- The only code that the check rejects with is the one for velocity.
  pub check_velocity_window_capped_code :
      this < u64_size
      → (code : PolicyErrorCode)
      → check_velocity_window_capped samples tip this per_sig per_window ≡ err code
      → code ≡ PolicyErrorCode.velocity
  unfolding check_velocity_window_capped
  check_velocity_window_capped_code fits code h = ground (arith, loop_lem tip samples this)

pub check_velocity_cap-le :
    (external cap : ℕ) → check_velocity_cap external cap ≡ ok tt → external ≤ cap
unfolding check_velocity_cap
check_velocity_cap-le external cap h = ground arith
