-- ===== src/Policy/Csv/Maturity.antt =====
-- What the maturity checks of tesaurus-policy/src/csv.rs accept, and which code they reject with.
use tesaurus.Prelude.{ℕ, ◌+◌, ◌-◌, ◌*◌, ◌≤◌, ◌<◌, ◌≡◌, ◌↔◌, arith, ok, err, u32_size, u64_size}
use tesaurus.Policy.Error.{PolicyErrorCode}
use tesaurus.Policy.Csv.{check_csv_maturity}

-- The coin is deep enough: the confirming block counts as one, and neither sum overflows `u32`.
pub record IsDeep (tip confirm csv margin : ℕ) : Type 0 where
  pub confirmed : confirm ≤ tip
  pub depth_fits : tip - confirm + 1 < u32_size
  pub need_fits : csv + margin < u32_size
  pub deep : csv + margin ≤ tip - confirm + 1

abbrev pub IsOld : ℕ → ℕ → ℕ → ℕ → Type 0
IsOld now t_confirm csv margin = t_confirm + (csv + margin) * 600 ≤ now

module _ (tip confirm now t_confirm csv margin : ℕ) where
  -- For a clock that fits `u64`, the check passes exactly when the coin is deep and the wall clock
  -- has reached the confirmation time plus 600 seconds for each block of the delay and the margin.
  pub check_csv_maturity_iff :
      now < u64_size
      → (check_csv_maturity tip confirm now t_confirm csv margin ≡ ok tt)
        ↔ (IsDeep tip confirm csv margin × IsOld now t_confirm csv margin)
  unfolding check_csv_maturity
  check_csv_maturity_iff fits = (λ h. ground arith, λ h. ground arith)

  -- A coin that is not deep is rejected for its depth, whatever the clock says.
  pub check_csv_maturity-depth :
      ¬ IsDeep tip confirm csv margin
      → check_csv_maturity tip confirm now t_confirm csv margin
        ≡ err PolicyErrorCode.csv_immature_depth
  unfolding check_csv_maturity
  check_csv_maturity-depth h = ground arith

  -- A deep coin is rejected for the wall clock if the clock has not reached the confirmation time plus
  -- 600 seconds for each block of the delay and the margin.
  pub check_csv_maturity-wallclock :
      IsDeep tip confirm csv margin
      → now < t_confirm + (csv + margin) * 600
      → check_csv_maturity tip confirm now t_confirm csv margin
        ≡ err PolicyErrorCode.csv_immature_wallclock
  unfolding check_csv_maturity
  check_csv_maturity-wallclock deep short = ground arith
