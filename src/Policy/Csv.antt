-- ===== src/Policy/Csv.antt =====
-- tesaurus-policy/src/csv.rs: the depth of a coin and the wall-clock floor of the recovery path.
pub mod Maturity
use tesaurus.Prelude.{
  ℕ, Bool, true, false, some, none, Result, ok, err, ◌>>=◌, ◌>>◌, ok_or, and_then, reject_if, not,
  leb, checked_sub, checked_add_u32, checked_add_u64, checked_mul_u64,
}
use tesaurus.Policy.Constants.{wall_clock_seconds_per_block}
use tesaurus.Policy.Error.{PolicyErrorCode, PolicyResult, PolicyCheck}

pub csv_depth : ℕ → ℕ → PolicyResult ℕ
csv_depth tip_height confirm_height =
    ok_or (and_then (checked_sub tip_height confirm_height) (λ delta. checked_add_u32 delta 1))
      PolicyErrorCode.csv_immature_depth

pub csv_depth_is_mature : ℕ → ℕ → ℕ → Bool
csv_depth_is_mature depth csv_blocks safety_margin =
    elim (checked_add_u32 csv_blocks safety_margin) [ some need ↦ leb need depth | none ↦ false ]

pub wall_clock_deadline_unix : ℕ → ℕ → ℕ → PolicyResult ℕ
wall_clock_deadline_unix t_confirm_unix csv_blocks safety_margin = do
  blocks ← ok_or (checked_add_u32 csv_blocks safety_margin) PolicyErrorCode.csv_immature_wallclock
  delta ←
      ok_or (checked_mul_u64 blocks wall_clock_seconds_per_block)
        PolicyErrorCode.csv_immature_wallclock
  ok_or (checked_add_u64 t_confirm_unix delta) PolicyErrorCode.csv_immature_wallclock

pub wall_clock_is_mature : ℕ → ℕ → ℕ → ℕ → PolicyResult Bool
unfolding wall_clock_deadline_unix
wall_clock_is_mature now_unix t_confirm_unix csv_blocks safety_margin = do
  deadline ← wall_clock_deadline_unix t_confirm_unix csv_blocks safety_margin
  ok (leb deadline now_unix)

unfoldable pub check_csv_maturity : ℕ → ℕ → ℕ → ℕ → ℕ → ℕ → PolicyCheck
unfolding csv_depth csv_depth_is_mature wall_clock_is_mature
check_csv_maturity tip_height confirm_height now_unix t_confirm_unix csv_blocks safety_margin = do
  depth ← csv_depth tip_height confirm_height
  reject_if (not (csv_depth_is_mature depth csv_blocks safety_margin))
      PolicyErrorCode.csv_immature_depth
  mature ← wall_clock_is_mature now_unix t_confirm_unix csv_blocks safety_margin
  reject_if (not mature) PolicyErrorCode.csv_immature_wallclock
