-- ===== src/Policy/Constants.antt =====
-- tesaurus-policy/src/constants.rs, and the threshold of confirm.rs
use tesaurus.Prelude.{ℕ}

abbrev pub csv_blocks_default : ℕ
csv_blocks_default = 4320

abbrev pub safety_margin_blocks : ℕ
safety_margin_blocks = 1008

abbrev pub wall_clock_seconds_per_block : ℕ
wall_clock_seconds_per_block = 600

abbrev pub velocity_per_sig_sats : ℕ
velocity_per_sig_sats = 10_000_000

abbrev pub velocity_per_144_sats : ℕ
velocity_per_144_sats = 50_000_000

abbrev pub velocity_window_blocks : ℕ
velocity_window_blocks = 144

abbrev pub max_policy_fee_sats : ℕ
max_policy_fee_sats = 1_000_000

abbrev pub max_policy_inputs : ℕ
max_policy_inputs = 100

abbrev pub oob_confirm_sats : ℕ
oob_confirm_sats = 5_000_000
