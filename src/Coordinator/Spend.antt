-- ===== src/Coordinator/Spend.antt =====
-- src/spend.rs: requests, built spends, and the limits. The children hold the choice of coins, the
-- builder and the validation.
pub mod Select
pub mod Validate
pub mod Build
use tesaurus.Prelude.{ℕ, Bool, Bytes, ◌%◌, ◌^◌}
use tesaurus.Coordinator.Tools.{Tools}
use tesaurus.Coordinator.Descriptor.{VaultDescriptor}
use tesaurus.Coordinator.Wallet.{VaultUtxo}

abbrev pub max_fee_sats : ℕ
max_fee_sats = 1_000_000

abbrev pub max_fee_rate_sat_per_vb : ℕ
max_fee_rate_sat_per_vb = 100

abbrev pub max_selected_inputs : ℕ
max_selected_inputs = 100

pub data SpendPath : Type 0 where
  primary recovery : SpendPath

instance unfoldable pub SpendPath-discrete : Discrete SpendPath
SpendPath-discrete = hlevel

pub record SpendRequest : Type 0 where
  pub destination : Bytes
  pub amount_sats : ℕ
  pub fee_sats : ℕ
  pub path : SpendPath

pub record BuiltSpend : Type 0 where
  pub tx_hex : Bytes
  pub txid : Bytes
  pub path : SpendPath
  pub fee_sats : ℕ
  pub amount_sats : ℕ
  pub change_sats : ℕ

-- `match path { Primary => u.spendable_primary, Recovery => u.spendable_recovery }`
abbrev pub is_spendable : SpendPath → VaultUtxo → Bool
is_spendable primary u = u.spendable_primary
is_spendable recovery u = u.spendable_recovery

-- The sequence number of the inputs; `as u16` keeps the low 16 bits.
abbrev pub sequence_for : Tools → VaultDescriptor → SpendPath → ℕ
sequence_for tools vault primary = tools.enable_rbf_no_locktime
sequence_for tools vault recovery = tools.sequence_from_height (vault.csv_blocks % 2 ^ 16)
