-- ===== src/Coordinator/Spend/Validate/Stages.antt =====
-- When each stage of `validate_built_spend` in src/spend.rs passes.
use tesaurus.Prelude.{
  ℕ, zero, suc, ◌+◌, ◌≤◌, ◌<◌, ◌≡◌, ◌≢◌, ◌⊎◌, Bytes, Bytes-discrete, [], some, arith, ok, length,
  try_fold, u64_size,
}
use tesaurus.Bitcoin.{Crates, Miniscript, Transaction}
use tesaurus.Coordinator.Tools.{Tools}
use tesaurus.Coordinator.Spend.{SpendPath-discrete, SpendRequest, BuiltSpend}
use tesaurus.Coordinator.Spend.Build.{outputs_of}
use tesaurus.Coordinator.Spend.Validate.{
  maximum_fee, change_returns, check_outputs, check_amounts, decode_built, check_shape,
}

-- The amounts of a request are within the limits.
abbrev pub IsWithin : SpendRequest → Type 0
IsWithin req = (0 < req.amount_sats) × (req.fee_sats ≤ 1_000_000) × (req.fee_sats ≤ req.amount_sats)

-- The metadata of a built spend are those of the request.
abbrev pub IsFor : BuiltSpend → SpendRequest → Type 0
IsFor built req =
    (built.path ≡ req.path)
    × (built.amount_sats ≡ req.amount_sats)
    × (built.fee_sats ≡ req.fee_sats)

module _ (lib : Crates) (ms : Miniscript) (tools : Tools) (req : SpendRequest) (built : BuiltSpend)
    (tx : Transaction) where
  pub decode_passes :
      (raw : Bytes)
      → IsWithin req
      → IsFor built req
      → tools.hex_decode built.tx_hex ≡ some raw
      → tools.deserialize_transaction raw ≡ some tx
      → tools.txid_to_string (lib.compute_txid tx) ≡ built.txid
      → decode_built lib ms tools built req ≡ ok tx
  unfolding decode_built
  decode_passes raw (positive, cap, below) (path, amount, fee) hex bytes txid =
      ground (arith, positive, cap, below, path, amount, fee, hex, bytes, txid)

  pub shape_passes :
      (cap : ℕ)
      → tx.input ≢ []
      → length tx.input ≤ 100
      → tx.version ≡ 2
      → tx.lock_time ≡ 0
      → maximum_fee tools tx ≡ ok cap
      → req.fee_sats ≤ cap
      → check_shape lib ms tools req tx ≡ ok tt
  unfolding check_shape
  shape_passes cap some_input few version lock_time rate fee = ground arith

  pub amounts_pass :
      (dest_script vault_script : Bytes) (total_in : ℕ)
      → tx.output ≡ outputs_of dest_script vault_script req.amount_sats built.change_sats
      → total_in ≡ req.amount_sats + req.fee_sats + built.change_sats
      → total_in < u64_size
      → check_amounts lib built req total_in tx ≡ ok tt
  unfolding check_amounts try_fold
  amounts_pass ds vs total_in outputs total fits = rw outputs (ground (arith, total, fits))

pub outputs_pass :
    (lib : Crates) (ds vs : Bytes) (amount change : ℕ)
    → (change ≡ 0) ⊎ (lib.minimal_non_dust vs ≤ change)
    → check_outputs lib ds vs amount change (outputs_of ds vs amount change) ≡ ok tt
unfolding check_outputs change_returns
outputs_pass lib ds vs amount zero h = ground arith
outputs_pass lib ds vs amount (suc rest) h = ground arith
