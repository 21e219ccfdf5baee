-- ===== src/Coordinator/Spend/Validate.antt =====
-- `validate_built_spend` of src/spend.rs, and the checks of `broadcast` before it sends.
pub mod Moves
pub mod Exact
pub mod Accepted
pub mod Stages
pub mod Agreement
use tesaurus.Prelude.{
  ℕ, Bool, true, false, not, ◌&&◌, ◌||◌, Bytes, Bytes-discrete, List, [], ◌∷◌, Option, some, none,
  Result, ok, err, ◌>>=◌, ◌>>◌, ok_or, and_then, reject_if, try_fold, add_checked, length, is_empty,
  contains, checked_add_u64, checked_sub, checked_mul_u64, u64_size, ltb, ◌==◌, is_same,
  if◌then◌else◌,
}
use tesaurus.Bitcoin.{
  Crates, Miniscript, Network, OutPoint, OutPoint-discrete, TxIn, TxOut, Transaction,
}
use tesaurus.Coordinator.Failure.{Error, CoreResult, CoreCheck}
use tesaurus.Coordinator.Tools.{Tools}
use tesaurus.Coordinator.Descriptor.{VaultDescriptor, require_network, address}
use tesaurus.Coordinator.Wallet.{VaultUtxo}
use tesaurus.Coordinator.Spend.{
  SpendPath, SpendPath-discrete, SpendRequest, BuiltSpend, is_spendable, sequence_for, max_fee_sats,
  max_fee_rate_sat_per_vb, max_selected_inputs,
}

-- `available.get(&outpoint)` on the map collected from the coins: the last coin of an outpoint stays.
unfoldable pub available : List VaultUtxo → OutPoint → Option VaultUtxo
available [] op = none
available (u ∷ utxos) op = elim (available utxos op) [
  | some later ↦ some later
  | none ↦ if is_same u.outpoint op then some u else none
]

-- The outpoints seen so far, and the sum of the inputs.
pub record InputState : Type 0 where
  pub seen : List OutPoint
  pub total_in : ℕ

abbrev pub txout_value : TxOut → ℕ
txout_value o = o.value

-- `u64::try_from(tx.vsize())` and the product with the rate.
abbrev pub maximum_fee : Tools → Transaction → CoreResult ℕ
maximum_fee tools tx =
    ok_or
      (if ltb (tools.vsize tx) u64_size
        then checked_mul_u64 (tools.vsize tx) max_fee_rate_sat_per_vb
        else none)
      Error.spend

-- The destination address of a request on a network, as its script.
unfoldable pub destination_script : Tools → Network → SpendRequest → CoreResult Bytes
destination_script tools network req = do
  dest ← ok_or (tools.address_from_str req.destination) Error.spend
  reject_if (not (tools.is_valid_for_network dest network)) Error.spend
  ok (tools.address_script_pubkey dest)

module _ (vault_script : Bytes) (utxos : List VaultUtxo) (path : SpendPath)
    (expected_sequence : ℕ) where
  -- The body of the loop over the inputs.
  pub check_input : InputState → TxIn → CoreResult InputState
  unfolding available
  check_input state input = do
    reject_if (contains state.seen input.previous_output) Error.spend
    utxo ← ok_or (available utxos input.previous_output) Error.spend
    reject_if (not (is_same utxo.txout.script_pubkey vault_script)) Error.spend
    reject_if (not (is_spendable path utxo)) Error.spend
    reject_if (not (input.sequence == expected_sequence)) Error.spend
    reject_if (is_empty input.witness) Error.spend
    total_in ← ok_or (checked_add_u64 state.total_in utxo.txout.value) Error.spend
    ok (record { seen = input.previous_output ∷ state.seen; total_in = total_in })

module _ (lib : Crates) where
  -- The test of the change output, where the built spend has change.
  pub change_returns : Bytes → ℕ → TxOut → Bool
  change_returns vault_script change_sats o =
      not (ltb change_sats (lib.minimal_non_dust vault_script))
      && o.value == change_sats
      && is_same o.script_pubkey vault_script

  -- The tests on the number of outputs and on each of them. The code compares the length first.
  pub check_outputs : Bytes → Bytes → ℕ → ℕ → List TxOut → CoreCheck
  unfolding change_returns
  check_outputs dest_script vault_script amount change_sats (dest ∷ []) = do
    reject_if (ltb 0 change_sats) Error.spend
    reject_if (not (dest.value == amount) || not (is_same dest.script_pubkey dest_script))
        Error.spend
  check_outputs dest_script vault_script amount change_sats (dest ∷ change ∷ []) = do
    reject_if (not (ltb 0 change_sats)) Error.spend
    reject_if (not (dest.value == amount) || not (is_same dest.script_pubkey dest_script))
        Error.spend
    reject_if (not (change_returns vault_script change_sats change)) Error.spend
  check_outputs dest_script vault_script amount change_sats _ = err Error.spend

  -- The amounts at the end: the fee that the transaction pays, and the change.
  pub check_amounts : BuiltSpend → SpendRequest → ℕ → Transaction → CoreCheck
  check_amounts built req total_in tx = do
    total_out ← try_fold (add_checked Error.spend txout_value) 0 tx.output
    actual_fee ← ok_or (checked_sub total_in total_out) Error.spend
    reject_if (not (actual_fee == req.fee_sats)) Error.spend
    target ← ok_or (checked_add_u64 req.amount_sats req.fee_sats) Error.spend
    expected_change ← ok_or (checked_sub total_in target) Error.spend
    reject_if (not (built.change_sats == expected_change)) Error.spend

  module _ (ms : Miniscript) (tools : Tools) where
    -- The checks up to the decoded transaction.
    pub decode_built : BuiltSpend → SpendRequest → CoreResult Transaction
    decode_built built req = do
      reject_if
          (req.amount_sats == 0
            || ltb max_fee_sats req.fee_sats
            || ltb req.amount_sats req.fee_sats)
          Error.spend
      reject_if
          (not (is_same built.path req.path)
            || not (built.amount_sats == req.amount_sats)
            || not (built.fee_sats == req.fee_sats))
          Error.spend
      raw ← ok_or (tools.hex_decode built.tx_hex) Error.spend
      tx ← ok_or (tools.deserialize_transaction raw) Error.spend
      reject_if (not (is_same (tools.txid_to_string (lib.compute_txid tx)) built.txid)) Error.spend
      ok tx

    -- The checks on the transaction as a whole.
    pub check_shape : SpendRequest → Transaction → CoreCheck
    check_shape req tx = do
      reject_if (is_empty tx.input) Error.spend
      reject_if (ltb max_selected_inputs (length tx.input)) Error.spend
      reject_if (not (tx.version == 2) || not (tx.lock_time == 0)) Error.spend
      cap ← maximum_fee tools tx
      reject_if (ltb cap req.fee_sats) Error.spend

    -- The checks on inputs, outputs and amounts against the vault and its coins.
    pub check_transaction :
        BuiltSpend
        → VaultDescriptor
        → Network
        → List VaultUtxo
        → SpendRequest
        → Transaction
        → CoreCheck
    unfolding check_input check_outputs check_amounts
    check_transaction built vault network utxos req tx = do
      vault_address ← address ms tools vault
      let vault_script = tools.address_script_pubkey vault_address
      state ←
          try_fold (check_input vault_script utxos req.path (sequence_for tools vault req.path))
            (record { seen = []; total_in = 0 }) tx.input
      dest_script ← destination_script tools network req
      reject_if (ltb req.amount_sats (lib.minimal_non_dust dest_script)) Error.spend
      check_outputs dest_script vault_script req.amount_sats built.change_sats tx.output
      check_amounts built req state.total_in tx

    unfoldable pub validate_built_spend :
        BuiltSpend
        → VaultDescriptor
        → Network
        → List VaultUtxo
        → SpendRequest
        → CoreResult Transaction
    unfolding decode_built check_shape check_transaction
    validate_built_spend built vault network utxos req = do
      require_network ms tools vault network
      tx ← decode_built built req
      check_shape req tx
      check_transaction built vault network utxos req tx
      ok tx
