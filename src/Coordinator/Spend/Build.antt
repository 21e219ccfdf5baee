-- ===== src/Coordinator/Spend/Build.antt =====
-- `SpendBuilder::build_and_sign` and `sign_recovery_with_keys` of src/spend.rs. A private key is its
-- bytes; the satisfier is its two lookups, the signatures and whether the delay counts as over.
pub mod Signed
pub mod Draft
use tesaurus.Prelude.{
  ℕ, zero, suc, Bool, true, false, not, ◌&&◌, Bytes, Bytes-discrete, List, [], ◌∷◌, ◌++◌, map,
  Option, some, none, Result, ok, err, ◌>>=◌, ◌>>◌, ok_or, reject_if, try_fold, add_checked,
  is_empty, checked_add_u64, checked_sub, ltb, ◌==◌, is_same, if◌then◌else◌,
}
use tesaurus.Bitcoin.{
  Crates, Miniscript, Network, PublicKey, PublicKey-discrete, EcdsaSighashType, EcdsaSignature,
  TxIn, TxOut, Transaction,
}
use tesaurus.Coordinator.Failure.{Error, CoreResult, CoreCheck}
use tesaurus.Coordinator.Tools.{Tools}
use tesaurus.Coordinator.Descriptor.{VaultDescriptor, require_network, parsed, address}
use tesaurus.Coordinator.Wallet.{VaultUtxo, value_of}
use tesaurus.Coordinator.Spend.{
  SpendPath, SpendPath-discrete, SpendRequest, BuiltSpend, sequence_for, max_fee_sats,
}
use tesaurus.Coordinator.Spend.Select.{select_coins}
use tesaurus.Coordinator.Spend.Validate.{maximum_fee, destination_script}

-- The change output is only there if there is change.
abbrev pub outputs_of : Bytes → Bytes → ℕ → ℕ → List TxOut
outputs_of dest_script change_script amount change =
    record { value = amount; script_pubkey = dest_script }
    ∷ (if ltb 0 change then record { value = change; script_pubkey = change_script } ∷ [] else [])

abbrev pub unsigned_input : ℕ → VaultUtxo → TxIn
unsigned_input sequence u = record {
  previous_output = u.outpoint;
  script_sig = [];
  sequence = sequence;
  witness = [];
}

-- `tx.input[vin].witness = witness`
pub set_witness : ℕ → List Bytes → List TxIn → List TxIn
set_witness vin witness [] = []
set_witness zero witness (i ∷ inputs) = record i { witness = witness } ∷ inputs
set_witness (suc vin) witness (i ∷ inputs) = i ∷ set_witness vin witness inputs

-- The limits on the amounts of a request, and their sum.
pub check_request : SpendRequest → CoreResult ℕ
check_request req = do
  reject_if (req.amount_sats == 0) Error.spend
  reject_if (ltb max_fee_sats req.fee_sats) Error.spend
  reject_if (ltb req.amount_sats req.fee_sats) Error.spend
  ok_or (checked_add_u64 req.amount_sats req.fee_sats) Error.spend

module _ (lib : Crates) (ms : Miniscript) (tools : Tools) where
  -- `sigs.get(pk)` on the map filled by the loop over the keys: a later key replaces an earlier one.
  pub signature_by : List Bytes → Bytes → PublicKey → Option EcdsaSignature
  signature_by [] digest pk = none
  signature_by (key ∷ keys) digest pk = elim (signature_by keys digest pk) [
    | some later ↦ some later
    | none ↦
        if is_same (tools.from_private_key key) pk
        then some (record {
          signature = tools.sign_ecdsa digest key;
          sighash_type = EcdsaSighashType.all;
        })
        else none
  ]

  -- The body of the loop that signs: the input `vin` of the transaction so far.
  pub sign_input :
      Bytes → Bytes → Bool → List Bytes → ℕ → VaultUtxo → Transaction → CoreResult Transaction
  unfolding set_witness signature_by
  sign_input desc witness_script older_ok keys vin utxo tx = do
    sighash ← ok_or (tools.p2wsh_signature_hash tx vin witness_script (value_of utxo)) Error.spend
    satisfied ← ok_or (tools.get_satisfaction desc (signature_by keys sighash) older_ok) Error.spend
    reject_if (not (is_empty satisfied.1)) Error.spend
    ok (record tx { input = set_witness vin satisfied.0 tx.input })

  -- `for (vin, utxo) in selected.iter().enumerate()`, from `vin` on.
  pub sign_inputs :
      Bytes → Bytes → Bool → List Bytes → ℕ → List VaultUtxo → Transaction → CoreResult Transaction
  unfolding sign_input
  sign_inputs desc witness_script older_ok keys vin [] tx = ok tx
  sign_inputs desc witness_script older_ok keys vin (u ∷ selected) tx =
      sign_input desc witness_script older_ok keys vin u tx >>= λ signed.
      sign_inputs desc witness_script older_ok keys (suc vin) selected signed

  -- The part of the builder up to the unsigned transaction: the coins and the change beside it.
  pub build_unsigned :
      VaultDescriptor
      → Network
      → List VaultUtxo
      → SpendRequest
      → CoreResult (List VaultUtxo × ℕ × Transaction)
  unfolding check_request
  build_unsigned vault network utxos req = do
    require_network ms tools vault network
    target ← check_request req
    dest_script ← destination_script tools network req
    reject_if (ltb req.amount_sats (lib.minimal_non_dust dest_script)) Error.spend
    selected ← select_coins utxos target req.path
    total_in ← try_fold (add_checked Error.spend value_of) 0 selected
    reject_if (ltb total_in target) Error.spend
    change ← ok_or (checked_sub total_in target) Error.spend
    change_address ← address ms tools vault
    let change_script = tools.address_script_pubkey change_address
    reject_if (ltb 0 change && ltb change (lib.minimal_non_dust change_script)) Error.spend
    ok (
      selected,
      change,
      record {
        version = 2;
        lock_time = 0;
        input = map (unsigned_input (sequence_for tools vault req.path)) selected;
        output = outputs_of dest_script change_script req.amount_sats change;
      },
    )

  unfoldable pub build_and_sign :
      VaultDescriptor → Network → List VaultUtxo → SpendRequest → List Bytes → CoreResult BuiltSpend
  unfolding build_unsigned sign_inputs
  build_and_sign vault network utxos req keys = do
    draft ← build_unsigned vault network utxos req
    desc ← parsed ms tools vault
    witness_script ← ok_or (ms.explicit_script desc) Error.spend
    let older_ok = is_same req.path SpendPath.recovery
    tx ← sign_inputs desc witness_script older_ok keys 0 draft.0 draft.2
    cap ← maximum_fee tools tx
    reject_if (ltb cap req.fee_sats) Error.spend
    ok (record {
      tx_hex = tools.serialize_hex tx;
      txid = tools.txid_to_string (lib.compute_txid tx);
      path = req.path;
      fee_sats = req.fee_sats;
      amount_sats = req.amount_sats;
      change_sats = draft.1;
    })

  -- `sign_recovery_with_keys`: the same on the recovery path.
  unfoldable sign_recovery_with_keys :
      VaultDescriptor → Network → List VaultUtxo → SpendRequest → List Bytes → CoreResult BuiltSpend
  unfolding build_and_sign
  sign_recovery_with_keys vault network utxos req keys =
      build_and_sign vault network utxos (record req { path = SpendPath.recovery }) keys
