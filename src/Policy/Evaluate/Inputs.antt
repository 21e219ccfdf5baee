-- ===== src/Policy/Evaluate/Inputs.antt =====
-- The stages of tesaurus-policy/src/evaluate.rs that look at each input. The code indexes the inputs
-- of the transaction beside those of the PSBT: `parse_psbt_v0` has checked that there are as many.
pub mod Coins
use tesaurus.Prelude.{
  ℕ, Bool, true, false, not, ◌&&◌, ◌||◌, Bytes, Bytes-discrete, List, Option, some, none, Result,
  ok, err, ◌>>=◌, ◌>>◌, ok_or, reject_if, for_each, try_map, zip, any, find, get_elem?, is_some,
  ◌==◌, is_same,
}
use tesaurus.Bitcoin.{
  Crates, Transaction, TxIn, TxOut, TxOut-discrete, OutPoint, OutPoint-discrete, PublicKey,
  PublicKey-discrete, EcdsaSignature, Psbt, PsbtInput,
}
use tesaurus.Policy.Constants.{wall_clock_seconds_per_block}
use tesaurus.Policy.Error.{PolicyErrorCode, PolicyResult, PolicyCheck}
use tesaurus.Policy.Csv.{check_csv_maturity}
use tesaurus.Policy.Facts.{ChainView, PrevoutFact}
use tesaurus.Policy.Pin.{AgentPin, contains_pubkey}
use tesaurus.Policy.Structure.{require_recovery_sequence}

module _ (lib : Crates) where
  -- The output of the previous transaction that the outpoint names.
  previous_output_of : Transaction → OutPoint → PolicyResult TxOut
  previous_output_of prev_tx outpoint = do
    reject_if (not (is_same (lib.compute_txid prev_tx) outpoint.txid))
        PolicyErrorCode.prevout_mismatch
    ok_or (get_elem? prev_tx.output outpoint.vout) PolicyErrorCode.prevout_missing

  -- The body of the loop of `collect_prevouts`, by what the input carries.
  prevout_of : Option TxOut → Option Transaction → OutPoint → PolicyResult TxOut
  unfolding previous_output_of
  prevout_of (some utxo) (some prev_tx) outpoint = do
    from_tx ← previous_output_of prev_tx outpoint
    reject_if (not (is_same from_tx utxo)) PolicyErrorCode.prevout_mismatch
    ok utxo
  prevout_of (some utxo) none outpoint = ok utxo
  prevout_of none (some prev_tx) outpoint = previous_output_of prev_tx outpoint
  prevout_of none none outpoint = err PolicyErrorCode.prevout_missing

  unfoldable pub collect_prevouts : Psbt → PolicyResult (List TxOut)
  unfolding prevout_of
  collect_prevouts psbt =
      try_map
        (λ (p : PsbtInput × TxIn).
          prevout_of p.0.witness_utxo p.0.non_witness_utxo p.1.previous_output)
        (zip psbt.inputs psbt.unsigned_tx.input)

  -- The body of the loop of `check_inputs_against_pin`.
  input_matches : AgentPin → PsbtInput × TxOut → PolicyCheck
  input_matches pin (input, prevout) = do
    reject_if (not (is_same prevout.script_pubkey pin.script_pubkey)) PolicyErrorCode.foreign_input
    ws ← ok_or input.witness_script PolicyErrorCode.descriptor_mismatch
    reject_if (not (is_same ws pin.witness_script)) PolicyErrorCode.descriptor_mismatch
    reject_if (is_some input.redeem_script) PolicyErrorCode.descriptor_mismatch
    for_each
        (λ (entry : PublicKey × EcdsaSignature).
          reject_if (not (contains_pubkey pin entry.0)) PolicyErrorCode.key_substitution)
        input.partial_sigs
    for_each
        (λ pk.
          reject_if (not (contains_pubkey pin (lib.public_key_new pk)))
            PolicyErrorCode.key_substitution)
        input.bip32_derivation

  unfoldable pub check_inputs_against_pin : AgentPin → Psbt → List TxOut → PolicyCheck
  unfolding input_matches
  check_inputs_against_pin pin psbt prevouts =
      for_each (input_matches pin) (zip psbt.inputs prevouts)

-- `chain.prevouts().iter().find(|f| f.outpoint() == outpoint)`
abbrev pub find_fact : ChainView → OutPoint → Option PrevoutFact
find_fact chain outpoint = find (λ (f : PrevoutFact). is_same f.outpoint outpoint) chain.prevouts

-- The body of the loop of `check_chain_prevouts`.
chain_matches : AgentPin → ChainView → TxIn × TxOut → PolicyCheck
chain_matches pin chain (txin, prevout) = do
  fact ← ok_or (find_fact chain txin.previous_output) PolicyErrorCode.prevout_missing
  reject_if (not fact.visible_unspent) PolicyErrorCode.foreign_input
  reject_if
      (not (is_same fact.script_pubkey prevout.script_pubkey) || not (fact.value == prevout.value))
      PolicyErrorCode.prevout_mismatch
  reject_if (not (is_same fact.script_pubkey pin.script_pubkey)) PolicyErrorCode.foreign_input

unfoldable pub check_chain_prevouts : AgentPin → ChainView → Psbt → List TxOut → PolicyCheck
unfolding chain_matches
check_chain_prevouts pin chain psbt prevouts =
    for_each (chain_matches pin chain) (zip psbt.unsigned_tx.input prevouts)

-- `input.partial_sigs.contains_key(key)`
abbrev pub has_sig : PsbtInput → PublicKey → Bool
has_sig input key = any (λ (e : PublicKey × EcdsaSignature). is_same e.0 key) input.partial_sigs

-- The body of the loop of `check_recovery_path`.
input_on_recovery_path : Crates → AgentPin → PsbtInput × TxIn → PolicyCheck
input_on_recovery_path lib pin (input, txin) = do
  reject_if (is_some input.final_script_sig || is_some input.final_script_witness)
      PolicyErrorCode.not_recovery_path
  require_recovery_sequence lib txin.sequence pin.csv_blocks
  reject_if (has_sig input pin.primary_pubkey && has_sig input pin.override_pubkey)
      PolicyErrorCode.not_recovery_path

unfoldable pub check_recovery_path : Crates → AgentPin → Psbt → PolicyCheck
unfolding input_on_recovery_path
check_recovery_path lib pin psbt =
    for_each (input_on_recovery_path lib pin) (zip psbt.inputs psbt.unsigned_tx.input)

-- The body of the loop of `check_csv_for_inputs`. The code expects a fact to be there: `internal`
-- stands for the panic.
input_is_mature : AgentPin → ChainView → TxIn → PolicyCheck
input_is_mature pin chain txin = do
  fact ← ok_or (find_fact chain txin.previous_output) PolicyErrorCode.internal
  check_csv_maturity chain.tip_height fact.confirm_height chain.now_unix fact.header_time_unix
      pin.csv_blocks pin.safety_margin
  reject_if (not (pin.wall_clock_seconds_per_block == wall_clock_seconds_per_block))
      PolicyErrorCode.csv_immature_wallclock

unfoldable pub check_csv_for_inputs : AgentPin → ChainView → Psbt → PolicyCheck
unfolding input_is_mature
check_csv_for_inputs pin chain psbt = for_each (input_is_mature pin chain) psbt.unsigned_tx.input
