-- ===== src/Policy/Evaluate/Amounts.antt =====
-- The stages of tesaurus-policy/src/evaluate.rs that look at amounts, the confirm token and the
-- records of earlier spends.
pub mod Balance
use tesaurus.Prelude.{
  ℕ, ◌<◌, Bool, true, false, not, ◌&&◌, ◌||◌, Bytes, Bytes-discrete, List, [], ◌∷◌, Option, some,
  none, Result, ok, err, ◌>>=◌, ◌>>◌, ok_or, reject_if, try_fold, add_checked, keep, any, find,
  contains, length, checked_sub, ltb, ◌==◌, is_same, if◌then◌else◌,
}
use tesaurus.Bitcoin.{Crates, Transaction, TxOut, OutPoint, OutPoint-discrete, Psbt}
use tesaurus.Policy.Error.{PolicyErrorCode, PolicyResult, PolicyCheck}
use tesaurus.Policy.Pin.{AgentPin}
use tesaurus.Policy.Confirm.{ConfirmBinding, txid_display_bytes, verify_confirm_token}
use tesaurus.Policy.Replay.{
  ReplayRecord, outpoints_identical, is_vault_change_only, is_change, first_value,
}

pub record PolicyRequest : Type 0 where
  pub request_id : Bytes
  pub psbt_bytes : Bytes
  pub confirm_token : Option Bytes
  pub claimed_external_sats : ℕ

pub record AmountBreakdown : Type 0 where
  pub external_sats : ℕ
  pub external_script : Bytes
  pub change_sats : ℕ
  pub fee_sats : ℕ
  pub input_sats : ℕ

-- The test `externals.len() != 1`, and the item behind it.
abbrev sole_external : List TxOut → PolicyResult TxOut
sole_external (e ∷ []) = ok e
sole_external _ = err PolicyErrorCode.change

abbrev pub value_of : TxOut → ℕ
value_of o = o.value

-- The tail of `classify_amounts`, on the sums and the classified outputs.
breakdown_of : ℕ → ℕ → List TxOut → List TxOut → PolicyResult AmountBreakdown
breakdown_of input_sats output_sats externals changes = do
  external ← sole_external externals
  reject_if (ltb 1 (length changes)) PolicyErrorCode.change
  fee_sats ← ok_or (checked_sub input_sats output_sats) PolicyErrorCode.fee
  ok (record {
    external_sats = external.value;
    external_script = external.script_pubkey;
    change_sats = first_value changes;
    fee_sats = fee_sats;
    input_sats = input_sats;
  })

unfoldable pub classify_amounts : AgentPin → Transaction → List TxOut → PolicyResult AmountBreakdown
unfolding breakdown_of
classify_amounts pin tx prevouts = do
  input_sats ← try_fold (add_checked PolicyErrorCode.fee value_of) 0 prevouts
  output_sats ← try_fold (add_checked PolicyErrorCode.fee value_of) 0 tx.output
  breakdown_of input_sats output_sats (keep (λ o. not (is_change pin.script_pubkey o)) tx.output)
      (keep (is_change pin.script_pubkey) tx.output)

module _ (lib : Crates) where
  unfoldable pub check_dust : AgentPin → AmountBreakdown → PolicyCheck
  check_dust pin amounts = do
    let external_dust = lib.minimal_non_dust amounts.external_script
    reject_if (ltb amounts.external_sats external_dust) PolicyErrorCode.dust
    let change_dust = lib.minimal_non_dust pin.script_pubkey
    reject_if (ltb 0 amounts.change_sats && ltb amounts.change_sats change_dust)
        PolicyErrorCode.dust

  unfoldable pub check_confirm : AgentPin → PolicyRequest → Psbt → ℕ → PolicyCheck
  check_confirm pin request psbt external_sats =
      if ltb external_sats pin.confirm_threshold_sats then ok tt else (do
        token ← ok_or request.confirm_token PolicyErrorCode.confirm_required
        let binding : ConfirmBinding = record {
          request_id = request.request_id;
          txid_display = txid_display_bytes (lib.compute_txid psbt.unsigned_tx);
          external_amount_sats = external_sats;
          genesis_internal = pin.genesis_hash;
        }
        verify_confirm_token lib token binding pin.override_pubkey)

-- The external amount of an earlier record: its first output that does not return to the vault.
pub previous_external : ReplayRecord → ℕ
previous_external previous =
    elim (find (λ o. not (is_change previous.vault_script o)) previous.outputs) [
      | some o ↦ o.value
      | none ↦ 0
    ]

-- The body of the loop of `enforce_fee_bump_policy`, with the flag `matched`.
bump_allowed : ReplayRecord → ℕ → Bool → ReplayRecord → PolicyResult Bool
unfolding previous_external
bump_allowed candidate candidate_external_sats matched previous =
    if not (outpoints_identical previous.outpoints candidate.outpoints)
    then if any (contains candidate.outpoints) previous.outpoints
      then err PolicyErrorCode.replay
      else ok matched
    else if not (is_vault_change_only previous candidate)
    then err PolicyErrorCode.fee_bump_invalid
    else if ltb (previous_external previous) candidate_external_sats
    then err PolicyErrorCode.fee_bump_invalid
    else ok true

unfoldable pub enforce_fee_bump_policy : List ReplayRecord → ReplayRecord → ℕ → PolicyCheck
unfolding bump_allowed
enforce_fee_bump_policy records candidate candidate_external_sats = do
  matched ← try_fold (bump_allowed candidate candidate_external_sats) false records
  reject_if (not matched) PolicyErrorCode.fee_bump_invalid
