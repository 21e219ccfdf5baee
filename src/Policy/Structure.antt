-- ===== src/Policy/Structure.antt =====
-- tesaurus-policy/src/structure.rs: the shape of a PSBT that the policy accepts.
pub mod Recovery
pub mod Shape
use tesaurus.Prelude.{
  ℕ, Bool, true, false, not, ◌&&◌, ◌||◌, Bytes, List, Option, some, none, Result, ok, err, ◌>>=◌,
  ◌>>◌, ok_or, reject_if, for_each, is_empty, length, leb, ltb, ◌==◌, is_same, is_some, u16_max,
  Bytes-discrete, if◌then◌else◌,
}
use tesaurus.Bitcoin.{
  Crates, Psbt, PsbtInput, PsbtOutput, PublicKey, EcdsaSignature, EcdsaSighashType,
  EcdsaSighashType-discrete, RelativeLockTime,
}
use tesaurus.Policy.Error.{PolicyErrorCode, PolicyResult, PolicyCheck}

module _ (lib : Crates) where
  unfoldable pub parse_psbt_v0 : Bytes → PolicyResult Psbt
  parse_psbt_v0 bytes = do
    psbt ← ok_or (lib.deserialize bytes) PolicyErrorCode.psbt_parse
    reject_if (not (psbt.version == 0)) PolicyErrorCode.psbt_parse
    reject_if
        (not (length psbt.inputs == length psbt.unsigned_tx.input)
          || not (length psbt.outputs == length psbt.unsigned_tx.output))
        PolicyErrorCode.psbt_parse
    reject_if (is_empty psbt.unsigned_tx.input) PolicyErrorCode.psbt_parse
    reject_if (is_empty psbt.unsigned_tx.output) PolicyErrorCode.psbt_parse
    ok psbt

-- The test of the loop over the inputs.
input_has_unknown : PsbtInput → Bool
input_has_unknown input =
    not (is_empty input.unknown)
    || not (is_empty input.proprietary)
    || not (is_empty input.ripemd160_preimages)
    || not (is_empty input.sha256_preimages)
    || not (is_empty input.hash160_preimages)
    || not (is_empty input.hash256_preimages)
    || is_some input.tap_key_sig
    || not (is_empty input.tap_script_sigs)
    || not (is_empty input.tap_scripts)
    || not (is_empty input.tap_key_origins)
    || is_some input.tap_internal_key
    || is_some input.tap_merkle_root

output_has_unknown : PsbtOutput → Bool
output_has_unknown output =
    not (is_empty output.unknown)
    || not (is_empty output.proprietary)
    || is_some output.tap_internal_key
    || is_some output.tap_tree
    || not (is_empty output.tap_key_origins)

unfoldable pub require_no_unknown_psbt_fields : Psbt → PolicyCheck
unfolding input_has_unknown output_has_unknown
require_no_unknown_psbt_fields psbt = do
  reject_if
      (not (is_empty psbt.unknown) || not (is_empty psbt.proprietary) || not (is_empty psbt.xpub))
      PolicyErrorCode.unknown_field
  for_each (λ input. reject_if (input_has_unknown input) PolicyErrorCode.unknown_field) psbt.inputs
  for_each (λ output. reject_if (output_has_unknown output) PolicyErrorCode.unknown_field)
      psbt.outputs

unfoldable pub require_locktime_zero : ℕ → PolicyCheck
require_locktime_zero locktime = reject_if (not (locktime == 0)) PolicyErrorCode.locktime

pub require_sighash_all : EcdsaSighashType → PolicyCheck
require_sighash_all sighash =
    reject_if (not (is_same sighash EcdsaSighashType.all)) PolicyErrorCode.sighash

module _ (lib : Crates) where
  -- The body of the loop over the inputs.
  input_sighash_all : PsbtInput → PolicyCheck
  unfolding require_sighash_all
  input_sighash_all input = do
    ty ← ok_or input.sighash_type PolicyErrorCode.sighash
    reject_if (not (ty == lib.psbt_sighash_from EcdsaSighashType.all)) PolicyErrorCode.sighash
    for_each (λ (entry : PublicKey × EcdsaSignature). require_sighash_all entry.1.sighash_type)
        input.partial_sigs

  unfoldable pub require_sighash_all_on_psbt : Psbt → PolicyCheck
  unfolding input_sighash_all
  require_sighash_all_on_psbt psbt = for_each input_sighash_all psbt.inputs

  pub sequence_satisfies_older_csv : ℕ → ℕ → Bool
  sequence_satisfies_older_csv sequence csv_blocks =
      if csv_blocks == 0 || ltb u16_max csv_blocks
      then false
      else elim (lib.to_relative_lock_time sequence) [
        | some lock ↦ elim lock [
          | RelativeLockTime.blocks height ↦ leb csv_blocks height
          | RelativeLockTime.time _ ↦ false
        ]
        | none ↦ false
      ]

  -- Recovery-path nSequence must enable BIP68 height CSV of at least `csv_blocks`.
  unfoldable pub require_recovery_sequence : ℕ → ℕ → PolicyCheck
  unfolding sequence_satisfies_older_csv
  require_recovery_sequence sequence csv_blocks =
      if sequence_satisfies_older_csv sequence csv_blocks
      then ok tt
      else err PolicyErrorCode.not_recovery_path

-- Every input script must equal the pinned vault script.
pub require_all_vault_input_scripts : List Bytes → Bytes → PolicyCheck
require_all_vault_input_scripts input_scripts vault_script =
    for_each (λ script. reject_if (not (is_same script vault_script)) PolicyErrorCode.foreign_input)
      input_scripts
