-- ===== src/Policy/Evaluate/Machine.antt =====
-- `evaluate` of tesaurus-policy/src/evaluate.rs: all stages in the code's order.
pub mod Sound
pub mod Lifecycle
use tesaurus.Prelude.{
  ℕ, Bool, true, false, not, Bytes, Bytes-discrete, List, Result, ok, err, ◌>>=◌, ◌>>◌, reject_if,
  length, ltb, ◌==◌, is_same, if◌then◌else◌,
}
use tesaurus.Bitcoin.{Crates, Psbt}
use tesaurus.Policy.Constants.{max_policy_fee_sats, max_policy_inputs}
use tesaurus.Policy.Error.{PolicyErrorCode, PolicyResult, PolicyCheck}
use tesaurus.Policy.Facts.{AgentAuth, is_ok, ChainView}
use tesaurus.Policy.Pin.{AgentPin}
use tesaurus.Policy.Structure.{
  parse_psbt_v0, require_no_unknown_psbt_fields, require_locktime_zero, require_sighash_all_on_psbt,
}
use tesaurus.Policy.Replay.{ReplayRecord, ReplayVerdict, from_pin, preflight}
use tesaurus.Policy.Velocity.{VelocitySample, check_velocity_cap, check_velocity_window_capped}
use tesaurus.Policy.Evaluate.Inputs.{
  collect_prevouts, check_inputs_against_pin, check_chain_prevouts, check_recovery_path,
  check_csv_for_inputs,
}
use tesaurus.Policy.Evaluate.Amounts.{
  PolicyRequest, AmountBreakdown, classify_amounts, check_dust, check_confirm,
  enforce_fee_bump_policy,
}

pub data PolicyOutcome : Type 0 where
  idempotent : Bytes → PolicyOutcome
  validated_unsigned : ReplayVerdict → ReplayRecord → AmountBreakdown → PolicyOutcome

-- `matches!(verdict, ReplayVerdict::FeeBump)`
abbrev pub is_fee_bump : ReplayVerdict → Bool
is_fee_bump ReplayVerdict.fee_bump = true
is_fee_bump _ = false

module _ (lib : Crates) (pin : AgentPin) (request : PolicyRequest) (chain : ChainView)
    (records : List ReplayRecord) (samples : List VelocitySample) where
  -- Stage 6.2 behind the replay verdict, up to the amounts.
  unfoldable pub check_structure : Psbt → PolicyResult AmountBreakdown
  check_structure psbt = do
    require_locktime_zero psbt.unsigned_tx.lock_time
    reject_if (not (psbt.unsigned_tx.version == 2)) PolicyErrorCode.not_recovery_path
    reject_if (ltb max_policy_inputs (length psbt.inputs)) PolicyErrorCode.fee
    require_sighash_all_on_psbt lib psbt
    prevouts ← collect_prevouts lib psbt
    amounts ← classify_amounts pin psbt.unsigned_tx prevouts
    reject_if (ltb max_policy_fee_sats amounts.fee_sats) PolicyErrorCode.fee
    reject_if (amounts.fee_sats == 0) PolicyErrorCode.fee
    check_inputs_against_pin lib pin psbt prevouts
    check_chain_prevouts pin chain psbt prevouts
    ok amounts

  -- Stages 6.3c to 6.6b.
  unfoldable pub check_spend : Psbt → ReplayVerdict → ReplayRecord → AmountBreakdown → PolicyCheck
  check_spend psbt verdict candidate amounts = do
    check_recovery_path lib pin psbt
    reject_if (not (is_same chain.genesis_hash pin.genesis_hash)) PolicyErrorCode.wrong_genesis
    check_csv_for_inputs pin chain psbt
    reject_if (not (request.claimed_external_sats == amounts.external_sats)) PolicyErrorCode.fee
    check_dust lib pin amounts
    (if is_fee_bump verdict
        then enforce_fee_bump_policy records candidate amounts.external_sats
        else ok tt)
    check_velocity_cap amounts.external_sats pin.velocity_per_sig_sats
    let charged = if is_fee_bump verdict then 0 else amounts.external_sats
    check_velocity_window_capped samples chain.tip_height charged pin.velocity_per_sig_sats
        pin.velocity_per_144_sats
    check_confirm lib pin request psbt amounts.external_sats

  -- What follows the verdict: a cached signature is returned at once.
  after_preflight : Psbt → ReplayRecord → ReplayVerdict → PolicyResult PolicyOutcome
  after_preflight psbt candidate (ReplayVerdict.idempotent bytes) =
      ok (PolicyOutcome.idempotent bytes)
  after_preflight psbt candidate verdict = do
    amounts ← check_structure psbt
    check_spend psbt verdict candidate amounts
    ok (validated_unsigned verdict candidate amounts)

  unfoldable pub evaluate : AgentAuth → PolicyResult PolicyOutcome
  unfolding after_preflight
  evaluate auth = do
    reject_if (not (is_ok auth)) PolicyErrorCode.auth
    psbt ← parse_psbt_v0 lib request.psbt_bytes
    require_no_unknown_psbt_fields psbt
    candidate ← from_pin lib pin request.request_id psbt request.psbt_bytes
    verdict ← preflight records candidate
    after_preflight psbt candidate verdict
