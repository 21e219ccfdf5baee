-- ===== src/Tests/Spends.antt =====
-- `evaluate` at concrete requests: a fresh spend, a fee bump, a retry and a rejection.
use tesaurus.Prelude.{
  length, sum_of, All, map, ◌++◌, find, is_same, ℕ, true, ◌+◌, ◌≤◌, ◌<◌, ◌≡◌, refl, Bytes,
  Bytes-discrete, List, [], ◌∷◌, some, arith, ok, try_fold, try_map, for_each,
}
use tesaurus.Bitcoin.{
  OutPoint-discrete, TxOut-discrete, PublicKey-discrete, EcdsaSighashType-discrete,
}
use tesaurus.Policy.Facts.{is_ok}
use tesaurus.Policy.Csv.{check_csv_maturity}
use tesaurus.Policy.Velocity.{check_velocity_cap, check_velocity_window_capped}
use tesaurus.Policy.Confirm.{confirm_preimage, verify_confirm_token}
use tesaurus.Policy.Structure.{
  parse_psbt_v0, require_no_unknown_psbt_fields, require_locktime_zero, require_sighash_all_on_psbt,
  require_recovery_sequence,
}
use tesaurus.Policy.Pin.{contains_pubkey}
use tesaurus.Policy.Replay.{
  ReplayRecord, ReplayPayload, unsigned, signed, ReplayVerdict, from_pin, preflight, attach_signed,
  outpoints_overlap, outpoints_identical, classify_outputs, is_vault_change_only,
}
use tesaurus.Policy.Evaluate.Inputs.{
  collect_prevouts, check_inputs_against_pin, check_chain_prevouts, check_recovery_path,
  check_csv_for_inputs,
}
use tesaurus.Policy.Evaluate.Amounts.{
  AmountBreakdown, classify_amounts, check_dust, check_confirm, enforce_fee_bump_policy,
}
use tesaurus.Policy.Evaluate.Machine.{
  PolicyOutcome, validated_unsigned, check_structure, check_spend, evaluate,
}
use tesaurus.Bitcoin.{Psbt}
use tesaurus.Policy.Velocity.Window.{window_sum}
use tesaurus.Policy.Evaluate.Inputs.Coins.{IsMatureCoin, chain_value}
use tesaurus.Policy.Evaluate.Amounts.Balance.{IsBumpAllowed, request_binding}
use tesaurus.Policy.Evaluate.Machine.Sound.{
  evaluate-coins, evaluate-amounts, evaluate-confirm, evaluate-fee_bump,
}
use tesaurus.Policy.Evaluate.Machine.Lifecycle.{
  evaluate-idempotent, evaluate-retry, evaluate-commit,
}
use tesaurus.Policy.Replay.Preflight.{Means}
use tesaurus.Policy.Replay.Stored.{to_stored}
use tesaurus.Policy.Replay.Store.{all_done, commit}
use tesaurus.Policy.Replay.Store.Durable.{Holds}
use tesaurus.Tests.Records.{toy, dir_of, store_of}
use tesaurus.Tests.World.{token, pin, coin, tx, crates, chain, request, samples, authentic}

abbrev pub spend_record : ℕ → ℕ → ReplayPayload → ReplayRecord
spend_record id change payload = record {
  request_id = id ∷ [];
  replay_id = id ∷ change ∷ change ∷ [];
  psbt_txid = change ∷ [];
  outpoints = coin ∷ [];
  outputs = (tx change).output;
  vault_script = 50 ∷ [];
  outputs_commitment = 6_000_000 ∷ 60 ∷ change ∷ 50 ∷ [];
  payload = payload;
}

abbrev pub breakdown : ℕ → ℕ → AmountBreakdown
breakdown change fee = record {
  external_sats = 6_000_000;
  external_script = 60 ∷ [];
  change_sats = change;
  fee_sats = fee;
  input_sats = 7_000_000;
}

abbrev first : List ReplayRecord
first = spend_record 1 999_000 (signed (7 ∷ [])) ∷ []

evaluate_fresh :
    evaluate crates pin (request 1 999_000) chain [] samples authentic
    ≡ ok (
        validated_unsigned ReplayVerdict.fresh
          (spend_record 1 999_000 unsigned)
          (breakdown 999_000 1000))
unfolding evaluate check_structure check_spend parse_psbt_v0 require_no_unknown_psbt_fields from_pin
    preflight require_locktime_zero require_sighash_all_on_psbt collect_prevouts classify_amounts
    check_inputs_against_pin check_chain_prevouts check_recovery_path require_recovery_sequence
    check_csv_for_inputs check_csv_maturity check_dust check_velocity_cap
    check_velocity_window_capped check_confirm verify_confirm_token is_ok contains_pubkey for_each
    try_map try_fold Bytes-discrete OutPoint-discrete TxOut-discrete PublicKey-discrete
    EcdsaSighashType-discrete
evaluate_fresh = refl

evaluate_bump :
    evaluate crates pin (request 2 990_000) chain first samples authentic
    ≡ ok (
        validated_unsigned ReplayVerdict.fee_bump
          (spend_record 2 990_000 unsigned)
          (breakdown 990_000 10_000))
unfolding evaluate check_structure check_spend parse_psbt_v0 require_no_unknown_psbt_fields from_pin
    preflight require_locktime_zero require_sighash_all_on_psbt collect_prevouts classify_amounts
    check_inputs_against_pin check_chain_prevouts check_recovery_path require_recovery_sequence
    check_csv_for_inputs check_csv_maturity check_dust check_velocity_cap
    check_velocity_window_capped check_confirm verify_confirm_token is_ok contains_pubkey for_each
    try_map try_fold Bytes-discrete OutPoint-discrete TxOut-discrete PublicKey-discrete
    EcdsaSighashType-discrete enforce_fee_bump_policy outpoints_overlap outpoints_identical
    classify_outputs is_vault_change_only
evaluate_bump = refl

evaluate_again :
    evaluate crates pin (request 1 999_000) chain first [] authentic
    ≡ ok (PolicyOutcome.idempotent (7 ∷ []))
unfolding evaluate parse_psbt_v0 require_no_unknown_psbt_fields from_pin preflight is_ok for_each
    try_fold Bytes-discrete
evaluate_again = refl

evaluate-coins_example :
    (p : Psbt) × (crates.deserialize (999_000 ∷ []) ≡ some p)
    × All (IsMatureCoin pin chain) p.unsigned_tx.input
    × (sum_of (chain_value chain) p.unsigned_tx.input ≡ 6_000_000 + 999_000 + 1000)
evaluate-coins_example =
    evaluate-coins crates pin (request 1 999_000) chain [] samples authentic ReplayVerdict.fresh
      (spend_record 1 999_000 unsigned) (breakdown 999_000 1000) evaluate_fresh (omega arith)

evaluate-amounts_example :
    (0 < 1000)
    × (1000 ≤ 1_000_000)
    × ((request 1 999_000).claimed_external_sats ≡ 6_000_000)
    × (6_000_000 ≤ 10_000_000)
    × (6_000_000 + window_sum 2000 samples ≤ 50_000_000)
evaluate-amounts_example =
    evaluate-amounts crates pin (request 1 999_000) chain [] samples authentic ReplayVerdict.fresh
      (spend_record 1 999_000 unsigned) (breakdown 999_000 1000) evaluate_fresh (omega arith)

evaluate-confirm_example :
    (p : Psbt) × (crates.deserialize (999_000 ∷ []) ≡ some p)
    × (t : Bytes) × (some token ≡ some t)
    × (length t ≡ 64)
    × (sig : Bytes) × (crates.signature_from_compact t ≡ some sig)
    × (crates.verify_ecdsa
          (crates.sha256
            (confirm_preimage (request_binding crates pin (request 1 999_000) p 6_000_000)))
          sig
          pin.override_pubkey.inner
        ≡ true)
evaluate-confirm_example =
    evaluate-confirm crates pin (request 1 999_000) chain [] samples authentic ReplayVerdict.fresh
      (spend_record 1 999_000 unsigned) (breakdown 999_000 1000) evaluate_fresh (omega arith)

evaluate-fee_bump_example :
    All (IsBumpAllowed (spend_record 2 990_000 unsigned) 6_000_000) first
    × Means first (spend_record 2 990_000 unsigned) ReplayVerdict.fee_bump
evaluate-fee_bump_example =
    evaluate-fee_bump crates pin (request 2 990_000) chain first samples authentic
      ReplayVerdict.fee_bump (spend_record 2 990_000 unsigned) (breakdown 990_000 10_000)
      evaluate_bump refl

sign_lem :
    attach_signed (spend_record 1 999_000 unsigned) (7 ∷ [])
    ≡ ok (spend_record 1 999_000 (signed (7 ∷ [])))
unfolding attach_signed
sign_lem = refl

evaluate-retry_example :
    evaluate crates pin (request 1 999_000) chain first [] authentic
    ≡ ok (PolicyOutcome.idempotent (7 ∷ []))
evaluate-retry_example =
    evaluate-retry crates pin (request 1 999_000) chain chain [] samples [] authentic
      ReplayVerdict.fresh (spend_record 1 999_000 unsigned)
      (spend_record 1 999_000 (signed (7 ∷ []))) (breakdown 999_000 1000) (7 ∷ []) evaluate_fresh
      sign_lem

evaluate-commit_example :
    ((commit toy all_done (store_of []) (dir_of []) (spend_record 1 999_000 (signed (7 ∷ [])))).0
      ≡ ok ReplayVerdict.fresh)
    × Holds toy
        (commit toy all_done (store_of []) (dir_of []) (spend_record 1 999_000 (signed (7 ∷ [])))).2
        first
evaluate-commit_example =
    evaluate-commit crates pin (request 1 999_000) toy chain (store_of []) (dir_of []) samples
      authentic ReplayVerdict.fresh (spend_record 1 999_000 unsigned)
      (spend_record 1 999_000 (signed (7 ∷ []))) (breakdown 999_000 1000) (7 ∷ [])
      (record { version = 1; records = map (to_stored toy) first }) evaluate_fresh sign_lem refl

evaluate-idempotent_example :
    (is_ok authentic ≡ true)
    × ((p : Psbt) × (crates.deserialize (999_000 ∷ []) ≡ some p)
        × ((stored : ReplayRecord) × (find
                (λ (r : ReplayRecord). is_same r.request_id (1 ∷ []))
                first
              ≡ some stored)
            × (stored.replay_id
                ≡ crates.sha256 (
                    (1 ∷ [])
                    ++ (crates.compute_txid p.unsigned_tx ++ crates.sha256 (999_000 ∷ []))))
            × (stored.payload ≡ signed (7 ∷ []))))
evaluate-idempotent_example =
    evaluate-idempotent crates pin (request 1 999_000) chain first [] authentic (7 ∷ [])
      evaluate_again
