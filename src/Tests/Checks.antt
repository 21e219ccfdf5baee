-- ===== src/Tests/Checks.antt =====
-- The single checks of the policy at concrete values.
use tesaurus.Prelude.{
  ◌+◌, ◌/◌, ◌%◌, ◌^◌, ◌≤◌, ◌<◌, ◌≡◌, ◌⊎◌, ◌↔◌, refl, true, Bytes, Bytes-discrete, [], ◌∷◌, some,
  arith, ok, for_each, try_fold, length, replicate, All,
}
use tesaurus.Bitcoin.{Miniscript, Network, Network-discrete, PublicKey, EcdsaSighashType-discrete}
use tesaurus.Policy.Csv.{check_csv_maturity}
use tesaurus.Policy.Csv.Maturity.{IsDeep, IsOld, check_csv_maturity_iff}
use tesaurus.Policy.Velocity.{check_velocity_window_capped}
use tesaurus.Policy.Velocity.Window.{window_sum, check_velocity_window_capped_iff}
use tesaurus.Policy.Confirm.{ConfirmBinding, confirm_preimage}
use tesaurus.Policy.Confirm.Preimage.{IsSized, confirm_preimage_injective}
use tesaurus.Policy.Structure.{require_sighash_all_on_psbt, require_recovery_sequence}
use tesaurus.Policy.Structure.Recovery.{require_recovery_sequence_iff}
use tesaurus.Policy.Structure.Shape.{SignsAll, require_sighash_all_on_psbt-All}
use tesaurus.Policy.Pin.{provision, compile_vault_descriptor}
use tesaurus.Policy.Pin.Provision.{IsLocked, provision-IsLocked}
use tesaurus.Policy.Evaluate.Amounts.{check_confirm, classify_amounts}
use tesaurus.Policy.Evaluate.Amounts.Balance.{
  IsBalanced, classify_amounts-IsBalanced, request_binding, check_confirm_iff,
}
use tesaurus.Tests.World.{key, pin, tx, psbt, token, request, crates, samples}

check_csv_maturity_iff_example :
    (check_csv_maturity 2000 100 1_000_000 1000 10 1008 ≡ ok tt)
    ↔ (IsDeep 2000 100 10 1008 × IsOld 1_000_000 1000 10 1008)
check_csv_maturity_iff_example =
    check_csv_maturity_iff 2000 100 1_000_000 1000 10 1008 (omega arith)

shallow : ¬ IsDeep 1000 100 10 1008
shallow h = omega (arith, h.deep)

IsDeep-enough : IsDeep 2000 100 10 1008
IsDeep-enough = record {
  confirmed = omega arith;
  depth_fits = omega arith;
  need_fits = omega arith;
  deep = omega arith;
}

check_velocity_window_capped_iff_example :
    (check_velocity_window_capped samples 2000 6_000_000 10_000_000 50_000_000 ≡ ok tt)
    ↔ ((6_000_000 ≤ 10_000_000) × (6_000_000 + window_sum 2000 samples ≤ 50_000_000))
check_velocity_window_capped_iff_example =
    check_velocity_window_capped_iff samples 2000 6_000_000 10_000_000 50_000_000 (omega arith)
      (omega arith)

abbrev binding : ConfirmBinding
binding = record {
  request_id = replicate 16 1;
  txid_display = replicate 32 2;
  external_amount_sats = 6_000_000;
  genesis_internal = replicate 32 9;
}

binding-IsSized : IsSized binding
binding-IsSized = record {
  request_id = refl;
  txid_display = refl;
  amount = omega arith;
  genesis_internal = refl;
}

confirm_preimage_injective_example : binding ≡ binding
confirm_preimage_injective_example =
    confirm_preimage_injective binding binding binding-IsSized binding-IsSized refl

check_confirm_iff_example :
    (check_confirm crates pin (request 1 999_000) (psbt 999_000) 6_000_000 ≡ ok tt) ↔ (
      (6_000_000 < 5_000_000)
      ⊎ ((t : Bytes) × (some token ≡ some t)
          × ((length t ≡ 64)
              × ((sig : Bytes) × (crates.signature_from_compact t ≡ some sig)
                  × (crates.verify_ecdsa
                        (crates.sha256 (
                          confirm_preimage (
                            request_binding crates pin
                              (request 1 999_000)
                              (psbt 999_000)
                              6_000_000)))
                        sig
                        pin.override_pubkey.inner
                      ≡ true)))))
check_confirm_iff_example =
    check_confirm_iff crates pin (request 1 999_000) (psbt 999_000) 6_000_000

require_recovery_sequence_iff_example :
    (require_recovery_sequence crates 10 10 ≡ ok tt)
    ↔ ((1 ≤ 10) × (10 ≤ 65535) × (10 / 2 ^ 31 % 2 ≡ 0) × (10 / 2 ^ 22 % 2 ≡ 0) × (10 ≤ 10 % 2 ^ 16))
require_recovery_sequence_iff_example = require_recovery_sequence_iff crates 10 10 refl

signs_all : require_sighash_all_on_psbt crates (psbt 999_000) ≡ ok tt
unfolding require_sighash_all_on_psbt for_each
signs_all = refl

require_sighash_all_on_psbt-All_example : All (SignsAll crates) (psbt 999_000).inputs
require_sighash_all_on_psbt-All_example =
    require_sighash_all_on_psbt-All crates (psbt 999_000) signs_all

classified_spend :
    classify_amounts pin (tx 999_000) (record { value = 7_000_000; script_pubkey = 50 ∷ [] } ∷ [])
    ≡ ok (record {
      external_sats = 6_000_000;
      external_script = 60 ∷ [];
      change_sats = 999_000;
      fee_sats = 1000;
      input_sats = 7_000_000;
    })
unfolding classify_amounts try_fold Bytes-discrete
classified_spend = refl

classify_amounts-IsBalanced_example :
    IsBalanced pin
      (tx 999_000)
      (record { value = 7_000_000; script_pubkey = 50 ∷ [] } ∷ [])
      (record {
        external_sats = 6_000_000;
        external_script = 60 ∷ [];
        change_sats = 999_000;
        fee_sats = 1000;
        input_sats = 7_000_000;
      })
classify_amounts-IsBalanced_example =
    classify_amounts-IsBalanced pin (tx 999_000)
      (record { value = 7_000_000; script_pubkey = 50 ∷ [] } ∷ [])
      (record {
        external_sats = 6_000_000;
        external_script = 60 ∷ [];
        change_sats = 999_000;
        fee_sats = 1000;
        input_sats = 7_000_000;
      })
      classified_spend

-- A compiler for which every text is a policy, a script and a descriptor.
abbrev pub plain : Miniscript
plain = record {
  display_key = λ (k : PublicKey). k.inner;
  policy_from_str = λ s. some s;
  compile = λ p. some p;
  new_wsh = λ s. some s;
  sanity_check = λ d. true;
  explicit_script = λ d. some (51 ∷ []);
  script_pubkey = λ d. 50 ∷ [];
  to_string = λ d. [];
}

provisioned : provision plain crates Network.regtest (key 1) (key 2) (key 3) 10 ≡ ok pin
unfolding provision compile_vault_descriptor Network-discrete
provisioned = refl

provision-IsLocked_example : IsLocked plain crates Network.regtest (key 1) (key 2) (key 3) 10 pin
provision-IsLocked_example =
    provision-IsLocked plain crates Network.regtest (key 1) (key 2) (key 3) 10 pin provisioned
