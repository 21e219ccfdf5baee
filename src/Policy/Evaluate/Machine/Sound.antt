-- ===== src/Policy/Evaluate/Machine/Sound.antt =====
-- What a request that `evaluate` of tesaurus-policy/src/evaluate.rs validates has passed.
use tesaurus.Prelude.{
  ◌+◌, ◌≤◌, ◌<◌, ◌≡◌, ◌≢◌, inl, inr, true, Bytes, List, some, arith, ok, length, sum_of, All,
  u64_size, if◌then◌else◌, sym, ap, ◌∙◌,
}
use tesaurus.Bitcoin.{Crates, TxOut, Psbt}
use tesaurus.Policy.Facts.{AgentAuth, is_ok, ChainView}
use tesaurus.Policy.Pin.{AgentPin}
use tesaurus.Policy.Structure.{
  parse_psbt_v0, require_no_unknown_psbt_fields, require_locktime_zero, require_sighash_all_on_psbt,
}
use tesaurus.Policy.Structure.Shape.{parse_psbt_v0_iff}
use tesaurus.Policy.Confirm.{confirm_preimage}
use tesaurus.Policy.Replay.{ReplayRecord, ReplayVerdict, from_pin, preflight}
use tesaurus.Policy.Replay.Preflight.{Means, preflight-Means}
use tesaurus.Policy.Velocity.{VelocitySample, check_velocity_cap, check_velocity_window_capped}
use tesaurus.Policy.Velocity.Window.{
  window_sum, check_velocity_cap-le, check_velocity_window_capped_iff,
}
use tesaurus.Policy.Evaluate.Inputs.{
  collect_prevouts, check_inputs_against_pin, check_chain_prevouts, check_recovery_path,
  check_csv_for_inputs,
}
use tesaurus.Policy.Evaluate.Inputs.Coins.{IsMatureCoin, chain_value, mature_coins}
use tesaurus.Policy.Evaluate.Amounts.{
  PolicyRequest, AmountBreakdown, classify_amounts, check_dust, check_confirm,
  enforce_fee_bump_policy,
}
use tesaurus.Policy.Evaluate.Amounts.Balance.{
  classify_amounts-IsBalanced, IsBumpAllowed, enforce_fee_bump_policy-All, check_confirm_iff,
  request_binding,
}
use tesaurus.Policy.Evaluate.Machine.{
  validated_unsigned, is_fee_bump, check_structure, check_spend, evaluate,
}

module _ (lib : Crates) (pin : AgentPin) (request : PolicyRequest) (chain : ChainView)
    (records : List ReplayRecord) (samples : List VelocitySample) where
  -- The stages of `check_structure`, each passed.
  record StructurePassed (psbt : Psbt) (a : AmountBreakdown) : Type 0 where
    prevouts : List TxOut
    locktime : require_locktime_zero psbt.unsigned_tx.lock_time ≡ ok tt
    version : psbt.unsigned_tx.version ≡ 2
    inputs : length psbt.inputs ≤ 100
    sighash : require_sighash_all_on_psbt lib psbt ≡ ok tt
    collected : collect_prevouts lib psbt ≡ ok prevouts
    amounts : classify_amounts pin psbt.unsigned_tx prevouts ≡ ok a
    fee_cap : a.fee_sats ≤ 1_000_000
    fee_positive : 0 < a.fee_sats
    pinned : check_inputs_against_pin lib pin psbt prevouts ≡ ok tt
    visible : check_chain_prevouts pin chain psbt prevouts ≡ ok tt

  -- The stages of `check_spend`, each passed.
  record SpendPassed (psbt : Psbt) (v : ReplayVerdict) (r : ReplayRecord) (a : AmountBreakdown)
      : Type 0 where
    recovery : check_recovery_path lib pin psbt ≡ ok tt
    genesis : chain.genesis_hash ≡ pin.genesis_hash
    mature : check_csv_for_inputs pin chain psbt ≡ ok tt
    claimed : request.claimed_external_sats ≡ a.external_sats
    dust : check_dust lib pin a ≡ ok tt
    bump : is_fee_bump v ≡ true → enforce_fee_bump_policy records r a.external_sats ≡ ok tt
    cap : check_velocity_cap a.external_sats pin.velocity_per_sig_sats ≡ ok tt
    window :
        check_velocity_window_capped samples chain.tip_height
          (if is_fee_bump v then 0 else a.external_sats)
          pin.velocity_per_sig_sats
          pin.velocity_per_144_sats
        ≡ ok tt
    confirm : check_confirm lib pin request psbt a.external_sats ≡ ok tt

  -- All stages of `evaluate`, each passed.
  pub record Passed (auth : AgentAuth) (v : ReplayVerdict) (r : ReplayRecord) (a : AmountBreakdown)
      : Type 0 where
    pub psbt : Psbt
    pub authentic : is_ok auth ≡ true
    pub parsed : parse_psbt_v0 lib request.psbt_bytes ≡ ok psbt
    pub known : require_no_unknown_psbt_fields psbt ≡ ok tt
    pub candidate : from_pin lib pin request.request_id psbt request.psbt_bytes ≡ ok r
    pub verdict : preflight records r ≡ ok v
    pub not_cached : (bytes : Bytes) → v ≢ ReplayVerdict.idempotent bytes
    pub structure : check_structure lib pin request chain records samples psbt ≡ ok a
    pub spend : check_spend lib pin request chain records samples psbt v r a ≡ ok tt

  structure_lem :
      (psbt : Psbt) (a : AmountBreakdown)
      → check_structure lib pin request chain records samples psbt ≡ ok a
      → StructurePassed psbt a
  unfolding check_structure
  structure_lem psbt a h = ground arith

  spend_lem :
      (psbt : Psbt) (v : ReplayVerdict) (r : ReplayRecord) (a : AmountBreakdown)
      → check_spend lib pin request chain records samples psbt v r a ≡ ok tt
      → SpendPassed psbt v r a
  unfolding check_spend
  spend_lem psbt v r a h = ground arith

  pub evaluate_lem :
      (auth : AgentAuth) (v : ReplayVerdict) (r : ReplayRecord) (a : AmountBreakdown)
      → evaluate lib pin request chain records samples auth ≡ ok (validated_unsigned v r a)
      → Passed auth v r a
  unfolding evaluate
  evaluate_lem auth v r a h = ground arith

  charged_fits :
      (v : ReplayVerdict) (a : AmountBreakdown)
      → a.external_sats < u64_size
      → (if is_fee_bump v then 0 else a.external_sats) < u64_size
  charged_fits v a small = ground arith

  module _ (auth : AgentAuth) (v : ReplayVerdict) (r : ReplayRecord) (a : AmountBreakdown) where
    -- A validated request, at a clock that fits `u64`, is a transaction whose every input spends an
    -- unspent coin of the pinned vault that is deep and old enough; what it breaks down into external
    -- amount, change and fee is exactly what the chain shows for these coins.
    pub evaluate-coins :
        evaluate lib pin request chain records samples auth ≡ ok (validated_unsigned v r a)
        → chain.now_unix < u64_size
        → (psbt : Psbt) × (lib.deserialize request.psbt_bytes ≡ some psbt)
          × All (IsMatureCoin pin chain) psbt.unsigned_tx.input
          × (sum_of (chain_value chain) psbt.unsigned_tx.input
              ≡ a.external_sats + a.change_sats + a.fee_sats)
    evaluate-coins h fits =
        let p = evaluate_lem auth v r a h in
        let (bytes, shape) = (parse_psbt_v0_iff lib request.psbt_bytes p.psbt).0 p.parsed in
        let s = structure_lem p.psbt a p.structure in
        let k = spend_lem p.psbt v r a p.spend in
        let (coins, sum) =
          mature_coins lib pin chain p.psbt s.prevouts shape.inputs fits s.collected s.visible
            k.mature in
        let b = classify_amounts-IsBalanced pin p.psbt.unsigned_tx s.prevouts a s.amounts in
        (p.psbt, bytes, coins, sum ∙ sym b.inputs ∙ b.split)

    -- A validated request pays a positive fee of at most 1,000,000 satoshis, claims the external
    -- amount that was computed, and does not exceed the cap per signature; what was signed at the last
    -- 144 heights, with its external amount added unless it is a fee bump, stays within the cap of the
    -- window. The window cap of the pin fits `u64`.
    pub evaluate-amounts :
        evaluate lib pin request chain records samples auth ≡ ok (validated_unsigned v r a)
        → pin.velocity_per_144_sats < u64_size
        → (0 < a.fee_sats)
          × (a.fee_sats ≤ 1_000_000)
          × (request.claimed_external_sats ≡ a.external_sats)
          × (a.external_sats ≤ pin.velocity_per_sig_sats)
          × ((if is_fee_bump v then 0 else a.external_sats) + window_sum chain.tip_height samples
              ≤ pin.velocity_per_144_sats)
    evaluate-amounts h fits =
        let p = evaluate_lem auth v r a h in
        let s = structure_lem p.psbt a p.structure in
        let k = spend_lem p.psbt v r a p.spend in
        let b = classify_amounts-IsBalanced pin p.psbt.unsigned_tx s.prevouts a s.amounts in
        let small : a.external_sats < u64_size = omega (arith, b.split, b.fits) in
        (
          s.fee_positive,
          s.fee_cap,
          k.claimed,
          check_velocity_cap-le a.external_sats pin.velocity_per_sig_sats k.cap,
          ((check_velocity_window_capped_iff samples chain.tip_height
                (if is_fee_bump v then 0 else a.external_sats) pin.velocity_per_sig_sats
                pin.velocity_per_144_sats (charged_fits v a small) fits).0
              k.window).1,
        )

    -- A validated request whose external amount reaches the threshold of the pin carries a token of
    -- 64 bytes that verifies under the override key for this request, transaction, amount and chain.
    pub evaluate-confirm :
        evaluate lib pin request chain records samples auth ≡ ok (validated_unsigned v r a)
        → pin.confirm_threshold_sats ≤ a.external_sats
        → (psbt : Psbt) × (lib.deserialize request.psbt_bytes ≡ some psbt)
          × (token : Bytes) × (request.confirm_token ≡ some token)
          × (length token ≡ 64)
          × (sig : Bytes) × (lib.signature_from_compact token ≡ some sig)
          × (lib.verify_ecdsa
                (lib.sha256
                  (confirm_preimage (request_binding lib pin request psbt a.external_sats)))
                sig
                pin.override_pubkey.inner
              ≡ true)
    evaluate-confirm h over =
        let p = evaluate_lem auth v r a h in
        let (bytes, _) = (parse_psbt_v0_iff lib request.psbt_bytes p.psbt).0 p.parsed in
        let k = spend_lem p.psbt v r a p.spend in
        elim ((check_confirm_iff lib pin request p.psbt a.external_sats).0 k.confirm) [
          | inl below ↦ absurd (omega arith)
          | inr (token, carried, (width, (sig, compact, verified))) ↦
              (p.psbt, bytes, token, carried, width, sig, compact, verified)
        ]

    -- A fee bump that is validated spends no outpoint of an earlier record unless it bumps that
    -- record, and its external amount is not larger than that record's; its own record is new, and
    -- the records hold at least one that it bumps.
    pub evaluate-fee_bump :
        evaluate lib pin request chain records samples auth ≡ ok (validated_unsigned v r a)
        → v ≡ ReplayVerdict.fee_bump
        → All (IsBumpAllowed r a.external_sats) records × Means records r ReplayVerdict.fee_bump
    evaluate-fee_bump h bump =
        let p = evaluate_lem auth v r a h in
        let k = spend_lem p.psbt v r a p.spend in
        (
          enforce_fee_bump_policy-All records r a.external_sats (k.bump (rw bump)),
          preflight-Means records r ReplayVerdict.fee_bump (p.verdict ∙ ap ok bump),
        )
