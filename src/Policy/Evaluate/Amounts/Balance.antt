-- ===== src/Policy/Evaluate/Amounts/Balance.antt =====
-- What the stages on amounts of tesaurus-policy/src/evaluate.rs establish.
use tesaurus.Prelude.{
  ℕ, ◌+◌, ◌≤◌, ◌<◌, ◌≡◌, ◌⊎◌, ◌↔◌, refl, Bool, true, false, not, Bytes, List, [], ◌∷◌, some, arith,
  ok, >>=-eq-ok, try_fold, try_fold-add_checked, add_checked, keep, any, contains, length, sum_of,
  All, u64_size, ap, ◌∙◌, Bool-cases, inl, inr, ltb,
}
use tesaurus.Bitcoin.{Crates, Transaction, TxOut, Psbt, OutPoint-discrete}
use tesaurus.Policy.Error.{PolicyErrorCode}
use tesaurus.Policy.Pin.{AgentPin}
use tesaurus.Policy.Confirm.{
  ConfirmBinding, verify_confirm_token, confirm_preimage, txid_display_bytes,
}
use tesaurus.Policy.Confirm.Preimage.{verify_confirm_token_iff}
use tesaurus.Policy.Replay.{
  ReplayRecord, outpoints_identical, is_vault_change_only, is_change, first_value,
}
use tesaurus.Policy.Evaluate.Amounts.{
  PolicyRequest, AmountBreakdown, value_of, breakdown_of, classify_amounts, check_confirm,
  previous_external, bump_allowed, enforce_fee_bump_policy,
}

sum_of-keep :
    (p : TxOut → Bool) (outputs : List TxOut)
    → sum_of value_of outputs
      ≡ sum_of value_of (keep p outputs) + sum_of value_of (keep (λ o. not (p o)) outputs)
sum_of-keep p [] = omega arith
sum_of-keep p (o ∷ outputs) = ground (arith, sum_of-keep p outputs)

first_value-sum :
    (changes : List TxOut) → length changes ≤ 1 → sum_of value_of changes ≡ first_value changes
first_value-sum [] h = refl
first_value-sum (c ∷ []) h = omega arith
first_value-sum (c ∷ d ∷ changes) h = absurd (omega arith)

breakdown_lem :
    (ins outs : ℕ) (externals changes : List TxOut) (a : AmountBreakdown)
    → breakdown_of ins outs externals changes ≡ ok a
    → (a.input_sats ≡ ins)
      × (ins ≡ outs + a.fee_sats)
      × (externals ≡ record { value = a.external_sats; script_pubkey = a.external_script } ∷ [])
      × (length changes ≤ 1)
      × (first_value changes ≡ a.change_sats)
unfolding breakdown_of
breakdown_lem ins outs [] changes a h = ground arith
breakdown_lem ins outs (e ∷ []) changes a h =
    (ground arith, ground arith, ground arith, ground arith, ground arith)
breakdown_lem ins outs (e ∷ d ∷ externals) changes a h = ground arith

-- The breakdown accounts for every satoshi of the inputs, and names the only external output.
pub record IsBalanced (pin : AgentPin) (tx : Transaction) (prevouts : List TxOut)
    (a : AmountBreakdown) : Type 0 where
  pub inputs : a.input_sats ≡ sum_of value_of prevouts
  pub fits : a.input_sats < u64_size
  pub split : a.input_sats ≡ a.external_sats + a.change_sats + a.fee_sats
  pub external :
      keep (λ o. not (is_change pin.script_pubkey o)) tx.output
      ≡ record { value = a.external_sats; script_pubkey = a.external_script } ∷ []
  pub one_change : length (keep (is_change pin.script_pubkey) tx.output) ≤ 1
  pub change : sum_of value_of (keep (is_change pin.script_pubkey) tx.output) ≡ a.change_sats

-- A classification that returns is balanced: the input sum is exact and is the sum of the external
-- amount, the change and the fee; there is one external output and at most one change output.
pub classify_amounts-IsBalanced :
    (pin : AgentPin) (tx : Transaction) (prevouts : List TxOut) (a : AmountBreakdown)
    → classify_amounts pin tx prevouts ≡ ok a
    → IsBalanced pin tx prevouts a
unfolding classify_amounts
classify_amounts-IsBalanced pin tx prevouts a h =
    let add = add_checked PolicyErrorCode.fee value_of in
    let (ins, sum_in, rest) = >>=-eq-ok (try_fold add 0 prevouts) _ h in
    let (outs, sum_out, rest') = >>=-eq-ok (try_fold add 0 tx.output) _ rest in
    let (in_eq, in_fits) =
      try_fold-add_checked PolicyErrorCode.fee value_of 0 prevouts ins sum_in (omega arith) in
    let (out_eq, _) =
      try_fold-add_checked PolicyErrorCode.fee value_of 0 tx.output outs sum_out (omega arith) in
    let externals = keep (λ o. not (is_change pin.script_pubkey o)) tx.output in
    let changes = keep (is_change pin.script_pubkey) tx.output in
    let (same, difference, sole, few, first) = breakdown_lem ins outs externals changes a rest' in
    let returned = first_value-sum changes few in
    let parts = sum_of-keep (is_change pin.script_pubkey) tx.output in
    let paid = ap (sum_of value_of) sole in
    record {
      inputs = omega arith;
      fits = omega arith;
      split = omega arith;
      external = sole;
      one_change = few;
      change = returned ∙ first;
    }

-- What the fee-bump policy allows of one earlier record.
abbrev pub IsBumpAllowed : ReplayRecord → ℕ → ReplayRecord → Type 0
IsBumpAllowed c external previous =
    ((outpoints_identical previous.outpoints c.outpoints ≡ false)
      × (any (contains c.outpoints) previous.outpoints ≡ false))
    ⊎ ((is_vault_change_only previous c ≡ true) × (external ≤ previous_external previous))

bump_loop :
    (c : ReplayRecord) (external : ℕ) (matched : Bool) (records : List ReplayRecord) (flag : Bool)
    → try_fold (bump_allowed c external) matched records ≡ ok flag
    → All (IsBumpAllowed c external) records
unfolding try_fold bump_allowed
bump_loop c external matched [] flag h = tt
bump_loop c external matched (r ∷ records) flag h =
    ground
      (arith, bump_loop c external matched records flag, bump_loop c external true records flag)

-- Where the fee-bump policy passes, every earlier record either shares no outpoint with the
-- candidate, or is bumped by it with an external amount that is not larger.
pub enforce_fee_bump_policy-All :
    (records : List ReplayRecord) (c : ReplayRecord) (external : ℕ)
    → enforce_fee_bump_policy records c external ≡ ok tt
    → All (IsBumpAllowed c external) records
unfolding enforce_fee_bump_policy
enforce_fee_bump_policy-All records c external h =
    let (flag, loop, _) = >>=-eq-ok (try_fold (bump_allowed c external) false records) _ h in
    bump_loop c external false records flag loop

module _ (lib : Crates) (pin : AgentPin) (request : PolicyRequest) (psbt : Psbt)
    (external : ℕ) where
  -- The request, transaction, amount and chain that a token must be bound to.
  abbrev pub request_binding : ConfirmBinding
  request_binding = record {
    request_id = request.request_id;
    txid_display = txid_display_bytes (lib.compute_txid psbt.unsigned_tx);
    external_amount_sats = external;
    genesis_internal = pin.genesis_hash;
  }

  abbrev Verifies : Bytes → Type 0
  Verifies token = verify_confirm_token lib token request_binding pin.override_pubkey ≡ ok tt

  confirm_token_lem :
      check_confirm lib pin request psbt external ≡ ok tt
      → ltb external pin.confirm_threshold_sats ≡ false
      → (token : Bytes) × (request.confirm_token ≡ some token) × Verifies token
  unfolding check_confirm
  confirm_token_lem h over = ground arith

  confirm_passes :
      (token : Bytes)
      → request.confirm_token ≡ some token
      → Verifies token
      → check_confirm lib pin request psbt external ≡ ok tt
  unfolding check_confirm
  confirm_passes token carried verified = ground arith

  confirm_below :
      external < pin.confirm_threshold_sats → check_confirm lib pin request psbt external ≡ ok tt
  unfolding check_confirm
  confirm_below below = ground arith

  -- The confirm stage passes exactly when the external amount is below the threshold of the pin, or
  -- the request carries a token of 64 bytes that verifies under the override key for the preimage of
  -- this request, transaction, amount and chain.
  pub check_confirm_iff : (check_confirm lib pin request psbt external ≡ ok tt) ↔ (
      (external < pin.confirm_threshold_sats)
      ⊎ ((token : Bytes) × (request.confirm_token ≡ some token)
          × ((length token ≡ 64)
              × ((sig : Bytes) × (lib.signature_from_compact token ≡ some sig)
                  × (lib.verify_ecdsa
                        (lib.sha256 (confirm_preimage request_binding))
                        sig
                        pin.override_pubkey.inner
                      ≡ true)))))
  check_confirm_iff = (
    λ h. elim (Bool-cases (ltb external pin.confirm_threshold_sats)) [
      | inl below ↦ inl (ground arith)
      | inr over ↦
          let (token, carried, verified) = confirm_token_lem h over in
          inr (
            token,
            carried,
            (verify_confirm_token_iff lib token request_binding pin.override_pubkey).0 verified,
          )
    ],
    λ h. elim h [
      | inl below ↦ confirm_below below
      | inr (token, carried, verified) ↦
          confirm_passes token carried
            ((verify_confirm_token_iff lib token request_binding pin.override_pubkey).1 verified)
    ],
  )
