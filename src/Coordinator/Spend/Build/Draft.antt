-- ===== src/Coordinator/Spend/Build/Draft.antt =====
-- What `build_and_sign` of src/spend.rs has established before and after it signs.
use tesaurus.Prelude.{
  ℕ, ◌+◌, ◌≤◌, ◌<◌, ◌≡◌, ◌⊎◌, refl, sym, ◌&&◌, Bytes, Bytes-discrete, List, map, arith, ok,
  reject_if, ok_or, ltb, is_same, checked_sub, try_fold, add_checked, try_fold-add_checked, sum_of,
  u64_size, >>=-eq-ok, ok_injective,
}
use mathlib.Core.Path.{subst}
use tesaurus.Bitcoin.{Crates, Miniscript, Network, Transaction}
use tesaurus.Coordinator.Failure.{Error}
use tesaurus.Coordinator.Tools.{Tools}
use tesaurus.Coordinator.Descriptor.{VaultDescriptor, require_network, parsed, address}
use tesaurus.Coordinator.Wallet.{VaultUtxo, value_of}
use tesaurus.Coordinator.Spend.{
  SpendPath, SpendPath-discrete, SpendRequest, BuiltSpend, sequence_for,
}
use tesaurus.Coordinator.Spend.Select.{select_coins}
use tesaurus.Coordinator.Spend.Validate.{maximum_fee, destination_script}
use tesaurus.Coordinator.Spend.Build.{
  outputs_of, unsigned_input, check_request, build_unsigned, sign_inputs, build_and_sign,
}

module _ (lib : Crates) (ms : Miniscript) (tools : Tools) (vault : VaultDescriptor)
    (network : Network) (utxos : List VaultUtxo) (req : SpendRequest) where
  -- An unsigned transaction with the selected coins and the change.
  pub record IsDraft (selected : List VaultUtxo) (change : ℕ) (draft : Transaction) : Type 0 where
    pub on_network : require_network ms tools vault network ≡ ok tt
    pub target : ℕ
    pub requested : check_request req ≡ ok target
    pub dest_script : Bytes
    pub destination : destination_script tools network req ≡ ok dest_script
    pub no_dust : lib.minimal_non_dust dest_script ≤ req.amount_sats
    pub chosen : select_coins utxos target req.path ≡ ok selected
    pub total : sum_of value_of selected ≡ target + change
    pub fits : sum_of value_of selected < u64_size
    pub change_address : Bytes
    pub at_vault : address ms tools vault ≡ ok change_address
    pub change_worth :
        (change ≡ 0) ⊎ (lib.minimal_non_dust (tools.address_script_pubkey change_address) ≤ change)
    pub transaction : draft ≡ record {
      version = 2;
      lock_time = 0;
      input = map (unsigned_input (sequence_for tools vault req.path)) selected;
      output =
          outputs_of dest_script
            (tools.address_script_pubkey change_address)
            req.amount_sats
            change;
    }

  worth_lem :
      (minimum change : ℕ)
      → reject_if (ltb 0 change && ltb change minimum) Error.spend ≡ ok tt
      → (change ≡ 0) ⊎ (minimum ≤ change)
  worth_lem minimum change h = ground arith

  minus_lem : (a b c : ℕ) → ok_or (checked_sub a b) Error.spend ≡ ok c → a ≡ b + c
  minus_lem a b c h = ground arith

  reject_lem : (a minimum : ℕ) → reject_if (ltb a minimum) Error.spend ≡ ok tt → minimum ≤ a
  reject_lem a minimum h = ground arith

  draft_lem :
      (draft : List VaultUtxo × ℕ × Transaction)
      → build_unsigned lib ms tools vault network utxos req ≡ ok draft
      → IsDraft draft.0 draft.1 draft.2
  unfolding build_unsigned
  draft_lem draft h =
      let (_, on_network, h₁) = >>=-eq-ok (require_network ms tools vault network) _ h in
      let (target, requested, h₂) = >>=-eq-ok (check_request req) _ h₁ in
      let (dest_script, destination, h₃) = >>=-eq-ok (destination_script tools network req) _ h₂ in
      let (_, dust, h₄) =
        >>=-eq-ok (reject_if (ltb req.amount_sats (lib.minimal_non_dust dest_script)) Error.spend) _
          h₃ in
      let (selected, chosen, h₅) = >>=-eq-ok (select_coins utxos target req.path) _ h₄ in
      let (total_in, sum, h₆) =
        >>=-eq-ok (try_fold (add_checked Error.spend value_of) 0 selected) _ h₅ in
      let (_, _, h₇) = >>=-eq-ok (reject_if (ltb total_in target) Error.spend) _ h₆ in
      let (change, difference, h₈) =
        >>=-eq-ok (ok_or (checked_sub total_in target) Error.spend) _ h₇ in
      let (change_address, at_vault, h₉) = >>=-eq-ok (address ms tools vault) _ h₈ in
      let script = tools.address_script_pubkey change_address in
      let (_, worth, last) =
        >>=-eq-ok (reject_if (ltb 0 change && ltb change (lib.minimal_non_dust script)) Error.spend)
          _ h₉ in
      let (exact, fits) =
        try_fold-add_checked Error.spend value_of 0 selected total_in sum (omega arith) in
      let minus : total_in ≡ target + change = minus_lem total_in target change difference in
      let made : IsDraft selected change (record {
        version = 2;
        lock_time = 0;
        input = map (unsigned_input (sequence_for tools vault req.path)) selected;
        output = outputs_of dest_script script req.amount_sats change;
      }) =
        record {
          on_network = on_network;
          target = target;
          requested = requested;
          dest_script = dest_script;
          destination = destination;
          no_dust = reject_lem req.amount_sats (lib.minimal_non_dust dest_script) dust;
          chosen = chosen;
          total = omega (arith, exact, minus);
          fits = omega (arith, exact, fits);
          change_address = change_address;
          at_vault = at_vault;
          change_worth = worth_lem (lib.minimal_non_dust script) change worth;
          transaction = refl;
        } in
      let same =
        ok_injective
          (
            selected,
            change,
            record {
              version = 2;
              lock_time = 0;
              input = map (unsigned_input (sequence_for tools vault req.path)) selected;
              output = outputs_of dest_script script req.amount_sats change;
            },
          )
          draft last in
      subst (λ (d : List VaultUtxo × ℕ × Transaction). IsDraft d.0 d.1 d.2) same made

  -- A built spend is its draft, signed, with the metadata of the request.
  pub record IsBuilt (keys : List Bytes) (built : BuiltSpend) : Type 0 where
    pub selected : List VaultUtxo
    pub change : ℕ
    pub draft : Transaction
    pub drafted : IsDraft selected change draft
    pub desc : Bytes
    pub witness_script : Bytes
    pub tx : Transaction
    pub signed_inputs :
        sign_inputs lib ms tools desc witness_script
          (is_same req.path SpendPath.recovery)
          keys
          0
          selected
          draft
        ≡ ok tx
    pub cap : ℕ
    pub rate : maximum_fee tools tx ≡ ok cap
    pub fee : req.fee_sats ≤ cap
    pub made : built ≡ record {
      tx_hex = tools.serialize_hex tx;
      txid = tools.txid_to_string (lib.compute_txid tx);
      path = req.path;
      fee_sats = req.fee_sats;
      amount_sats = req.amount_sats;
      change_sats = change;
    }

  pub build_lem :
      (keys : List Bytes) (built : BuiltSpend)
      → build_and_sign lib ms tools vault network utxos req keys ≡ ok built
      → IsBuilt keys built
  unfolding build_and_sign
  build_lem keys built h =
      let (draft, drafted, h₁) =
        >>=-eq-ok (build_unsigned lib ms tools vault network utxos req) _ h in
      let (desc, _, h₂) = >>=-eq-ok (parsed ms tools vault) _ h₁ in
      let (witness_script, _, h₃) = >>=-eq-ok (ok_or (ms.explicit_script desc) Error.spend) _ h₂ in
      let (tx, signed_inputs, h₄) =
        >>=-eq-ok
          (sign_inputs lib ms tools desc witness_script (is_same req.path SpendPath.recovery) keys 0
            draft.0 draft.2)
          _ h₃ in
      let (cap, rate, h₅) = >>=-eq-ok (maximum_fee tools tx) _ h₄ in
      let (_, fee, last) = >>=-eq-ok (reject_if (ltb cap req.fee_sats) Error.spend) _ h₅ in
      record {
        selected = draft.0;
        change = draft.1;
        draft = draft.2;
        drafted = draft_lem draft drafted;
        desc = desc;
        witness_script = witness_script;
        tx = tx;
        signed_inputs = signed_inputs;
        cap = cap;
        rate = rate;
        fee = reject_lem cap req.fee_sats fee;
        made = sym (cc last);
      }

  pub request_lem :
      (target : ℕ)
      → check_request req ≡ ok target
      → (0 < req.amount_sats)
        × (req.fee_sats ≤ 1_000_000)
        × (req.fee_sats ≤ req.amount_sats)
        × (target ≡ req.amount_sats + req.fee_sats)
  unfolding check_request
  request_lem target h = ground arith
