-- ===== src/Coordinator/Spend/Validate/Agreement.antt =====
-- The builder and the validation of src/spend.rs agree: what the one builds, the other accepts.
use tesaurus.Prelude.{
  ℕ, ◌≤◌, ◌≡◌, ◌≢◌, refl, sym, ap, ◌∙◌, true, false, Bytes, Bytes-discrete, List, [], ◌∷◌, some,
  arith, ok, reject_if, ltb, is_same, length, length-append, All, All-map, AllPairs, try_fold,
  contains, ok_injective,
}
use tesaurus.Bitcoin.{Crates, Miniscript, Network, TxIn, Transaction}
use tesaurus.Coordinator.Failure.{Error}
use tesaurus.Coordinator.Tools.{Tools}
use tesaurus.Coordinator.Descriptor.{VaultDescriptor, require_network, address}
use tesaurus.Coordinator.Wallet.{VaultUtxo}
use tesaurus.Coordinator.Spend.{
  SpendPath, SpendPath-discrete, SpendRequest, BuiltSpend, is_spendable, sequence_for,
}
use tesaurus.Coordinator.Spend.Select.{select_coins}
use tesaurus.Bitcoin.{OutPoint-discrete}
use tesaurus.Coordinator.Spend.Select.Coverage.{select_coins-IsSelection}
use tesaurus.Coordinator.Spend.Select.Subset.{select_coins-All, select_coins-AllPairs}
use tesaurus.Coordinator.Spend.Build.{build_and_sign}
use tesaurus.Coordinator.Spend.Build.Signed.{AreSigned, HasWitness, sign_inputs_lem}
use tesaurus.Coordinator.Spend.Build.Draft.{build_lem, request_lem}
use tesaurus.Coordinator.Spend.Validate.{
  available, InputState, check_input, check_outputs, check_amounts, decode_built, check_shape,
  check_transaction, destination_script, validate_built_spend,
}
use tesaurus.Coordinator.Spend.Validate.Accepted.{Differ, IsGood, available_lem, inputs_pass}
use tesaurus.Coordinator.Spend.Validate.Stages.{
  decode_passes, shape_passes, amounts_pass, outputs_pass,
}

-- The hex text of a transaction decodes to it.
abbrev pub ReadsBack : Tools → Type 0
ReadsBack tools =
    (tx : Transaction)
    → (raw : Bytes) × (tools.hex_decode (tools.serialize_hex tx) ≡ some raw)
      × (tools.deserialize_transaction raw ≡ some tx)

length-AreSigned :
    (sequence : ℕ) (us : List VaultUtxo) (is : List TxIn)
    → AreSigned sequence us is
    → length is ≡ length us
length-AreSigned sequence [] [] k = refl
length-AreSigned sequence [] (i ∷ is) k = absurd k
length-AreSigned sequence (u ∷ us) [] k = absurd k
length-AreSigned sequence (u ∷ us) (i ∷ is) k = omega (arith, length-AreSigned sequence us is k.1)

module _ (lib : Crates) (ms : Miniscript) (tools : Tools) (vault : VaultDescriptor)
    (network : Network) (utxos : List VaultUtxo) (req : SpendRequest) where
  -- The checks against the vault pass once each of them does.
  transaction_passes :
      (built : BuiltSpend) (tx : Transaction) (vault_address dest_script : Bytes)
      (state : InputState)
      → address ms tools vault ≡ ok vault_address
      → try_fold
          (check_input
            (tools.address_script_pubkey vault_address)
            utxos
            req.path
            (sequence_for tools vault req.path))
          (record { seen = []; total_in = 0 })
          tx.input
        ≡ ok state
      → destination_script tools network req ≡ ok dest_script
      → lib.minimal_non_dust dest_script ≤ req.amount_sats
      → check_outputs lib dest_script
          (tools.address_script_pubkey vault_address)
          req.amount_sats
          built.change_sats
          tx.output
        ≡ ok tt
      → check_amounts lib built req state.total_in tx ≡ ok tt
      → check_transaction lib ms tools built vault network utxos req tx ≡ ok tt
  unfolding check_transaction
  transaction_passes built tx vault_address dest_script state a loop d dust outputs amounts =
      let worth : reject_if (ltb req.amount_sats (lib.minimal_non_dust dest_script)) Error.spend
          ≡ ok tt =
        ground (arith, dust) in
      rw (a, loop, d, worth, outputs) amounts

  validate_passes :
      (built : BuiltSpend) (tx : Transaction)
      → require_network ms tools vault network ≡ ok tt
      → decode_built lib ms tools built req ≡ ok tx
      → check_shape lib ms tools req tx ≡ ok tt
      → check_transaction lib ms tools built vault network utxos req tx ≡ ok tt
      → validate_built_spend lib ms tools built vault network utxos req ≡ ok tx
  unfolding validate_built_spend
  validate_passes built tx n d s t = rw (n, d, s, t) refl

  All-new : (us : List VaultUtxo) → All (λ (u : VaultUtxo). contains [] u.outpoint ≡ false) us
  All-new [] = tt
  All-new (u ∷ us) = (refl, All-new us)

  All-both :
      (P Q : VaultUtxo → Type 0) (us : List VaultUtxo)
      → All P us
      → All Q us
      → All (λ u. P u × Q u) us
  All-both P Q [] h k = tt
  All-both P Q (u ∷ us) h k = ((h.0, k.0), All-both P Q us h.1 k.1)

  -- The selected coins are coins that the validation accepts.
  selected_lem :
      (script : Bytes) (target : ℕ) (selected : List VaultUtxo)
      → AllPairs Differ utxos
      → All (λ (u : VaultUtxo). u.txout.script_pubkey ≡ script) utxos
      → select_coins utxos target req.path ≡ ok selected
      → All (IsGood script utxos req.path (sequence_for tools vault req.path)) selected
  selected_lem script target selected differ ours chosen =
      let P = λ (u : VaultUtxo). available utxos u.outpoint ≡ some u in
      let Q = λ (u : VaultUtxo). u.txout.script_pubkey ≡ script in
      let S = λ (u : VaultUtxo). is_spendable req.path u ≡ true in
      let known =
        select_coins-All (λ u. P u × Q u) utxos target req.path selected chosen
          (All-both P Q utxos (available_lem utxos differ) ours) in
      let spendable = (select_coins-IsSelection utxos target req.path selected chosen).spendable in
      All-map (λ u. (P u × Q u) × S u)
        (IsGood script utxos req.path (sequence_for tools vault req.path))
        (λ u k. (k.0.0, k.0.1, k.1)) selected (All-both (λ u. P u × Q u) S selected known spendable)

  -- Every spend that the builder builds and signs is accepted by the validation for the same request,
  -- given coins of the vault with different outpoints, a satisfier that never returns an empty
  -- witness, and a hex text that decodes to its transaction.
  pub build_and_sign-validates :
      (keys : List Bytes) (vault_address : Bytes) (built : BuiltSpend)
      → ReadsBack tools
      → HasWitness tools
      → AllPairs Differ utxos
      → address ms tools vault ≡ ok vault_address
      → All
          (λ (u : VaultUtxo). u.txout.script_pubkey ≡ tools.address_script_pubkey vault_address)
          utxos
      → build_and_sign lib ms tools vault network utxos req keys ≡ ok built
      → (tx : Transaction) × (validate_built_spend lib ms tools built vault network utxos req
          ≡ ok tx)
  build_and_sign-validates keys vault_address built reads law differ at_vault ours h =
      let b = build_lem lib ms tools vault network utxos req keys built h in
      let d = b.drafted in
      let same : vault_address ≡ d.change_address =
        ok_injective vault_address d.change_address (sym at_vault ∙ d.at_vault) in
      let script = tools.address_script_pubkey d.change_address in
      let sequence = sequence_for tools vault req.path in
      let (positive, cap, below, target) =
        request_lem lib ms tools vault network utxos req d.target d.requested in
      let chosen = select_coins-IsSelection utxos d.target req.path b.selected d.chosen in
      let (version, lock_time, output, inputs) =
        sign_inputs_lem lib ms tools b.desc b.witness_script (is_same req.path SpendPath.recovery)
          keys law sequence 0 [] b.selected [] b.draft b.tx refl tt
          (ap (λ (t : Transaction). t.input) d.transaction) b.signed_inputs in
      let outputs = output ∙ ap (λ (t : Transaction). t.output) d.transaction in
      let (state, loop, total) =
        inputs_pass script utxos req.path sequence (record { seen = []; total_in = 0 }) b.selected
          b.tx.input inputs
          (selected_lem script d.target b.selected differ (rw same at ours) d.chosen)
          (select_coins-AllPairs Differ (λ u v e k. e (sym k)) utxos d.target req.path b.selected
            d.chosen differ)
          (All-new b.selected) (omega (arith, d.fits)) in
      let count = length-AreSigned sequence b.selected b.tx.input inputs in
      let (raw, hex, bytes) = reads b.tx in
      let record_of : BuiltSpend = record {
        tx_hex = tools.serialize_hex b.tx;
        txid = tools.txid_to_string (lib.compute_txid b.tx);
        path = req.path;
        fee_sats = req.fee_sats;
        amount_sats = req.amount_sats;
        change_sats = b.change;
      } in
      let some_input : b.tx.input ≢ [] = λ e. omega (
        arith,
        count,
        ap length e,
        ap length chosen.ends,
        length-append chosen.before (chosen.last ∷ []),
      ) in
      (
        b.tx,
        rw b.made (
            validate_passes record_of b.tx d.on_network
              (decode_passes lib ms tools req record_of b.tx raw (positive, cap, below)
                (refl, refl, refl) hex bytes refl)
              (shape_passes lib ms tools req record_of b.tx b.cap some_input
                (omega (arith, count, chosen.few))
                (version ∙ ap (λ (t : Transaction). t.version) d.transaction)
                (lock_time ∙ ap (λ (t : Transaction). t.lock_time) d.transaction) b.rate b.fee)
              (transaction_passes record_of b.tx d.change_address d.dest_script state d.at_vault
                loop d.destination d.no_dust
                (rw outputs
                  (outputs_pass lib d.dest_script script req.amount_sats b.change d.change_worth))
                (amounts_pass lib ms tools req record_of b.tx d.dest_script script state.total_in
                  outputs (omega (arith, total, d.total, target)) (omega (arith, total, d.fits))))),
      )
