-- ===== src/Coordinator/Spend/Validate/Exact.antt =====
-- What a spend that `validate_built_spend` of src/spend.rs accepts does.
use tesaurus.Prelude.{
  ◌+◌, ◌≤◌, ◌≡◌, ◌≢◌, ◌⊎◌, refl, Bytes, Bytes-discrete, List, [], some, arith, ok, reject_if, ltb,
  length, sum_of, All, AllPairs, try_fold, >>=-eq-ok,
}
use tesaurus.Bitcoin.{Crates, Miniscript, Network, OutPoint-discrete, Transaction}
use tesaurus.Coordinator.Failure.{Error}
use tesaurus.Coordinator.Tools.{Tools}
use tesaurus.Coordinator.Descriptor.{VaultDescriptor, require_network, address}
use tesaurus.Coordinator.Wallet.{VaultUtxo}
use tesaurus.Coordinator.Spend.{SpendPath-discrete, SpendRequest, BuiltSpend, sequence_for}
use tesaurus.Coordinator.Spend.Validate.{
  InputState, check_input, check_outputs, check_amounts, decode_built, check_shape,
  check_transaction, destination_script, validate_built_spend,
}
use tesaurus.Coordinator.Spend.Validate.Moves.{
  spent_value, IsVaultInput, Differ, inputs_lem, paid_outputs, outputs_lem, amounts_lem,
}

-- What an accepted spend does: its inputs are distinct coins that pay the script of the vault's
-- address, spendable on the path, and it moves exactly the amount to the destination, the fee to the
-- miners and the rest to that script.
pub record IsExact (lib : Crates) (ms : Miniscript) (tools : Tools) (vault : VaultDescriptor)
    (network : Network) (utxos : List VaultUtxo) (req : SpendRequest) (built : BuiltSpend)
    (tx : Transaction) : Type 0 where
  pub raw : Bytes
  pub decodes : tools.hex_decode built.tx_hex ≡ some raw
  pub deserializes : tools.deserialize_transaction raw ≡ some tx
  pub same_txid : tools.txid_to_string (lib.compute_txid tx) ≡ built.txid
  pub vault_address : Bytes
  pub at_vault : address ms tools vault ≡ ok vault_address
  pub vault_script : Bytes
  pub of_address : vault_script ≡ tools.address_script_pubkey vault_address
  pub dest_script : Bytes
  pub to_destination : destination_script tools network req ≡ ok dest_script
  pub inputs :
      All (IsVaultInput vault_script utxos req.path (sequence_for tools vault req.path)) tx.input
  pub distinct : AllPairs Differ tx.input
  pub some_input : tx.input ≢ []
  pub few : length tx.input ≤ 100
  pub outputs : tx.output ≡ paid_outputs dest_script vault_script req.amount_sats built.change_sats
  pub no_dust :
      (lib.minimal_non_dust dest_script ≤ req.amount_sats)
      × ((built.change_sats ≡ 0) ⊎ (lib.minimal_non_dust vault_script ≤ built.change_sats))
  pub balance :
      sum_of (spent_value utxos) tx.input ≡ req.amount_sats + req.fee_sats + built.change_sats
  pub fee : (req.fee_sats ≤ req.amount_sats) × (req.fee_sats ≤ 1_000_000)

module _ (lib : Crates) (ms : Miniscript) (tools : Tools) where
  decode_lem :
      (built : BuiltSpend) (req : SpendRequest) (tx : Transaction)
      → decode_built lib ms tools built req ≡ ok tx
      → ((raw : Bytes) × (tools.hex_decode built.tx_hex ≡ some raw)
          × (tools.deserialize_transaction raw ≡ some tx))
        × (tools.txid_to_string (lib.compute_txid tx) ≡ built.txid)
        × ((req.fee_sats ≤ req.amount_sats) × (req.fee_sats ≤ 1_000_000))
  unfolding decode_built
  decode_lem built req tx h = ground arith

  shape_lem :
      (req : SpendRequest) (tx : Transaction)
      → check_shape lib ms tools req tx ≡ ok tt
      → (tx.input ≢ []) × (length tx.input ≤ 100)
  unfolding check_shape
  shape_lem req tx h = ground arith

  module _ (vault : VaultDescriptor) (network : Network) (utxos : List VaultUtxo) where
    -- The stages of `check_transaction`, each passed.
    record TransactionPassed (built : BuiltSpend) (req : SpendRequest) (tx : Transaction)
        : Type 0 where
      vault_address : Bytes
      at_vault : address ms tools vault ≡ ok vault_address
      state : InputState
      dest_script : Bytes
      loop :
          try_fold
            (check_input
              (tools.address_script_pubkey vault_address)
              utxos
              req.path
              (sequence_for tools vault req.path))
            (record { seen = []; total_in = 0 })
            tx.input
          ≡ ok state
      destination : destination_script tools network req ≡ ok dest_script
      dust : lib.minimal_non_dust dest_script ≤ req.amount_sats
      outputs :
          check_outputs lib dest_script
            (tools.address_script_pubkey vault_address)
            req.amount_sats
            built.change_sats
            tx.output
          ≡ ok tt
      amounts : check_amounts lib built req state.total_in tx ≡ ok tt

    validate_lem :
        (built : BuiltSpend) (req : SpendRequest) (tx : Transaction)
        → validate_built_spend lib ms tools built vault network utxos req ≡ ok tx
        → (decode_built lib ms tools built req ≡ ok tx)
          × (check_shape lib ms tools req tx ≡ ok tt)
          × (check_transaction lib ms tools built vault network utxos req tx ≡ ok tt)
    unfolding validate_built_spend
    validate_lem built req tx h =
        let (_, _, rest) = >>=-eq-ok (require_network ms tools vault network) _ h in
        let (decoded, e, rest') = >>=-eq-ok (decode_built lib ms tools built req) _ rest in
        let (_, shape, rest'') = >>=-eq-ok (check_shape lib ms tools req decoded) _ rest' in
        let (_, checked, last) =
          >>=-eq-ok (check_transaction lib ms tools built vault network utxos req decoded) _
            rest'' in
        let same : decoded ≡ tx = cc last in (rw same at e, rw same at shape, rw same at checked)

    transaction_lem :
        (built : BuiltSpend) (req : SpendRequest) (tx : Transaction)
        → check_transaction lib ms tools built vault network utxos req tx ≡ ok tt
        → TransactionPassed built req tx
    unfolding check_transaction
    transaction_lem built req tx h =
        let (vault_address, at_vault, h₁) = >>=-eq-ok (address ms tools vault) _ h in
        let script = tools.address_script_pubkey vault_address in
        let (state, loop, h₂) =
          >>=-eq-ok
            (try_fold (check_input script utxos req.path (sequence_for tools vault req.path))
              (record { seen = []; total_in = 0 }) tx.input)
            _ h₁ in
        let (dest_script, destination, h₃) =
          >>=-eq-ok (destination_script tools network req) _ h₂ in
        let (_, dust, h₄) =
          >>=-eq-ok (reject_if (ltb req.amount_sats (lib.minimal_non_dust dest_script)) Error.spend)
            _ h₃ in
        let (_, outputs, amounts) =
          >>=-eq-ok
            (check_outputs lib dest_script script req.amount_sats built.change_sats tx.output) _
            h₄ in
        record {
          vault_address = vault_address;
          at_vault = at_vault;
          state = state;
          dest_script = dest_script;
          loop = loop;
          destination = destination;
          dust = ground (arith, dust);
          outputs = outputs;
          amounts = amounts;
        }

    -- A built spend is only validated if its transaction is the one that its hex text and txid name,
    -- its inputs are distinct known coins that pay the script of the vault's address, are spendable on
    -- the requested path and carry a witness, and its outputs are the requested payment and the change
    -- back to that script: together with a fee of at most 1,000,000 satoshis that is not above the
    -- amount, they are worth exactly its inputs.
    pub validate_built_spend-IsExact :
        (built : BuiltSpend) (req : SpendRequest) (tx : Transaction)
        → validate_built_spend lib ms tools built vault network utxos req ≡ ok tx
        → IsExact lib ms tools vault network utxos req built tx
    validate_built_spend-IsExact built req tx h =
        let (decoded, shape, checked) = validate_lem built req tx h in
        let v = transaction_lem built req tx checked in
        let ((raw, decodes, deserializes), txid, fee) = decode_lem built req tx decoded in
        let (some_input, few) = shape_lem req tx shape in
        let script = tools.address_script_pubkey v.vault_address in
        let (inputs, _, distinct, sum) =
          inputs_lem script utxos req.path (sequence_for tools vault req.path)
            (record { seen = []; total_in = 0 }) v.state tx.input v.loop in
        let (outputs, change) =
          outputs_lem lib v.dest_script script req.amount_sats built.change_sats tx.output
            v.outputs in
        let total = amounts_lem lib built req v.state.total_in tx v.amounts in
        record {
          raw = raw;
          decodes = decodes;
          deserializes = deserializes;
          same_txid = txid;
          vault_address = v.vault_address;
          at_vault = v.at_vault;
          vault_script = script;
          of_address = refl;
          dest_script = v.dest_script;
          to_destination = v.destination;
          inputs = inputs;
          distinct = distinct;
          some_input = some_input;
          few = few;
          outputs = outputs;
          no_dust = (v.dust, change);
          balance = omega (arith, sum, total);
          fee = fee;
        }
