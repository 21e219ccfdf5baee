-- ===== src/Coordinator/Spend/Validate/Moves.antt =====
-- What the loops and tests of `validate_built_spend` in src/spend.rs say of inputs and outputs.
use tesaurus.Prelude.{
  ℕ, ◌+◌, ◌≤◌, ◌<◌, ◌≡◌, ◌≢◌, ◌⊎◌, true, false, Bytes, Bytes-discrete, List, [], ◌∷◌, some, none,
  arith, ok, sum_of, All, All-map, AllPairs, zero, suc, try_fold, contains, >>=-eq-ok, u64_size,
}
use tesaurus.Bitcoin.{Crates, OutPoint-discrete, TxIn, TxOut, Transaction}
use tesaurus.Coordinator.Wallet.{VaultUtxo}
use tesaurus.Coordinator.Spend.{
  SpendPath, SpendPath-discrete, SpendRequest, BuiltSpend, is_spendable,
}
use tesaurus.Coordinator.Spend.Validate.{
  available, InputState, check_input, change_returns, check_outputs, check_amounts,
}

-- The value of the coin that an input spends.
abbrev pub spent_value : List VaultUtxo → TxIn → ℕ
spent_value utxos input = elim (available utxos input.previous_output) [
  | some u ↦ u.txout.value
  | none ↦ 0
]

-- An input that spends a known coin of the vault on the path, with the sequence of the path and a
-- witness.
pub record IsVaultInput (vault_script : Bytes) (utxos : List VaultUtxo) (path : SpendPath)
    (sequence : ℕ) (input : TxIn) : Type 0 where
  pub coin : VaultUtxo
  pub known : available utxos input.previous_output ≡ some coin
  pub of_vault : coin.txout.script_pubkey ≡ vault_script
  pub spendable : is_spendable path coin ≡ true
  pub same_sequence : input.sequence ≡ sequence
  pub signed : input.witness ≢ []

abbrev pub Differ : TxIn → TxIn → Type 0
Differ a b = a.previous_output ≢ b.previous_output

module _ (vault_script : Bytes) (utxos : List VaultUtxo) (path : SpendPath) (sequence : ℕ) where
  input_lem :
      (s t : InputState) (input : TxIn)
      → check_input vault_script utxos path sequence s input ≡ ok t
      → IsVaultInput vault_script utxos path sequence input
        × (contains s.seen input.previous_output ≡ false)
        × (t.seen ≡ input.previous_output ∷ s.seen)
        × (t.total_in ≡ s.total_in + spent_value utxos input)
        × (t.total_in < u64_size)
  unfolding check_input
  input_lem s t input h = ground arith

  pub inputs_lem :
      (s t : InputState) (inputs : List TxIn)
      → try_fold (check_input vault_script utxos path sequence) s inputs ≡ ok t
      → All (IsVaultInput vault_script utxos path sequence) inputs
        × All (λ (i : TxIn). contains s.seen i.previous_output ≡ false) inputs
        × AllPairs Differ inputs
        × (t.total_in ≡ s.total_in + sum_of (spent_value utxos) inputs)
  unfolding try_fold
  inputs_lem s t [] h = (tt, tt, tt, ground arith)
  inputs_lem s t (i ∷ inputs) h =
      let (next, one, loop) =
        >>=-eq-ok (check_input vault_script utxos path sequence s i)
          (λ s'. try_fold (check_input vault_script utxos path sequence) s' inputs) h in
      let (valid, new, seen, total, _) = input_lem s next i one in
      let (rest, unseen, pairs, sum) = inputs_lem next t inputs loop in
      let unseen' = rw seen at unseen in
      (
        (valid, rest),
        (
          new,
          All-map (λ (j : TxIn). contains (i.previous_output ∷ s.seen) j.previous_output ≡ false)
              (λ (j : TxIn). contains s.seen j.previous_output ≡ false) (λ j e. ground arith) inputs
              unseen',
        ),
        (
          All-map (λ (j : TxIn). contains (i.previous_output ∷ s.seen) j.previous_output ≡ false)
              (λ j. Differ i j) (λ j e. ground arith) inputs unseen',
          pairs,
        ),
        omega (arith, total, sum),
      )

-- The outputs are the payment and, where there is change, one output that returns it to the vault.
abbrev pub paid_outputs : Bytes → Bytes → ℕ → ℕ → List TxOut
paid_outputs dest_script vault_script amount zero =
    record { value = amount; script_pubkey = dest_script } ∷ []
paid_outputs dest_script vault_script amount (suc rest) =
    record { value = amount; script_pubkey = dest_script }
    ∷ record { value = suc rest; script_pubkey = vault_script }
    ∷ []

pub outputs_lem :
    (lib : Crates) (dest_script vault_script : Bytes) (amount change : ℕ) (outputs : List TxOut)
    → check_outputs lib dest_script vault_script amount change outputs ≡ ok tt
    → (outputs ≡ paid_outputs dest_script vault_script amount change)
      × ((change ≡ 0) ⊎ (lib.minimal_non_dust vault_script ≤ change))
unfolding check_outputs change_returns
outputs_lem lib ds vs amount zero (dest ∷ []) h = ground arith
outputs_lem lib ds vs amount (suc rest) (dest ∷ []) h = ground arith
outputs_lem lib ds vs amount zero (dest ∷ change ∷ []) h = ground arith
outputs_lem lib ds vs amount (suc rest) (dest ∷ change ∷ []) h = ground arith
outputs_lem lib ds vs amount change [] h = ground arith
outputs_lem lib ds vs amount change (a ∷ b ∷ c ∷ outputs) h = ground arith

pub amounts_lem :
    (lib : Crates) (built : BuiltSpend) (req : SpendRequest) (total_in : ℕ) (tx : Transaction)
    → check_amounts lib built req total_in tx ≡ ok tt
    → total_in ≡ req.amount_sats + req.fee_sats + built.change_sats
unfolding check_amounts
amounts_lem lib built req total_in tx h = ground arith
