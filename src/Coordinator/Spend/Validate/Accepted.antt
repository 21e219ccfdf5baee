-- ===== src/Coordinator/Spend/Validate/Accepted.antt =====
-- The stages of `validate_built_spend` in src/spend.rs, passed by what the builder makes.
use tesaurus.Prelude.{
  ℕ, ◌+◌, ◌<◌, ◌≡◌, ◌≢◌, refl, true, false, Bytes, Bytes-discrete, List, [], ◌∷◌, some, none, arith,
  ok, sum_of, All, All-map, AllPairs, try_fold, contains, u64_size,
}
use tesaurus.Bitcoin.{OutPoint, OutPoint-discrete, TxIn}
use tesaurus.Coordinator.Wallet.{VaultUtxo, value_of}
use tesaurus.Coordinator.Spend.{SpendPath, is_spendable}
use tesaurus.Coordinator.Spend.Build.Signed.{Signs, AreSigned}
use tesaurus.Coordinator.Spend.Validate.{available, InputState, check_input}

abbrev pub Differ : VaultUtxo → VaultUtxo → Type 0
Differ a b = a.outpoint ≢ b.outpoint

available_none :
    (utxos : List VaultUtxo) (op : OutPoint)
    → All (λ (u : VaultUtxo). op ≢ u.outpoint) utxos
    → available utxos op ≡ none
unfolding available
available_none [] op h = refl
available_none (u ∷ utxos) op h = ground (arith, available_none utxos op h.1, h.0)

-- Where no two coins have an outpoint in common, each is found under its own.
pub available_lem :
    (utxos : List VaultUtxo)
    → AllPairs Differ utxos
    → All (λ (u : VaultUtxo). available utxos u.outpoint ≡ some u) utxos
unfolding available
available_lem [] h = tt
available_lem (u ∷ utxos) h = (
  ground (arith, available_none utxos u.outpoint h.0),
  All-map (λ (v : VaultUtxo). available utxos v.outpoint ≡ some v)
      (λ (v : VaultUtxo). available (u ∷ utxos) v.outpoint ≡ some v) (λ v e. rw e refl) utxos
      (available_lem utxos h.1),
)

module _ (vault_script : Bytes) (utxos : List VaultUtxo) (path : SpendPath) (sequence : ℕ) where
  -- A coin that the validation accepts.
  abbrev pub IsGood : VaultUtxo → Type 0
  IsGood u =
      (available utxos u.outpoint ≡ some u)
      × (u.txout.script_pubkey ≡ vault_script)
      × (is_spendable path u ≡ true)

  input_passes :
      (s : InputState) (u : VaultUtxo) (i : TxIn)
      → Signs sequence u i
      → IsGood u
      → contains s.seen u.outpoint ≡ false
      → s.total_in + value_of u < u64_size
      → check_input vault_script utxos path sequence s i
        ≡ ok (record { seen = u.outpoint ∷ s.seen; total_in = s.total_in + value_of u })
  unfolding check_input
  input_passes s u i (spends, at, signed) (known, script, spendable) new fits =
      rw (spends, new, known) (ground (arith, script, spendable, at, signed))

  unseen_lem :
      (seen : List OutPoint) (u : VaultUtxo) (us : List VaultUtxo)
      → All (Differ u) us
      → All (λ (v : VaultUtxo). contains seen v.outpoint ≡ false) us
      → All (λ (v : VaultUtxo). contains (u.outpoint ∷ seen) v.outpoint ≡ false) us
  unseen_lem seen u [] h k = tt
  unseen_lem seen u (v ∷ us) h k = (ground (arith, h.0, k.0), unseen_lem seen u us h.1 k.1)

  pub inputs_pass :
      (s : InputState) (us : List VaultUtxo) (is : List TxIn)
      → AreSigned sequence us is
      → All IsGood us
      → AllPairs Differ us
      → All (λ (u : VaultUtxo). contains s.seen u.outpoint ≡ false) us
      → s.total_in + sum_of value_of us < u64_size
      → (t : InputState) × (try_fold (check_input vault_script utxos path sequence) s is ≡ ok t)
        × (t.total_in ≡ s.total_in + sum_of value_of us)
  unfolding try_fold
  inputs_pass s [] [] k good differ new fits = (s, refl, omega arith)
  inputs_pass s [] (i ∷ is) k good differ new fits = absurd k
  inputs_pass s (u ∷ us) [] k good differ new fits = absurd k
  inputs_pass s (u ∷ us) (i ∷ is) k good differ new fits =
      let one = input_passes s u i k.0 good.0 new.0 (omega arith) in
      let next : InputState = record {
        seen = u.outpoint ∷ s.seen;
        total_in = s.total_in + value_of u;
      } in
      let unseen = unseen_lem s.seen u us differ.0 new.1 in
      let (t, loop, sum) = inputs_pass next us is k.1 good.1 differ.1 unseen (omega arith) in
      (t, rw one loop, omega (arith, sum))
