-- ===== src/Coordinator/Spend/Select/Subset.antt =====
-- What holds of all coins of a list, or of any two of them, holds of those that `select_coins` of
-- src/spend.rs selects.
use tesaurus.Prelude.{
  ℕ, ◌≡◌, refl, Bool, List, [], ◌∷◌, ◌++◌, ok, keep, leb, All, AllPairs, Bool-cases, inl, inr,
}
use tesaurus.Coordinator.Wallet.{VaultUtxo, value_of}
use tesaurus.Coordinator.Spend.{SpendPath, is_spendable}
use tesaurus.Coordinator.Spend.Select.{insert_coin, sort_by_value, select_coins}
use tesaurus.Coordinator.Spend.Select.Coverage.{take_lem}
use tesaurus.Coordinator.Spend.Select.Order.{insert_All, sort_All, All-prefix}

keep-All :
    (P : VaultUtxo → Type 0) (p : VaultUtxo → Bool) (us : List VaultUtxo)
    → All P us
    → All P (keep p us)
keep-All P p [] h = tt
keep-All P p (u ∷ us) h = elim (Bool-cases (p u)) [
  | inl holds ↦ rw holds (h.0, keep-All P p us h.1)
  | inr fails ↦ rw fails (keep-All P p us h.1)
]

module _ (R : VaultUtxo → VaultUtxo → Type 0) (R_sym : (u v : VaultUtxo) → R u v → R v u) where
  keep-AllPairs :
      (p : VaultUtxo → Bool) (us : List VaultUtxo) → AllPairs R us → AllPairs R (keep p us)
  keep-AllPairs p [] h = tt
  keep-AllPairs p (u ∷ us) h = elim (Bool-cases (p u)) [
    | inl holds ↦ rw holds (keep-All (R u) p us h.0, keep-AllPairs p us h.1)
    | inr fails ↦ rw fails (keep-AllPairs p us h.1)
  ]

  insert_coin-AllPairs :
      (u : VaultUtxo) (us : List VaultUtxo)
      → All (R u) us
      → AllPairs R us
      → AllPairs R (insert_coin u us)
  unfolding insert_coin
  insert_coin-AllPairs u [] h k = (tt, tt)
  insert_coin-AllPairs u (v ∷ vs) h k = elim (Bool-cases (leb (value_of v) (value_of u))) [
    | inl first ↦ rw first (h, k)
    | inr later ↦
        rw later (insert_All (R v) u vs (R_sym u v h.0) k.0, insert_coin-AllPairs u vs h.1 k.1)
  ]

  sort_by_value-AllPairs : (us : List VaultUtxo) → AllPairs R us → AllPairs R (sort_by_value us)
  unfolding sort_by_value
  sort_by_value-AllPairs [] h = tt
  sort_by_value-AllPairs (u ∷ us) h =
      insert_coin-AllPairs u (sort_by_value us) (sort_All (R u) us h.0)
        (sort_by_value-AllPairs us h.1)

  AllPairs-prefix : (xs ys : List VaultUtxo) → AllPairs R (xs ++ ys) → AllPairs R xs
  AllPairs-prefix [] ys h = tt
  AllPairs-prefix (x ∷ xs) ys h = (All-prefix (R x) xs ys h.0, AllPairs-prefix xs ys h.1)

  pub select_coins-AllPairs :
      (utxos : List VaultUtxo) (need : ℕ) (path : SpendPath) (selected : List VaultUtxo)
      → select_coins utxos need path ≡ ok selected
      → AllPairs R utxos
      → AllPairs R selected
  unfolding select_coins
  select_coins-AllPairs utxos need path selected h k =
      let t =
        take_lem need 0 [] (sort_by_value (keep (is_spendable path) utxos)) selected h refl
          (inl refl) in
      let sorted =
        sort_by_value-AllPairs (keep (is_spendable path) utxos)
          (keep-AllPairs (is_spendable path) utxos k) in
      AllPairs-prefix selected t.rest (rw t.prefix at sorted)

pub select_coins-All :
    (P : VaultUtxo → Type 0) (utxos : List VaultUtxo) (need : ℕ) (path : SpendPath)
    (selected : List VaultUtxo)
    → select_coins utxos need path ≡ ok selected
    → All P utxos
    → All P selected
unfolding select_coins
select_coins-All P utxos need path selected h k =
    let t =
      take_lem need 0 [] (sort_by_value (keep (is_spendable path) utxos)) selected h refl
        (inl refl) in
    let sorted =
      sort_All P (keep (is_spendable path) utxos) (keep-All P (is_spendable path) utxos k) in
    All-prefix P selected t.rest (rw t.prefix at sorted)
