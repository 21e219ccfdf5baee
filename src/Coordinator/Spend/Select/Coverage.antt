-- ===== src/Coordinator/Spend/Select/Coverage.antt =====
-- What `select_coins` of src/spend.rs returns, and when it returns.
use tesaurus.Prelude.{
  ℕ, ◌+◌, ◌≤◌, ◌<◌, ◌≡◌, ◌⊎◌, refl, true, List, [], ◌∷◌, ◌++◌, arith, ok, keep, length,
  length-append, append_assoc, sum_of, sum_of-append, All, u64_size, Bool-cases, inl, inr, leb, sym,
}
use mathlib.Core.List.{Perm}
use tesaurus.Coordinator.Wallet.{VaultUtxo, value_of}
use tesaurus.Coordinator.Spend.{SpendPath, is_spendable, max_selected_inputs}
use tesaurus.Coordinator.Spend.Select.{sort_by_value, take_coins, select_coins}
use tesaurus.Coordinator.Spend.Select.Order.{
  sort_lem, sort_All, sort-IsSorted, keep-All, All-prefix, sorted_split, sort_perm,
}

-- A result of the loop: it ends with the coin that reached the value.
pub record IsTaken (need : ℕ) (candidates result : List VaultUtxo) : Type 0 where
  pub before : List VaultUtxo
  pub last : VaultUtxo
  pub rest : List VaultUtxo
  pub ends : result ≡ before ++ last ∷ []
  pub prefix : candidates ≡ result ++ rest
  pub covers : need ≤ sum_of value_of result
  pub fits : sum_of value_of result < u64_size
  pub few : length result ≤ max_selected_inputs
  pub short : (before ≡ []) ⊎ (sum_of value_of before < need)

pub take_lem :
    (need total : ℕ) (selected candidates result : List VaultUtxo)
    → take_coins need total selected candidates ≡ ok result
    → total ≡ sum_of value_of selected
    → (selected ≡ []) ⊎ (total < need)
    → IsTaken need (selected ++ candidates) result
unfolding take_coins
take_lem need total selected [] result h e low = ground arith
take_lem need total selected (u ∷ cs) result h e low =
    let added = sum_of-append value_of selected (u ∷ []) in
    let assoc = append_assoc selected (u ∷ []) cs in
    elim (Bool-cases (leb need (total + value_of u))) [
      | inl enough ↦
          let same : result ≡ selected ++ u ∷ [] = ground arith in
          record {
            before = selected;
            last = u;
            rest = cs;
            ends = same;
            prefix = rw same (sym assoc);
            covers = ground (arith, added);
            fits = ground (arith, added);
            few = ground arith;
            short = rw e at low;
          }
      | inr more ↦ rw (← assoc) (
          take_lem need (total + value_of u) (selected ++ u ∷ []) cs result (ground arith)
            (omega (arith, added)) (inr (ground arith)))
    ]

-- The loop returns where the candidates have the value, are few enough, and their sum fits.
take_total :
    (need total : ℕ) (selected candidates : List VaultUtxo)
    → total + sum_of value_of candidates < u64_size
    → length selected + length candidates ≤ max_selected_inputs
    → total < need
    → need ≤ total + sum_of value_of candidates
    → (result : List VaultUtxo) × (take_coins need total selected candidates ≡ ok result)
unfolding take_coins
take_total need total selected [] fits few low enough = absurd (omega arith)
take_total need total selected (u ∷ cs) fits few low enough =
    let longer = length-append selected (u ∷ []) in
    elim (Bool-cases (leb need (total + value_of u))) [
      | inl reached ↦ (selected ++ u ∷ [], ground (arith, longer))
      | inr more ↦
          let (result, e) =
            take_total need (total + value_of u) (selected ++ u ∷ []) cs (omega arith)
              (omega (arith, longer)) (ground arith) (omega arith) in
          (result, ground (arith, longer))
    ]

-- What a selection promises: with the coins that are left out it is all spendable coins, and no coin left
-- out is worth more than a selected one; it has the value within `u64` and at most 100 coins, and its last coin was needed.
pub record IsSelection (utxos : List VaultUtxo) (need : ℕ) (path : SpendPath)
    (selected : List VaultUtxo) : Type 0 where
  pub before : List VaultUtxo
  pub last : VaultUtxo
  pub rest : List VaultUtxo
  pub ends : selected ≡ before ++ last ∷ []
  pub short : (before ≡ []) ⊎ (sum_of value_of before < need)
  pub covers : need ≤ sum_of value_of selected
  pub fits : sum_of value_of selected < u64_size
  pub few : length selected ≤ 100
  pub spendable : All (λ u. is_spendable path u ≡ true) selected
  pub from_utxos : Perm (selected ++ rest) (keep (is_spendable path) utxos)
  pub largest : All (λ u. All (λ v. value_of v ≤ value_of u) rest) selected

-- Coins that are selected are, each once, spendable coins of the list for the path; they are at most 100, have the value that is needed
-- within `u64`, and would not have it without the last of them unless that is the only one; no coin
-- that was left out is worth more than a selected one.
pub select_coins-IsSelection :
    (utxos : List VaultUtxo) (need : ℕ) (path : SpendPath) (selected : List VaultUtxo)
    → select_coins utxos need path ≡ ok selected
    → IsSelection utxos need path selected
unfolding select_coins
select_coins-IsSelection utxos need path selected h =
    let sorted = sort_by_value (keep (is_spendable path) utxos) in
    let same = sort_perm (keep (is_spendable path) utxos) in
    let order = sort-IsSorted (keep (is_spendable path) utxos) in
    let t = take_lem need 0 [] sorted selected h refl (inl refl) in
    let spends =
      sort_All (λ u. is_spendable path u ≡ true) (keep (is_spendable path) utxos)
        (keep-All (is_spendable path) utxos) in
    record {
      before = t.before;
      last = t.last;
      rest = t.rest;
      ends = t.ends;
      short = t.short;
      covers = t.covers;
      fits = t.fits;
      few = t.few;
      spendable =
          All-prefix (λ u. is_spendable path u ≡ true) selected t.rest (rw t.prefix at spends);
      from_utxos = rw t.prefix at same;
      largest = sorted_split selected t.rest (rw t.prefix at order);
    }

-- Where a value above 0 is needed and the spendable coins have it, are at most 100, and their sum fits
-- `u64`, a selection is returned.
pub select_coins_total :
    (utxos : List VaultUtxo) (need : ℕ) (path : SpendPath)
    → 0 < need
    → need ≤ sum_of value_of (keep (is_spendable path) utxos)
    → sum_of value_of (keep (is_spendable path) utxos) < u64_size
    → length (keep (is_spendable path) utxos) ≤ 100
    → (selected : List VaultUtxo) × (select_coins utxos need path ≡ ok selected)
unfolding select_coins
select_coins_total utxos need path positive enough fits few =
    let (sum, count) = sort_lem (keep (is_spendable path) utxos) in
    take_total need 0 [] (sort_by_value (keep (is_spendable path) utxos)) (omega (arith, sum))
      (omega (arith, count)) positive (omega (arith, sum))
