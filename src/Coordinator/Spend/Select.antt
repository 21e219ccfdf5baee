-- ===== src/Coordinator/Spend/Select.antt =====
-- `select_coins` of src/spend.rs: spendable coins, largest first, until the value is reached.
pub mod Order
pub mod Coverage
pub mod Subset
use tesaurus.Prelude.{
  ℕ, List, [], ◌∷◌, ◌++◌, Result, ok, err, ◌>>=◌, ◌>>◌, ok_or, reject_if, keep, length,
  checked_add_u64, ltb, leb, if◌then◌else◌,
}
use tesaurus.Coordinator.Failure.{Error, CoreResult}
use tesaurus.Coordinator.Wallet.{VaultUtxo, value_of}
use tesaurus.Coordinator.Spend.{SpendPath, is_spendable, max_selected_inputs}

-- `sort_by_key(|u| Reverse(u.txout.value))`: a stable sort, largest value first.
pub insert_coin : VaultUtxo → List VaultUtxo → List VaultUtxo
insert_coin u [] = u ∷ []
insert_coin u (v ∷ vs) = if leb (value_of v) (value_of u) then u ∷ v ∷ vs else v ∷ insert_coin u vs

pub sort_by_value : List VaultUtxo → List VaultUtxo
unfolding insert_coin
sort_by_value [] = []
sort_by_value (u ∷ us) = insert_coin u (sort_by_value us)

-- The loop over the candidates, with the variables `total` and `selected`.
pub take_coins : ℕ → ℕ → List VaultUtxo → List VaultUtxo → CoreResult (List VaultUtxo)
take_coins need total selected [] = err Error.spend
take_coins need total selected (u ∷ candidates) = do
  total' ← ok_or (checked_add_u64 total (value_of u)) Error.spend
  let selected' = selected ++ u ∷ []
  reject_if (ltb max_selected_inputs (length selected')) Error.spend
  let rest = take_coins need total' selected' candidates
  if leb need total' then ok selected' else rest

unfoldable pub select_coins : List VaultUtxo → ℕ → SpendPath → CoreResult (List VaultUtxo)
unfolding sort_by_value take_coins
select_coins utxos need path = take_coins need 0 [] (sort_by_value (keep (is_spendable path) utxos))
