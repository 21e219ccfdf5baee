-- ===== src/Coordinator/Wallet/Balance.antt =====
-- The balance of src/wallet.rs.
use tesaurus.Prelude.{
  ℕ, ◌<◌, ◌≡◌, ◌↔◌, refl, sym, ap, ◌∙◌, Bytes, List, [], ◌∷◌, map, arith, ok, try_fold, add_checked,
  try_fold-add_checked, try_fold-add_checked_total, sum_of, u64_size,
}
use tesaurus.Bitcoin.{Miniscript}
use tesaurus.Coordinator.Failure.{Error}
use tesaurus.Coordinator.Tools.{Tools}
use tesaurus.Coordinator.Descriptor.{VaultDescriptor, address}
use tesaurus.Coordinator.Wallet.{Unspent, value_of, vault_utxo, list_utxos, balance_sats}

value_sum :
    (script : Bytes) (csv : ℕ) (listed : List Unspent)
    → sum_of value_of (map (vault_utxo script csv) listed)
      ≡ sum_of (λ (u : Unspent). u.amount) listed
unfolding vault_utxo
value_sum script csv [] = refl
value_sum script csv (u ∷ listed) = omega (arith, value_sum script csv listed)

module _ (ms : Miniscript) (tools : Tools) (vault : VaultDescriptor) where
  balance_lem :
      (addr : Bytes) (listed : List Unspent)
      → address ms tools vault ≡ ok addr
      → balance_sats ms tools vault (ok listed)
        ≡ try_fold
            (add_checked Error.wallet value_of)
            0
            (map (vault_utxo (tools.address_script_pubkey addr) vault.csv_blocks) listed)
  unfolding balance_sats list_utxos
  balance_lem addr listed a = rw a refl

  -- Where the vault has an address and Bitcoin Core lists some coins, the balance is returned exactly
  -- when the sum of their amounts fits `u64`, and it is that sum.
  pub balance_sats_iff :
      (addr : Bytes) (listed : List Unspent) (total : ℕ)
      → address ms tools vault ≡ ok addr
      → (balance_sats ms tools vault (ok listed) ≡ ok total) ↔ (
          (total ≡ sum_of (λ (u : Unspent). u.amount) listed)
          × (sum_of (λ (u : Unspent). u.amount) listed < u64_size))
  balance_sats_iff addr listed total a =
      let coins = map (vault_utxo (tools.address_script_pubkey addr) vault.csv_blocks) listed in
      let folded = balance_lem addr listed a in
      let same = value_sum (tools.address_script_pubkey addr) vault.csv_blocks listed in
      (
        λ h.
            let (sum, fits) =
              try_fold-add_checked Error.wallet value_of 0 coins total (sym folded ∙ h)
                (omega arith) in
            (omega (arith, sum, same), omega (arith, sum, fits, same)),
        λ (sum, fits).
            folded
            ∙ try_fold-add_checked_total Error.wallet value_of 0 coins (omega (arith, same, fits))
            ∙ ap ok (omega (arith, same, sum)),
      )
