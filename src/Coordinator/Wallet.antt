-- ===== src/Coordinator/Wallet.antt =====
-- src/wallet.rs: the coins of the vault and its balance. What Bitcoin Core lists is an argument.
pub mod Balance
pub mod State
use tesaurus.Prelude.{
  ℕ, Bool, true, Bytes, List, map, Result, ok, ◌>>=◌, try_fold, add_checked, leb,
}
use tesaurus.Bitcoin.{OutPoint, TxOut, Miniscript}
use tesaurus.Coordinator.Failure.{Error, CoreResult}
use tesaurus.Coordinator.Tools.{Tools}
use tesaurus.Coordinator.Descriptor.{VaultDescriptor, address}

-- The fields of an entry of `list_unspent` that the code reads.
pub record Unspent : Type 0 where
  pub txid : Bytes
  pub vout : ℕ
  pub amount : ℕ
  pub confirmations : ℕ

pub record VaultUtxo : Type 0 where
  pub outpoint : OutPoint
  pub txout : TxOut
  pub confirmations : ℕ
  pub spendable_primary : Bool
  pub spendable_recovery : Bool

-- The body of the loop of `list_utxos`.
pub vault_utxo : Bytes → ℕ → Unspent → VaultUtxo
vault_utxo script csv u = record {
  outpoint = record { txid = u.txid; vout = u.vout };
  txout = record { value = u.amount; script_pubkey = script };
  confirmations = u.confirmations;
  spendable_primary = true;
  spendable_recovery = leb csv u.confirmations;
}

abbrev pub value_of : VaultUtxo → ℕ
value_of u = u.txout.value

module _ (ms : Miniscript) (tools : Tools) where
  -- `list_utxos`: the call of Bitcoin Core returns a list of coins or an error.
  unfoldable pub list_utxos :
      VaultDescriptor → CoreResult (List Unspent) → CoreResult (List VaultUtxo)
  unfolding vault_utxo
  list_utxos vault listed = do
    addr ← address ms tools vault
    unspent ← listed
    ok (map (vault_utxo (tools.address_script_pubkey addr) vault.csv_blocks) unspent)

  pub balance_sats : VaultDescriptor → CoreResult (List Unspent) → CoreResult ℕ
  unfolding list_utxos
  balance_sats vault listed = do
    utxos ← list_utxos vault listed
    try_fold (add_checked Error.wallet value_of) 0 utxos
