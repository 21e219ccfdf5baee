-- ===== src/Tests/Commands.antt =====
-- The commands at work on a disk with a vault and a node that accepts every transaction.
use tesaurus.Prelude.{
  ◌≢◌, ap, arith, ℕ, ◌≡◌, ◌⊎◌, refl, true, false, Bytes, Bytes-discrete, [], ◌∷◌, ok, for_each,
  try_fold,
}
use tesaurus.Bitcoin.{Network-discrete, OutPoint-discrete}
use tesaurus.Coordinator.Files.{
  open_truncate, regular_check, read_to_string, metadata, join, exists, make_parent, parent,
  create_dir_all, fill, set_permissions, write_all,
}
use tesaurus.Coordinator.Config.{
  validate_config, validate_bitcoin, is_loopback_rpc_url, strip_prefix,
}
use tesaurus.Coordinator.Config.Load
use tesaurus.Coordinator.Wallet.{list_utxos}
use tesaurus.Coordinator.Wallet.State.{VaultState, new}
use tesaurus.Coordinator.Rpc.{World, connect, ensure_wallet, wallet_utxos}
use tesaurus.Coordinator.Rpc.Broadcast.{broadcast}
use tesaurus.Coordinator.Rpc.Accept.{check_results}
use tesaurus.Coordinator.Keys.{public_key, load_key}
use tesaurus.Coordinator.Descriptor.{require_network, validate, build, address}
use tesaurus.Coordinator.Spend.{SpendPath-discrete}
use tesaurus.Coordinator.Spend.Select.{select_coins}
use tesaurus.Coordinator.Spend.Build.{build_and_sign}
use tesaurus.Coordinator.Spend.Validate.{destination_script, validate_built_spend, available}
use tesaurus.Coordinator.Cli.Private.{write_private_file, write_private_file-Keeps}
use tesaurus.Coordinator.Files.Extends.{Extends}
use tesaurus.Coordinator.Wallet.State
use tesaurus.Coordinator.Wallet.State.{save}
use tesaurus.Coordinator.Cli.{PathArg, SpendArgs, spend}
use tesaurus.Coordinator.Cli.Safe.{Outcome, IsSent, spend-Outcome}
use tesaurus.Coordinator.Cli.Commands.Vault.{run_init_vault-run_address}
use tesaurus.Coordinator.Cli.Commands.{
  initialized, shown, run_init_vault, run_address, spend_coins, main,
}
use tesaurus.Coordinator.Cli.Commands.Sends.{main-sends}
use tesaurus.Tests.Node.{env, world, named-NamesNetworks}
use tesaurus.Tests.Vault.{vault, tx}
use tesaurus.Tests.Disk.{healthy, json-ReadsState}

abbrev args : SpendArgs
args = record {
  to = 60 ∷ [];
  amount_sats = 9_000;
  fee_sats = 500;
  path = PathArg.primary;
  broadcast = true;
  show_transaction = false;
  via_agent = false;
}

spend_sends : (spend env args world).1.sent ≡ tx ∷ []
unfolding spend Load.load regular_check read_to_string metadata validate_config validate_bitcoin
    is_loopback_rpc_url strip_prefix Bytes-discrete Network-discrete new State.load require_network
    validate build connect ensure_wallet wallet_utxos address list_utxos load_key join
    build_and_sign destination_script select_coins try_fold validate_built_spend available
    OutPoint-discrete SpendPath-discrete broadcast check_results for_each
spend_sends = refl

spend-Outcome_example : Outcome env args world (spend env args world).1
spend-Outcome_example = spend-Outcome env args world

main-sends_example :
    ((main env (spend_coins args) world).1.sent ≡ [])
    ⊎ ((a : SpendArgs) × (spend_coins args ≡ spend_coins a)
        × IsSent env a world (main env (spend_coins args) world).1)
main-sends_example = main-sends env (spend_coins args) world

abbrev vault_world : World (Unit {0})
vault_world = (run_init_vault env true world).1

makes_vault : run_init_vault env true world ≡ (ok (initialized vault (115 ∷ [])), vault_world)
unfolding run_init_vault Load.load regular_check read_to_string metadata validate_config
    validate_bitcoin is_loopback_rpc_url strip_prefix Bytes-discrete Network-discrete new save
    validate build load_key join exists make_parent parent create_dir_all open_truncate fill
    set_permissions write_all public_key
makes_vault = refl

abbrev head : Bytes → ℕ
head [] = 0
head (c ∷ _) = c

apart : env.config ≢ 115 ∷ []
apart h = omega (arith, ap head h)

run_init_vault-run_address_example :
    run_address env vault_world ≡ (ok (shown (50 ∷ []) []), vault_world)
run_init_vault-run_address_example =
    run_init_vault-run_address env true vault (115 ∷ []) world vault_world named-NamesNetworks
      json-ReadsState (λ path. refl) apart makes_vault

write_private_file-Keeps_example :
    Extends world.disk (write_private_file healthy (99 ∷ []) (7 ∷ []) false world.disk).1
write_private_file-Keeps_example = write_private_file-Keeps healthy (99 ∷ []) (7 ∷ []) world.disk
