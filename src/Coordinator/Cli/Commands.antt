-- ===== src/Coordinator/Cli/Commands.antt =====
-- The commands of src/bin/tesaurus.rs beside `spend`, and `main`.
pub mod Built
pub mod Sends
pub mod Initialized
pub mod Vault
use tesaurus.Prelude.{
  ℕ, Bool, true, false, not, ◌&&◌, Bytes, List, Option, none, some, Result, ok, err, length,
  try_fold, add_checked, keep,
}
use tesaurus.Bitcoin.{Crates, Network}
use tesaurus.Coordinator.Action.{Action, then_run, ◌>>=◌, ◌>>◌, pure, look, lift, refuse_if}
use tesaurus.Coordinator.Failure.{Error, CoreResult}
use tesaurus.Coordinator.Files.{exists}
use tesaurus.Coordinator.Config.{Config, network}
use tesaurus.Coordinator.Config.Example.{example_toml}
use tesaurus.Coordinator.Keys.{KeyRole, VaultKey, PublicVaultKeys, public_key, generate_vault_keys}
use tesaurus.Coordinator.Descriptor.{VaultDescriptor, build}
use tesaurus.Coordinator.Wallet.{VaultUtxo, value_of}
use tesaurus.Coordinator.Wallet.State
use tesaurus.Coordinator.Wallet.State.{VaultState, new, save}
use tesaurus.Coordinator.Rpc.{World, on_disk, connect, block_count, import_watch_only, wallet_utxos}
use tesaurus.Coordinator.Cli.{
  SpendArgs, SpendReport, Setting, load_config, load_state, load_vault_key, spend,
}
use tesaurus.Coordinator.Cli.Private.{write_private_file}

pub data KeysCmd : Type 0 where
  generate : KeysCmd

pub data Commands : Type 0 where
  init_config : Bytes → Bytes → Bool → Commands
  keys : KeysCmd → Commands
  init_vault : Bool → Commands
  address : Commands
  import_watch : Commands
  status : Commands
  spend_coins : SpendArgs → Commands

-- What the command `status` prints.
pub record Status : Type 0 where
  pub network : Bytes
  pub tip : ℕ
  pub vault : VaultDescriptor
  pub balance : ℕ
  pub recoverable : ℕ
  pub utxos : List VaultUtxo

-- What a command prints.
pub data Output : Type 0 where
  wrote : Bytes → Output
  generated : Bytes → PublicVaultKeys → Output
  initialized : VaultDescriptor → Bytes → Output
  shown : Bytes → Bytes → Output
  imported : Bytes → Output
  summary : Status → Output
  spent : SpendReport → Output

abbrev pub is_recoverable : VaultUtxo → Bool
is_recoverable u = u.spendable_recovery

module _ {W : Type 0} (env : Setting W) where
  unfoldable pub run_init_config : Bytes → Bytes → Bool → Action (World W) Output
  run_init_config path network force = do
    contents ← lift (example_toml env.tools network)
    on_disk (write_private_file env.writes path contents force)
    pure (wrote path)

  pub run_keys : KeysCmd → Action (World W) Output
  run_keys generate = do
    cfg ← load_config env
    net ← lift (network env.tools cfg.bitcoin)
    pubs ←
        on_disk
          (generate_vault_keys env.tools env.ms env.writes_key env.secret cfg.vault.keys_dir net)
    pure (generated cfg.vault.keys_dir pubs)

  -- The part of `init-vault` from the keys to the descriptor.
  pub build_vault : Config → Network → Action (World W) VaultDescriptor
  unfolding load_vault_key
  build_vault cfg net = do
    primary_key ← load_vault_key env cfg KeyRole.primary
    override_key ← load_vault_key env cfg KeyRole.override_role
    agent_key ← load_vault_key env cfg KeyRole.agent
    lift (
        build env.ms env.tools (public_key env.tools primary_key)
          (public_key env.tools override_key) (public_key env.tools agent_key) cfg.vault.csv_blocks
          net)

  unfoldable pub run_init_vault : Bool → Action (World W) Output
  unfolding build_vault load_config
  run_init_vault force = do
    cfg ← load_config env
    found ← on_disk (look (λ disk. exists disk cfg.vault.state_path))
    refuse_if (found && not force) Error.bail
    net ← lift (network env.tools cfg.bitcoin)
    vault ← build_vault cfg net
    on_disk (save env.ms env.tools env.json env.writes (new vault) cfg.vault.state_path)
    pure (initialized vault cfg.vault.state_path)

  pub run_address : Action (World W) Output
  run_address = do
    cfg ← load_config env
    net ← lift (network env.tools cfg.bitcoin)
    state ← load_state env cfg net
    pure (shown state.vault.receive_address state.vault.descriptor)

  pub run_import_watch : Action (World W) Output
  run_import_watch = do
    cfg ← load_config env
    net ← lift (network env.tools cfg.bitcoin)
    state ← load_state env cfg net
    client ← connect env.core env.tools cfg.bitcoin
    import_watch_only env.core env.ms env.tools client state.vault
    pure (imported cfg.bitcoin.wallet_name)

  pub run_status : Action (World W) Output
  run_status = do
    cfg ← load_config env
    net ← lift (network env.tools cfg.bitcoin)
    state ← load_state env cfg net
    client ← connect env.core env.tools cfg.bitcoin
    tip ← block_count env.core client
    utxos ← wallet_utxos env.core env.ms env.tools client state.vault
    balance ← lift (try_fold (add_checked Error.bail value_of) 0 utxos)
    recoverable ← lift (try_fold (add_checked Error.bail value_of) 0 (keep is_recoverable utxos))
    pure (
        summary (record {
          network = cfg.bitcoin.network;
          tip = tip;
          vault = state.vault;
          balance = balance;
          recoverable = recoverable;
          utxos = utxos;
        }))

  unfoldable pub main : Commands → Action (World W) Output
  unfolding run_init_config run_keys run_init_vault run_address run_import_watch run_status
  main (init_config path network force) = run_init_config path network force
  main (keys cmd) = run_keys cmd
  main (init_vault force) = run_init_vault force
  main address = run_address
  main import_watch = run_import_watch
  main status = run_status
  main (spend_coins args) = spend env args >>= λ report. pure (spent report)
