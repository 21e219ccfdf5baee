-- ===== src/Coordinator/Cli.antt =====
-- src/bin/tesaurus.rs: the commands of the program, on the disk and the node. What a command prints is
-- its result; the parsing of the command line, the wording and what is printed before an error are left
-- out.
pub mod Private
pub mod Commands
pub mod Quiet
pub mod Paid
pub mod Safe
use tesaurus.Prelude.{
  ℕ, Bool, true, false, not, ◌&&◌, Bytes, List, [], ◌∷◌, Option, none, some, Result, ok, err,
  length, try_fold, add_checked,
}
use tesaurus.Bitcoin.{Crates, Miniscript, Network, Transaction}
use tesaurus.Coordinator.Action.{Action, then_run, ◌>>=◌, ◌>>◌, pure, look, lift, refuse_if}
use tesaurus.Coordinator.Failure.{Error, CoreResult}
use tesaurus.Coordinator.Files.{FileIo}
use tesaurus.Coordinator.Tools.{Tools}
use tesaurus.Coordinator.Config.{Config, network}
use tesaurus.Coordinator.Config.Load
use tesaurus.Coordinator.Keys.{KeyRole, VaultKey, key_path, load_key}
use tesaurus.Coordinator.Descriptor.{VaultDescriptor, require_network}
use tesaurus.Coordinator.Wallet.{VaultUtxo}
use tesaurus.Coordinator.Wallet.State
use tesaurus.Coordinator.Wallet.State.{VaultState, StateJson}
use tesaurus.Coordinator.Spend.{SpendPath, SpendRequest, BuiltSpend}
use tesaurus.Coordinator.Spend.Build.{build_and_sign}
use tesaurus.Coordinator.Spend.Validate.{validate_built_spend}
use tesaurus.Coordinator.Rpc.{Client, Core, World, on_disk, connect, wallet_utxos}
use tesaurus.Coordinator.Rpc.Broadcast.{broadcast}

pub data PathArg : Type 0 where
  primary recovery : PathArg

-- `SpendPath::from`
pub spend_path : PathArg → SpendPath
spend_path primary = SpendPath.primary
spend_path recovery = SpendPath.recovery

-- The arguments of the command `spend`.
pub record SpendArgs : Type 0 where
  pub to : Bytes
  pub amount_sats : ℕ
  pub fee_sats : ℕ
  pub path : PathArg
  pub broadcast : Bool
  pub show_transaction : Bool
  pub via_agent : Bool

-- What the program runs on: the functions of the crates, the node, and how the calls of the file system
-- end. `config` is the path of the configuration file.
pub record Setting (W : Type 0) : Type 0 where
  pub lib : Crates
  pub ms : Miniscript
  pub tools : Tools
  pub json : StateJson
  pub toml_from_str : Bytes → Option Config
  pub core : Core W
  pub config : Bytes
  pub reads : Bytes → Bool
  pub writes : FileIo
  pub writes_key : KeyRole → FileIo
  pub secret : KeyRole → Bytes

pub ensure_network_agent_disabled : {S : Type 0} → Bool → Action S (Unit {0})
ensure_network_agent_disabled via_agent = refuse_if via_agent Error.bail

-- The request of the command `spend`.
pub request_of : SpendArgs → SpendRequest
unfolding spend_path
request_of args = record {
  destination = args.to;
  amount_sats = args.amount_sats;
  fee_sats = args.fee_sats;
  path = spend_path args.path;
}

-- What the command `spend` prints: the transaction is there only if it is asked for.
pub record SpendReport : Type 0 where
  pub built : BuiltSpend
  pub tx : Option Bytes
  pub sent_txid : Option Bytes

pub shown_tx : Bool → BuiltSpend → Option Bytes
shown_tx true built = some built.tx_hex
shown_tx false built = none

module _ {W : Type 0} (env : Setting W) where
  pub load_config : Action (World W) Config
  load_config = on_disk (Load.load env.tools env.toml_from_str (env.reads env.config) env.config)

  pub load_state : Config → Network → Action (World W) VaultState
  load_state cfg net = do
    state ←
        on_disk (
          State.load env.ms env.tools env.json (env.reads cfg.vault.state_path)
            cfg.vault.state_path)
    lift (require_network env.ms env.tools state.vault net)
    pure state

  pub load_vault_key : Config → KeyRole → Action (World W) VaultKey
  load_vault_key cfg role =
      on_disk
        (load_key env.tools (env.reads (key_path cfg.vault.keys_dir role)) cfg.vault.keys_dir role)

  pub spend_local_recovery :
      Config → Network → VaultState → List VaultUtxo → SpendRequest → Action (World W) BuiltSpend
  unfolding load_vault_key
  spend_local_recovery cfg net state utxos req = do
    primary_key ← load_vault_key cfg KeyRole.primary
    agent_key ← load_vault_key cfg KeyRole.agent
    lift (
        build_and_sign env.lib env.ms env.tools state.vault net utxos
          (record req { path = SpendPath.recovery }) (primary_key.inner ∷ agent_key.inner ∷ []))

  -- The choice of the keys by the path of the spend.
  pub built_by :
      SpendPath
      → Config
      → Network
      → VaultState
      → List VaultUtxo
      → SpendRequest
      → Action (World W) BuiltSpend
  unfolding spend_local_recovery
  built_by SpendPath.recovery cfg net state utxos req = spend_local_recovery cfg net state utxos req
  built_by SpendPath.primary cfg net state utxos req = do
    primary_key ← load_vault_key cfg KeyRole.primary
    override_key ← load_vault_key cfg KeyRole.override_role
    lift (
        build_and_sign env.lib env.ms env.tools state.vault net utxos req
          (primary_key.inner ∷ override_key.inner ∷ []))

  -- `if do_broadcast { … }`
  pub broadcast_if : Bool → Config → Transaction → Action (World W) (Option Bytes)
  broadcast_if false cfg tx = pure none
  broadcast_if true cfg tx = do
    client ← connect env.core env.tools cfg.bitcoin
    txid ← broadcast env.core env.lib env.tools client tx
    pure (some txid)

  -- The command `spend` from the connection on.
  pub spend_from : SpendArgs → Config → Network → VaultState → Action (World W) SpendReport
  unfolding built_by broadcast_if request_of shown_tx
  spend_from args cfg net state = do
    client ← connect env.core env.tools cfg.bitcoin
    utxos ← wallet_utxos env.core env.ms env.tools client state.vault
    let req = request_of args
    built ← built_by req.path cfg net state utxos req
    tx ← lift (validate_built_spend env.lib env.ms env.tools built state.vault net utxos req)
    sent_txid ← broadcast_if args.broadcast cfg tx
    pure
        (record { built = built; tx = shown_tx args.show_transaction built; sent_txid = sent_txid })

  -- The command `spend`.
  unfoldable pub spend : SpendArgs → Action (World W) SpendReport
  unfolding ensure_network_agent_disabled load_config load_state spend_from
  spend args = do
    ensure_network_agent_disabled args.via_agent
    cfg ← load_config
    net ← lift (network env.tools cfg.bitcoin)
    state ← load_state cfg net
    spend_from args cfg net state
