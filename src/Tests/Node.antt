-- ===== src/Tests/Node.antt =====
-- A disk with a vault, and a node that accepts every transaction.
use tesaurus.Prelude.{
  ℕ, zero, suc, ◌≡◌, refl, true, false, Bytes, Bytes-discrete, List, [], ◌∷◌, Option, some, none,
  ok, is_same, if◌then◌else◌,
}
use tesaurus.Bitcoin.{Network, Network-discrete, OutPoint-discrete}
use tesaurus.Policy.Pin.{codes}
use tesaurus.Coordinator.Files.{Disk, Node, file}
use tesaurus.Coordinator.Tools.{Tools}
use tesaurus.Coordinator.Config.{Config, eq_ignore_ascii_case}
use tesaurus.Coordinator.Config.Example.{NamesNetworks}
use tesaurus.Coordinator.Wallet.{Unspent}
use tesaurus.Coordinator.Wallet.State.{new}
use tesaurus.Coordinator.Rpc.{Core, World}
use tesaurus.Coordinator.Spend.{SpendPath-discrete}
use tesaurus.Coordinator.Cli.{Setting}
use tesaurus.Tests.World.{crates}
use tesaurus.Tests.Checks.{plain}
use tesaurus.Tests.Vault.{tools, vault}
use tesaurus.Tests.Disk.{healthy, secret, json, state_code}

abbrev pub network_name : Network → Bytes
network_name Network.regtest = 0 ∷ []
network_name Network.testnet = 1 ∷ []
network_name Network.signet = 2 ∷ []
network_name Network.bitcoin = 3 ∷ []
network_name Network.other = 4 ∷ []

abbrev pub network_of : Bytes → Option Network
network_of [] = none
network_of (zero ∷ _) = some Network.regtest
network_of (suc zero ∷ _) = some Network.testnet
network_of (suc (suc zero) ∷ _) = some Network.signet
network_of (suc (suc (suc zero)) ∷ _) = some Network.bitcoin
network_of (suc (suc (suc (suc _))) ∷ _) = some Network.other

abbrev pub named : Tools
named = record tools { network_from_str = network_of; network_to_string = network_name }

pub named-NamesNetworks : NamesNetworks named
unfolding Bytes-discrete
named-NamesNetworks = record {
  reads = λ n. elim n as (λ m. network_of (network_name m) ≡ some m) [
    | Network.regtest ↦ refl
    | Network.testnet ↦ refl
    | Network.signet ↦ refl
    | Network.bitcoin ↦ refl
    | Network.other ↦ refl
  ];
  no_mainnet = λ n.
      elim n as (λ m. eq_ignore_ascii_case (network_name m) (codes "mainnet") ≡ false) [
        | Network.regtest ↦ refl
        | Network.testnet ↦ refl
        | Network.signet ↦ refl
        | Network.bitcoin ↦ refl
        | Network.other ↦ refl
      ];
}

abbrev pub coin : ℕ → ℕ → Unspent
coin vout amount = record { txid = 4 ∷ []; vout = vout; amount = amount; confirmations = 20 }

-- A node without state.
abbrev pub core : Core (Unit {0})
core = record {
  new_client = λ c. true;
  get_blockchain_info = λ c w. (ok Network.regtest, w);
  load_wallet = λ c name w. (ok tt, w);
  create_wallet = λ c name w. (ok tt, w);
  get_block_count = λ c w. (ok 100, w);
  list_unspent = λ c addr w. (ok (coin 0 3_000 ∷ coin 1 7_000 ∷ coin 2 5_000 ∷ []), w);
  import_descriptors = λ c desc label w. (ok (some (some true ∷ [])), w);
  test_mempool_accept =
      λ c t w. (ok (record { txid = crates.compute_txid t; allowed = true } ∷ []), w);
  send_raw_transaction = λ c t w. (ok (crates.compute_txid t), w);
}

abbrev pub config : Config
config = record {
  bitcoin = record {
    network = 0 ∷ [];
    cookie_path = some (1 ∷ []);
    rpc_url = codes "http://127.0.0.1";
    rpc_user = none;
    rpc_password = none;
    wallet_name = 119 ∷ [];
  };
  vault = record { state_path = 115 ∷ []; csv_blocks = 10; keys_dir = 107 ∷ [] };
}

abbrev pub env : Setting (Unit {0})
env = record {
  lib = crates;
  ms = plain;
  tools = named;
  json = json;
  toml_from_str = λ raw. some config;
  core = core;
  config = 99 ∷ [];
  reads = λ path. true;
  writes = healthy;
  writes_key = λ role. healthy;
  secret = secret;
}

abbrev pub private : Bytes → Option Node
private contents = some (file 384 contents)

abbrev pub files : List (Bytes × Bytes)
files =
    (99 ∷ [], 5 ∷ [])
    ∷ (115 ∷ [], state_code.encode (new vault))
    ∷ (codes "k/primary.wif", 1 ∷ 10 ∷ [])
    ∷ (codes "k/override.wif", 2 ∷ 10 ∷ [])
    ∷ (codes "k/agent.wif", 3 ∷ 10 ∷ [])
    ∷ []

abbrev pub disk_of : List (Bytes × Bytes) → Disk
disk_of [] path = none
disk_of (f ∷ fs) path = if is_same f.0 path then private f.1 else disk_of fs path

abbrev pub world : World (Unit {0})
world = record { disk = disk_of files; core = tt; sent = [] }
