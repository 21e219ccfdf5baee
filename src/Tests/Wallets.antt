-- ===== src/Tests/Wallets.antt =====
-- A node that keeps its wallets, and a connection to it.
use tesaurus.Prelude.{
  ◌≡◌, ◌≢◌, ◌≤◌, refl, ap, true, arith, Bytes, Bytes-discrete, List, [], ◌∷◌, ◌++◌, none, some, ok,
  err, length, contains, if◌then◌else◌,
}
use tesaurus.Bitcoin.{Network, Network-discrete}
use tesaurus.Policy.Pin.{codes}
use tesaurus.Coordinator.Files.{drop_slashes}
use tesaurus.Coordinator.Config.{BitcoinConfig, validate_bitcoin, is_loopback_rpc_url, strip_prefix}
use tesaurus.Coordinator.Rpc.{Call, Core, World, Client, Auth, connect, ensure_wallet}
use tesaurus.Coordinator.Rpc.Loaded.{LoadsWallets}
use tesaurus.Coordinator.Rpc.Connected.{IsConnected, connect-IsConnected}
use tesaurus.Tests.Node.{named, world}

-- The wallets that stand on the disk of the node, and those that are loaded.
record Wallets : Type 0 where
  stored : List Bytes
  loaded : List Bytes

abbrev load : Bytes → Call Wallets (Unit {0})
load name w =
    if contains w.loaded name
    then (err (codes "Wallet is already loaded."), w)
    else if contains w.stored name
    then (ok tt, record w { loaded = name ∷ w.loaded })
    else (err (codes "not found"), w)

abbrev create : Bytes → Call Wallets (Unit {0})
create name w =
    if contains w.stored name
    then (err (codes "Database already exists."), w)
    else (ok tt, record { stored = name ∷ w.stored; loaded = name ∷ w.loaded })

abbrev node : Core Wallets
node = record {
  new_client = λ c. true;
  get_blockchain_info = λ c w. (ok Network.regtest, w);
  load_wallet = λ c name. load name;
  create_wallet = λ c name. create name;
  get_block_count = λ c w. (ok 100, w);
  list_unspent = λ c addr w. (ok [], w);
  import_descriptors = λ c desc label w. (ok none, w);
  test_mempool_accept = λ c t w. (ok [], w);
  send_raw_transaction = λ c t w. (ok [], w);
}

IsLoaded : Bytes → Wallets → Type 0
IsLoaded name w = contains w.loaded name ≡ true

says_long : (before after : Bytes) → 14 ≤ length (before ++ (codes "already loaded" ++ after))
says_long [] after = ground arith
says_long (b ∷ before) after = ground (arith, says_long before after)

other_message :
    (before after : Bytes) → codes "not found" ≢ before ++ (codes "already loaded" ++ after)
other_message before after h = ground (arith, says_long before after, ap length h)

node-LoadsWallets : LoadsWallets node IsLoaded
unfolding IsLoaded
node-LoadsWallets = record {
  load = λ c name w h. ground arith;
  load_twice = λ c name w before after h. ground (arith, other_message before after);
  create = λ c name w h. ground arith;
}

abbrev client : Client
client = record {
  url = codes "http://127.0.0.1:18443/wallet/tesaurus";
  auth = Auth.user_pass (1 ∷ []) (2 ∷ []);
}

abbrev bitcoin_config : BitcoinConfig
bitcoin_config = record {
  network = 0 ∷ [];
  cookie_path = none;
  rpc_url = codes "http://127.0.0.1:18443/";
  rpc_user = some (1 ∷ []);
  rpc_password = some (2 ∷ []);
  wallet_name = codes "tesaurus";
}

-- The node has loaded another wallet; this one is made, or is on the disk, or is loaded too.
abbrev at : Wallets → World Wallets
at wallets = record { disk = world.disk; core = wallets; sent = [] }

abbrev others : Wallets
others = record { stored = codes "other" ∷ []; loaded = codes "other" ∷ [] }

abbrev both : Wallets
both = record {
  stored = codes "tesaurus" ∷ codes "other" ∷ [];
  loaded = codes "tesaurus" ∷ codes "other" ∷ [];
}

connects : connect node named bitcoin_config (at others) ≡ (ok client, at both)
unfolding connect validate_bitcoin is_loopback_rpc_url strip_prefix Bytes-discrete Network-discrete
    ensure_wallet drop_slashes
connects = refl

connects_again : connect node named bitcoin_config (at both) ≡ (ok client, at both)
unfolding connect validate_bitcoin is_loopback_rpc_url strip_prefix Bytes-discrete Network-discrete
    ensure_wallet drop_slashes
connects_again = refl

connect-IsConnected_example :
    IsConnected node named IsLoaded bitcoin_config client (at others) (at both)
connect-IsConnected_example =
    connect-IsConnected node named IsLoaded bitcoin_config client (at others) (at both)
      node-LoadsWallets connects
