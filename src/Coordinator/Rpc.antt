-- ===== src/Coordinator/Rpc.antt =====
-- src/rpc.rs: the calls of Bitcoin Core. The node is a parameter: a state, and for each call the
-- answer and the next state. The transactions that were sent to it are recorded.
pub mod Loaded
pub mod Connected
pub mod Accept
pub mod Broadcast
use tesaurus.Prelude.{
  ℕ, Bool, true, false, not, ◌||◌, Bytes, List, [], ◌∷◌, ◌++◌, Option, none, some, Result, ok, err,
  ok_or, reject_if, for_each, is_same, is_some, if◌then◌else◌,
}
use mathlib.Core.List.{reverse}
use tesaurus.Bitcoin.{Miniscript, Network, Network-discrete, Transaction}
use tesaurus.Policy.Pin.{codes, is_test_network}
use tesaurus.Coordinator.Action.{Action, then_run, ◌>>=◌, ◌>>◌, pure, lift, refuse_if}
use tesaurus.Coordinator.Failure.{Error, CoreResult}
use tesaurus.Coordinator.Files.{Disk, Fs, drop_slashes}
use tesaurus.Coordinator.Tools.{Tools}
use tesaurus.Coordinator.Config.{BitcoinConfig, strip_prefix, network, validate_bitcoin}
use tesaurus.Coordinator.Descriptor.{VaultDescriptor, validate, address}
use tesaurus.Coordinator.Wallet.{Unspent, VaultUtxo, list_utxos}

pub data Auth : Type 0 where
  cookie_file : Bytes → Auth
  user_pass : Bytes → Bytes → Auth

-- A client is where it connects to.
pub record Client : Type 0 where
  pub url : Bytes
  pub auth : Auth

-- The fields of an entry of `test_mempool_accept` that the code reads.
pub record MempoolResult : Type 0 where
  pub txid : Bytes
  pub allowed : Bool

-- A call of the node: its answer, or the text of an error, and the node's next state.
abbrev pub Call : Type 0 → Type 0 → Type 0
Call W A = W → Result Bytes A × W

-- Bitcoin Core as the crate bitcoincore_rpc shows it. `import_descriptors` answers the field `success`
-- of each item, or nothing if the answer is no array.
pub record Core (W : Type 0) : Type 0 where
  pub new_client : Client → Bool
  pub get_blockchain_info : Client → Call W Network
  pub load_wallet : Client → Bytes → Call W (Unit {0})
  pub create_wallet : Client → Bytes → Call W (Unit {0})
  pub get_block_count : Client → Call W ℕ
  pub list_unspent : Client → Bytes → Call W (List Unspent)
  pub import_descriptors : Client → Bytes → Bytes → Call W (Option (List (Option Bool)))
  pub test_mempool_accept : Client → Transaction → Call W (List MempoolResult)
  pub send_raw_transaction : Client → Transaction → Call W Bytes

-- What a command of the program reads and changes.
pub record World (W : Type 0) : Type 0 where
  pub disk : Disk
  pub core : W
  pub sent : List Transaction

abbrev pub rpc_result : {A : Type 0} → Result Bytes A → CoreResult A
rpc_result (ok a) = ok a
rpc_result (err _) = err Error.rpc

-- `str::contains`
pub contains : Bytes → Bytes → Bool
unfolding strip_prefix
contains s [] = is_some (strip_prefix s [])
contains s (c ∷ t) = is_some (strip_prefix s (c ∷ t)) || contains s t

pub wallet_rpc_url : Bytes → Bytes → Bytes
wallet_rpc_url base wallet = reverse (drop_slashes (reverse base)) ++ (codes "/wallet/" ++ wallet)

-- The choice of `auth` in `connect`.
pub auth_of : BitcoinConfig → CoreResult Auth
auth_of cfg = elim cfg.cookie_path [
  | some cookie ↦ ok (cookie_file cookie)
  | none ↦ elim cfg.rpc_user [
    | none ↦ err Error.config
    | some user ↦ elim cfg.rpc_password [
      | none ↦ err Error.config
      | some pass ↦ ok (user_pass user pass)
    ]
  ]
]

-- Whether `load_wallet` found or made the wallet loaded.
pub already_loaded : Result Bytes (Unit {0}) → Bool
unfolding contains
already_loaded (ok _) = true
already_loaded (err msg) = contains (codes "already loaded") msg

module _ {W : Type 0} where
  abbrev pub on_disk : {A : Type 0} → Fs A → Action (World W) A
  on_disk m w = let ran = m w.disk in (ran.0, record w { disk = ran.1 })

  -- A call with `?` behind it.
  abbrev pub call : {A : Type 0} → Call W A → Action (World W) A
  call f w = let ran = f w.core in (rpc_result ran.0, record w { core = ran.1 })

  -- A call whose result the code inspects.
  abbrev pub attempt : {A : Type 0} → Call W A → Action (World W) (Result Bytes A)
  attempt f w = let ran = f w.core in (ok ran.0, record w { core = ran.1 })

module _ {W : Type 0} (core : Core W) where
  -- The second `load_wallet`, where the error of `create_wallet` says that the wallet exists.
  load_again : Client → Bytes → Bool → Action (World W) (Unit {0})
  load_again client name true = call (core.load_wallet client name)
  load_again client name false = lift (err Error.rpc)

  -- The answer to `create_wallet`.
  after_create : Client → Bytes → Result Bytes (Unit {0}) → Action (World W) (Unit {0})
  unfolding contains load_again
  after_create client name (ok _) = pure tt
  after_create client name (err msg) =
      load_again client name (contains (codes "already exists") msg)

  create_missing : Client → Bytes → Bool → Action (World W) (Unit {0})
  unfolding after_create
  create_missing client name true = pure tt
  create_missing client name false = do
    made ← attempt (core.create_wallet client name)
    after_create client name made

  unfoldable pub ensure_wallet : Client → Bytes → Action (World W) (Unit {0})
  unfolding create_missing already_loaded
  ensure_wallet client name = do
    loaded ← attempt (core.load_wallet client name)
    create_missing client name (already_loaded loaded)

  pub block_count : Client → Action (World W) ℕ
  block_count client = call (core.get_block_count client)

  module _ (tools : Tools) where
    -- The part of `connect` from the first client on.
    pub connect_node : BitcoinConfig → Network → Auth → Action (World W) Client
    unfolding ensure_wallet wallet_rpc_url
    connect_node cfg expected auth = do
      let base : Client = record { url = cfg.rpc_url; auth = auth }
      refuse_if (not (core.new_client base)) Error.wallet
      actual ← call (core.get_blockchain_info base)
      refuse_if (not (is_same actual expected)) Error.wallet
      ensure_wallet base cfg.wallet_name
      let client : Client = record { url = wallet_rpc_url cfg.rpc_url cfg.wallet_name; auth = auth }
      refuse_if (not (core.new_client client)) Error.wallet
      pure client

    -- `BitcoinRpc::connect`
    unfoldable pub connect : BitcoinConfig → Action (World W) Client
    unfolding auth_of connect_node
    connect cfg = do
      lift (validate_bitcoin tools cfg)
      expected ← lift (network tools cfg)
      refuse_if (not (is_test_network expected)) Error.config
      auth ← lift (auth_of cfg)
      connect_node cfg expected auth

  -- The test of each item of the answer.
  pub import_succeeded : Option Bool → CoreResult (Unit {0})
  import_succeeded none = err Error.wallet
  import_succeeded (some success) = reject_if (not success) Error.wallet

  pub import_watch_descriptor : Client → Bytes → Bytes → Action (World W) (Unit {0})
  unfolding import_succeeded
  import_watch_descriptor client descriptor label = do
    res ← call (core.import_descriptors client descriptor label)
    items ← lift (ok_or res Error.wallet)
    lift (for_each import_succeeded items)

  module _ (ms : Miniscript) (tools : Tools) where
    -- `VaultWallet::import_watch_only` of src/wallet.rs
    unfoldable pub import_watch_only : Client → VaultDescriptor → Action (World W) (Unit {0})
    unfolding import_watch_descriptor
    import_watch_only client vault = do
      lift (validate ms tools vault)
      import_watch_descriptor client vault.descriptor (codes "tesaurus-vault")

    -- `VaultWallet::list_utxos` of src/wallet.rs, with the call of the node.
    unfoldable pub wallet_utxos : Client → VaultDescriptor → Action (World W) (List VaultUtxo)
    wallet_utxos client vault = do
      addr ← lift (address ms tools vault)
      unspent ← call (core.list_unspent client addr)
      lift (list_utxos ms tools vault (ok unspent))
