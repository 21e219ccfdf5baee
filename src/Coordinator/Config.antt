-- ===== src/Coordinator/Config.antt =====
-- src/config.rs: the checks of a configuration that was read. A text or a path is its bytes.
pub mod Loopback
pub mod Load
pub mod Example
pub mod Toml
use tesaurus.Prelude.{
  ℕ, ◌+◌, Bool, true, false, not, ◌&&◌, ◌||◌, Bytes, Bytes-discrete, List, [], ◌∷◌, map, Option,
  some, none, Result, ok, ◌>>=◌, ◌>>◌, ok_or, and_then, reject_if, is_empty, is_some, any, all, ltb,
  leb, ◌==◌, is_same, if◌then◌else◌,
}
use tesaurus.Bitcoin.{Network, Network-discrete}
use tesaurus.Policy.Pin.{codes, is_test_network}
use tesaurus.Coordinator.Failure.{Error, CoreResult, CoreCheck}
use tesaurus.Coordinator.Tools.{Tools}

pub record BitcoinConfig : Type 0 where
  pub network : Bytes
  pub cookie_path : Option Bytes
  pub rpc_url : Bytes
  pub rpc_user : Option Bytes
  pub rpc_password : Option Bytes
  pub wallet_name : Bytes

pub record VaultConfig : Type 0 where
  pub state_path : Bytes
  pub csv_blocks : ℕ
  pub keys_dir : Bytes

pub record Config : Type 0 where
  pub bitcoin : BitcoinConfig
  pub vault : VaultConfig

-- `str::strip_prefix`
unfoldable pub strip_prefix : Bytes → Bytes → Option Bytes
strip_prefix [] s = some s
strip_prefix (p ∷ ps) [] = none
strip_prefix (p ∷ ps) (c ∷ s) = if p == c then strip_prefix ps s else none

-- `split('/').next()`
pub before_slash : Bytes → Bytes
before_slash [] = []
before_slash (c ∷ s) = if c == 47 then [] else c ∷ before_slash s

abbrev pub is_ascii_digit : ℕ → Bool
is_ascii_digit c = leb 48 c && leb c 57

abbrev pub is_ascii_alphanumeric : ℕ → Bool
is_ascii_alphanumeric c = is_ascii_digit c || leb 65 c && leb c 90 || leb 97 c && leb c 122

-- A port: `!port.is_empty() && port.bytes().all(is_ascii_digit)`
abbrev pub is_port : Option Bytes → Bool
is_port none = false
is_port (some port) = not (is_empty port) && all is_ascii_digit port

-- The test of the closure: the authority is the host, or the host and a port.
pub is_host : Bytes → Bytes → Bool
unfolding strip_prefix
is_host authority host =
    is_same authority host
    || is_port (and_then (strip_prefix host authority) (strip_prefix (58 ∷ [])))

abbrev pub loopback_hosts : List Bytes
loopback_hosts = codes "127.0.0.1" ∷ codes "[::1]" ∷ []

pub is_loopback_authority : Bytes → Bool
unfolding is_host
is_loopback_authority authority =
    if is_empty authority || any (λ c. c == 64) authority
    then false
    else any (is_host authority) loopback_hosts

unfoldable pub is_loopback_rpc_url : Bytes → Bool
unfolding strip_prefix before_slash is_loopback_authority
is_loopback_rpc_url url = elim (strip_prefix (codes "http://") url) [
  | none ↦ false
  | some rest ↦ is_loopback_authority (before_slash rest)
]

-- `eq_ignore_ascii_case`
abbrev pub to_ascii_lowercase : ℕ → ℕ
to_ascii_lowercase c = if leb 65 c && leb c 90 then c + 32 else c

abbrev pub eq_ignore_ascii_case : Bytes → Bytes → Bool
eq_ignore_ascii_case a b = is_same (map to_ascii_lowercase a) (map to_ascii_lowercase b)

abbrev pub is_wallet_char : ℕ → Bool
is_wallet_char c = is_ascii_alphanumeric c || c == 45 || c == 95 || c == 46

module _ (tools : Tools) where
  pub network : BitcoinConfig → CoreResult Network
  network cfg =
      if eq_ignore_ascii_case cfg.network (codes "mainnet")
      then ok Network.bitcoin
      else ok_or (tools.network_from_str cfg.network) Error.config

  -- `BitcoinConfig::validate`
  unfoldable pub validate_bitcoin : BitcoinConfig → CoreCheck
  unfolding network is_loopback_rpc_url
  validate_bitcoin cfg = do
    net ← network cfg
    reject_if (is_same net Network.bitcoin) Error.config
    reject_if (not (is_test_network net)) Error.config
    reject_if (not (is_loopback_rpc_url cfg.rpc_url)) Error.config
    reject_if (is_empty cfg.wallet_name || not (all is_wallet_char cfg.wallet_name)) Error.config
    reject_if
        (is_some cfg.rpc_user && not (is_some cfg.rpc_password)
          || not (is_some cfg.rpc_user) && is_some cfg.rpc_password)
        Error.config

  -- `Config::validate`
  unfoldable pub validate_config : Config → CoreCheck
  unfolding validate_bitcoin
  validate_config cfg = do
    validate_bitcoin cfg.bitcoin
    reject_if (cfg.vault.csv_blocks == 0) Error.config
    reject_if (ltb 65535 cfg.vault.csv_blocks) Error.config
    reject_if (is_empty cfg.vault.state_path) Error.config
    reject_if (is_empty cfg.vault.keys_dir) Error.config
