-- ===== src/Tests/Settings.antt =====
-- A configuration for regtest, checked.
use tesaurus.Prelude.{◌≡◌, refl, true, Bytes-discrete, [], ◌∷◌, none, some, ok}
use tesaurus.Bitcoin.{Network-discrete}
use tesaurus.Policy.Pin.{codes}
use tesaurus.Coordinator.Config.{Config, is_loopback_rpc_url, validate_config}
use tesaurus.Coordinator.Config.Loopback.{IsSafe, validate_config-IsSafe}
use tesaurus.Tests.Vault.{tools}

abbrev cfg : Config
cfg = record {
  bitcoin = record {
    network = 0 ∷ [];
    cookie_path = some (codes "/home/user/.cookie");
    rpc_url = codes "http://127.0.0.1:18443/wallet";
    rpc_user = none;
    rpc_password = none;
    wallet_name = codes "tesaurus-1";
  };
  vault = record { state_path = codes "vault.json"; csv_blocks = 10; keys_dir = codes "keys" };
}

is_local : is_loopback_rpc_url (codes "http://127.0.0.1:18443/wallet") ≡ true
unfolding is_loopback_rpc_url Bytes-discrete
is_local = refl

cfg_passes : validate_config tools cfg ≡ ok tt
unfolding validate_config Bytes-discrete Network-discrete
cfg_passes = refl

validate_config-IsSafe_example : IsSafe tools cfg
validate_config-IsSafe_example = validate_config-IsSafe tools cfg cfg_passes
