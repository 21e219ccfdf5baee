-- ===== src/Coordinator/Config/Example.antt =====
-- `Config::example_toml` of src/config.rs: the text of a new configuration file.
use tesaurus.Prelude.{
  ℕ, ◌≡◌, true, false, not, Bytes, List, [], ◌∷◌, ◌++◌, some, none, ok, ◌>>=◌, ◌>>◌, ok_or,
  reject_if, is_same, arith, refl, sym, Bytes-discrete, >>=-eq-ok, ok_or-eq-ok, ok_injective,
}
use tesaurus.Bitcoin.{Network, Network-discrete}
use tesaurus.Policy.Pin.{codes, is_test_network, display_u32}
use tesaurus.Coordinator.Failure.{Error, CoreResult}
use tesaurus.Coordinator.Tools.{Tools}
use tesaurus.Coordinator.Config.{
  Config, eq_ignore_ascii_case, network, validate_bitcoin, validate_config, is_loopback_rpc_url,
}

-- The port of Bitcoin Core on a network.
unfoldable pub rpc_port : Network → ℕ
rpc_port Network.regtest = 18443
rpc_port Network.signet = 38332
rpc_port _ = 18332

-- Each line with its newline.
abbrev lines : List Bytes → Bytes
lines [] = []
lines (l ∷ ls) = l ++ 10 ∷ lines ls

-- The text for a network's name and a port.
unfoldable pub example_text : Bytes → Bytes → Bytes
example_text network port = lines (
    codes "# Tesaurus configuration"
    ∷ []
    ∷ codes "[bitcoin]"
    ∷ (codes "network = \"" ++ (network ++ codes "\""))
    ∷ (codes "rpc_url = \"http://127.0.0.1:" ++ (port ++ codes "\""))
    ∷ codes "wallet_name = \"tesaurus\""
    ∷ codes "# Prefer Bitcoin Core cookie authentication:"
    ∷ codes "# cookie_path = \"/absolute/path/to/bitcoin/.cookie\""
    ∷ codes "# Alternatively set rpc_user and rpc_password locally. Never commit real credentials."
    ∷ []
    ∷ codes "[vault]"
    ∷ codes "state_path = \"./data/vault.json\""
    ∷ codes "keys_dir = \"./keys\""
    ∷ codes "csv_blocks = 10"
    ∷ [])

module _ (tools : Tools) where
  unfoldable pub example_toml : Bytes → CoreResult Bytes
  example_toml network = do
    reject_if (eq_ignore_ascii_case network (codes "mainnet")) Error.config
    net ← ok_or (tools.network_from_str network) Error.config
    reject_if (is_same net Network.bitcoin) Error.config
    reject_if (not (is_test_network net)) Error.config
    ok (example_text (tools.network_to_string net) (display_u32 (rpc_port net)))

-- The configuration that the text stands for.
unfoldable pub example_config : Bytes → Bytes → Config
example_config network port = record {
  bitcoin = record {
    network = network;
    cookie_path = none;
    rpc_url = codes "http://127.0.0.1:" ++ port;
    rpc_user = none;
    rpc_password = none;
    wallet_name = codes "tesaurus";
  };
  vault = record {
    state_path = codes "./data/vault.json";
    csv_blocks = 10;
    keys_dir = codes "./keys";
  };
}

-- The names of networks are read back, and none is "mainnet".
pub record NamesNetworks (tools : Tools) : Type 0 where
  pub reads : (n : Network) → tools.network_from_str (tools.network_to_string n) ≡ some n
  pub no_mainnet :
      (n : Network) → eq_ignore_ascii_case (tools.network_to_string n) (codes "mainnet") ≡ false

module _ (tools : Tools) (names : NamesNetworks tools) where
  network-example :
      (n : Network)
      → network tools
          (example_config (tools.network_to_string n) (display_u32 (rpc_port n))).bitcoin
        ≡ ok n
  unfolding network example_config
  network-example n = rw (names.no_mainnet n, names.reads n) refl

  -- The example configuration of each test network is valid.
  pub example-valid :
      (n : Network)
      → is_test_network n ≡ true
      → validate_config tools
          (example_config (tools.network_to_string n) (display_u32 (rpc_port n)))
        ≡ ok tt
  unfolding validate_config validate_bitcoin example_config rpc_port is_loopback_rpc_url
      Network-discrete display_u32 Bytes-discrete
  example-valid Network.regtest h = rw (network-example Network.regtest) refl
  example-valid Network.testnet h = rw (network-example Network.testnet) refl
  example-valid Network.signet h = rw (network-example Network.signet) refl
  example-valid Network.bitcoin h = ground arith
  example-valid Network.other h = ground arith

-- What `example_toml` returns is the text for a test network.
pub example_toml-ok :
    (tools : Tools) (name contents : Bytes)
    → example_toml tools name ≡ ok contents
    → (n : Network) × (tools.network_from_str name ≡ some n)
      × (is_test_network n ≡ true)
      × (contents ≡ example_text (tools.network_to_string n) (display_u32 (rpc_port n)))
unfolding example_toml
example_toml-ok tools name contents h =
    let (_, _, r1) =
      >>=-eq-ok (reject_if (eq_ignore_ascii_case name (codes "mainnet")) Error.config) _ h in
    let (n, is_n, r2) = >>=-eq-ok (ok_or (tools.network_from_str name) Error.config) _ r1 in
    let (_, _, r3) = >>=-eq-ok (reject_if (is_same n Network.bitcoin) Error.config) _ r2 in
    let (_, test, text) = >>=-eq-ok (reject_if (not (is_test_network n)) Error.config) _ r3 in
    (
      n,
      ok_or-eq-ok (tools.network_from_str name) Error.config n is_n,
      ground (arith, test),
      sym (
          ok_injective (example_text (tools.network_to_string n) (display_u32 (rpc_port n)))
            contents text),
    )
