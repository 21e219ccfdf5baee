-- ===== src/Tests/Initialized.antt =====
-- The configuration file that `init-config` writes, read by a parser of TOML.
use tesaurus.Prelude.{
  ◌≡◌, refl, true, false, Bytes, Bytes-discrete, [], ◌∷◌, Option, some, none, ok, all, is_same,
  if◌then◌else◌,
}
use tesaurus.Bitcoin.{Network, Network-discrete}
use tesaurus.Policy.Pin.{codes, is_test_network, display_u32}
use tesaurus.Coordinator.Files.{
  exists, make_parent, parent, create_dir_all, open_new, fill, set_permissions, write_all,
}
use tesaurus.Coordinator.Tools.{Tools}
use tesaurus.Coordinator.Config.{eq_ignore_ascii_case}
use tesaurus.Coordinator.Config.Load
use tesaurus.Coordinator.Config.Example.{
  example_text, example_config, rpc_port, example_toml, NamesNetworks,
}
use tesaurus.Coordinator.Config.Toml.{is_plain}
use tesaurus.Coordinator.Rpc.{World}
use tesaurus.Coordinator.Cli.{Setting}
use tesaurus.Coordinator.Cli.Private.{write_private_file}
use tesaurus.Coordinator.Cli.Commands.{wrote, run_init_config}
use tesaurus.Coordinator.Cli.Commands.Initialized.{run_init_config-load}
use tesaurus.Tests.Vault.{tools}
use tesaurus.Tests.Node.{env, world}
use tesaurus.Tests.Toml.{toml, toml-ReadsToml}

abbrev network_text : Network → Bytes
network_text Network.regtest = codes "regtest"
network_text Network.testnet = codes "testnet"
network_text Network.signet = codes "signet"
network_text Network.bitcoin = codes "bitcoin"
network_text Network.other = codes "testnet4"

abbrev network_from : Bytes → Option Network
network_from s =
    if is_same s (codes "regtest")
    then some Network.regtest
    else if is_same s (codes "testnet")
    then some Network.testnet
    else if is_same s (codes "signet")
    then some Network.signet
    else if is_same s (codes "bitcoin")
    then some Network.bitcoin
    else if is_same s (codes "testnet4")
    then some Network.other
    else none

abbrev texts : Tools
texts = record tools { network_from_str = network_from; network_to_string = network_text }

abbrev env_of_texts : Setting (Unit {0})
env_of_texts = record env { tools = texts; toml_from_str = toml }

reads_names : (n : Network) → network_from (network_text n) ≡ some n
unfolding Bytes-discrete
reads_names Network.regtest = refl
reads_names Network.testnet = refl
reads_names Network.signet = refl
reads_names Network.bitcoin = refl
reads_names Network.other = refl

no_mainnet : (n : Network) → eq_ignore_ascii_case (network_text n) (codes "mainnet") ≡ false
unfolding Bytes-discrete
no_mainnet Network.regtest = refl
no_mainnet Network.testnet = refl
no_mainnet Network.signet = refl
no_mainnet Network.bitcoin = refl
no_mainnet Network.other = refl

texts-NamesNetworks : NamesNetworks texts
texts-NamesNetworks = record { reads = reads_names; no_mainnet = no_mainnet }

plain_names : (n : Network) → all is_plain (network_text n) ≡ true
plain_names Network.regtest = refl
plain_names Network.testnet = refl
plain_names Network.signet = refl
plain_names Network.bitcoin = refl
plain_names Network.other = refl

abbrev initialized_world : World (Unit {0})
initialized_world = (run_init_config env_of_texts (110 ∷ []) (codes "signet") false world).1

initializes :
    run_init_config env_of_texts (110 ∷ []) (codes "signet") false world
    ≡ (ok (wrote (110 ∷ [])), initialized_world)
unfolding run_init_config example_toml example_text rpc_port display_u32 Bytes-discrete
    Network-discrete write_private_file exists make_parent parent create_dir_all open_new fill
    set_permissions write_all
initializes = refl

run_init_config-load_example :
    (n : Network) × (network_from (codes "signet") ≡ some n)
    × (is_test_network n ≡ true)
    × (Load.load texts toml true (110 ∷ []) initialized_world.disk
        ≡ (ok (example_config (network_text n) (display_u32 (rpc_port n))), initialized_world.disk))
run_init_config-load_example =
    run_init_config-load env_of_texts (110 ∷ []) (codes "signet") false (wrote (110 ∷ [])) world
      initialized_world texts-NamesNetworks plain_names toml-ReadsToml initializes
