-- ===== src/Coordinator/Cli/Commands/Initialized.antt =====
-- What the commands `init-config` and `init-vault` of src/bin/tesaurus.rs leave for the other commands.
use tesaurus.Prelude.{◌≡◌, sym, ap, ◌∙◌, Bool, true, Bytes, some, ok, all}
use tesaurus.Bitcoin.{Network, Network-discrete}
use tesaurus.Policy.Pin.{is_test_network, display_u32}
use tesaurus.Coordinator.Action.{lift, >>=-ok, lift-ok}
use tesaurus.Coordinator.Failure.{CoreResult}
use tesaurus.Coordinator.Files.{file, owner_only}
use tesaurus.Coordinator.Config.Load
use tesaurus.Coordinator.Config.Example.{
  example_toml, example_toml-ok, example_config, rpc_port, NamesNetworks, example-valid,
}
use tesaurus.Coordinator.Config.Toml.{is_plain, ReadsToml}
use tesaurus.Coordinator.Config.Toml.Example.{example_text-reads}
use tesaurus.Coordinator.Rpc.{World, on_disk}
use tesaurus.Coordinator.Cli.{Setting}
use tesaurus.Coordinator.Cli.Private.{write_private_file, write_private_file-Written}
use tesaurus.Coordinator.Cli.Commands.{Output, run_init_config}

module _ {W : Type 0} (env : Setting W) where
  -- Where the names of networks are read back, are not "mainnet" and need no escapes, and the parser of
  -- TOML reads the text of every well-formed document (`is_document`) that gives the fields of a
  -- configuration: the configuration file that `init-config` writes for a network is loaded as the
  -- example configuration of that network, which is a test network.
  pub run_init_config-load :
      (path name : Bytes) (force : Bool) (out : Output) (w last : World W)
      → NamesNetworks env.tools
      → ((n : Network) → all is_plain (env.tools.network_to_string n) ≡ true)
      → ReadsToml env.toml_from_str
      → run_init_config env path name force w ≡ (ok out, last)
      → (n : Network) × (env.tools.network_from_str name ≡ some n)
        × (is_test_network n ≡ true)
        × (Load.load env.tools env.toml_from_str true path last.disk ≡ (
          ok (example_config (env.tools.network_to_string n) (display_u32 (rpc_port n))),
          last.disk,
        ))
  unfolding run_init_config
  run_init_config-load path name force out w last names plain parser h =
      let (contents, w1, text, r1) = >>=-ok (lift (example_toml env.tools name)) _ w h in
      let (_, w2, writes, done) =
        >>=-ok (on_disk (write_private_file env.writes path contents force)) _ w1 r1 in
      let (n, is_n, test, is_text) =
        example_toml-ok env.tools name contents (lift-ok _ contents w w1 text).0 in
      let cfg = example_config (env.tools.network_to_string n) (display_u32 (rpc_port n)) in
      let written =
        write_private_file-Written env.writes path contents force w1.disk w2.disk
          (ap (λ (r : CoreResult (Unit {0}) × World W). (r.0, r.1.disk)) writes) in
      let there : last.disk path ≡ some (file owner_only contents) =
        ap (λ (r : CoreResult Output × World W). r.1.disk path) (sym done) ∙ written in
      (
        n,
        is_n,
        test,
        Load.load-file env.tools env.toml_from_str path contents cfg last.disk there
            (ap env.toml_from_str is_text
              ∙ example_text-reads env.toml_from_str (env.tools.network_to_string n) n parser
                  (plain n))
            (example-valid env.tools names n test),
      )
