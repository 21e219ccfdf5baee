-- ===== src/Coordinator/Cli/Commands/Built.antt =====
-- The vault that the command `init-vault` of src/bin/tesaurus.rs builds from the key files.
use tesaurus.Prelude.{ℕ, ◌≡◌, refl, ok, arith}
use tesaurus.Bitcoin.{Miniscript, Network, PublicKey}
use tesaurus.Coordinator.Action.{>>=-ok, lift-ok}
use tesaurus.Coordinator.Tools.{Tools}
use tesaurus.Coordinator.Config.{Config}
use tesaurus.Coordinator.Keys.{KeyRole, public_key}
use tesaurus.Coordinator.Descriptor.{VaultDescriptor, build}
use tesaurus.Coordinator.Rpc.{World}
use tesaurus.Coordinator.Rpc.Loaded.{Quiet, >>=-Quiet}
use tesaurus.Coordinator.Cli.{Setting, load_vault_key}
use tesaurus.Coordinator.Cli.Quiet.{load_vault_key-Quiet}
use tesaurus.Coordinator.Cli.Commands.{build_vault}

build-network :
    (ms : Miniscript) (tools : Tools) (primary override_key agent : PublicKey) (csv_blocks : ℕ)
    (net : Network) (vault : VaultDescriptor)
    → build ms tools primary override_key agent csv_blocks net ≡ ok vault
    → vault.network ≡ tools.network_to_string net
unfolding build
build-network ms tools primary override_key agent csv_blocks net vault h = ground arith

module _ {W : Type 0} (env : Setting W) (cfg : Config) (net : Network) where
  pub build_vault-Quiet : Quiet (build_vault env cfg net)
  unfolding build_vault
  build_vault-Quiet =
      >>=-Quiet (load_vault_key env cfg KeyRole.primary) _
        (load_vault_key-Quiet env cfg KeyRole.primary)
        (λ _.
          >>=-Quiet (load_vault_key env cfg KeyRole.override_role) _
            (load_vault_key-Quiet env cfg KeyRole.override_role)
            (λ _.
              >>=-Quiet (load_vault_key env cfg KeyRole.agent) _
                (load_vault_key-Quiet env cfg KeyRole.agent) (λ _ _. (refl, refl))))

  -- A vault is built for the network.
  pub build_vault-network :
      (vault : VaultDescriptor) (w last : World W)
      → build_vault env cfg net w ≡ (ok vault, last)
      → vault.network ≡ env.tools.network_to_string net
  unfolding build_vault
  build_vault-network vault w last h =
      let (key1, d, _, r1) = >>=-ok (load_vault_key env cfg KeyRole.primary) _ w h in
      let (key2, e, _, r2) = >>=-ok (load_vault_key env cfg KeyRole.override_role) _ d r1 in
      let (key3, f, _, built) = >>=-ok (load_vault_key env cfg KeyRole.agent) _ e r2 in
      build-network env.ms env.tools (public_key env.tools key1) (public_key env.tools key2)
        (public_key env.tools key3) cfg.vault.csv_blocks net vault (lift-ok _ vault f last built).0
