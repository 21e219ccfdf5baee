-- ===== src/Coordinator/Cli/Quiet.antt =====
-- The steps of the commands (src/bin/tesaurus.rs) that leave the disk and send nothing.
use tesaurus.Prelude.{◌≡◌, ◌∙◌, ok, refl, ap, List}
use tesaurus.Bitcoin.{Network}
use tesaurus.Coordinator.Action.{lift, >>=-ok, Reads}
use tesaurus.Coordinator.Failure.{CoreResult}
use tesaurus.Coordinator.Files.{Fs}
use tesaurus.Coordinator.Config.{Config}
use tesaurus.Coordinator.Config.Load
use tesaurus.Coordinator.Keys.{KeyRole, key_path, load_key}
use tesaurus.Coordinator.Keys.Loaded.{load_key-Reads}
use tesaurus.Coordinator.Descriptor.{VaultDescriptor, require_network, address}
use tesaurus.Coordinator.Wallet.{VaultUtxo}
use tesaurus.Coordinator.Wallet.State
use tesaurus.Coordinator.Wallet.State.Saved
use tesaurus.Coordinator.Wallet.State.{VaultState}
use tesaurus.Coordinator.Spend.{SpendPath, SpendRequest}
use tesaurus.Coordinator.Rpc.{Client, World, on_disk, call, wallet_utxos}
use tesaurus.Coordinator.Rpc.Loaded.{Quiet, >>=-Quiet, lift-Quiet, call-Quiet}
use tesaurus.Coordinator.Cli.{
  Setting, load_config, load_state, load_vault_key, spend_local_recovery, built_by,
}

pub on_disk-Quiet : {W A : Type 0} (m : Fs A) → Reads m → Quiet {W = W} (on_disk m)
on_disk-Quiet m reads w = (reads w.disk, refl)

module _ {W : Type 0} (env : Setting W) where
  pub load_config-Quiet : Quiet (load_config env)
  unfolding load_config
  load_config-Quiet =
      on_disk-Quiet (Load.load env.tools env.toml_from_str (env.reads env.config) env.config)
        (Load.load-Reads env.tools env.toml_from_str (env.reads env.config) env.config)

  pub load_state-Quiet : (cfg : Config) (net : Network) → Quiet (load_state env cfg net)
  unfolding load_state
  load_state-Quiet cfg net =
      let path = cfg.vault.state_path in
      >>=-Quiet (on_disk (State.load env.ms env.tools env.json (env.reads path) path)) _
        (on_disk-Quiet (State.load env.ms env.tools env.json (env.reads path) path)
          (Saved.load-Reads env.ms env.tools env.json (env.reads path) path))
        (λ state.
          >>=-Quiet (lift (require_network env.ms env.tools state.vault net)) _
            (lift-Quiet (require_network env.ms env.tools state.vault net)) (λ _ _. (refl, refl)))

  pub load_vault_key-Quiet : (cfg : Config) (role : KeyRole) → Quiet (load_vault_key env cfg role)
  unfolding load_vault_key
  load_vault_key-Quiet cfg role =
      let reads = env.reads (key_path cfg.vault.keys_dir role) in
      on_disk-Quiet (load_key env.tools reads cfg.vault.keys_dir role)
        (load_key-Reads env.tools reads cfg.vault.keys_dir role)

  pub wallet_utxos-Quiet :
      (client : Client) (vault : VaultDescriptor)
      → Quiet (wallet_utxos env.core env.ms env.tools client vault)
  unfolding wallet_utxos
  wallet_utxos-Quiet client vault =
      >>=-Quiet (lift (address env.ms env.tools vault)) _
        (lift-Quiet (address env.ms env.tools vault))
        (λ addr.
          >>=-Quiet (call (env.core.list_unspent client addr)) _
            (call-Quiet (env.core.list_unspent client addr)) (λ _ _. (refl, refl)))

  module _ (cfg : Config) (net : Network) (state : VaultState) (utxos : List VaultUtxo)
      (req : SpendRequest) where
    -- Loading the keys and building the spend.
    pub built_by-Quiet : (path : SpendPath) → Quiet (built_by env path cfg net state utxos req)
    unfolding built_by spend_local_recovery
    built_by-Quiet SpendPath.primary =
        >>=-Quiet (load_vault_key env cfg KeyRole.primary) _
          (load_vault_key-Quiet cfg KeyRole.primary)
          (λ _.
            >>=-Quiet (load_vault_key env cfg KeyRole.override_role) _
              (load_vault_key-Quiet cfg KeyRole.override_role) (λ _ _. (refl, refl)))
    built_by-Quiet SpendPath.recovery =
        >>=-Quiet (load_vault_key env cfg KeyRole.primary) _
          (load_vault_key-Quiet cfg KeyRole.primary)
          (λ _.
            >>=-Quiet (load_vault_key env cfg KeyRole.agent) _
              (load_vault_key-Quiet cfg KeyRole.agent) (λ _ _. (refl, refl)))

  -- The state that `load_state` returns was read from the disk.
  pub load_state-stored :
      (cfg : Config) (net : Network) (state : VaultState) (w last : World W)
      → load_state env cfg net w ≡ (ok state, last)
      → (State.load env.ms env.tools env.json
          (env.reads cfg.vault.state_path)
          cfg.vault.state_path
          w.disk).0
        ≡ ok state
  unfolding load_state
  load_state-stored cfg net state w last h =
      let path = cfg.vault.state_path in
      let (found, d, read, r1) =
        >>=-ok (on_disk (State.load env.ms env.tools env.json (env.reads path) path)) _ w h in
      let (_, e, _, done) =
        >>=-ok (lift (require_network env.ms env.tools found.vault net)) _ d r1 in
      ap (λ (r : CoreResult VaultState × World W). r.0) read
      ∙ ap (λ (r : CoreResult VaultState × World W). r.0) done
