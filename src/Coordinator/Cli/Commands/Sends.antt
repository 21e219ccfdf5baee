-- ===== src/Coordinator/Cli/Commands/Sends.antt =====
-- Which commands of src/bin/tesaurus.rs send transactions.
use tesaurus.Prelude.{
  ◌≡◌, ◌⊎◌, inl, inr, refl, ◌∙◌, Bool, not, ◌&&◌, Bytes, try_fold, add_checked, keep,
}
use tesaurus.Bitcoin.{Network}
use tesaurus.Coordinator.Action.{Action, ◌>>=◌, lift, refuse_if, >>=-state}
use tesaurus.Coordinator.Failure.{Error, CoreResult}
use tesaurus.Coordinator.Files.{exists}
use tesaurus.Coordinator.Config.{Config, network}
use tesaurus.Coordinator.Config.Example.{example_toml}
use tesaurus.Coordinator.Keys.{generate_vault_keys}
use tesaurus.Coordinator.Wallet.{value_of}
use tesaurus.Coordinator.Wallet.State.{VaultState, new, save}
use tesaurus.Coordinator.Rpc.{
  Client, World, on_disk, connect, block_count, import_watch_only, wallet_utxos,
}
use tesaurus.Coordinator.Rpc.Loaded.{
  Quiet, refuse_if-Quiet, block_count-Quiet, import_watch_only-Quiet,
}
use tesaurus.Coordinator.Rpc.Connected.{connect-Quiet}
use tesaurus.Coordinator.Cli.{SpendArgs, Setting, load_config, load_state, spend}
use tesaurus.Coordinator.Cli.Quiet.{load_config-Quiet, load_state-Quiet, wallet_utxos-Quiet}
use tesaurus.Coordinator.Cli.Private.{write_private_file}
use tesaurus.Coordinator.Cli.Commands.Built.{build_vault-Quiet}
use tesaurus.Coordinator.Cli.Commands.{
  build_vault, Commands, KeysCmd, generate, init_config, keys, init_vault, address, import_watch,
  status, spend_coins, is_recoverable, run_init_config, run_keys, run_init_vault, run_address,
  run_import_watch, run_status, main,
}
use tesaurus.Coordinator.Cli.Safe.{IsSent, spend-Outcome}

module _ {W : Type 0} where
  -- An action that sends nothing.
  abbrev Silent : {A : Type 0} → Action (World W) A → Type 0
  Silent m = (w : World W) → (m w).1.sent ≡ w.sent

  of_Quiet : {A : Type 0} (m : Action (World W) A) → Quiet m → Silent m
  of_Quiet m quiet w = (quiet w).1

  >>=-Silent :
      {A B : Type 0} (m : Action (World W) A) (k : A → Action (World W) B)
      → Silent m
      → ((a : A) → Silent (k a))
      → Silent (m >>= k)
  >>=-Silent m k first next w =
      >>=-state m k w (λ d. d.sent ≡ w.sent) (first w) (λ a d _ same. next a d ∙ same)

  lift-Silent : {A : Type 0} (r : CoreResult A) → Silent (lift r)
  lift-Silent r w = refl

module _ {W : Type 0} (env : Setting W) where
  -- Loading the configuration and its network comes first in most commands.
  after_config :
      {A : Type 0} (k : Config → Network → Action (World W) A)
      → ((cfg : Config) (net : Network) → Silent (k cfg net))
      → Silent (load_config env >>= λ cfg. lift (network env.tools cfg.bitcoin) >>= k cfg)
  after_config k next =
      >>=-Silent (load_config env) _ (of_Quiet (load_config env) (load_config-Quiet env)) (λ cfg.
        >>=-Silent (lift (network env.tools cfg.bitcoin)) (k cfg)
          (lift-Silent (network env.tools cfg.bitcoin)) (next cfg))

  init_config-Silent :
      (path name : Bytes) (force : Bool) → Silent (run_init_config env path name force)
  unfolding run_init_config
  init_config-Silent path name force =
      >>=-Silent (lift (example_toml env.tools name)) _ (lift-Silent (example_toml env.tools name))
        (λ contents.
          >>=-Silent (on_disk (write_private_file env.writes path contents force)) _ (λ _. refl)
            (λ _ _. refl))

  keys-Silent : (cmd : KeysCmd) → Silent (run_keys env cmd)
  unfolding run_keys
  keys-Silent generate = after_config _ (λ cfg net.
      >>=-Silent
        (on_disk
          (generate_vault_keys env.tools env.ms env.writes_key env.secret cfg.vault.keys_dir net))
        _ (λ _. refl) (λ _ _. refl))

  address-Silent : Silent (run_address env)
  unfolding run_address
  address-Silent = after_config _ (λ cfg net.
      >>=-Silent (load_state env cfg net) _
        (of_Quiet (load_state env cfg net) (load_state-Quiet env cfg net)) (λ _ _. refl))

  init_vault-Silent : (force : Bool) → Silent (run_init_vault env force)
  unfolding run_init_vault
  init_vault-Silent force =
      >>=-Silent (load_config env) _ (of_Quiet (load_config env) (load_config-Quiet env)) (λ cfg.
        >>=-Silent (λ w. refuse_if (exists w.disk cfg.vault.state_path && not force) Error.bail w) _
          (λ w. (refuse_if-Quiet (exists w.disk cfg.vault.state_path && not force) Error.bail w).1)
          (λ _.
            >>=-Silent (lift (network env.tools cfg.bitcoin)) _ (λ _. refl)
              (λ net.
                >>=-Silent (build_vault env cfg net) _
                  (of_Quiet (build_vault env cfg net) (build_vault-Quiet env cfg net))
                  (λ vault.
                    >>=-Silent
                      (on_disk (
                        save env.ms env.tools env.json env.writes (new vault) cfg.vault.state_path))
                      _ (λ _. refl) (λ _ _. refl)))))

  module _ (cfg : Config) (net : Network) where
    -- Loading the state and connecting, before the commands that ask the node.
    connected :
        {A : Type 0} (k : VaultState → Client → Action (World W) A)
        → ((state : VaultState) (client : Client) → Silent (k state client))
        → Silent
            (load_state env cfg net >>= λ state. connect env.core env.tools cfg.bitcoin >>= k state)
    connected k next =
        >>=-Silent (load_state env cfg net) _
          (of_Quiet (load_state env cfg net) (load_state-Quiet env cfg net))
          (λ state.
            >>=-Silent (connect env.core env.tools cfg.bitcoin) (k state)
              (of_Quiet (connect env.core env.tools cfg.bitcoin)
                (connect-Quiet env.core env.tools cfg.bitcoin))
              (next state))

  import_watch-Silent : Silent (run_import_watch env)
  unfolding run_import_watch
  import_watch-Silent = after_config _ (λ cfg net. connected cfg net _ (λ state client.
      >>=-Silent (import_watch_only env.core env.ms env.tools client state.vault) _
        (of_Quiet (import_watch_only env.core env.ms env.tools client state.vault)
          (import_watch_only-Quiet env.core env.ms env.tools client state.vault))
        (λ _ _. refl)))

  status-Silent : Silent (run_status env)
  unfolding run_status
  status-Silent = after_config _ (λ cfg net. connected cfg net _ (λ state client.
      >>=-Silent (block_count env.core client) _
        (of_Quiet (block_count env.core client) (block_count-Quiet env.core client))
        (λ tip.
          >>=-Silent (wallet_utxos env.core env.ms env.tools client state.vault) _
            (of_Quiet (wallet_utxos env.core env.ms env.tools client state.vault)
              (wallet_utxos-Quiet env client state.vault))
            (λ utxos.
              >>=-Silent (lift (try_fold (add_checked Error.bail value_of) 0 utxos)) _ (λ _. refl)
                (λ _.
                  >>=-Silent
                    (lift
                      (try_fold (add_checked Error.bail value_of) 0 (keep is_recoverable utxos)))
                    _ (λ _. refl) (λ _ _. refl))))))

  -- Whatever the command and however it ends, nothing was sent, or the command is `spend`, and it
  -- sent one transaction, which it had validated for its request.
  pub main-sends :
      (cmd : Commands) (w : World W)
      → ((main env cmd w).1.sent ≡ w.sent)
        ⊎ ((args : SpendArgs) × (cmd ≡ spend_coins args) × IsSent env args w (main env cmd w).1)
  unfolding main
  main-sends (init_config path name force) w = inl (init_config-Silent path name force w)
  main-sends (keys cmd) w = inl (keys-Silent cmd w)
  main-sends (init_vault force) w = inl (init_vault-Silent force w)
  main-sends address w = inl (address-Silent w)
  main-sends import_watch w = inl (import_watch-Silent w)
  main-sends status w = inl (status-Silent w)
  main-sends (spend_coins args) w =
      >>=-state (spend env args) _ w
        (λ v.
          (v.sent ≡ w.sent)
          ⊎ ((a : SpendArgs) × (spend_coins args ≡ spend_coins a) × IsSent env a w v))
        (elim (spend-Outcome env args w).1 [
          | inl none_sent ↦ inl none_sent
          | inr sent ↦ inr (args, refl, sent)
        ])
        (λ _ _ _ done. done)
