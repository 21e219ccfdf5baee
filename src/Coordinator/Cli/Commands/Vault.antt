-- ===== src/Coordinator/Cli/Commands/Vault.antt =====
-- What the command `init-vault` of src/bin/tesaurus.rs leaves for the commands that load the vault.
use tesaurus.Prelude.{
  ◌≡◌, ◌≢◌, refl, sym, ap, ◌∙◌, Bool, true, not, ◌&&◌, Bytes, [], some, ok, is_same,
}
use mathlib.Core.Path.{subst}
use tesaurus.Bitcoin.{Miniscript, Network, Network-discrete}
use tesaurus.Coordinator.Action.{Action, lift, refuse_if, >>=-ok, >>=-step, lift-ok, refuse_if-ok}
use tesaurus.Coordinator.Failure.{Error, CoreResult}
use tesaurus.Coordinator.Files.{Node, Disk, exists}
use tesaurus.Coordinator.Tools.{Tools}
use tesaurus.Coordinator.Config.{Config, network}
use tesaurus.Coordinator.Config.Load
use tesaurus.Coordinator.Config.Load.Kept.{load-kept}
use tesaurus.Coordinator.Config.Example.{NamesNetworks}
use tesaurus.Coordinator.Descriptor.{VaultDescriptor, validate, require_network}
use tesaurus.Coordinator.Wallet.State
use tesaurus.Coordinator.Wallet.State.{VaultState, new, save}
use tesaurus.Coordinator.Wallet.State.Saved.{ReadsState, save-load, save-KeepsAt, save-Valid}
use tesaurus.Coordinator.Rpc.{World, on_disk}
use tesaurus.Coordinator.Rpc.Loaded.{Quiet, lift-Quiet}
use tesaurus.Coordinator.Cli.{Setting, load_config, load_state}
use tesaurus.Coordinator.Cli.Quiet.{load_config-Quiet}
use tesaurus.Coordinator.Cli.Commands.Built.{build_vault-Quiet, build_vault-network}
use tesaurus.Coordinator.Cli.Commands.{
  build_vault, Output, initialized, shown, run_init_vault, run_address,
}

same_network : (n : Network) → is_same n n ≡ true
unfolding Network-discrete
same_network Network.bitcoin = refl
same_network Network.testnet = refl
same_network Network.signet = refl
same_network Network.regtest = refl
same_network Network.other = refl

module _ (ms : Miniscript) (tools : Tools) (names : NamesNetworks tools) where
  -- A vault that was built for a network and is valid is accepted for it.
  built-require_network :
      (vault : VaultDescriptor) (net : Network)
      → vault.network ≡ tools.network_to_string net
      → validate ms tools vault ≡ ok tt
      → require_network ms tools vault net ≡ ok tt
  unfolding require_network Network-discrete
  built-require_network vault net named valid =
      rw valid (rw named (rw (names.reads net) (rw (same_network net) refl)))

abbrev vault_of : VaultDescriptor → CoreResult Output → VaultDescriptor
vault_of other (ok (initialized vault path)) = vault
vault_of other _ = other

abbrev path_of : CoreResult Output → Bytes
path_of (ok (initialized vault path)) = path
path_of _ = []

module _ {W : Type 0} (env : Setting W) where
  shown_lem :
      (cfg : Config) (net : Network) (state : VaultState) (w : World W)
      → load_config env w ≡ (ok cfg, w)
      → network env.tools cfg.bitcoin ≡ ok net
      → load_state env cfg net w ≡ (ok state, w)
      → run_address env w ≡ (ok (shown state.vault.receive_address state.vault.descriptor), w)
  unfolding run_address
  shown_lem cfg net state w configured on_network stored =
      >>=-step (load_config env) _ w cfg w configured
      ∙ (>>=-step (lift (network env.tools cfg.bitcoin)) _ w net w (ap (λ r. (r, w)) on_network)
          ∙ (>>=-step (load_state env cfg net) _ w state w stored ∙ refl))

  load_cfg : Disk → CoreResult Config
  load_cfg disk = (Load.load env.tools env.toml_from_str (env.reads env.config) env.config disk).0

  -- After a state was saved, the configuration and the state are loaded.
  saved_lem :
      (cfg : Config) (net : Network) (vault : VaultDescriptor) (before after : World W)
      → NamesNetworks env.tools
      → ReadsState env.json
      → ((p : Bytes) → env.reads p ≡ true)
      → env.config ≢ cfg.vault.state_path
      → load_cfg before.disk ≡ ok cfg
      → network env.tools cfg.bitcoin ≡ ok net
      → vault.network ≡ env.tools.network_to_string net
      → save env.ms env.tools env.json env.writes (new vault) cfg.vault.state_path before.disk
        ≡ (ok tt, after.disk)
      → run_address env after ≡ (ok (shown vault.receive_address vault.descriptor), after)
  unfolding load_cfg load_config load_state new
  saved_lem cfg net vault before after names back reads other configured on_network named saves =
      let path = cfg.vault.state_path in
      let kept : (node : Node)
          → before.disk env.config ≡ some node
          → after.disk env.config ≡ some node =
        λ node h.
          ap (λ (r : CoreResult (Unit {0}) × Disk). r.1 env.config) (sym saves)
          ∙ save-KeepsAt env.ms env.tools env.json env.writes (new vault) path env.config other
              before.disk node h in
      let config_loads =
        load-kept env.tools env.toml_from_str (env.reads env.config) env.config cfg before.disk
          after.disk configured kept in
      let state_loads =
        ap (λ (b : Bool). State.load env.ms env.tools env.json b path after.disk) (reads path)
        ∙ save-load env.ms env.tools env.json env.writes (new vault) path before.disk after.disk
            back refl saves in
      let valid =
        save-Valid env.ms env.tools env.json env.writes (new vault) path before.disk after.disk
          saves in
      shown_lem cfg net (new vault) after
        (ap (λ (r : CoreResult Config × Disk). (r.0, record after { disk = r.1 })) config_loads)
        on_network
        (>>=-step (on_disk (State.load env.ms env.tools env.json (env.reads path) path)) _ after
            (new vault) after
            (ap (λ (r : CoreResult VaultState × Disk). (r.0, record after { disk = r.1 }))
              state_loads)
          ∙ (>>=-step (lift (require_network env.ms env.tools vault net)) _ after tt after (
                ap (λ r. (r, after))
                  (built-require_network env.ms env.tools names vault net named valid))
              ∙ refl))

  disk_kept :
      {A : Type 0} (m : Action (World W) A) (a : A) (v d : World W)
      → Quiet m
      → m v ≡ (ok a, d)
      → d.disk ≡ v.disk
  disk_kept {A = A} m a v d quiet h =
      ap (λ (r : CoreResult A × World W). r.1.disk) (sym h) ∙ (quiet v).0

  -- What `init-vault` does up to the end of `save`.
  record IsSaved (w last : World W) (result : CoreResult Output) : Type 0 where
    cfg : Config
    net : Network
    vault : VaultDescriptor
    before : World W
    configured : load_cfg before.disk ≡ ok cfg
    on_network : network env.tools cfg.bitcoin ≡ ok net
    named : vault.network ≡ env.tools.network_to_string net
    saves :
        save env.ms env.tools env.json env.writes (new vault) cfg.vault.state_path before.disk
        ≡ (ok tt, last.disk)
    ends : result ≡ ok (initialized vault cfg.vault.state_path)

  init_lem :
      (force : Bool) (out : Output) (w last : World W)
      → NamesNetworks env.tools
      → run_init_vault env force w ≡ (ok out, last)
      → IsSaved w last (ok out)
  unfolding run_init_vault load_cfg load_config
  init_lem force out w last names h =
      let (cfg, w1, configured, r1) = >>=-ok (load_config env) _ w h in
      let (_, w2, refused, r2) =
        >>=-ok (λ v. refuse_if (exists v.disk cfg.vault.state_path && not force) Error.bail v) _ w1
          r1 in
      let (net, w3, on_network, r3) = >>=-ok (lift (network env.tools cfg.bitcoin)) _ w2 r2 in
      let (vault', w7, builds, r7) = >>=-ok (build_vault env cfg net) _ w3 r3 in
      let (_, w8, saves, done) =
        >>=-ok
          (on_disk (save env.ms env.tools env.json env.writes (new vault') cfg.vault.state_path)) _
          w7 r7 in
      let at_save : w7.disk ≡ w.disk =
        disk_kept (build_vault env cfg net) vault' w3 w7 (build_vault-Quiet env cfg net) builds
        ∙ (disk_kept (lift (network env.tools cfg.bitcoin)) net w2 w3
              (lift-Quiet (network env.tools cfg.bitcoin)) on_network
            ∙ (ap (λ (v : World W). v.disk) (refuse_if-ok _ Error.bail w1 w2 refused).1
                ∙ disk_kept (load_config env) cfg w w1 (load_config-Quiet env) configured)) in
      record {
        cfg = cfg;
        net = net;
        vault = vault';
        before = w7;
        configured = ap load_cfg at_save ∙ ap (λ (r : CoreResult Config × World W). r.0) configured;
        on_network = (lift-ok _ net w2 w3 on_network).0;
        named = build_vault-network env cfg net vault' w3 w7 builds;
        saves =
            ap (λ (r : CoreResult (Unit {0}) × World W). (r.0, r.1.disk)) saves
            ∙ ap (λ (r : CoreResult Output × World W). (ok tt, r.1.disk)) done;
        ends = ap (λ (r : CoreResult Output × World W). r.0) (sym done);
      }

  -- After `init-vault`, the command `address` shows the address and the descriptor of the vault that was
  -- built, where the texts of networks and states are read back, files can be read, and the
  -- configuration file is not the state file.
  pub run_init_vault-run_address :
      (force : Bool) (vault : VaultDescriptor) (path : Bytes) (w last : World W)
      → NamesNetworks env.tools
      → ReadsState env.json
      → ((p : Bytes) → env.reads p ≡ true)
      → env.config ≢ path
      → run_init_vault env force w ≡ (ok (initialized vault path), last)
      → run_address env last ≡ (ok (shown vault.receive_address vault.descriptor), last)
  run_init_vault-run_address force vault path w last names back reads other h =
      let s = init_lem force (initialized vault path) w last names h in
      let same_path : s.cfg.vault.state_path ≡ path = ap path_of (sym s.ends) in
      subst
        (λ (v : VaultDescriptor).
          run_address env last ≡ (ok (shown v.receive_address v.descriptor), last))
        (ap (vault_of s.vault) (sym s.ends))
        (saved_lem s.cfg s.net s.vault s.before last names back reads (λ e. other (e ∙ same_path))
          s.configured s.on_network s.named s.saves)
