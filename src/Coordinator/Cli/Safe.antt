-- ===== src/Coordinator/Cli/Safe.antt =====
-- What the command `spend` of src/bin/tesaurus.rs sends to the node.
use tesaurus.Prelude.{◌≡◌, ◌⊎◌, inl, inr, refl, sym, ap, ◌∙◌, false, Bytes, ok}
use tesaurus.Bitcoin.{Network}
use tesaurus.Coordinator.Action.{lift, refuse_if, lift-ok, refuse_if-ok}
use tesaurus.Coordinator.Failure.{Error, CoreResult}
use tesaurus.Coordinator.Files.{Disk}
use tesaurus.Coordinator.Config.{Config, network}
use tesaurus.Coordinator.Config.Load
use tesaurus.Coordinator.Wallet.State
use tesaurus.Coordinator.Wallet.State.{VaultState}
use tesaurus.Coordinator.Rpc.{World}
use tesaurus.Coordinator.Rpc.Loaded.{refuse_if-Quiet, lift-Quiet}
use tesaurus.Coordinator.Cli.Paid.{Same, through, IsPaid, from_lem}
use tesaurus.Coordinator.Cli.Quiet.{load_state-stored, load_config-Quiet, load_state-Quiet}
use tesaurus.Coordinator.Cli.{
  SpendArgs, Setting, ensure_network_agent_disabled, load_config, load_state, spend,
}

module _ {W : Type 0} (env : Setting W) where
  -- A payment with the configuration and the state of the disk, and not by the agent.
  pub record IsSent (args : SpendArgs) (w last : World W) : Type 0 where
    pub not_by_agent : args.via_agent ≡ false
    pub cfg : Config
    pub net : Network
    pub state : VaultState
    pub configured :
        (Load.load env.tools env.toml_from_str (env.reads env.config) env.config w.disk).0 ≡ ok cfg
    pub on_network : network env.tools cfg.bitcoin ≡ ok net
    pub stored :
        (State.load env.ms env.tools env.json
          (env.reads cfg.vault.state_path)
          cfg.vault.state_path
          w.disk).0
        ≡ ok state
    pub paid : IsPaid env args net state w last

  -- The disk is left, and nothing was sent, or one transaction that may be sent.
  abbrev pub Outcome : SpendArgs → World W → World W → Type 0
  Outcome args w last = (last.disk ≡ w.disk) × ((last.sent ≡ w.sent) ⊎ IsSent args w last)

  -- However it ends, the command `spend` leaves the disk, and it sends nothing, or one transaction. Then
  -- `--broadcast` and not `--via-agent` was given, the configuration and the state were loaded from the
  -- disk, the transaction pays exactly the request from distinct coins that the node listed for the
  -- vault, and the node had answered that it would accept it.
  pub spend-Outcome : (args : SpendArgs) (w : World W) → Outcome args w (spend env args w).1
  unfolding spend ensure_network_agent_disabled load_config
  spend-Outcome args w =
      let P = Outcome args w in
      let base : (v : World W) → Same w v → P v = λ v same. (same.0, inl same.1) in
      let load_cfg = λ (disk : Disk).
        (Load.load env.tools env.toml_from_str (env.reads env.config) env.config disk).0 in
      let load_st = λ (path : Bytes) (disk : Disk).
        (State.load env.ms env.tools env.json (env.reads path) path disk).0 in
      through w (refuse_if args.via_agent Error.bail) _ P w base
        (refuse_if-Quiet args.via_agent Error.bail) (refl, refl)
        (λ _ w1 local s1.
          through w (load_config env) _ P w1 base (load_config-Quiet env) s1
            (λ cfg w2 configured s2.
              through w (lift (network env.tools cfg.bitcoin)) _ P w2 base
                (lift-Quiet (network env.tools cfg.bitcoin)) s2
                (λ net w3 on_network s3.
                  through w (load_state env cfg net) _ P w3 base (load_state-Quiet env cfg net) s3
                    (λ state w4 stored s4.
                      let (kept, sent) = from_lem env args cfg net state w4 w s4 in
                      (
                        kept,
                        elim sent [
                          | inl none_sent ↦ inl none_sent
                          | inr paid ↦ inr (record {
                            not_by_agent = (refuse_if-ok args.via_agent Error.bail w w1 local).0;
                            cfg = cfg;
                            net = net;
                            state = state;
                            configured =
                                ap load_cfg (sym s1.0)
                                ∙ ap (λ (r : CoreResult Config × World W). r.0) configured;
                            on_network =
                                (lift-ok (network env.tools cfg.bitcoin) net w2 w3 on_network).0;
                            stored =
                                ap (load_st cfg.vault.state_path) (sym s3.0)
                                ∙ load_state-stored env cfg net state w3 w4 stored;
                            paid = paid;
                          })
                        ],
                      )))))
