-- ===== src/Coordinator/Cli/Paid.antt =====
-- What the command `spend` of src/bin/tesaurus.rs does from the connection on.
use tesaurus.Prelude.{◌≡◌, ◌⊎◌, inl, inr, refl, ap, ◌∙◌, Bool, true, false, List, ◌∷◌, ok}
use mathlib.Core.Path.{subst}
use tesaurus.Bitcoin.{Network, Transaction}
use tesaurus.Coordinator.Action.{Action, ◌>>=◌, lift, >>=-state, lift-ok}
use tesaurus.Coordinator.Failure.{CoreResult}
use tesaurus.Coordinator.Config.{Config}
use tesaurus.Coordinator.Wallet.{VaultUtxo}
use tesaurus.Coordinator.Wallet.State.{VaultState}
use tesaurus.Coordinator.Spend.{BuiltSpend}
use tesaurus.Coordinator.Spend.Validate.{validate_built_spend}
use tesaurus.Coordinator.Spend.Validate.Exact.{IsExact, validate_built_spend-IsExact}
use tesaurus.Coordinator.Rpc.{Client, World, connect, wallet_utxos}
use tesaurus.Coordinator.Rpc.Loaded.{Quiet, lift-Quiet}
use tesaurus.Coordinator.Rpc.Connected.{connect-Quiet}
use tesaurus.Coordinator.Rpc.Broadcast.{broadcast, IsAccepted, broadcast-SentAtMost}
use tesaurus.Coordinator.Cli.Quiet.{built_by-Quiet, wallet_utxos-Quiet}
use tesaurus.Coordinator.Cli.{SpendArgs, Setting, request_of, built_by, broadcast_if, spend_from}

module _ {W : Type 0} (start : World W) where
  -- The disk and what was sent are as at the start.
  abbrev pub Same : World W → Type 0
  Same w = (w.disk ≡ start.disk) × (w.sent ≡ start.sent)

  -- A quiet first part comes before the rest, which then starts with the same disk and nothing sent.
  pub through :
      {A B : Type 0} (m : Action (World W) A) (k : A → Action (World W) B) (P : World W → Type 0)
      (w : World W)
      → ((v : World W) → Same v → P v)
      → Quiet m
      → Same w
      → ((a : A) (d : World W) → m w ≡ (ok a, d) → Same d → P (k a d).1)
      → P ((m >>= k) w).1
  through {A = A} m k P w base quiet same next =
      let after : Same (m w).1 = ((quiet w).0 ∙ same.0, (quiet w).1 ∙ same.1) in
      >>=-state m k w P (base (m w).1 after)
        (λ a d h _. next a d h (subst Same (ap (λ (r : CoreResult A × World W). r.1) h) after))

module _ {W : Type 0} (env : Setting W) where
  -- A transaction that was sent: the command asked for it, it pays the request from coins that the node
  -- listed for the vault, and the node got it right after it answered that it would accept it.
  pub record IsPaid (args : SpendArgs) (net : Network) (state : VaultState) (w last : World W)
      : Type 0 where
    pub asked : args.broadcast ≡ true
    pub utxos : List VaultUtxo
    pub lister : Client
    pub listing : World W
    pub listed : (wallet_utxos env.core env.ms env.tools lister state.vault listing).0 ≡ ok utxos
    pub built : BuiltSpend
    pub tx : Transaction
    pub exact : IsExact env.lib env.ms env.tools state.vault net utxos (request_of args) built tx
    pub client : Client
    pub core : W
    pub accepted : IsAccepted env.core env.lib env.tools client tx core last.core
    pub sent : last.sent ≡ tx ∷ w.sent

  broadcast_if-Sends :
      (flag : Bool) (cfg : Config) (tx : Transaction) (w : World W)
      → let last = (broadcast_if env flag cfg tx w).1 in
        (last.disk ≡ w.disk)
        × ((last.sent ≡ w.sent)
            ⊎ ((flag ≡ true)
                × (client : Client) × (core : W) × IsAccepted env.core env.lib env.tools client tx
                    core last.core
                × (last.sent ≡ tx ∷ w.sent)))
  unfolding broadcast_if
  broadcast_if-Sends false cfg tx w = (refl, inl refl)
  broadcast_if-Sends true cfg tx w =
      let Q : World W → Type 0 = λ last.
        (last.disk ≡ w.disk)
        × ((last.sent ≡ w.sent)
            ⊎ ((true ≡ true)
                × (client : Client) × (core : W) × IsAccepted env.core env.lib env.tools client tx
                    core last.core
                × (last.sent ≡ tx ∷ w.sent))) in
      through w (connect env.core env.tools cfg.bitcoin) _ Q w (λ v same. (same.0, inl same.1))
        (connect-Quiet env.core env.tools cfg.bitcoin) (refl, refl)
        (λ client d _ s.
          >>=-state (broadcast env.core env.lib env.tools client tx) _ d Q
            (let (kept, sent) = broadcast-SentAtMost env.core env.lib env.tools client tx d in
              (
                kept ∙ s.0,
                elim sent [
                  | inl none_sent ↦ inl (none_sent ∙ s.1)
                  | inr (is_sent, acceptable) ↦ inr (
                    refl,
                    client,
                    d.core,
                    acceptable,
                    is_sent ∙ ap (λ (l : List Transaction). tx ∷ l) s.1,
                  )
                ],
              ))
            (λ _ _ _ done. done))

  pub from_lem :
      (args : SpendArgs) (cfg : Config) (net : Network) (state : VaultState) (w w0 : World W)
      → Same w0 w
      → let last = (spend_from env args cfg net state w).1 in
        (last.disk ≡ w0.disk) × ((last.sent ≡ w0.sent) ⊎ IsPaid args net state w0 last)
  unfolding spend_from
  from_lem args cfg net state w w0 s4 =
      let Q : World W → Type 0 =
        λ last. (last.disk ≡ w0.disk) × ((last.sent ≡ w0.sent) ⊎ IsPaid args net state w0 last) in
      let base : (v : World W) → Same w0 v → Q v = λ v same. (same.0, inl same.1) in
      let req = request_of args in
      through w0 (connect env.core env.tools cfg.bitcoin) _ Q w base
        (connect-Quiet env.core env.tools cfg.bitcoin) s4
        (λ client w5 _ s5.
          through w0 (wallet_utxos env.core env.ms env.tools client state.vault) _ Q w5 base
            (wallet_utxos-Quiet env client state.vault) s5
            (λ utxos w6 lists s6.
              through w0 (built_by env req.path cfg net state utxos req) _ Q w6 base
                (built_by-Quiet env cfg net state utxos req req.path) s6
                (λ built w7 _ s7.
                  through w0
                    (lift (
                      validate_built_spend env.lib env.ms env.tools built state.vault net utxos
                        req))
                    _ Q w7 base
                    (lift-Quiet (
                      validate_built_spend env.lib env.ms env.tools built state.vault net utxos
                        req))
                    s7
                    (λ tx w8 valid s8.
                      >>=-state (broadcast_if env args.broadcast cfg tx) _ w8 Q
                        (let (kept, sent) = broadcast_if-Sends args.broadcast cfg tx w8 in
                          (
                            kept ∙ s8.0,
                            elim sent [
                              | inl none_sent ↦ inl (none_sent ∙ s8.1)
                              | inr (flag, client', c, acceptable, is_sent) ↦ inr (record {
                                asked = flag;
                                utxos = utxos;
                                lister = client;
                                listing = w5;
                                listed =
                                    ap (λ (r : CoreResult (List VaultUtxo) × World W). r.0) lists;
                                built = built;
                                tx = tx;
                                exact =
                                    validate_built_spend-IsExact env.lib env.ms env.tools
                                      state.vault net utxos built req tx
                                      (lift-ok _ tx w7 w8 valid).0;
                                client = client';
                                core = c;
                                accepted = acceptable;
                                sent = is_sent ∙ ap (λ (l : List Transaction). tx ∷ l) s8.1;
                              })
                            ],
                          ))
                        (λ _ _ _ done. done)))))
