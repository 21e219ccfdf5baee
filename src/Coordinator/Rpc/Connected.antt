-- ===== src/Coordinator/Rpc/Connected.antt =====
-- What a connection to Bitcoin Core guarantees (src/rpc.rs, `connect`).
use tesaurus.Prelude.{
  ◌≡◌, refl, sym, ap, ◌∙◌, true, false, not, Bytes, Result, ok, arith, is_same, ok_injective,
}
use mathlib.Core.Path.{subst}
use tesaurus.Bitcoin.{Network, Network-discrete}
use tesaurus.Policy.Pin.{is_test_network}
use tesaurus.Coordinator.Action.{lift, refuse_if, >>=-ok, refuse_if-ok, lift-ok}
use tesaurus.Coordinator.Failure.{Error, CoreResult}
use tesaurus.Coordinator.Tools.{Tools}
use tesaurus.Coordinator.Config.{BitcoinConfig, network, validate_bitcoin}
use tesaurus.Coordinator.Rpc.{
  Client, Auth, Core, World, rpc_result, call, ensure_wallet, auth_of, wallet_rpc_url, connect_node,
  connect,
}
use tesaurus.Coordinator.Rpc.Loaded.{
  Quiet, >>=-Quiet, refuse_if-Quiet, lift-Quiet, call-Quiet, ensure_wallet-Quiet, LoadsWallets,
  ensure_wallet-Loaded,
}

module _ {W : Type 0} (core : Core W) (tools : Tools) where
  connect_node-Quiet :
      (cfg : BitcoinConfig) (expected : Network) (auth : Auth)
      → Quiet (connect_node core tools cfg expected auth)
  unfolding connect_node
  connect_node-Quiet cfg expected auth =
      let base : Client = record { url = cfg.rpc_url; auth = auth } in
      let client : Client = record {
        url = wallet_rpc_url cfg.rpc_url cfg.wallet_name;
        auth = auth;
      } in
      >>=-Quiet (refuse_if (not (core.new_client base)) Error.wallet) _
        (refuse_if-Quiet (not (core.new_client base)) Error.wallet)
        (λ _.
          >>=-Quiet (call (core.get_blockchain_info base)) _
            (call-Quiet (core.get_blockchain_info base))
            (λ actual.
              >>=-Quiet (refuse_if (not (is_same actual expected)) Error.wallet) _
                (refuse_if-Quiet (not (is_same actual expected)) Error.wallet)
                (λ _.
                  >>=-Quiet (ensure_wallet core base cfg.wallet_name) _
                    (ensure_wallet-Quiet core base cfg.wallet_name)
                    (λ _.
                      >>=-Quiet (refuse_if (not (core.new_client client)) Error.wallet) _
                        (refuse_if-Quiet (not (core.new_client client)) Error.wallet)
                        (λ _ w. (refl, refl))))))

  pub connect-Quiet : (cfg : BitcoinConfig) → Quiet (connect core tools cfg)
  unfolding connect
  connect-Quiet cfg =
      >>=-Quiet (lift (validate_bitcoin tools cfg)) _ (lift-Quiet (validate_bitcoin tools cfg))
        (λ _. >>=-Quiet (lift (network tools cfg)) _ (lift-Quiet (network tools cfg)) (λ expected.
          >>=-Quiet (refuse_if (not (is_test_network expected)) Error.config) _
            (refuse_if-Quiet (not (is_test_network expected)) Error.config)
            (λ _.
              >>=-Quiet (lift (auth_of cfg)) _ (lift-Quiet (auth_of cfg))
                (connect_node-Quiet cfg expected))))

  -- What a connection was made with, and what the node answered.
  pub record IsConnected (Loaded : Bytes → W → Type 0) (cfg : BitcoinConfig) (client : Client)
      (w last : World W) : Type 0 where
    pub valid : validate_bitcoin tools cfg ≡ ok tt
    pub net : Network
    pub configured : network tools cfg ≡ ok net
    pub is_test : is_test_network net ≡ true
    pub same_auth : auth_of cfg ≡ ok client.auth
    pub chain :
        (core.get_blockchain_info (record { url = cfg.rpc_url; auth = client.auth }) w.core).0
        ≡ ok net
    pub at_wallet : client.url ≡ wallet_rpc_url cfg.rpc_url cfg.wallet_name
    pub loaded : Loaded cfg.wallet_name last.core

  chain_of :
      (reply : Result Bytes Network) (actual expected : Network)
      → rpc_result reply ≡ ok actual
      → not (is_same actual expected) ≡ false
      → reply ≡ ok expected
  unfolding Network-discrete
  chain_of reply actual expected answered same = ground arith

  -- The second half of `connect`.
  node_lem :
      (Loaded : Bytes → W → Type 0) (cfg : BitcoinConfig) (net : Network) (auth : Auth)
      (client : Client) (w last : World W)
      → LoadsWallets core Loaded
      → connect_node core tools cfg net auth w ≡ (ok client, last)
      → ((core.get_blockchain_info (record { url = cfg.rpc_url; auth = auth }) w.core).0 ≡ ok net)
        × (client ≡ record { url = wallet_rpc_url cfg.rpc_url cfg.wallet_name; auth = auth })
        × Loaded cfg.wallet_name last.core
  unfolding connect_node
  node_lem Loaded cfg net auth client w last laws h =
      let base : Client = record { url = cfg.rpc_url; auth = auth } in
      let at_wallet : Client = record {
        url = wallet_rpc_url cfg.rpc_url cfg.wallet_name;
        auth = auth;
      } in
      let (_, w5, made, r5) = >>=-ok (refuse_if (not (core.new_client base)) Error.wallet) _ w h in
      let (actual, w6, asked, r6) = >>=-ok (call (core.get_blockchain_info base)) _ w5 r5 in
      let (_, w7, same, r7) = >>=-ok (refuse_if (not (is_same actual net)) Error.wallet) _ w6 r6 in
      let (_, w8, ensured, r8) = >>=-ok (ensure_wallet core base cfg.wallet_name) _ w7 r7 in
      let (_, w9, connected, done) =
        >>=-ok (refuse_if (not (core.new_client at_wallet)) Error.wallet) _ w8 r8 in
      let loaded = ensure_wallet-Loaded core Loaded laws base cfg.wallet_name w7 w8 ensured in
      let last_is : w8.core ≡ last.core =
        ap (λ (v : World W). v.core) (sym (refuse_if-ok _ Error.wallet w8 w9 connected).1)
        ∙ ap (λ (r : CoreResult Client × World W). r.1.core) done in
      (
        ap (λ (v : World W). (core.get_blockchain_info base v.core).0)
              (sym (refuse_if-ok _ Error.wallet w w5 made).1)
            ∙ chain_of (core.get_blockchain_info base w5.core).0 actual net
                (ap (λ (r : CoreResult Network × World W). r.0) asked)
                (refuse_if-ok _ Error.wallet w6 w7 same).0,
        sym (ok_injective at_wallet client (ap (λ (r : CoreResult Client × World W). r.0) done)),
        subst (λ (v : W). Loaded cfg.wallet_name v) last_is loaded,
      )

  -- Where the node loads wallets as it documents: a connection that is returned has a valid
  -- configuration and goes to the configured address and wallet of a node that answered the
  -- configured network, which is a test network, and the wallet is loaded there.
  pub connect-IsConnected :
      (Loaded : Bytes → W → Type 0) (cfg : BitcoinConfig) (client : Client) (w last : World W)
      → LoadsWallets core Loaded
      → connect core tools cfg w ≡ (ok client, last)
      → IsConnected Loaded cfg client w last
  unfolding connect
  connect-IsConnected Loaded cfg client w last laws h =
      let (_, w1, valid, r1) = >>=-ok (lift (validate_bitcoin tools cfg)) _ w h in
      let (net, w2, configured, r2) = >>=-ok (lift (network tools cfg)) _ w1 r1 in
      let (_, w3, tested, r3) =
        >>=-ok (refuse_if (not (is_test_network net)) Error.config) _ w2 r2 in
      let (auth, w4, authed, r4) = >>=-ok (lift (auth_of cfg)) _ w3 r3 in
      let (chain, is_client, loaded) = node_lem Loaded cfg net auth client w4 last laws r4 in
      let same_world : w4.core ≡ w.core =
        ap (λ (v : World W). v.core)
          ((lift-ok (auth_of cfg) auth w3 w4 authed).1
            ∙ ((refuse_if-ok _ Error.config w2 w3 tested).1
                ∙ ((lift-ok _ net w1 w2 configured).1 ∙ (lift-ok _ tt w w1 valid).1))) in
      let same_auth : auth ≡ client.auth = ap (λ (c : Client). c.auth) (sym is_client) in
      record {
        valid = (lift-ok (validate_bitcoin tools cfg) tt w w1 valid).0;
        net = net;
        configured = (lift-ok (network tools cfg) net w1 w2 configured).0;
        is_test =
            ground (arith, (refuse_if-ok (not (is_test_network net)) Error.config w2 w3 tested).0);
        same_auth = (lift-ok (auth_of cfg) auth w3 w4 authed).0 ∙ ap ok same_auth;
        chain =
            subst
              (λ (a : Auth).
                (core.get_blockchain_info (record { url = cfg.rpc_url; auth = a }) w.core).0
                ≡ ok net)
              same_auth
              (subst
                (λ (c : W).
                  (core.get_blockchain_info (record { url = cfg.rpc_url; auth = auth }) c).0
                  ≡ ok net)
                same_world chain);
        at_wallet = ap (λ (c : Client). c.url) is_client;
        loaded = loaded;
      }
