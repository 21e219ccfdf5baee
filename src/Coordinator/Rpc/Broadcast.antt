-- ===== src/Coordinator/Rpc/Broadcast.antt =====
-- `broadcast` of src/spend.rs: what is sent to Bitcoin Core.
use tesaurus.Prelude.{
  ◌≡◌, ◌⊎◌, inl, inr, refl, sym, ap, ◌∙◌, Bytes, Bytes-discrete, List, ◌∷◌, Result, ok, err,
  ok_injective, arith,
}
use tesaurus.Bitcoin.{Crates, Transaction}
use tesaurus.Coordinator.Action.{Action, ◌>>=◌, ◌>>◌, pure, lift, >>=-state, lift-ok}
use tesaurus.Coordinator.Failure.{CoreResult}
use tesaurus.Coordinator.Tools.{Tools}
use tesaurus.Coordinator.Rpc.Accept.{check_results, accepting, check_results-accepting}
use tesaurus.Coordinator.Rpc.{Client, Core, World, MempoolResult, rpc_result, call}

module _ {W : Type 0} (core : Core W) where
  -- `send_raw_transaction`, which is recorded.
  pub send : Client → Transaction → Action (World W) Bytes
  send client tx w =
      let ran = core.send_raw_transaction client tx w.core in
      (rpc_result ran.0, record w { core = ran.1; sent = tx ∷ w.sent })

  module _ (lib : Crates) (tools : Tools) where
    unfoldable pub broadcast : Client → Transaction → Action (World W) Bytes
    unfolding send
    broadcast client tx = do
      results ← call (core.test_mempool_accept client tx)
      lift (check_results lib tx results)
      txid ← send client tx
      pure (tools.txid_to_string txid)

    -- The node answered that it would accept the transaction, and then got it.
    pub IsAccepted : Client → Transaction → W → W → Type 0
    IsAccepted client tx state next =
        ((core.test_mempool_accept client tx state).0 ≡ ok (accepting lib tx))
        × (next
            ≡ (core.send_raw_transaction client tx (core.test_mempool_accept client tx state).1).1)

    -- The disk is left, and nothing was sent, or the transaction, which the node had found acceptable.
    abbrev pub SentAtMost : Client → Transaction → World W → World W → Type 0
    SentAtMost client tx w last =
        (last.disk ≡ w.disk)
        × ((last.sent ≡ w.sent)
            ⊎ ((last.sent ≡ tx ∷ w.sent) × IsAccepted client tx w.core last.core))

    replied : {A : Type 0} (reply : Result Bytes A) (a : A) → rpc_result reply ≡ ok a → reply ≡ ok a
    replied (ok b) a h = ap ok (ok_injective b a h)
    replied (err msg) a h = ground arith

    -- However it ends, broadcasting leaves the disk and sends nothing but the transaction, once, and
    -- only if the node answered that it would accept it.
    pub broadcast-SentAtMost :
        (client : Client) (tx : Transaction) (w : World W)
        → SentAtMost client tx w (broadcast client tx w).1
    unfolding broadcast send IsAccepted
    broadcast-SentAtMost client tx w =
        >>=-state (call (core.test_mempool_accept client tx)) _ w (SentAtMost client tx w)
          (refl, inl refl)
          (λ results d answered start.
            >>=-state (lift (check_results lib tx results)) _ d (SentAtMost client tx w) start
              (λ _ e passed _.
                let (accepted, same) = lift-ok (check_results lib tx results) tt d e passed in
                let before : d ≡ record w { core = d.core } =
                  ap
                    (λ (r : CoreResult (List MempoolResult) × World W). record r.1 {
                      core = d.core;
                    })
                    (sym answered) in
                let at_send = same ∙ before in
                >>=-state (send client tx) _ e (SentAtMost client tx w)
                  (
                    ap (λ (v : World W). v.disk) at_send,
                    inr (
                      ap (λ (v : World W). tx ∷ v.sent) at_send,
                      (
                        replied (core.test_mempool_accept client tx w.core).0 results
                              (ap (λ (r : CoreResult (List MempoolResult) × World W). r.0) answered)
                            ∙ ap ok (check_results-accepting lib tx results accepted),
                        ap (λ (v : World W). (core.send_raw_transaction client tx v.core).1)
                            (same
                              ∙ ap (λ (r : CoreResult (List MempoolResult) × World W). r.1)
                                  (sym answered)),
                      ),
                    ),
                  )
                  (λ _ _ _ done. done)))
