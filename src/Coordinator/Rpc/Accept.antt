-- ===== src/Coordinator/Rpc/Accept.antt =====
-- The tests of `broadcast` (src/spend.rs) on the answer to `test_mempool_accept`.
use tesaurus.Prelude.{
  ◌≡◌, true, not, ◌==◌, Bytes-discrete, List, [], ◌∷◌, Option, none, some, ok, ◌>>=◌, ◌>>◌, ok_or,
  reject_if, arith, length, is_same,
}
use tesaurus.Bitcoin.{Crates, Transaction}
use tesaurus.Coordinator.Failure.{Error, CoreCheck}
use tesaurus.Coordinator.Rpc.{MempoolResult}

-- `results.first()`
pub first : List MempoolResult → Option MempoolResult
first [] = none
first (x ∷ _) = some x

module _ (lib : Crates) (tx : Transaction) where
  unfoldable pub check_results : List MempoolResult → CoreCheck
  unfolding first
  check_results results = do
    reject_if (not (length results == 1)) Error.spend
    result ← ok_or (first results) Error.spend
    reject_if (not (is_same result.txid (lib.compute_txid tx))) Error.spend
    reject_if (not result.allowed) Error.spend

  -- The one answer that passes: the transaction itself is allowed.
  abbrev pub accepting : List MempoolResult
  accepting = record { txid = lib.compute_txid tx; allowed = true } ∷ []

  one_lem : (r : MempoolResult) → check_results (r ∷ []) ≡ ok tt → (r ∷ []) ≡ accepting
  unfolding check_results first
  one_lem r h = ground arith

  pub check_results-accepting :
      (results : List MempoolResult) → check_results results ≡ ok tt → results ≡ accepting
  unfolding check_results first
  check_results-accepting [] h = ground arith
  check_results-accepting (r ∷ []) h = one_lem r h
  check_results-accepting (r ∷ s ∷ rest) h = ground arith
