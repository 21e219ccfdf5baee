-- ===== src/Tests/Histories.antt =====
-- The replay store through commits, failures and restarts.
use tesaurus.Prelude.{
  ◌≡◌, ◌⊎◌, inr, refl, false, Bytes-discrete, [], ◌∷◌, ok, err, try_fold, try_map, AllPairs,
}
use tesaurus.Bitcoin.{OutPoint-discrete}
use tesaurus.Policy.Error.{PolicyErrorCode}
use tesaurus.Policy.Replay.{
  fee_bump, idempotent, outpoints_overlap, outpoints_identical, classify_outputs,
  is_vault_change_only, preflight, require_signed_payload,
}
use tesaurus.Policy.Replay.FeeBump.{Bumps}
use tesaurus.Policy.Replay.Stored.{to_stored}
use tesaurus.Policy.Replay.Store.{all_done, open_store, commit, init}
use tesaurus.Policy.Replay.Store.Durable.{Holds, commit-atomic, commit-Holds}
use tesaurus.Policy.Replay.Store.Reopen.{commit-open_store, commit-failed_retry}
use tesaurus.Policy.Replay.Store.History.{
  commits, Reach, here, next, IsSound, init-IsSound, Reach-Bumps,
}
use tesaurus.Tests.Records.{
  toy, toy-IsLossless, saved, saved_first, saved_second, no_dir, dir_of, store_of, no_rename,
  bump_verdict,
}

commit_second :
    (commit toy all_done
      (store_of (saved 1 999_000 ∷ []))
      (dir_of (saved 1 999_000 ∷ []))
      (saved 2 990_000)).0
    ≡ ok fee_bump
unfolding commit to_stored require_signed_payload preflight Bytes-discrete try_fold
    outpoints_overlap OutPoint-discrete is_vault_change_only outpoints_identical classify_outputs
commit_second = refl

commit-atomic_example :
    ((commit toy no_rename (store_of []) (dir_of []) (saved 1 999_000)).2.records_file
      ≡ (dir_of []).records_file)
    ⊎ (Holds toy
          (commit toy no_rename (store_of []) (dir_of []) (saved 1 999_000)).2
          (saved 1 999_000 ∷ [])
        × ((commit toy no_rename (store_of []) (dir_of []) (saved 1 999_000)).1.records
            ≡ saved 1 999_000 ∷ []))
commit-atomic_example = commit-atomic toy no_rename (store_of []) (dir_of []) (saved 1 999_000)

commit-Holds_example :
    ((commit toy all_done
        (store_of (saved 1 999_000 ∷ []))
        (dir_of (saved 1 999_000 ∷ []))
        (saved 2 990_000)).1.records
      ≡ saved 1 999_000 ∷ saved 2 990_000 ∷ [])
    × Holds toy
        (commit toy all_done
          (store_of (saved 1 999_000 ∷ []))
          (dir_of (saved 1 999_000 ∷ []))
          (saved 2 990_000)).2
        (saved 1 999_000 ∷ saved 2 990_000 ∷ [])
commit-Holds_example =
    commit-Holds toy all_done (store_of (saved 1 999_000 ∷ [])) (dir_of (saved 1 999_000 ∷ []))
      (saved 2 990_000) fee_bump commit_second (inr refl)

commit-open_store_example :
    open_store toy
      (commit toy all_done
        (store_of (saved 1 999_000 ∷ []))
        (dir_of (saved 1 999_000 ∷ []))
        (saved 2 990_000)).2
    ≡ ok
        (commit toy all_done
          (store_of (saved 1 999_000 ∷ []))
          (dir_of (saved 1 999_000 ∷ []))
          (saved 2 990_000)).1
commit-open_store_example =
    commit-open_store toy toy-IsLossless all_done (store_of (saved 1 999_000 ∷ []))
      (dir_of (saved 1 999_000 ∷ [])) (saved 2 990_000) fee_bump (refl, refl)
      (saved_first, (saved_second, tt)) (inr refl) commit_second

commit-failed_retry_example :
    let (result, store', dir') =
      commit toy no_rename
        (store_of (saved 1 999_000 ∷ []))
        (dir_of (saved 1 999_000 ∷ []))
        (saved 2 990_000) in
    let (again, _, dir'') = commit toy all_done store' dir' (saved 2 990_000) in
    (result ≡ err PolicyErrorCode.internal)
    × (again ≡ ok (idempotent (7 ∷ 2 ∷ [])))
    × (dir''.records_file ≡ (dir_of (saved 1 999_000 ∷ [])).records_file)
commit-failed_retry_example =
    commit-failed_retry toy no_rename all_done (store_of (saved 1 999_000 ∷ []))
      (dir_of (saved 1 999_000 ∷ [])) (saved 2 990_000) fee_bump (7 ∷ 2 ∷ []) bump_verdict
      (inr refl) refl refl

made : (init toy all_done no_dir).0 ≡ ok (store_of [])
unfolding init open_store Bytes-discrete try_map
made = refl

made_dir : (init toy all_done no_dir).1 ≡ dir_of []
unfolding init
made_dir = refl

init-IsSound_example :
    ((store_of []).records ≡ [])
    × Holds toy (init toy all_done no_dir).1 []
    × IsSound toy (store_of []) (init toy all_done no_dir).1
init-IsSound_example = init-IsSound toy toy-IsLossless all_done no_dir (store_of []) made

-- A commit that fails on the disk and keeps its record in memory, then the bump of it.
two_spends :
    Reach toy
      (store_of [])
      (init toy all_done no_dir).1
      (commit toy all_done
        (commit toy no_rename (store_of []) (init toy all_done no_dir).1 (saved 1 999_000)).1
        (commit toy no_rename (store_of []) (init toy all_done no_dir).1 (saved 1 999_000)).2
        (saved 2 990_000)).1
      (commit toy all_done
        (commit toy no_rename (store_of []) (init toy all_done no_dir).1 (saved 1 999_000)).1
        (commit toy no_rename (store_of []) (init toy all_done no_dir).1 (saved 1 999_000)).2
        (saved 2 990_000)).2
two_spends =
    next (next here (commits no_rename (saved 1 999_000) saved_first))
      (commits all_done (saved 2 990_000) saved_second)

Reach-Bumps_example :
    AllPairs
      (λ earlier later.
        (outpoints_overlap earlier.outpoints later.outpoints ≡ false) ⊎ Bumps earlier later)
      (commit toy all_done
        (commit toy no_rename (store_of []) (init toy all_done no_dir).1 (saved 1 999_000)).1
        (commit toy no_rename (store_of []) (init toy all_done no_dir).1 (saved 1 999_000)).2
        (saved 2 990_000)).1.records
Reach-Bumps_example = Reach-Bumps toy toy-IsLossless all_done no_dir made two_spends
