-- ===== src/Policy/Replay/Store/History.antt =====
-- Every history of a replay store of tesaurus-policy/src/replay.rs: commits in any order, on a file
-- system that may fail at any call, and restarts that read the directory again.
use tesaurus.Prelude.{
  ◌≡◌, ◌⊎◌, inl, inr, false, List, [], ◌∷◌, ◌++◌, ok, All, All-append, AllPairs, AllPairs-map, ◌∙◌,
  arith,
}
use tesaurus.Policy.Replay.{ReplayRecord, outpoints_overlap}
use tesaurus.Policy.Replay.FeeBump.{Bumps, is_vault_change_only_iff}
use tesaurus.Policy.Replay.Preflight.{IsConsistent, Meets}
use tesaurus.Policy.Replay.Stored.{Codec, IsLossless, IsStorable}
use tesaurus.Policy.Replay.Store.{Dir, Io, ReplayStore, open_store, commit, init}
use tesaurus.Policy.Replay.Store.Durable.{Holds, commit-atomic, commit-records, commit-IsConsistent}
use tesaurus.Policy.Replay.Store.Reopen.{IsTagged, commit-IsTagged, open_store-Holds}

module _ {Json : Type 0} (codec : Codec Json) where
  -- One step: a commit of a record of proper widths, or a restart that opens the directory.
  pub data Step (store : ReplayStore) (dir : Dir Json) : ReplayStore → Dir Json → Type 0 where
    commits :
        (io : Io Json) (r : ReplayRecord)
        → IsStorable r
        → Step store dir (commit codec io store dir r).1 (commit codec io store dir r).2
    restarts : {store' : ReplayStore} → open_store codec dir ≡ ok store' → Step store dir store' dir

  pub data Reach (store : ReplayStore) (dir : Dir Json) : ReplayStore → Dir Json → Type 0 where
    here : Reach store dir store dir
    next :
        {s t : ReplayStore} {d e : Dir Json}
        → Reach store dir s d
        → Step s d t e
        → Reach store dir t e

  -- The records in memory and those in the file both keep the invariant.
  pub record IsSound (store : ReplayStore) (dir : Dir Json) : Type 0 where
    pub tagged : IsTagged dir
    pub memory : IsConsistent store.records
    pub storable : All IsStorable store.records
    pub disk :
        (records : List ReplayRecord) × Holds codec dir records
        × IsConsistent records
        × All IsStorable records

  commit-IsStorable :
      (io : Io Json) (store : ReplayStore) (dir : Dir Json) (r : ReplayRecord)
      → All IsStorable store.records
      → IsStorable r
      → All IsStorable (commit codec io store dir r).1.records
  commit-IsStorable io store dir r h w = elim (commit-records codec io store dir r) [
    | inl same ↦ rw same h
    | inr (v, grown, _, _, _) ↦ rw grown (All-append IsStorable store.records (r ∷ []) h (w, tt))
  ]

  commit-IsSound :
      (io : Io Json) (store : ReplayStore) (dir : Dir Json) (r : ReplayRecord)
      → IsSound store dir
      → IsStorable r
      → IsSound (commit codec io store dir r).1 (commit codec io store dir r).2
  commit-IsSound io store dir r k w =
      let memory = commit-IsConsistent codec io store dir r k.memory in
      let storable = commit-IsStorable io store dir r k.storable w in
      record {
        tagged = commit-IsTagged codec io store dir r k.tagged;
        memory = memory;
        storable = storable;
        disk = elim (commit-atomic codec io store dir r) [
          | inl same ↦
              let (records, (json, file, written), consistent, widths) = k.disk in
              (records, (json, same ∙ file, written), consistent, widths)
          | inr (holds, grown) ↦
              (store.records ++ r ∷ [], holds, rw grown at memory, rw grown at storable)
        ];
      }

  restart-IsSound :
      (law : IsLossless codec) (store store' : ReplayStore) (dir : Dir Json)
      → IsSound store dir
      → open_store codec dir ≡ ok store'
      → IsSound store' dir
  restart-IsSound law store store' dir k e =
      let (records, holds, consistent, widths) = k.disk in
      let read : store'.records ≡ records =
        cc (open_store-Holds codec law dir records k.tagged widths holds) in
      record {
        tagged = k.tagged;
        memory = rw read consistent;
        storable = rw read widths;
        disk = k.disk;
      }

  Step-IsSound :
      (law : IsLossless codec) {store : ReplayStore} {dir : Dir Json} {s : ReplayStore}
      {d : Dir Json}
      → Step store dir s d
      → IsSound store dir
      → IsSound s d
  Step-IsSound law {store} {dir} (commits io r w) k = commit-IsSound io store dir r k w
  Step-IsSound law {store} {dir} (restarts {store' = t} e) k = restart-IsSound law store t dir k e

  -- In every history from a sound store and directory, with lossless codecs, the records in memory
  -- and those in the file keep the invariant: no request id twice, spends that meet are fee bumps in
  -- the order of the records, and all are signed.
  pub Reach-IsSound :
      (law : IsLossless codec) {store : ReplayStore} {dir : Dir Json} {s : ReplayStore}
      {d : Dir Json}
      → IsSound store dir
      → Reach store dir s d
      → IsSound s d
  Reach-IsSound law k here = k
  Reach-IsSound law k (next reach step) = Step-IsSound law step (Reach-IsSound law k reach)

  init-Holds :
      (io : Io Json) (dir : Dir Json) (store : ReplayStore)
      → (init codec io dir).0 ≡ ok store
      → IsTagged (init codec io dir).1
        × Holds codec (init codec io dir).1 []
        × (open_store codec (init codec io dir).1 ≡ ok store)
  unfolding init
  init-Holds io dir store h = ground arith

  -- With lossless codecs, a store that `init` returns is empty, the file in its directory then holds
  -- no records, and both are sound.
  pub init-IsSound :
      (law : IsLossless codec) (io : Io Json) (dir : Dir Json) (store : ReplayStore)
      → (init codec io dir).0 ≡ ok store
      → (store.records ≡ [])
        × Holds codec (init codec io dir).1 []
        × IsSound store (init codec io dir).1
  init-IsSound law io dir store h =
      let (tagged, holds, opened) = init-Holds io dir store h in
      let nothing : IsConsistent [] = record { unique = tt; spends = tt; signatures = tt } in
      let empty : store.records ≡ [] =
        cc (opened, open_store-Holds codec law (init codec io dir).1 [] tagged tt holds) in
      (
        empty,
        holds,
        record {
          tagged = tagged;
          memory = rw empty nothing;
          storable = rw empty tt;
          disk = ([], holds, nothing, tt);
        },
      )

  -- Whatever is committed to a store that `init` made, in whatever order, with whatever failures of
  -- the file system and whatever restarts, and with lossless codecs: of two records of the store
  -- that spend a common outpoint, the later one spends exactly the outpoints of the earlier one,
  -- pays the same external output, and only returns less to the vault.
  pub Reach-Bumps :
      (law : IsLossless codec) (io : Io Json) (dir : Dir Json) {store s : ReplayStore}
      {d : Dir Json}
      → (init codec io dir).0 ≡ ok store
      → Reach store (init codec io dir).1 s d
      → AllPairs
          (λ earlier later.
            (outpoints_overlap earlier.outpoints later.outpoints ≡ false) ⊎ Bumps earlier later)
          s.records
  Reach-Bumps law io dir {store} {s} h reach =
      AllPairs-map Meets
        (λ earlier later.
          (outpoints_overlap earlier.outpoints later.outpoints ≡ false) ⊎ Bumps earlier later)
        (λ earlier later m. elim m [
          | inl apart ↦ inl apart
          | inr (bump, _) ↦ inr ((is_vault_change_only_iff earlier later).0 bump)
        ])
        s.records (Reach-IsSound law (init-IsSound law io dir store h).2 reach).memory.spends
