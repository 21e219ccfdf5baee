-- ===== src/Policy/Replay/Store/Durable.antt =====
-- What a commit of tesaurus-policy/src/replay.rs leaves in memory and on disk, however the calls of
-- the file system end.
use tesaurus.Prelude.{
  ◌≡◌, ◌⊎◌, inl, inr, Bytes, List, [], ◌∷◌, ◌++◌, map, some, arith, ok, All-map, Bytes-discrete,
}
use tesaurus.Policy.Replay.{
  ReplayRecord, ReplayVerdict, fresh, fee_bump, idempotent, preflight, require_signed_payload,
}
use tesaurus.Policy.Replay.Preflight.{
  Meets, IsApart, IsConsistent, IsConsistent-snoc, preflight-Means,
}
use tesaurus.Policy.Replay.Stored.{Codec, to_stored}
use tesaurus.Policy.Replay.Store.{Dir, Io, ReplayStore, persist_records, commit}

-- The file holds these records: its contents are what the serialiser made of them.
abbrev pub Holds : {Json : Type 0} → Codec Json → Dir Json → List ReplayRecord → Type 0
Holds {Json} codec dir records =
    (json : Json) × (dir.records_file ≡ some json)
    × (codec.to_json (record { version = 1; records = map (to_stored codec) records }) ≡ some json)

module _ {Json : Type 0} (codec : Codec Json) where
  persist_records-atomic :
      (io : Io Json) (dir : Dir Json) (records : List ReplayRecord)
      → ((persist_records codec io dir records).1.records_file ≡ dir.records_file)
        ⊎ Holds codec (persist_records codec io dir records).1 records
  unfolding persist_records
  persist_records-atomic io dir records = ground arith

  persist_records-Holds :
      (io : Io Json) (dir : Dir Json) (records : List ReplayRecord)
      → (persist_records codec io dir records).0 ≡ ok tt
      → Holds codec (persist_records codec io dir records).1 records
  unfolding persist_records
  persist_records-Holds io dir records h = ground arith

  -- However the calls of the file system end, a commit leaves the records file as it was, or
  -- holding all records of the store in memory before the call with the new one at the end; in the
  -- second case these are the records that are in memory after the call.
  pub commit-atomic :
      (io : Io Json) (store : ReplayStore) (dir : Dir Json) (r : ReplayRecord)
      → ((commit codec io store dir r).2.records_file ≡ dir.records_file)
        ⊎ (Holds codec (commit codec io store dir r).2 (store.records ++ r ∷ [])
            × ((commit codec io store dir r).1.records ≡ store.records ++ r ∷ []))
  unfolding commit
  commit-atomic io store dir r =
      ground (arith, persist_records-atomic io dir (store.records ++ r ∷ []))

  -- A commit that returns a fresh or fee-bump verdict has put the record at the end of the store in
  -- memory, and the records file holds all of that store.
  pub commit-Holds :
      (io : Io Json) (store : ReplayStore) (dir : Dir Json) (r : ReplayRecord) (v : ReplayVerdict)
      → (commit codec io store dir r).0 ≡ ok v
      → (v ≡ fresh) ⊎ (v ≡ fee_bump)
      → ((commit codec io store dir r).1.records ≡ store.records ++ r ∷ [])
        × Holds codec (commit codec io store dir r).2 (store.records ++ r ∷ [])
  unfolding commit
  commit-Holds io store dir r fresh h taken =
      ground (arith, persist_records-Holds io dir (store.records ++ r ∷ []))
  commit-Holds io store dir r fee_bump h taken =
      ground (arith, persist_records-Holds io dir (store.records ++ r ∷ []))
  commit-Holds io store dir r (idempotent bytes) h taken = ground arith

  -- A commit that returns an idempotent verdict has changed neither the
  -- memory nor the directory.
  pub commit-idempotent :
      (io : Io Json) (store : ReplayStore) (dir : Dir Json) (r : ReplayRecord) (bytes : Bytes)
      → (commit codec io store dir r).0 ≡ ok (idempotent bytes)
      → ((commit codec io store dir r).1 ≡ store) × ((commit codec io store dir r).2 ≡ dir)
  unfolding commit
  commit-idempotent io store dir r bytes h = ground arith

  append-IsConsistent :
      (store : ReplayStore) (r : ReplayRecord) (v : ReplayVerdict)
      → IsConsistent store.records
      → preflight store.records r ≡ ok v
      → ((v ≡ fresh) ⊎ (v ≡ fee_bump))
      → require_signed_payload r ≡ ok tt
      → IsConsistent (store.records ++ r ∷ [])
  append-IsConsistent store r fresh k p taken s =
      let (other, apart) = preflight-Means store.records r fresh p in
      IsConsistent-snoc store.records r k other
        (All-map (λ x. IsApart x r) (λ x. Meets x r) (λ x a. inl a) store.records apart) s
  append-IsConsistent store r fee_bump k p taken s =
      let (other, meet, _) = preflight-Means store.records r fee_bump p in
      IsConsistent-snoc store.records r k other meet s
  append-IsConsistent store r (idempotent b) k p taken s = ground arith

  -- A commit leaves the records in memory as they were, or adds the new one on a good verdict.
  pub commit-records :
      (io : Io Json) (store : ReplayStore) (dir : Dir Json) (r : ReplayRecord)
      → ((commit codec io store dir r).1.records ≡ store.records)
        ⊎ ((v : ReplayVerdict) × ((commit codec io store dir r).1.records ≡ store.records ++ r ∷ [])
            × (preflight store.records r ≡ ok v)
            × ((v ≡ fresh) ⊎ (v ≡ fee_bump))
            × (require_signed_payload r ≡ ok tt))
  unfolding commit
  commit-records io store dir r = ground arith

  -- A commit keeps the invariant of the records in memory, whatever its result and however the calls
  -- of the file system end.
  pub commit-IsConsistent :
      (io : Io Json) (store : ReplayStore) (dir : Dir Json) (r : ReplayRecord)
      → IsConsistent store.records
      → IsConsistent (commit codec io store dir r).1.records
  commit-IsConsistent io store dir r k = elim (commit-records io store dir r) [
    | inl same ↦ rw same k
    | inr (v, grown, p, taken, s) ↦ rw grown (append-IsConsistent store r v k p taken s)
  ]
