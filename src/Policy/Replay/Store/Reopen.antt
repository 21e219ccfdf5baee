-- ===== src/Policy/Replay/Store/Reopen.antt =====
-- Reading a store of tesaurus-policy/src/replay.rs back from its directory, and what a retry sees
-- after a commit that failed on the disk.
use tesaurus.Prelude.{
  ◌≡◌, ◌⊎◌, refl, true, false, List, [], ◌∷◌, ◌++◌, map, some, arith, ok, err, try_map, All, Bytes,
  sym, ap, ◌∙◌,
}
use tesaurus.Policy.Error.{PolicyErrorCode}
use tesaurus.Policy.Replay.{
  ReplayRecord, signed, ReplayVerdict, fresh, fee_bump, idempotent, preflight,
  require_signed_payload,
}
use tesaurus.Policy.Replay.Preflight.{preflight-retry, require_signed_payload-signed}
use tesaurus.Policy.Replay.Stored.{
  Codec, IsLossless, IsStorable, to_stored, from_stored, from_stored-to_stored,
}
use tesaurus.Policy.Replay.Store.{
  Dir, Io, all_done, ReplayStore, open_store, commit, store_version_tag,
}
use tesaurus.Policy.Replay.Store.Durable.{Holds, commit-Holds}

abbrev pub IsTagged : {Json : Type 0} → Dir Json → Type 0
IsTagged dir = (dir.is_dir ≡ true) × (dir.version_file ≡ some store_version_tag)

module _ {Json : Type 0} (codec : Codec Json) where
  try_map-to_stored :
      (law : IsLossless codec) (records : List ReplayRecord)
      → All IsStorable records
      → try_map (from_stored codec) (map (to_stored codec) records) ≡ ok records
  unfolding try_map
  try_map-to_stored law [] h = refl
  try_map-to_stored law (r ∷ records) h =
      rw (from_stored-to_stored codec law r h.0) (rw (try_map-to_stored law records h.1))

  -- A tagged directory whose records file holds some records opens as the store of those records.
  pub open_store-Holds :
      (law : IsLossless codec) (dir : Dir Json) (records : List ReplayRecord)
      → IsTagged dir
      → All IsStorable records
      → Holds codec dir records
      → open_store codec dir ≡ ok (record { records = records })
  unfolding open_store
  open_store-Holds law dir records tagged h (json, file, written) = ground (
    arith,
    law.json (record { version = 1; records = map (to_stored codec) records }) json written,
    try_map-to_stored law records h,
  )

  pub commit-IsTagged :
      (io : Io Json) (store : ReplayStore) (dir : Dir Json) (r : ReplayRecord)
      → IsTagged dir
      → IsTagged (commit codec io store dir r).2
  unfolding commit
  commit-IsTagged io store dir r h = ground arith

  -- After a commit with a fresh or fee-bump verdict in a tagged directory, opening the directory
  -- gives the store that the commit left in memory, with lossless codecs and records of proper
  -- widths with signatures that are not empty.
  pub commit-open_store :
      (law : IsLossless codec) (io : Io Json) (store : ReplayStore) (dir : Dir Json)
      (r : ReplayRecord) (v : ReplayVerdict)
      → IsTagged dir
      → All IsStorable (store.records ++ r ∷ [])
      → (v ≡ fresh) ⊎ (v ≡ fee_bump)
      → (commit codec io store dir r).0 ≡ ok v
      → open_store codec (commit codec io store dir r).2 ≡ ok (commit codec io store dir r).1
  commit-open_store law io store dir r v tagged h taken e =
      let (grown, holds) = commit-Holds codec io store dir r v e taken in
      let reads =
        open_store-Holds law (commit codec io store dir r).2 (store.records ++ r ∷ [])
          (commit-IsTagged io store dir r tagged) h holds in
      reads ∙ ap ok (λ i. record { records = sym grown i })

  failed_commit :
      (io : Io Json) (store : ReplayStore) (dir : Dir Json) (r : ReplayRecord) (v : ReplayVerdict)
      → preflight store.records r ≡ ok v
      → (v ≡ fresh) ⊎ (v ≡ fee_bump)
      → require_signed_payload r ≡ ok tt
      → io.rename ≡ false
      → ((commit codec io store dir r).0 ≡ err PolicyErrorCode.internal)
        × ((commit codec io store dir r).1.records ≡ store.records ++ r ∷ [])
        × ((commit codec io store dir r).2.records_file ≡ dir.records_file)
  unfolding commit
  failed_commit io store dir r fresh p taken s broken = ground arith
  failed_commit io store dir r fee_bump p taken s broken = ground arith
  failed_commit io store dir r (idempotent b) p taken s broken = ground arith

  idempotent_commit :
      (io : Io Json) (store : ReplayStore) (dir : Dir Json) (r : ReplayRecord) (bytes : Bytes)
      → preflight store.records r ≡ ok (idempotent bytes)
      → commit codec io store dir r ≡ (ok (idempotent bytes), store, dir)
  unfolding commit
  idempotent_commit io store dir r bytes p = ground arith

  -- A commit of a signed record with a good verdict whose rename fails returns an internal error and
  -- leaves the records file as it was, but keeps the record in memory: committing the same record
  -- again then returns its signature with an idempotent verdict, however the disk behaves, and the
  -- records file still is as it was.
  pub commit-failed_retry :
      (io later : Io Json) (store : ReplayStore) (dir : Dir Json) (r : ReplayRecord)
      (v : ReplayVerdict) (bytes : Bytes)
      → preflight store.records r ≡ ok v
      → (v ≡ fresh) ⊎ (v ≡ fee_bump)
      → r.payload ≡ signed bytes
      → io.rename ≡ false
      → let (result, store', dir') = commit codec io store dir r in
        let (again, _, dir'') = commit codec later store' dir' r in
        (result ≡ err PolicyErrorCode.internal)
        × (again ≡ ok (idempotent bytes))
        × (dir''.records_file ≡ dir.records_file)
  commit-failed_retry io later store dir r v bytes p taken s broken =
      let (failed, grown, file) =
        failed_commit io store dir r v p taken (require_signed_payload-signed r bytes s) broken in
      let again =
        idempotent_commit later (commit codec io store dir r).1 (commit codec io store dir r).2 r
          bytes (rw grown (preflight-retry store.records r v bytes p taken s)) in
      (failed, ap (λ x. x.0) again, ap (λ x. x.2.records_file) again ∙ file)

  -- Where the file system does not fail and the serialiser returns, a commit of a signed record with
  -- a good verdict returns that verdict.
  pub commit-all_done :
      (store : ReplayStore) (dir : Dir Json) (r : ReplayRecord) (v : ReplayVerdict) (json : Json)
      → preflight store.records r ≡ ok v
      → (v ≡ fresh) ⊎ (v ≡ fee_bump)
      → require_signed_payload r ≡ ok tt
      → codec.to_json
          (record { version = 1; records = map (to_stored codec) (store.records ++ r ∷ []) })
        ≡ some json
      → (commit codec all_done store dir r).0 ≡ ok v
  unfolding commit
  commit-all_done store dir r fresh json p taken s j = ground arith
  commit-all_done store dir r fee_bump json p taken s j = ground arith
  commit-all_done store dir r (idempotent b) json p taken s j = ground arith
