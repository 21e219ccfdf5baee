-- ===== src/Policy/Replay/Store.antt =====
-- The replay store of tesaurus-policy/src/replay.rs on its directory. The file system is explicit
-- state, and how each call of it ends is an argument: a write may be refused, or break off with the
-- file holding anything.
pub mod Durable
pub mod Reopen
pub mod History
use Prim.Native.String.{String}
use tesaurus.Prelude.{
  Bool, true, false, not, ◌||◌, Bytes, Bytes-discrete, List, [], ◌∷◌, ◌++◌, map, Option, some, none,
  Result, ok, err, ◌>>=◌, ◌>>◌, ok_or, reject_if, try_map, is_some, ◌==◌, is_same, if◌then◌else◌,
}
use tesaurus.Policy.Error.{PolicyErrorCode, PolicyResult, PolicyCheck}
use tesaurus.Policy.Pin.{codes}
use tesaurus.Policy.Replay.{
  ReplayRecord, ReplayVerdict, fresh, fee_bump, idempotent, preflight, require_signed_payload,
}
use tesaurus.Policy.Replay.Stored.{Codec, StoredFile, to_stored, from_stored}

-- `"TESAURUS_REPLAY_V1\n"`
abbrev pub store_version_tag : Bytes
store_version_tag = codes "TESAURUS_REPLAY_V1" ++ 10 ∷ []

-- The directory of a store: the files VERSION, records.json and records.json.tmp.
pub record Dir (Json : Type 0) : Type 0 where
  pub is_dir : Bool
  pub version_file : Option Bytes
  pub records_file : Option Json
  pub tmp_file : Option Json

-- How `write_private_fsynced` ends: it succeeds, the file cannot be opened, or a later call fails and
-- the file, which was truncated, holds what is given.
pub data WriteEnd (A : Type 0) : Type 0 where
  done refused : WriteEnd A
  broken : A → WriteEnd A

-- How the calls of the file system end in one operation.
pub record Io (Json : Type 0) : Type 0 where
  pub create_dir : Bool
  pub set_permissions : Bool
  pub write_version : WriteEnd Bytes
  pub write_tmp : WriteEnd Json
  pub rename : Bool
  pub sync_dir : Bool

abbrev pub all_done : {Json : Type 0} → Io Json
all_done = record {
  create_dir = true;
  set_permissions = true;
  write_version = done;
  write_tmp = done;
  rename = true;
  sync_dir = true;
}

-- The value in memory: `dir` is the path, so the directory itself is passed beside it.
pub record ReplayStore : Type 0 where
  pub records : List ReplayRecord

abbrev io_check : Bool → PolicyCheck
io_check succeeds = reject_if (not succeeds) PolicyErrorCode.internal

pub write_private_fsynced : {A : Type 0} → WriteEnd A → A → Option A → PolicyCheck × Option A
write_private_fsynced done contents old = (ok tt, some contents)
write_private_fsynced refused contents old = (err PolicyErrorCode.internal, old)
write_private_fsynced (broken rest) contents old = (err PolicyErrorCode.internal, some rest)

module _ {Json : Type 0} (codec : Codec Json) where
  -- The rename that ends `persist_records`, once the temporary file is written.
  rename_tmp : Io Json → Dir Json → PolicyCheck × Dir Json
  rename_tmp io dir =
      if io.rename
      then (ok tt, record dir { records_file = dir.tmp_file; tmp_file = none })
      else (err PolicyErrorCode.internal, dir)

  abbrev stored_file : List ReplayRecord → StoredFile
  stored_file records = record { version = 1; records = map (to_stored codec) records }

  -- `persist_records` behind the serialisation.
  write_records : Io Json → Dir Json → Json → PolicyCheck × Dir Json
  unfolding rename_tmp write_private_fsynced
  write_records io dir json =
      let (written, tmp) = write_private_fsynced io.write_tmp json dir.tmp_file in
      let dir' : Dir Json = record dir { tmp_file = tmp } in
      elim written [ err e ↦ (err e, dir') | ok _ ↦ rename_tmp io dir' ]

  pub persist_records : Io Json → Dir Json → List ReplayRecord → PolicyCheck × Dir Json
  unfolding write_records
  persist_records io dir records = elim (codec.to_json (stored_file records)) [
    | none ↦ (err PolicyErrorCode.internal, dir)
    | some json ↦ write_records io dir json
  ]

  -- `open`: an existing store. Missing or corrupt data refuses all further use.
  unfoldable pub open_store : Dir Json → PolicyResult ReplayStore
  open_store dir = do
    reject_if (not dir.is_dir) PolicyErrorCode.internal
    version ← ok_or dir.version_file PolicyErrorCode.internal
    reject_if (not (is_same (codec.trim_lossy version) (codec.trim_lossy store_version_tag)))
        PolicyErrorCode.internal
    raw ← ok_or dir.records_file PolicyErrorCode.internal
    stored ← ok_or (codec.from_json raw) PolicyErrorCode.internal
    reject_if (not (stored.version == 1)) PolicyErrorCode.internal
    records ← try_map (from_stored codec) stored.records
    ok (record { records = records })

  -- The branches `Fresh` and `FeeBump` of `commit`: the record joins the memory, then the disk.
  append_record :
      Io Json
      → ReplayStore
      → Dir Json
      → ReplayRecord
      → ReplayVerdict
      → PolicyResult ReplayVerdict × ReplayStore × Dir Json
  unfolding persist_records
  append_record io store dir r verdict =
      let records = store.records ++ r ∷ [] in
      let store' : ReplayStore = record { records = records } in
      let (persisted, dir') = persist_records io dir records in
      (persisted >>= (λ _. io_check io.sync_dir >>= λ _. ok verdict), store', dir')

  commit_verdict :
      Io Json
      → ReplayStore
      → Dir Json
      → ReplayRecord
      → ReplayVerdict
      → PolicyResult ReplayVerdict × ReplayStore × Dir Json
  unfolding append_record
  commit_verdict io store dir r (idempotent bytes) = (ok (idempotent bytes), store, dir)
  commit_verdict io store dir r verdict = elim (require_signed_payload r) [
    | err e ↦ (err e, store, dir)
    | ok _ ↦ append_record io store dir r verdict
  ]

  -- `commit`: the result, and the store in memory and on disk after it.
  unfoldable pub commit :
      Io Json
      → ReplayStore
      → Dir Json
      → ReplayRecord
      → PolicyResult ReplayVerdict × ReplayStore × Dir Json
  unfolding commit_verdict
  commit io store dir r = elim (preflight store.records r) [
    | err e ↦ (err e, store, dir)
    | ok verdict ↦ commit_verdict io store dir r verdict
  ]

  -- The part of `init` behind the test that there is no VERSION file yet.
  write_new : Io Json → Dir Json → PolicyResult ReplayStore × Dir Json
  unfolding persist_records write_private_fsynced
  write_new io dir =
      let (tagged, version) =
        write_private_fsynced io.write_version store_version_tag dir.version_file in
      let tagged_dir : Dir Json = record dir { version_file = version } in
      elim tagged [
        | err e ↦ (err e, tagged_dir)
        | ok _ ↦
            let (persisted, dir') = persist_records io tagged_dir [] in
            (persisted >>= (λ _. io_check io.sync_dir >>= λ _. open_store dir'), dir')
      ]

  -- Create a new empty store. Fails if there is a VERSION file already.
  unfoldable pub init : Io Json → Dir Json → PolicyResult ReplayStore × Dir Json
  unfolding write_new
  init io dir =
      if not io.create_dir
      then (err PolicyErrorCode.internal, dir)
      else let made : Dir Json = record dir { is_dir = true } in
        if not io.set_permissions || is_some dir.version_file
        then (err PolicyErrorCode.internal, made)
        else write_new io made
