-- ===== src/Tests/Records.antt =====
-- The replay store at work: two spends of one coin committed to a directory, failures, restarts.
use tesaurus.Prelude.{
  ℕ, ◌≡◌, ◌≢◌, ◌↔◌, refl, sym, true, false, Bytes, Bytes-discrete, List, [], ◌∷◌, map, Option, some,
  none, arith, ok, try_fold, replicate,
}
use tesaurus.Bitcoin.{OutPoint, OutPoint-discrete}
use tesaurus.Policy.Replay.{
  ReplayRecord, signed, fresh, fee_bump, outpoints_overlap, outpoints_identical, classify_outputs,
  is_vault_change_only, preflight, require_signed_payload,
}
use tesaurus.Policy.Replay.FeeBump.{Bumps, is_vault_change_only_iff}
use tesaurus.Policy.Replay.Preflight.{Means, preflight-Means}
use tesaurus.Policy.Replay.Stored.{
  Codec, IsLossless, IsStorable, StoredFile, to_stored, from_stored, from_stored-to_stored,
}
use tesaurus.Policy.Replay.Store.{Dir, Io, all_done, ReplayStore, store_version_tag, commit}
use tesaurus.Tests.World.{coin, tx}

-- A codec that keeps a file as it is.
abbrev outpoint_of : Bytes → Option OutPoint
outpoint_of [] = none
outpoint_of (vout ∷ txid) = some (record { txid = txid; vout = vout })

abbrev pub toy : Codec StoredFile
toy = record {
  hex_encode = λ b. b;
  hex_decode = λ b. some b;
  outpoint_to_string = λ (o : OutPoint). o.vout ∷ o.txid;
  outpoint_from_str = outpoint_of;
  to_json = λ f. some f;
  from_json = λ f. some f;
  trim_lossy = λ b. b;
}

pub toy-IsLossless : IsLossless toy
toy-IsLossless = record {
  hex = λ b. refl;
  hex_empty = λ b. refl;
  outpoint = λ o. refl;
  json = λ f j h. sym h;
}

-- A signed record whose change is given, with fields of their widths.
abbrev pub saved : ℕ → ℕ → ReplayRecord
saved id change = record {
  request_id = replicate 16 id;
  replay_id = replicate 32 id;
  psbt_txid = replicate 32 id;
  outpoints = coin ∷ [];
  outputs = (tx change).output;
  vault_script = 50 ∷ [];
  outputs_commitment = replicate 32 change;
  payload = signed (7 ∷ id ∷ []);
}

saved_signature : (id : ℕ) → signed (7 ∷ id ∷ []) ≢ signed []
saved_signature id h = ground arith

pub saved_first : IsStorable (saved 1 999_000)
saved_first = record {
  request_width = refl;
  replay_width = refl;
  txid_width = refl;
  commitment_width = refl;
  not_blank = saved_signature 1;
}

pub saved_second : IsStorable (saved 2 990_000)
saved_second = record {
  request_width = refl;
  replay_width = refl;
  txid_width = refl;
  commitment_width = refl;
  not_blank = saved_signature 2;
}

abbrev pub no_dir : Dir StoredFile
no_dir = record { is_dir = false; version_file = none; records_file = none; tmp_file = none }

-- The directory that holds these records.
abbrev pub dir_of : List ReplayRecord → Dir StoredFile
dir_of records = record {
  is_dir = true;
  version_file = some store_version_tag;
  records_file = some (record { version = 1; records = map (to_stored toy) records });
  tmp_file = none;
}

abbrev pub store_of : List ReplayRecord → ReplayStore
store_of records = record { records = records }

-- The last rename fails.
abbrev pub no_rename : Io StoredFile
no_rename = record (all_done {Json = StoredFile}) { rename = false }

commit_first :
    commit toy all_done (store_of []) (dir_of []) (saved 1 999_000)
    ≡ (ok fresh, store_of (saved 1 999_000 ∷ []), dir_of (saved 1 999_000 ∷ []))
unfolding commit preflight to_stored try_fold Bytes-discrete require_signed_payload
commit_first = refl

pub bump_verdict : preflight (saved 1 999_000 ∷ []) (saved 2 990_000) ≡ ok fee_bump
unfolding preflight try_fold outpoints_overlap outpoints_identical classify_outputs
    is_vault_change_only Bytes-discrete OutPoint-discrete
bump_verdict = refl

is_bump : is_vault_change_only (saved 1 999_000) (saved 2 990_000) ≡ true
unfolding outpoints_identical classify_outputs is_vault_change_only Bytes-discrete OutPoint-discrete
is_bump = refl

bump_again : is_vault_change_only (saved 2 990_000) (saved 3 980_000) ≡ true
unfolding outpoints_identical classify_outputs is_vault_change_only Bytes-discrete OutPoint-discrete
bump_again = refl

is_vault_change_only_iff_example :
    (is_vault_change_only (saved 1 999_000) (saved 2 990_000) ≡ true)
    ↔ Bumps (saved 1 999_000) (saved 2 990_000)
is_vault_change_only_iff_example = is_vault_change_only_iff (saved 1 999_000) (saved 2 990_000)

preflight-Means_example : Means (saved 1 999_000 ∷ []) (saved 2 990_000) fee_bump
preflight-Means_example =
    preflight-Means (saved 1 999_000 ∷ []) (saved 2 990_000) fee_bump bump_verdict

other_replay : (saved 1 999_000).replay_id ≢ (saved 2 999_000).replay_id
other_replay h = ground arith

from_stored-to_stored_example :
    from_stored toy (to_stored toy (saved 1 999_000)) ≡ ok (saved 1 999_000)
from_stored-to_stored_example =
    from_stored-to_stored toy toy-IsLossless (saved 1 999_000) saved_first
