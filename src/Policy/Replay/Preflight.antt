-- ===== src/Policy/Replay/Preflight.antt =====
-- What a verdict of tesaurus-policy/src/replay.rs says of the records, and the invariant of a store
-- that only takes records with a good verdict.
use tesaurus.Prelude.{
  ◌≡◌, ◌≢◌, ◌⊎◌, inl, inr, Bool, true, false, Bytes, Bytes-discrete, List, [], ◌∷◌, ◌++◌, some,
  none, arith, ok, err, >>=-eq-ok, try_fold, find, is_same, All, All-map, All-append, AllPairs,
  AllPairs-snoc, refl, Option-cases, find-none, find-some, if◌then◌else◌,
}
use tesaurus.Policy.Error.{PolicyErrorCode}
use tesaurus.Policy.Replay.{
  ReplayRecord, signed, signed_bytes, ReplayVerdict, fresh, fee_bump, idempotent, outpoints_overlap,
  is_vault_change_only, retry, meets, preflight, require_signed_payload,
}

-- The spends share no outpoint, or the later one is a fee bump of the earlier one with other outputs.
abbrev pub Meets : ReplayRecord → ReplayRecord → Type 0
Meets earlier later =
    (outpoints_overlap earlier.outpoints later.outpoints ≡ false)
    ⊎ ((is_vault_change_only earlier later ≡ true)
        × (earlier.outputs_commitment ≢ later.outputs_commitment))

abbrev pub IsApart : ReplayRecord → ReplayRecord → Type 0
IsApart earlier later = outpoints_overlap earlier.outpoints later.outpoints ≡ false

abbrev pub IsOther : ReplayRecord → ReplayRecord → Type 0
IsOther earlier later = earlier.request_id ≢ later.request_id

abbrev pub IsSigned : ReplayRecord → Type 0
IsSigned r = (bytes : Bytes) × (r.payload ≡ signed bytes)

-- What a verdict means for the records and a candidate.
abbrev pub Means : List ReplayRecord → ReplayRecord → ReplayVerdict → Type 0
Means records c fresh = All (λ r. IsOther r c) records × All (λ r. IsApart r c) records
Means records c fee_bump =
    All (λ r. IsOther r c) records
    × All (λ r. Meets r c) records
    × ¬ (All (λ r. IsApart r c) records)
Means records c (idempotent bytes) =
    (r : ReplayRecord) × (find (λ (r : ReplayRecord). is_same r.request_id c.request_id) records
      ≡ some r)
    × (r.request_id ≡ c.request_id)
    × (r.replay_id ≡ c.replay_id)
    × (r.payload ≡ signed bytes)

-- The loop over the records returns the flag, raised if it met a bump.
loop_lem :
    (c : ReplayRecord) (saw : Bool) (records : List ReplayRecord) (flag : Bool)
    → try_fold (meets c) saw records ≡ ok flag
    → All (λ r. Meets r c) records
      × (flag ≡ false → (saw ≡ false) × All (λ r. IsApart r c) records)
      × (flag ≡ true → saw ≡ false → ¬ (All (λ r. IsApart r c) records))
unfolding try_fold meets
loop_lem c saw [] flag h = (tt, λ e. (ground arith, tt), λ e k. ground arith)
loop_lem c saw (r ∷ records) flag h =
    ground (arith, loop_lem c saw records flag, loop_lem c true records flag)

retry_lem :
    (r c : ReplayRecord) (v : ReplayVerdict)
    → retry r c ≡ ok v
    → (bytes : Bytes) × (v ≡ idempotent bytes)
      × (r.replay_id ≡ c.replay_id)
      × (r.payload ≡ signed bytes)
unfolding retry signed_bytes
retry_lem r c v h = ground arith

abbrev same_request : ReplayRecord → ReplayRecord → Bool
same_request c r = is_same r.request_id c.request_id

others_of_none :
    (c : ReplayRecord) (records : List ReplayRecord)
    → find (same_request c) records ≡ none
    → All (λ r. IsOther r c) records
others_of_none c records e =
    All-map (λ r. same_request c r ≡ false) (λ r. IsOther r c) (λ r differ. ground arith) records
      (find-none (same_request c) records e)

-- The verdict where no record has the request id.
scan-Means :
    (records : List ReplayRecord) (c : ReplayRecord) (v : ReplayVerdict) (flag : Bool)
    → All (λ r. IsOther r c) records
    → try_fold (meets c) false records ≡ ok flag
    → (if flag then fee_bump else fresh) ≡ v
    → Means records c v
scan-Means records c fresh flag other loop e =
    (other, ground (arith, loop_lem c false records flag loop))
scan-Means records c fee_bump flag other loop e =
    let (all_meet, _, some_meet) = loop_lem c false records flag loop in
    (other, all_meet, some_meet (ground arith) refl)
scan-Means records c (idempotent b) flag other loop e = ground arith

retry-Means :
    (records : List ReplayRecord) (c r : ReplayRecord) (v : ReplayVerdict)
    → find (same_request c) records ≡ some r
    → retry r c ≡ ok v
    → Means records c v
retry-Means records c r fresh found h = ground (arith, retry_lem r c fresh h)
retry-Means records c r fee_bump found h = ground (arith, retry_lem r c fee_bump h)
retry-Means records c r (idempotent b) found h =
    let (bytes, same, id, stored) = retry_lem r c (idempotent b) h in
    (r, found, ground (arith, find-some (same_request c) records r found), id, cc (same, stored))

-- A fresh verdict: no record has the request id, and none shares an outpoint. A fee-bump verdict: no
-- record has the request id, every record that shares an outpoint is one that the candidate bumps,
-- and there is such a record. An idempotent verdict: the bytes are the signature stored with the
-- first record of that request id, and it has the same replay id.
pub preflight-Means :
    (records : List ReplayRecord) (c : ReplayRecord) (v : ReplayVerdict)
    → preflight records c ≡ ok v
    → Means records c v
unfolding preflight
preflight-Means records c v h = elim (Option-cases (find (same_request c) records)) [
  | inr (r, found) ↦ retry-Means records c r v found (rw (found, preflight) at h)
  | inl none_found ↦
      let (flag, loop, e) =
        >>=-eq-ok (try_fold (meets c) false records) (λ saw. ok (if saw then fee_bump else fresh))
          (rw (none_found, preflight) at h) in
      scan-Means records c v flag (others_of_none c records none_found) loop (cc e)
]

-- A request id that is stored with another replay id is a conflict, whatever else the records hold.
pub preflight-conflict :
    (records : List ReplayRecord) (c r : ReplayRecord)
    → find (λ (r : ReplayRecord). is_same r.request_id c.request_id) records ≡ some r
    → r.replay_id ≢ c.replay_id
    → preflight records c ≡ err PolicyErrorCode.replay_conflict
unfolding preflight retry
preflight-conflict records c r e ne = ground arith

-- The store's invariant: no request id twice, spends that meet are bumps in the order of the
-- records, and every record is signed.
pub record IsConsistent (records : List ReplayRecord) : Type 0 where
  pub unique : AllPairs IsOther records
  pub spends : AllPairs Meets records
  pub signatures : All IsSigned records

pub IsConsistent-snoc :
    (records : List ReplayRecord) (c : ReplayRecord)
    → IsConsistent records
    → All (λ r. IsOther r c) records
    → All (λ r. Meets r c) records
    → require_signed_payload c ≡ ok tt
    → IsConsistent (records ++ c ∷ [])
unfolding require_signed_payload
IsConsistent-snoc records c k other meet s = record {
  unique = AllPairs-snoc IsOther records c k.unique other;
  spends = AllPairs-snoc Meets records c k.spends meet;
  signatures = All-append IsSigned records (c ∷ []) k.signatures (ground arith, tt);
}

find-snoc :
    (records : List ReplayRecord) (c : ReplayRecord)
    → All (λ r. IsOther r c) records
    → find (same_request c) (records ++ c ∷ []) ≡ some c
find-snoc [] c h = ground arith
find-snoc (r ∷ records) c h = ground (arith, find-snoc records c h.1)

Means-IsOther :
    (records : List ReplayRecord) (c : ReplayRecord) (v : ReplayVerdict)
    → (v ≡ fresh) ⊎ (v ≡ fee_bump)
    → Means records c v
    → All (λ r. IsOther r c) records
Means-IsOther records c fresh taken m = m.0
Means-IsOther records c fee_bump taken m = m.0
Means-IsOther records c (idempotent b) taken m = ground arith

-- A signed record with a good verdict is an idempotent retry once it stands in the records.
pub preflight-retry :
    (records : List ReplayRecord) (c : ReplayRecord) (v : ReplayVerdict) (bytes : Bytes)
    → preflight records c ≡ ok v
    → (v ≡ fresh) ⊎ (v ≡ fee_bump)
    → c.payload ≡ signed bytes
    → preflight (records ++ c ∷ []) c ≡ ok (idempotent bytes)
preflight-retry records c v bytes p taken s =
    let found =
      find-snoc records c (Means-IsOther records c v taken (preflight-Means records c v p)) in
    unfold preflight retry in ground (arith, found)

pub require_signed_payload-signed :
    (r : ReplayRecord) (bytes : Bytes) → r.payload ≡ signed bytes → require_signed_payload r ≡ ok tt
unfolding require_signed_payload
require_signed_payload-signed r bytes h = ground arith
