-- ===== src/Policy/Replay.antt =====
-- tesaurus-policy/src/replay.rs: the records of signed spends, and the verdict on a new one. The
-- children hold the store on disk (`Store`) and the theorems.
pub mod FeeBump
pub mod Preflight
pub mod Signing
pub mod Stored
pub mod Store
use tesaurus.Prelude.{
  ℕ, Bool, true, false, not, ◌&&◌, ◌||◌, Bytes, Bytes-discrete, List, [], ◌∷◌, ◌++◌, map, Option,
  some, none, Result, ok, err, ◌>>=◌, ok_or, reject_if, try_fold, is_empty, any, all, keep, find,
  contains, ltb, ◌==◌, is_same, if◌then◌else◌,
}
use tesaurus.Bitcoin.{Crates, OutPoint, OutPoint-discrete, TxOut, TxIn, Psbt}
use tesaurus.Policy.Error.{PolicyErrorCode, PolicyResult, PolicyCheck}
use tesaurus.Policy.Pin.{AgentPin}

pub data ReplayPayload : Type 0 where
  unsigned : ReplayPayload
  signed : Bytes → ReplayPayload

pub signed_bytes : ReplayPayload → Option Bytes
signed_bytes unsigned = none
signed_bytes (signed bytes) = some bytes

pub record ReplayRecord : Type 0 where
  pub request_id : Bytes
  pub replay_id : Bytes
  pub psbt_txid : Bytes
  pub outpoints : List OutPoint
  pub outputs : List TxOut
  pub vault_script : Bytes
  pub outputs_commitment : Bytes
  pub payload : ReplayPayload

pub data ReplayVerdict : Type 0 where
  fresh fee_bump : ReplayVerdict
  idempotent : Bytes → ReplayVerdict

module _ (lib : Crates) where
  pub psbt_content_hash : Bytes → Bytes
  psbt_content_hash psbt_bytes = lib.sha256 psbt_bytes

  -- `replay_id`: the three fields have fixed widths and fill the buffer in this order.
  pub replay_id : Bytes → Bytes → Bytes → Bytes
  replay_id request_id psbt_txid content = lib.sha256 (request_id ++ (psbt_txid ++ content))

  -- The body of the loop of `outputs_commitment`.
  append_output : Bytes → TxOut → PolicyResult Bytes
  append_output buf txout =
      ok_or (lib.consensus_encode txout) PolicyErrorCode.internal >>= λ encoded. ok (buf ++ encoded)

  pub outputs_commitment : List TxOut → PolicyResult Bytes
  unfolding append_output
  outputs_commitment outputs = do buf ← try_fold append_output [] outputs; ok (lib.sha256 buf)

  unfoldable pub from_pin : AgentPin → Bytes → Psbt → Bytes → PolicyResult ReplayRecord
  unfolding psbt_content_hash replay_id outputs_commitment
  from_pin pin request_id psbt psbt_bytes = do
    let tx = psbt.unsigned_tx
    let psbt_txid = lib.compute_txid tx
    let content = psbt_content_hash psbt_bytes
    commitment ← outputs_commitment tx.output
    ok (record {
      request_id = request_id;
      replay_id = replay_id request_id psbt_txid content;
      psbt_txid = psbt_txid;
      outpoints = map (λ (i : TxIn). i.previous_output) tx.input;
      outputs = tx.output;
      vault_script = pin.script_pubkey;
      outputs_commitment = commitment;
      payload = unsigned;
    })

unfoldable pub attach_signed : ReplayRecord → Bytes → PolicyResult ReplayRecord
attach_signed r signed_psbt_or_partial =
    if is_empty signed_psbt_or_partial
    then err PolicyErrorCode.internal
    else ok (record r { payload = signed signed_psbt_or_partial })

-- The sets collected from two slices meet, and are equal and not empty.
unfoldable pub outpoints_overlap : List OutPoint → List OutPoint → Bool
outpoints_overlap a b = any (λ op. contains a op) b

unfoldable pub outpoints_identical : List OutPoint → List OutPoint → Bool
outpoints_identical a b =
    not (is_empty a) && (all (λ op. contains b op) a && all (λ op. contains a op) b)

pub record ClassifiedOutputs : Type 0 where
  pub external : TxOut
  pub change_sats : ℕ

-- `changes.first().map(value).unwrap_or(0)`
abbrev pub first_value : List TxOut → ℕ
first_value [] = 0
first_value (c ∷ _) = c.value

abbrev pub is_change : Bytes → TxOut → Bool
is_change vault_script output = is_same output.script_pubkey vault_script

-- The tests `externals.len() != 1 || changes.len() > 1` on the two lists, as patterns.
unfoldable pub classified : List TxOut → List TxOut → Option ClassifiedOutputs
classified (e ∷ []) [] = some (record { external = e; change_sats = 0 })
classified (e ∷ []) (c ∷ []) = some (record { external = e; change_sats = c.value })
classified _ _ = none

unfoldable pub classify_outputs : List TxOut → Bytes → Option ClassifiedOutputs
unfolding classified
classify_outputs outputs vault_script =
    classified (keep (λ o. not (is_change vault_script o)) outputs)
      (keep (is_change vault_script) outputs)

-- The comparisons of `is_vault_change_only` once both sides are classified.
unfoldable pub change_decreased : Option ClassifiedOutputs → Option ClassifiedOutputs → Bool
change_decreased (some prev) (some cand) =
    is_same prev.external.script_pubkey cand.external.script_pubkey
    && (prev.external.value == cand.external.value && ltb cand.change_sats prev.change_sats)
change_decreased _ _ = false

unfoldable pub is_vault_change_only : ReplayRecord → ReplayRecord → Bool
unfolding change_decreased
is_vault_change_only previous candidate =
    outpoints_identical previous.outpoints candidate.outpoints
    && (is_same previous.vault_script candidate.vault_script
        && change_decreased (classify_outputs previous.outputs previous.vault_script)
            (classify_outputs candidate.outputs candidate.vault_script))

-- The first branch of `preflight`: a record with the same request id.
retry : ReplayRecord → ReplayRecord → PolicyResult ReplayVerdict
unfolding signed_bytes
retry existing candidate =
    if is_same existing.replay_id candidate.replay_id
    then (ok_or (signed_bytes existing.payload) PolicyErrorCode.internal >>= λ bytes.
        ok (idempotent bytes))
    else err PolicyErrorCode.replay_conflict

-- The body of the loop over the records, with the flag `saw_fee_bump`.
meets : ReplayRecord → Bool → ReplayRecord → PolicyResult Bool
meets candidate saw_fee_bump existing =
    if not (outpoints_overlap existing.outpoints candidate.outpoints)
    then ok saw_fee_bump
    else if is_same existing.outputs_commitment candidate.outputs_commitment
    then err PolicyErrorCode.replay
    else if is_vault_change_only existing candidate
    then ok true
    else err PolicyErrorCode.replay

unfoldable pub preflight : List ReplayRecord → ReplayRecord → PolicyResult ReplayVerdict
unfolding retry meets
preflight records candidate =
    elim (find (λ (r : ReplayRecord). is_same r.request_id candidate.request_id) records) [
      | some existing ↦ retry existing candidate
      | none ↦ try_fold (meets candidate) false records >>= λ saw_fee_bump.
          ok (if saw_fee_bump then fee_bump else fresh)
    ]

unfoldable pub require_signed_payload : ReplayRecord → PolicyCheck
require_signed_payload r = elim r.payload [
  | unsigned ↦ err PolicyErrorCode.internal
  | signed _ ↦ ok tt
]
