-- ===== src/Policy/Evaluate/Machine/Lifecycle.antt =====
-- A request's way through `evaluate`, `attach_signed` and `commit` of tesaurus-policy: rejection,
-- validation, signing, and the honest retry.
use tesaurus.Prelude.{
  ◌≡◌, ap, sym, ◌∙◌, true, false, Bytes, List, [], ◌∷◌, ◌++◌, map, some, arith, ok, err, find,
  is_same, Bytes-discrete,
}
use tesaurus.Bitcoin.{Crates, Psbt}
use tesaurus.Policy.Error.{PolicyErrorCode}
use tesaurus.Policy.Facts.{AgentAuth, is_ok, ChainView}
use tesaurus.Policy.Pin.{AgentPin}
use tesaurus.Policy.Structure.{parse_psbt_v0, require_no_unknown_psbt_fields}
use tesaurus.Policy.Structure.Shape.{parse_psbt_v0_iff}
use tesaurus.Policy.Replay.{ReplayRecord, signed, ReplayVerdict, from_pin, preflight, attach_signed}
use tesaurus.Policy.Replay.Preflight.{
  preflight-Means, preflight-retry, require_signed_payload-signed,
}
use tesaurus.Policy.Replay.Stored.{Codec, to_stored}
use tesaurus.Policy.Replay.Store.{Dir, all_done, ReplayStore, commit}
use tesaurus.Policy.Replay.Store.Durable.{Holds, commit-Holds}
use tesaurus.Policy.Replay.Store.Reopen.{commit-all_done}
use tesaurus.Policy.Replay.Signing.{preflight-payload, attach_signed_lem, from_pin_lem, taken_lem}
use tesaurus.Policy.Velocity.{VelocitySample}
use tesaurus.Policy.Evaluate.Amounts.{PolicyRequest, AmountBreakdown}
use tesaurus.Policy.Evaluate.Machine.{PolicyOutcome, validated_unsigned, evaluate}
use tesaurus.Policy.Evaluate.Machine.Sound.{evaluate_lem}

module _ (lib : Crates) (pin : AgentPin) (request : PolicyRequest) where
  -- A request whose authentication failed is rejected with the code for it, whatever else it holds.
  pub evaluate-auth :
      (chain : ChainView) (records : List ReplayRecord) (samples : List VelocitySample)
      (auth : AgentAuth)
      → is_ok auth ≡ false
      → evaluate lib pin request chain records samples auth ≡ err PolicyErrorCode.auth
  unfolding evaluate
  evaluate-auth chain records samples auth h = ground arith

  -- An authentic request whose bytes parse without unknown fields, and whose record has an idempotent
  -- verdict, is answered with the stored signature.
  idempotent_answer :
      (chain : ChainView) (records : List ReplayRecord) (samples : List VelocitySample)
      (auth : AgentAuth) (psbt : Psbt) (r : ReplayRecord) (bytes : Bytes)
      → is_ok auth ≡ true
      → parse_psbt_v0 lib request.psbt_bytes ≡ ok psbt
      → require_no_unknown_psbt_fields psbt ≡ ok tt
      → from_pin lib pin request.request_id psbt request.psbt_bytes ≡ ok r
      → preflight records r ≡ ok (ReplayVerdict.idempotent bytes)
      → evaluate lib pin request chain records samples auth ≡ ok (PolicyOutcome.idempotent bytes)
  unfolding evaluate
  idempotent_answer chain records samples auth psbt r bytes a p k c v = ground arith

  idempotent_lem :
      (chain : ChainView) (records : List ReplayRecord) (samples : List VelocitySample)
      (auth : AgentAuth) (bytes : Bytes)
      → evaluate lib pin request chain records samples auth ≡ ok (PolicyOutcome.idempotent bytes)
      → (is_ok auth ≡ true)
        × ((psbt : Psbt) × (parse_psbt_v0 lib request.psbt_bytes ≡ ok psbt)
            × ((r : ReplayRecord) × (from_pin lib pin request.request_id psbt request.psbt_bytes
                  ≡ ok r)
                × (preflight records r ≡ ok (ReplayVerdict.idempotent bytes))))
  unfolding evaluate
  idempotent_lem chain records samples auth bytes h = ground arith

  -- A cached answer is given only to an authentic request, and it is the signature stored with a
  -- record of the same request id and with the replay id of this transaction and these PSBT bytes.
  pub evaluate-idempotent :
      (chain : ChainView) (records : List ReplayRecord) (samples : List VelocitySample)
      (auth : AgentAuth) (bytes : Bytes)
      → evaluate lib pin request chain records samples auth ≡ ok (PolicyOutcome.idempotent bytes)
      → (is_ok auth ≡ true)
        × ((psbt : Psbt) × (lib.deserialize request.psbt_bytes ≡ some psbt)
            × ((stored : ReplayRecord) × (find
                    (λ (r : ReplayRecord). is_same r.request_id request.request_id)
                    records
                  ≡ some stored)
                × (stored.replay_id
                    ≡ lib.sha256 (
                        request.request_id
                        ++ (lib.compute_txid psbt.unsigned_tx ++ lib.sha256 request.psbt_bytes)))
                × (stored.payload ≡ signed bytes)))
  evaluate-idempotent chain records samples auth bytes h =
      let (authentic, (psbt, parsed, (r, made, verdict))) =
        idempotent_lem chain records samples auth bytes h in
      let (input, _) = (parse_psbt_v0_iff lib request.psbt_bytes psbt).0 parsed in
      let (same, replay, _, _, _, _) =
        from_pin_lem lib pin request.request_id psbt request.psbt_bytes r made in
      let (stored, found, _, id, payload) =
        preflight-Means records r (ReplayVerdict.idempotent bytes) verdict in
      (authentic, (psbt, input, (stored, rw same at found, id ∙ replay, payload)))

  -- Once a validated request was signed and its record stands at the end of the records, the same
  -- request is answered with that signature, whatever the chain and the samples are by then.
  pub evaluate-retry :
      (chain later : ChainView) (records : List ReplayRecord)
      (samples samples' : List VelocitySample) (auth : AgentAuth) (v : ReplayVerdict)
      (r s : ReplayRecord) (a : AmountBreakdown) (bytes : Bytes)
      → evaluate lib pin request chain records samples auth ≡ ok (validated_unsigned v r a)
      → attach_signed r bytes ≡ ok s
      → evaluate lib pin request later (records ++ s ∷ []) samples' auth
        ≡ ok (PolicyOutcome.idempotent bytes)
  evaluate-retry chain later records samples samples' auth v r s a bytes h signs =
      let p = evaluate_lem lib pin request chain records samples auth v r a h in
      let (same, _) = attach_signed_lem r s bytes signs in
      let blind =
        λ (l : List ReplayRecord). ap (preflight l) same ∙ preflight-payload l r (signed bytes) in
      let stored =
        preflight-retry records s v bytes (blind records ∙ p.verdict) (taken_lem v p.not_cached)
          (ap (λ (x : ReplayRecord). x.payload) same) in
      idempotent_answer later (records ++ s ∷ []) samples' auth p.psbt r bytes p.authentic p.parsed
        p.known p.candidate (sym (blind (records ++ s ∷ [])) ∙ stored)

  -- A validated request that was signed can be committed: where the file system does not fail and the
  -- serialiser returns, the commit returns the verdict of the validation, and the records file holds
  -- the new record behind the old ones.
  pub evaluate-commit :
      {Json : Type 0} (codec : Codec Json) (chain : ChainView) (store : ReplayStore)
      (dir : Dir Json) (samples : List VelocitySample) (auth : AgentAuth) (v : ReplayVerdict)
      (r s : ReplayRecord) (a : AmountBreakdown) (bytes : Bytes) (json : Json)
      → evaluate lib pin request chain store.records samples auth ≡ ok (validated_unsigned v r a)
      → attach_signed r bytes ≡ ok s
      → codec.to_json
          (record { version = 1; records = map (to_stored codec) (store.records ++ s ∷ []) })
        ≡ some json
      → ((commit codec all_done store dir s).0 ≡ ok v)
        × Holds codec (commit codec all_done store dir s).2 (store.records ++ s ∷ [])
  evaluate-commit codec chain store dir samples auth v r s a bytes json h signs j =
      let p = evaluate_lem lib pin request chain store.records samples auth v r a h in
      let (same, _) = attach_signed_lem r s bytes signs in
      let verdict =
        ap (preflight store.records) same
        ∙ preflight-payload store.records r (signed bytes)
        ∙ p.verdict in
      let taken = taken_lem v p.not_cached in
      let payload = ap (λ (x : ReplayRecord). x.payload) same in
      let committed =
        commit-all_done codec store dir s v json verdict taken
          (require_signed_payload-signed s bytes payload) j in
      (committed, (commit-Holds codec all_done store dir s v committed taken).1)
