-- ===== src/Policy/Replay/Signing.antt =====
-- How a record of tesaurus-policy/src/replay.rs comes about: made from a PSBT, then signed.
use tesaurus.Prelude.{◌≡◌, ◌≢◌, refl, ◌⊎◌, inl, inr, Bytes, List, [], ◌++◌, map, arith, ok}
use tesaurus.Bitcoin.{Crates, TxIn, Psbt}
use tesaurus.Policy.Pin.{AgentPin}
use tesaurus.Policy.Replay.{
  ReplayRecord, ReplayPayload, unsigned, signed, ReplayVerdict, fresh, fee_bump, idempotent,
  is_vault_change_only, from_pin, preflight, attach_signed,
}

-- The verdict does not look at the payload of the candidate.
pub preflight-payload :
    (records : List ReplayRecord) (c : ReplayRecord) (p : ReplayPayload)
    → preflight records (record c { payload = p }) ≡ preflight records c
unfolding preflight is_vault_change_only
preflight-payload records c p = refl

-- What `attach_signed` returns: the record with a signature that is not empty.
pub attach_signed_lem :
    (r s : ReplayRecord) (bytes : Bytes)
    → attach_signed r bytes ≡ ok s
    → (s ≡ record r { payload = signed bytes }) × (bytes ≢ [])
unfolding attach_signed
attach_signed_lem r s bytes h = (ground arith, ground arith)

-- What `from_pin` makes of a PSBT: an unsigned record of its transaction, with the pin's vault.
pub from_pin_lem :
    (lib : Crates) (pin : AgentPin) (request_id : Bytes) (psbt : Psbt) (bytes : Bytes)
    (r : ReplayRecord)
    → from_pin lib pin request_id psbt bytes ≡ ok r
    → (r.request_id ≡ request_id)
      × (r.replay_id
          ≡ lib.sha256 (request_id ++ (lib.compute_txid psbt.unsigned_tx ++ lib.sha256 bytes)))
      × (r.outpoints ≡ map (λ (i : TxIn). i.previous_output) psbt.unsigned_tx.input)
      × (r.outputs ≡ psbt.unsigned_tx.output)
      × (r.vault_script ≡ pin.script_pubkey)
      × (r.payload ≡ unsigned)
unfolding from_pin
from_pin_lem lib pin request_id psbt bytes r h = ground arith

-- A verdict that is not idempotent lets the record in.
pub taken_lem :
    (v : ReplayVerdict) → ((bytes : Bytes) → v ≢ idempotent bytes) → (v ≡ fresh) ⊎ (v ≡ fee_bump)
taken_lem fresh h = inl refl
taken_lem fee_bump h = inr refl
taken_lem (idempotent bytes) h = absurd (h bytes refl)
