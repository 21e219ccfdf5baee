-- ===== src/Policy/Replay/Stored.antt =====
-- The file form of a record in tesaurus-policy/src/replay.rs: texts in hex, and its reading back.
-- The hex and JSON codecs and the text form of an outpoint are parameters; a text is its bytes.
use tesaurus.Prelude.{
  ℕ, ◌≡◌, ◌≢◌, refl, not, Bytes, List, [], ◌∷◌, map, Option, some, arith, ok, ◌>>=◌, ◌>>◌, ok_or,
  reject_if, try_map, try_map-inverse, is_empty, length, ◌==◌, if◌then◌else◌,
}
use tesaurus.Bitcoin.{OutPoint, TxOut}
use tesaurus.Policy.Error.{PolicyErrorCode, PolicyResult}
use tesaurus.Policy.Replay.{ReplayPayload, unsigned, signed, ReplayRecord}

pub record StoredTxOut : Type 0 where
  pub value_sats : ℕ
  pub script_pubkey : Bytes

pub record StoredRecord : Type 0 where
  pub request_id : Bytes
  pub replay_id : Bytes
  pub psbt_txid : Bytes
  pub outpoints : List Bytes
  pub outputs : List StoredTxOut
  pub vault_script : Bytes
  pub outputs_commitment : Bytes
  pub signed_psbt_or_partial : Bytes

pub record StoredFile : Type 0 where
  pub version : ℕ
  pub records : List StoredRecord

-- The codecs of the `hex` and `serde_json` crates, and the text of an outpoint. `Json` is the type of
-- the contents of the records file; `trim_lossy` reads bytes as text and trims white space.
pub record Codec (Json : Type 0) : Type 0 where
  pub hex_encode : Bytes → Bytes
  pub hex_decode : Bytes → Option Bytes
  pub outpoint_to_string : OutPoint → Bytes
  pub outpoint_from_str : Bytes → Option OutPoint
  pub to_json : StoredFile → Option Json
  pub from_json : Json → Option StoredFile
  pub trim_lossy : Bytes → Bytes

-- What the codecs document: each decoder reads back what its encoder wrote, and only the empty byte
-- string is written as the empty text.
pub record IsLossless {Json : Type 0} (codec : Codec Json) : Type 0 where
  pub hex : (b : Bytes) → codec.hex_decode (codec.hex_encode b) ≡ some b
  pub hex_empty : (b : Bytes) → is_empty (codec.hex_encode b) ≡ is_empty b
  pub outpoint : (o : OutPoint) → codec.outpoint_from_str (codec.outpoint_to_string o) ≡ some o
  pub json : (f : StoredFile) (j : Json) → codec.to_json f ≡ some j → codec.from_json j ≡ some f

module _ {Json : Type 0} (codec : Codec Json) where
  pub to_store_hex : ReplayPayload → Bytes
  to_store_hex unsigned = []
  to_store_hex (signed bytes) = codec.hex_encode bytes

  pub from_store_hex : Bytes → PolicyResult ReplayPayload
  from_store_hex hex_str =
      if is_empty hex_str
      then ok unsigned
      else (ok_or (codec.hex_decode hex_str) PolicyErrorCode.internal >>= λ bytes.
          ok (signed bytes))

  -- `hex_array::<N>`
  pub hex_array : ℕ → Bytes → PolicyResult Bytes
  hex_array size hex = do
    bytes ← ok_or (codec.hex_decode hex) PolicyErrorCode.internal
    reject_if (not (length bytes == size)) PolicyErrorCode.internal
    ok bytes

  abbrev output_to_stored : TxOut → StoredTxOut
  output_to_stored o = record {
    value_sats = o.value;
    script_pubkey = codec.hex_encode o.script_pubkey;
  }

  abbrev output_from_stored : StoredTxOut → PolicyResult TxOut
  output_from_stored o =
      ok_or (codec.hex_decode o.script_pubkey) PolicyErrorCode.internal >>= λ script.
      ok (record { value = o.value_sats; script_pubkey = script })

  abbrev outpoint_from_stored : Bytes → PolicyResult OutPoint
  outpoint_from_stored s = ok_or (codec.outpoint_from_str s) PolicyErrorCode.internal

  unfoldable pub to_stored : ReplayRecord → StoredRecord
  to_stored r = record {
    request_id = codec.hex_encode r.request_id;
    replay_id = codec.hex_encode r.replay_id;
    psbt_txid = codec.hex_encode r.psbt_txid;
    outpoints = map codec.outpoint_to_string r.outpoints;
    outputs = map output_to_stored r.outputs;
    vault_script = codec.hex_encode r.vault_script;
    outputs_commitment = codec.hex_encode r.outputs_commitment;
    signed_psbt_or_partial = to_store_hex r.payload;
  }

  pub from_stored : StoredRecord → PolicyResult ReplayRecord
  from_stored stored = do
    outpoints ← try_map outpoint_from_stored stored.outpoints
    outputs ← try_map output_from_stored stored.outputs
    vault_bytes ← ok_or (codec.hex_decode stored.vault_script) PolicyErrorCode.internal
    request_id ← hex_array 16 stored.request_id
    replay_id ← hex_array 32 stored.replay_id
    psbt_txid ← hex_array 32 stored.psbt_txid
    commitment ← hex_array 32 stored.outputs_commitment
    payload ← from_store_hex stored.signed_psbt_or_partial
    ok (record {
      request_id = request_id;
      replay_id = replay_id;
      psbt_txid = psbt_txid;
      outpoints = outpoints;
      outputs = outputs;
      vault_script = vault_bytes;
      outputs_commitment = commitment;
      payload = payload;
    })

-- The widths that the array types of the source give, and a signature that is not empty.
pub record IsStorable (r : ReplayRecord) : Type 0 where
  pub request_width : length r.request_id ≡ 16
  pub replay_width : length r.replay_id ≡ 32
  pub txid_width : length r.psbt_txid ≡ 32
  pub commitment_width : length r.outputs_commitment ≡ 32
  pub not_blank : r.payload ≢ signed []

module _ {Json : Type 0} (codec : Codec Json) (law : IsLossless codec) where
  hex_array-hex_encode :
      (size : ℕ) (b : Bytes) → length b ≡ size → hex_array codec size (codec.hex_encode b) ≡ ok b
  unfolding hex_array
  hex_array-hex_encode size b h = ground (arith, law.hex b)

  from_store_hex-to_store_hex :
      (p : ReplayPayload) → p ≢ signed [] → from_store_hex codec (to_store_hex codec p) ≡ ok p
  unfolding from_store_hex to_store_hex
  from_store_hex-to_store_hex unsigned h = refl
  from_store_hex-to_store_hex (signed []) h = absurd (h refl)
  from_store_hex-to_store_hex (signed (x ∷ xs)) h =
      rw (law.hex_empty (x ∷ xs)) (rw (law.hex (x ∷ xs)))

  output_from_stored-output_to_stored :
      (o : TxOut) → output_from_stored codec (output_to_stored codec o) ≡ ok o
  output_from_stored-output_to_stored o = rw (law.hex o.script_pubkey)

  -- A record of proper widths whose signature is not empty is read back from its file form as it was.
  pub from_stored-to_stored :
      (r : ReplayRecord) → IsStorable r → from_stored codec (to_stored codec r) ≡ ok r
  unfolding from_stored to_stored
  from_stored-to_stored r h = ground (
    arith,
    try_map-inverse (outpoint_from_stored codec) codec.outpoint_to_string (λ o. rw (law.outpoint o))
        r.outpoints,
    try_map-inverse (output_from_stored codec) (output_to_stored codec)
        output_from_stored-output_to_stored r.outputs,
    law.hex r.vault_script,
    hex_array-hex_encode 16 r.request_id h.request_width,
    hex_array-hex_encode 32 r.replay_id h.replay_width,
    hex_array-hex_encode 32 r.psbt_txid h.txid_width,
    hex_array-hex_encode 32 r.outputs_commitment h.commitment_width,
    from_store_hex-to_store_hex r.payload h.not_blank,
  )
