-- ===== src/Tests/World.antt =====
-- A small world in which the policy runs: toy crates, a pin, a chain and a request.
use tesaurus.Prelude.{ℕ, true, Bytes, Bytes-discrete, List, [], ◌∷◌, Option, some, none, replicate}
use tesaurus.Bitcoin.{
  Crates, Network, OutPoint, OutPoint-discrete, TxOut, TxOut-discrete, Transaction, PublicKey,
  PublicKey-discrete, Psbt, PsbtInput, PsbtOutput,
}
use tesaurus.Policy.Structure.Recovery.{bip68}
use tesaurus.Policy.Facts.{AgentAuth, ChainView}
use tesaurus.Policy.Pin.{AgentPin}
use tesaurus.Policy.Velocity.{VelocitySample}
use tesaurus.Policy.Evaluate.Amounts.{PolicyRequest}

abbrev pub key : ℕ → PublicKey
key n = record { compressed = true; inner = n ∷ [] }

abbrev pub pin : AgentPin
pin = record {
  network = Network.regtest;
  genesis_hash = 9 ∷ [];
  descriptor = [];
  csv_blocks = 10;
  primary_pubkey = key 1;
  override_pubkey = key 2;
  agent_pubkey = key 3;
  safety_margin = 1008;
  velocity_per_sig_sats = 10_000_000;
  velocity_per_144_sats = 50_000_000;
  confirm_threshold_sats = 5_000_000;
  wall_clock_seconds_per_block = 600;
  script_pubkey = 50 ∷ [];
  witness_script = 51 ∷ [];
}

abbrev pub coin : OutPoint
coin = record { txid = 4 ∷ []; vout = 0 }

-- A spend of one coin of 7,000,000 satoshis: 6,000,000 leave the vault, and the change is given.
abbrev pub tx : ℕ → Transaction
tx change = record {
  version = 2;
  lock_time = 0;
  input = record { previous_output = coin; script_sig = []; sequence = 10; witness = [] } ∷ [];
  output =
      record { value = 6_000_000; script_pubkey = 60 ∷ [] }
      ∷ record { value = change; script_pubkey = 50 ∷ [] }
      ∷ [];
}

abbrev pub psbt_input : PsbtInput
psbt_input = record {
  non_witness_utxo = none;
  witness_utxo = some (record { value = 7_000_000; script_pubkey = 50 ∷ [] });
  partial_sigs = [];
  sighash_type = some 1;
  redeem_script = none;
  witness_script = some (51 ∷ []);
  bip32_derivation = (1 ∷ []) ∷ [];
  final_script_sig = none;
  final_script_witness = none;
  ripemd160_preimages = [];
  sha256_preimages = [];
  hash160_preimages = [];
  hash256_preimages = [];
  tap_key_sig = none;
  tap_script_sigs = [];
  tap_scripts = [];
  tap_key_origins = [];
  tap_internal_key = none;
  tap_merkle_root = none;
  proprietary = [];
  unknown = [];
}

abbrev psbt_output : PsbtOutput
psbt_output = record {
  tap_internal_key = none;
  tap_tree = none;
  tap_key_origins = [];
  proprietary = [];
  unknown = [];
}

abbrev pub psbt : ℕ → Psbt
psbt change = record {
  unsigned_tx = tx change;
  version = 0;
  xpub = [];
  proprietary = [];
  unknown = [];
  inputs = psbt_input ∷ [];
  outputs = psbt_output ∷ psbt_output ∷ [];
}

-- The bytes of a PSBT are those of its change, a hash is its input, and every signature verifies.
abbrev parse_change : Bytes → Option Psbt
parse_change (change ∷ []) = some (psbt change)
parse_change _ = none

abbrev second_value : List TxOut → ℕ
second_value (_ ∷ o ∷ _) = o.value
second_value _ = 0

abbrev pub crates : Crates
crates = record {
  sha256 = λ b. b;
  deserialize = parse_change;
  compute_txid = λ t. second_value t.output ∷ [];
  consensus_encode = λ o. some (o.value ∷ o.script_pubkey);
  minimal_non_dust = λ script. 330;
  to_relative_lock_time = bip68;
  psbt_sighash_from = λ ty. 1;
  signature_from_compact = λ token. some token;
  verify_ecdsa = λ digest sig key. true;
  public_key_new = λ inner. record { compressed = true; inner = inner };
  genesis_hash = λ network. 9 ∷ [];
}

abbrev pub chain : ChainView
chain = record {
  genesis_hash = 9 ∷ [];
  tip_height = 2000;
  now_unix = 1_000_000;
  prevouts =
      record {
        outpoint = coin;
        value = 7_000_000;
        script_pubkey = 50 ∷ [];
        confirm_height = 100;
        header_time_unix = 1000;
        visible_unspent = true;
      }
      ∷ [];
}

abbrev pub token : Bytes
token = replicate 64 1

abbrev pub request : ℕ → ℕ → PolicyRequest
request id change = record {
  request_id = id ∷ [];
  psbt_bytes = change ∷ [];
  confirm_token = some token;
  claimed_external_sats = 6_000_000;
}

abbrev pub samples : List VelocitySample
samples =
    record { tip_height = 1990; external_sats = 9_000_000 }
    ∷ record { tip_height = 3; external_sats = 60_000_000 }
    ∷ []

abbrev pub authentic : AgentAuth
authentic = record { ok_mark = true }
