-- ===== src/Bitcoin.antt =====
-- What the program uses of the `bitcoin` and `secp256k1` crates: the public fields of their data,
-- and their functions as a record of parameters. A hash, a script, a txid or a key is its bytes; an
-- amount is its number of satoshis; a version, a lock time or a sequence number is the number that
-- stands in the transaction.
use tesaurus.Prelude.{ℕ, Bytes, Bytes-discrete, List, Option, Bool}
use native.Mathlib.Decide.{ℕ_discrete}

-- `other` is any variant of the open enumeration that the program does not name.
pub data Network : Type 0 where
  bitcoin testnet signet regtest other : Network

instance unfoldable pub Network-discrete : Discrete Network
Network-discrete = hlevel

pub record OutPoint : Type 0 where
  pub txid : Bytes
  pub vout : ℕ

pub record TxOut : Type 0 where
  pub value : ℕ
  pub script_pubkey : Bytes

pub record TxIn : Type 0 where
  pub previous_output : OutPoint
  pub script_sig : Bytes
  pub sequence : ℕ
  pub witness : List Bytes

pub record Transaction : Type 0 where
  pub version : ℕ
  pub lock_time : ℕ
  pub input : List TxIn
  pub output : List TxOut

pub record PublicKey : Type 0 where
  pub compressed : Bool
  pub inner : Bytes

instance unfoldable pub OutPoint-discrete : Discrete OutPoint
unfolding Bytes-discrete
OutPoint-discrete = hlevel (Bytes-discrete, ℕ_discrete)

instance unfoldable pub TxOut-discrete : Discrete TxOut
unfolding Bytes-discrete
TxOut-discrete = hlevel (Bytes-discrete, ℕ_discrete)

instance unfoldable pub PublicKey-discrete : Discrete PublicKey
unfolding Bytes-discrete
PublicKey-discrete = hlevel Bytes-discrete

pub data EcdsaSighashType : Type 0 where
  all none single : EcdsaSighashType
  all_plus_anyone_can_pay none_plus_anyone_can_pay single_plus_anyone_can_pay : EcdsaSighashType

instance unfoldable pub EcdsaSighashType-discrete : Discrete EcdsaSighashType
EcdsaSighashType-discrete = hlevel

pub record EcdsaSignature : Type 0 where
  pub signature : Bytes
  pub sighash_type : EcdsaSighashType

-- A map of which only the emptiness counts is the list of its entries.
pub record PsbtInput : Type 0 where
  pub non_witness_utxo : Option Transaction
  pub witness_utxo : Option TxOut
  pub partial_sigs : List (PublicKey × EcdsaSignature)
  pub sighash_type : Option ℕ
  pub redeem_script : Option Bytes
  pub witness_script : Option Bytes
  pub bip32_derivation : List Bytes
  pub final_script_sig : Option Bytes
  pub final_script_witness : Option (List Bytes)
  pub ripemd160_preimages : List Bytes
  pub sha256_preimages : List Bytes
  pub hash160_preimages : List Bytes
  pub hash256_preimages : List Bytes
  pub tap_key_sig : Option Bytes
  pub tap_script_sigs : List Bytes
  pub tap_scripts : List Bytes
  pub tap_key_origins : List Bytes
  pub tap_internal_key : Option Bytes
  pub tap_merkle_root : Option Bytes
  pub proprietary : List Bytes
  pub unknown : List Bytes

pub record PsbtOutput : Type 0 where
  pub tap_internal_key : Option Bytes
  pub tap_tree : Option Bytes
  pub tap_key_origins : List Bytes
  pub proprietary : List Bytes
  pub unknown : List Bytes

pub record Psbt : Type 0 where
  pub unsigned_tx : Transaction
  pub version : ℕ
  pub xpub : List Bytes
  pub proprietary : List Bytes
  pub unknown : List Bytes
  pub inputs : List PsbtInput
  pub outputs : List PsbtOutput

-- A relative lock in blocks, or in units of 512 seconds.
pub data RelativeLockTime : Type 0 where
  blocks time : ℕ → RelativeLockTime

-- The functions that the policy calls. A function that may fail returns an option.
pub record Crates : Type 0 where
  pub sha256 : Bytes → Bytes
  pub deserialize : Bytes → Option Psbt
  pub compute_txid : Transaction → Bytes
  pub consensus_encode : TxOut → Option Bytes
  pub minimal_non_dust : Bytes → ℕ
  pub to_relative_lock_time : ℕ → Option RelativeLockTime
  pub psbt_sighash_from : EcdsaSighashType → ℕ
  pub signature_from_compact : Bytes → Option Bytes
  pub verify_ecdsa : Bytes → Bytes → Bytes → Bool
  pub public_key_new : Bytes → PublicKey
  pub genesis_hash : Network → Bytes

-- The functions of the `miniscript` crate. A policy, a compiled script and a descriptor are opaque
-- values, each shown as some bytes.
pub record Miniscript : Type 0 where
  pub display_key : PublicKey → Bytes
  pub policy_from_str : Bytes → Option Bytes
  pub compile : Bytes → Option Bytes
  pub new_wsh : Bytes → Option Bytes
  pub sanity_check : Bytes → Bool
  pub explicit_script : Bytes → Option Bytes
  pub script_pubkey : Bytes → Bytes
  pub to_string : Bytes → Bytes
