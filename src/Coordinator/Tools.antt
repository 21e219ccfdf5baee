-- ===== src/Coordinator/Tools.antt =====
-- The functions of the crates that only the coordinator (src/*.rs) calls, as a record of parameters. A
-- descriptor, an address, a private key or a text is opaque, shown as some bytes.
use tesaurus.Prelude.{ℕ, Bool, Bytes, List, Option}
use tesaurus.Bitcoin.{Network, PublicKey, EcdsaSignature, Transaction}

pub record Tools : Type 0 where
  pub network_from_str : Bytes → Option Network
  pub network_to_string : Network → Bytes
  pub public_key_from_str : Bytes → Option PublicKey
  pub descriptor_from_str : Bytes → Option Bytes
  pub descriptor_address : Bytes → Network → Option Bytes
  pub address_from_str : Bytes → Option Bytes
  pub address_to_string : Bytes → Bytes
  pub is_valid_for_network : Bytes → Network → Bool
  pub address_script_pubkey : Bytes → Bytes
  pub hex_decode : Bytes → Option Bytes
  pub deserialize_transaction : Bytes → Option Transaction
  pub serialize_hex : Transaction → Bytes
  pub txid_to_string : Bytes → Bytes
  pub vsize : Transaction → ℕ
  pub enable_rbf_no_locktime : ℕ
  pub sequence_from_height : ℕ → ℕ
  pub p2wsh_signature_hash : Transaction → ℕ → Bytes → ℕ → Option Bytes
  pub sign_ecdsa : Bytes → Bytes → Bytes
  pub from_private_key : Bytes → PublicKey
  pub get_satisfaction :
      Bytes → (PublicKey → Option EcdsaSignature) → Bool → Option (List Bytes × Bytes)
  pub private_key_new : Bytes → Network → Bytes
  pub private_key_to_wif : Bytes → Bytes
  pub private_key_from_wif : Bytes → Option Bytes
  pub trim : Bytes → Bytes
