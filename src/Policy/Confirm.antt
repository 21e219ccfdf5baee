-- ===== src/Policy/Confirm.antt =====
-- tesaurus-policy/src/confirm.rs: the confirm token of the override key, and the bytes it signs.
pub mod Preimage
use tesaurus.Prelude.{
  ℕ, zero, suc, ◌/◌, ◌%◌, Bool, not, Bytes, [], ◌∷◌, ◌++◌, length, Result, ◌>>=◌, ◌>>◌, ok_or,
  reject_if, leb, ◌==◌,
}
use mathlib.Core.List.{reverse}
use tesaurus.Bitcoin.{Crates, PublicKey}
use tesaurus.Policy.Constants.{oob_confirm_sats}
use tesaurus.Policy.Error.{PolicyErrorCode, PolicyCheck}

-- `b"TESAURUS_CONFIRM_V1"`
abbrev pub confirm_domain : Bytes
confirm_domain =
    b'T' ∷ b'E' ∷ b'S' ∷ b'A' ∷ b'U' ∷ b'R' ∷ b'U' ∷ b'S' ∷ b'_' ∷ b'C' ∷ b'O' ∷ b'N' ∷ b'F' ∷ b'I'
    ∷ b'R' ∷ b'M' ∷ b'_' ∷ b'V' ∷ b'1' ∷ []

abbrev pub confirm_layout_version : ℕ
confirm_layout_version = 1

pub record ConfirmBinding : Type 0 where
  pub request_id : Bytes
  pub txid_display : Bytes
  pub external_amount_sats : ℕ
  pub genesis_internal : Bytes

pub confirm_required : ℕ → Bool
confirm_required external_amount_sats = leb oob_confirm_sats external_amount_sats

pub txid_display_bytes : Bytes → Bytes
txid_display_bytes txid = reverse txid

-- `to_be_bytes` of a word of `width` bytes
be_bytes : ℕ → ℕ → Bytes
be_bytes zero x = []
be_bytes (suc width) x = be_bytes width (x / 256) ++ x % 256 ∷ []

pub confirm_preimage : ConfirmBinding → Bytes
unfolding be_bytes
confirm_preimage binding =
    confirm_domain
    ++ confirm_layout_version ∷ binding.request_id
    ++ (binding.txid_display
        ++ (be_bytes 8 binding.external_amount_sats ++ binding.genesis_internal))

module _ (lib : Crates) where
  pub confirm_message : ConfirmBinding → Bytes
  confirm_message binding = lib.sha256 (confirm_preimage binding)

  unfoldable pub verify_confirm_token : Bytes → ConfirmBinding → PublicKey → PolicyCheck
  verify_confirm_token token binding override_pubkey = do
    reject_if (not (length token == 64)) PolicyErrorCode.confirm_invalid
    sig ← ok_or (lib.signature_from_compact token) PolicyErrorCode.confirm_invalid
    let digest = confirm_message binding
    reject_if (not (lib.verify_ecdsa digest sig override_pubkey.inner))
        PolicyErrorCode.confirm_invalid
