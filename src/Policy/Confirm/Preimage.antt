-- ===== src/Policy/Confirm/Preimage.antt =====
-- The signed bytes of tesaurus-policy/src/confirm.rs determine the binding.
use tesaurus.Prelude.{
  sym, ◌∙◌, ℕ, zero, suc, ◌/◌, ◌%◌, ◌^◌, ◌<◌, ◌≡◌, refl, ◌↔◌, true, some, Bytes, [], ◌∷◌, ◌++◌,
  arith, ok, length, length-append, u64_size,
}
use native.Mathlib.Nat.{pow-suc}
use tesaurus.Bitcoin.{Crates, PublicKey}
use tesaurus.Policy.Confirm.{
  ConfirmBinding, be_bytes, confirm_preimage, confirm_message, verify_confirm_token,
}

-- The fixed widths of the fields, which the array types of the source give.
pub record IsSized (b : ConfirmBinding) : Type 0 where
  pub request_id : length b.request_id ≡ 16
  pub txid_display : length b.txid_display ≡ 32
  pub amount : b.external_amount_sats < u64_size
  pub genesis_internal : length b.genesis_internal ≡ 32

append_injective :
    (xs us ys vs : Bytes) → length xs ≡ length ys → (xs ++ us) ≡ (ys ++ vs) → (xs ≡ ys) × (us ≡ vs)
append_injective [] us [] vs h e = (refl, e)
append_injective [] us (y ∷ ys) vs h e = absurd (omega arith)
append_injective (x ∷ xs) us [] vs h e = absurd (omega arith)
append_injective (x ∷ xs) us (y ∷ ys) vs h e = ground (arith, append_injective xs us ys vs)

length-be_bytes : (width x : ℕ) → length (be_bytes width x) ≡ width
unfolding be_bytes
length-be_bytes zero x = refl
length-be_bytes (suc width) x = omega (
  arith,
  length-be_bytes width (x / 256),
  length-append (be_bytes width (x / 256)) (x % 256 ∷ []),
)

be_bytes_injective :
    (width x y : ℕ)
    → be_bytes width x ≡ be_bytes width y
    → x < 256 ^ width
    → y < 256 ^ width
    → x ≡ y
unfolding be_bytes
be_bytes_injective zero x y e hx hy = omega arith
be_bytes_injective (suc width) x y e hx hy =
    let (high, low) =
      append_injective (be_bytes width (x / 256)) (x % 256 ∷ []) (be_bytes width (y / 256))
        (y % 256 ∷ []) (length-be_bytes width (x / 256) ∙ sym (length-be_bytes width (y / 256)))
        e in
    let last : x % 256 ≡ y % 256 = cc low in
    omega (
      arith,
      pow-suc 256 width,
      last,
      be_bytes_injective width (x / 256) (y / 256) high (omega (arith, pow-suc 256 width))
          (omega (arith, pow-suc 256 width)),
    )

-- The preimage has 108 bytes.
pub length-confirm_preimage : (b : ConfirmBinding) → IsSized b → length (confirm_preimage b) ≡ 108
unfolding confirm_preimage
length-confirm_preimage b h = omega (
  arith,
  h.request_id,
  h.txid_display,
  h.genesis_internal,
  length-be_bytes 8 b.external_amount_sats,
  length-append b.request_id
      (b.txid_display ++ (be_bytes 8 b.external_amount_sats ++ b.genesis_internal)),
  length-append b.txid_display (be_bytes 8 b.external_amount_sats ++ b.genesis_internal),
  length-append (be_bytes 8 b.external_amount_sats) b.genesis_internal,
)

-- Two bindings whose fields have their fixed widths, and whose preimages are the same bytes, are the
-- same request, transaction, amount and chain.
pub confirm_preimage_injective :
    (a b : ConfirmBinding) → IsSized a → IsSized b → confirm_preimage a ≡ confirm_preimage b → a ≡ b
unfolding confirm_preimage
confirm_preimage_injective a b ha hb e =
    let rest_a = be_bytes 8 a.external_amount_sats ++ a.genesis_internal in
    let rest_b = be_bytes 8 b.external_amount_sats ++ b.genesis_internal in
    let body : (a.request_id ++ (a.txid_display ++ rest_a))
        ≡ (b.request_id ++ (b.txid_display ++ rest_b)) =
      cc in
    let (ids, e₁) =
      append_injective a.request_id (a.txid_display ++ rest_a) b.request_id
        (b.txid_display ++ rest_b) (ha.request_id ∙ sym hb.request_id) body in
    let (txids, e₂) =
      append_injective a.txid_display rest_a b.txid_display rest_b
        (ha.txid_display ∙ sym hb.txid_display) e₁ in
    let (amounts, chains) =
      append_injective (be_bytes 8 a.external_amount_sats) a.genesis_internal
        (be_bytes 8 b.external_amount_sats) b.genesis_internal
        (length-be_bytes 8 a.external_amount_sats ∙ sym (length-be_bytes 8 b.external_amount_sats))
        e₂ in
    let sats =
      be_bytes_injective 8 a.external_amount_sats b.external_amount_sats amounts ha.amount
        hb.amount in
    λ i. record {
      request_id = ids i;
      txid_display = txids i;
      external_amount_sats = sats i;
      genesis_internal = chains i;
    }

-- A token passes exactly when it has 64 bytes, reads as a compact signature, and that signature
-- verifies for the digest of the binding under the override key.
pub verify_confirm_token_iff :
    (lib : Crates) (token : Bytes) (binding : ConfirmBinding) (key : PublicKey)
    → (verify_confirm_token lib token binding key ≡ ok tt) ↔ (
        (length token ≡ 64)
        × ((sig : Bytes) × (lib.signature_from_compact token ≡ some sig)
            × (lib.verify_ecdsa (lib.sha256 (confirm_preimage binding)) sig key.inner ≡ true)))
unfolding verify_confirm_token confirm_message
verify_confirm_token_iff lib token binding key = (λ h. ground arith, λ h. ground arith)
