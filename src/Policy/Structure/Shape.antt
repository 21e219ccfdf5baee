-- ===== src/Policy/Structure/Shape.antt =====
-- What the shape checks of tesaurus-policy/src/structure.rs accept.
use tesaurus.Prelude.{◌≡◌, ◌≢◌, ◌↔◌, [], some, Bytes, arith, ok, for_each-All, All, All-map, length}
use tesaurus.Bitcoin.{Crates, Psbt, PsbtInput, PublicKey, EcdsaSignature, EcdsaSighashType}
use tesaurus.Policy.Structure.{
  parse_psbt_v0, require_sighash_all, input_sighash_all, require_sighash_all_on_psbt,
}

-- A PSBT of version 0 with an entry for each input and output of its transaction, which has some.
pub record IsWellFormed (psbt : Psbt) : Type 0 where
  pub version : psbt.version ≡ 0
  pub inputs : length psbt.inputs ≡ length psbt.unsigned_tx.input
  pub outputs : length psbt.outputs ≡ length psbt.unsigned_tx.output
  pub some_input : psbt.unsigned_tx.input ≢ []
  pub some_output : psbt.unsigned_tx.output ≢ []

-- Bytes are parsed exactly to the well-formed PSBT that they deserialise to.
pub parse_psbt_v0_iff :
    (lib : Crates) (bytes : Bytes) (psbt : Psbt)
    → (parse_psbt_v0 lib bytes ≡ ok psbt)
      ↔ ((lib.deserialize bytes ≡ some psbt) × IsWellFormed psbt)
unfolding parse_psbt_v0
parse_psbt_v0_iff lib bytes psbt = (λ h. ground arith, λ h. ground arith)

-- An input asks for SIGHASH_ALL, and every partial signature on it was made so.
pub record SignsAll (lib : Crates) (input : PsbtInput) : Type 0 where
  pub present : input.sighash_type ≡ some (lib.psbt_sighash_from EcdsaSighashType.all)
  pub partial_sigs :
      All
        (λ (e : PublicKey × EcdsaSignature). e.1.sighash_type ≡ EcdsaSighashType.all)
        input.partial_sigs

sighash_lem :
    (e : PublicKey × EcdsaSignature)
    → require_sighash_all e.1.sighash_type ≡ ok tt
    → e.1.sighash_type ≡ EcdsaSighashType.all
unfolding require_sighash_all
sighash_lem e h = ground arith

input_lem :
    (lib : Crates) (input : PsbtInput) → input_sighash_all lib input ≡ ok tt → SignsAll lib input
unfolding input_sighash_all
input_lem lib input h = record {
  present = ground arith;
  partial_sigs =
      All-map (λ (e : PublicKey × EcdsaSignature). require_sighash_all e.1.sighash_type ≡ ok tt)
        (λ (e : PublicKey × EcdsaSignature). e.1.sighash_type ≡ EcdsaSighashType.all) sighash_lem
        input.partial_sigs
        (for_each-All (λ (e : PublicKey × EcdsaSignature). require_sighash_all e.1.sighash_type)
          input.partial_sigs (ground arith));
}

-- Where the sighash check passes, every input presents SIGHASH_ALL, which is not taken for granted
-- when it is missing, and all its partial signatures were made with it.
pub require_sighash_all_on_psbt-All :
    (lib : Crates) (psbt : Psbt)
    → require_sighash_all_on_psbt lib psbt ≡ ok tt
    → All (SignsAll lib) psbt.inputs
unfolding require_sighash_all_on_psbt
require_sighash_all_on_psbt-All lib psbt h =
    All-map (λ input. input_sighash_all lib input ≡ ok tt) (SignsAll lib) (input_lem lib)
      psbt.inputs (for_each-All (input_sighash_all lib) psbt.inputs h)
