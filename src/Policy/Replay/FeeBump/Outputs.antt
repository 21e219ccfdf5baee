-- ===== src/Policy/Replay/FeeBump/Outputs.antt =====
-- `classify_outputs` of tesaurus-policy/src/replay.rs: the outputs of a spend of a vault.
use tesaurus.Prelude.{
  ℕ, ◌<◌, ◌≡◌, ◌≢◌, ◌↔◌, ◌⊎◌, inl, inr, refl, true, List, [], ◌∷◌, Option, some, none, Bytes,
  Bytes-discrete, arith,
}
use tesaurus.Bitcoin.{TxOut}
use tesaurus.Policy.Replay.{ClassifiedOutputs, classified, classify_outputs, change_decreased}

-- One output does not pay the vault. It stands alone, and nothing returns, or it stands before or
-- behind the one output that pays the vault.
pub record IsSpend (vault_script : Bytes) (outs : List TxOut) (external : TxOut) (change : ℕ)
    : Type 0 where
  pub foreign : external.script_pubkey ≢ vault_script
  pub outputs :
      ((outs ≡ external ∷ []) × (change ≡ 0))
      ⊎ ((returned : TxOut) × (returned.script_pubkey ≡ vault_script)
          × (returned.value ≡ change)
          × ((outs ≡ external ∷ returned ∷ []) ⊎ (outs ≡ returned ∷ external ∷ [])))

module _ (vault_script : Bytes) where
  two_external : (a b : TxOut) (es cs : List TxOut) → classified (a ∷ b ∷ es) cs ≡ none
  unfolding classified
  two_external a b es cs = refl

  two_changes : (a b : TxOut) (es cs : List TxOut) → classified es (a ∷ b ∷ cs) ≡ none
  unfolding classified
  two_changes a b [] cs = refl
  two_changes a b (e ∷ []) cs = refl
  two_changes a b (e ∷ f ∷ es) cs = refl

  three :
      (x y z : TxOut) (outs : List TxOut) → classify_outputs (x ∷ y ∷ z ∷ outs) vault_script ≡ none
  unfolding classify_outputs
  three x y z outs = grind (arith, two_external, two_changes)

  forth :
      (outs : List TxOut) (external : TxOut) (change : ℕ)
      → classify_outputs outs vault_script
        ≡ some (record { external = external; change_sats = change })
      → IsSpend vault_script outs external change
  unfolding classify_outputs classified
  forth [] external change h = ground arith
  forth (x ∷ []) external change h = record {
    foreign = ground arith;
    outputs = inl (ground arith, ground arith);
  }
  forth (x ∷ y ∷ []) external change h = record {
    foreign = ground arith;
    outputs = elim (Bytes-discrete x.script_pubkey vault_script) [
      | yes returns ↦ inr (x, returns, ground arith, inr (ground arith))
      | no leaves ↦ inr (y, ground arith, ground arith, inl (ground arith))
    ];
  }
  forth (x ∷ y ∷ z ∷ outs) external change h = ground (arith, three x y z outs)

  back :
      (outs : List TxOut) (external : TxOut) (change : ℕ)
      → IsSpend vault_script outs external change
      → classify_outputs outs vault_script
        ≡ some (record { external = external; change_sats = change })
  unfolding classify_outputs classified
  back outs external change s = elim s.outputs [
    | inl (alone, nothing) ↦ rw alone (ground (arith, nothing, s.foreign))
    | inr (returned, returns, value, order) ↦ elim order [
      | inl first ↦ rw first (ground (arith, returns, value, s.foreign))
      | inr last ↦ rw last (ground (arith, returns, value, s.foreign))
    ]
  ]

pub classify_outputs_iff :
    (vault_script : Bytes) (outs : List TxOut) (external : TxOut) (change : ℕ)
    → (classify_outputs outs vault_script
        ≡ some (record { external = external; change_sats = change }))
      ↔ IsSpend vault_script outs external change
classify_outputs_iff vault_script outs external change =
    (forth vault_script outs external change, back vault_script outs external change)

pub same_decreased :
    (previous candidate : Option ClassifiedOutputs)
    → change_decreased previous candidate ≡ true
    → (external : TxOut) × (change : ℕ) × (lower : ℕ) × (previous
        ≡ some (record { external = external; change_sats = change }))
      × (candidate ≡ some (record { external = external; change_sats = lower }))
      × (lower < change)
unfolding change_decreased
same_decreased none candidate h = ground arith
same_decreased (some p) none h = ground arith
same_decreased (some p) (some c) h =
    (p.external, p.change_sats, c.change_sats, refl, ground arith, ground arith)
