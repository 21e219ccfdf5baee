-- ===== src/Policy/Replay/FeeBump.antt =====
-- What the fee-bump test of tesaurus-policy/src/replay.rs says of two records.
pub mod Sets
pub mod Outputs
use tesaurus.Prelude.{ℕ, ◌<◌, ◌≡◌, ◌≢◌, ◌↔◌, sym, ◌∙◌, true, some, arith}
use tesaurus.Bitcoin.{TxOut}
use tesaurus.Policy.Replay.{ReplayRecord, classify_outputs, change_decreased, is_vault_change_only}
use tesaurus.Policy.Replay.FeeBump.Sets.{SameSet, outpoints_identical_iff, SameSet-trans}
use tesaurus.Policy.Replay.FeeBump.Outputs.{IsSpend, classify_outputs_iff, same_decreased}

-- The second record spends the same outpoints of the same vault, pays the same external output, and
-- returns less.
pub record Bumps (previous candidate : ReplayRecord) : Type 0 where
  pub same_inputs : SameSet previous.outpoints candidate.outpoints
  pub same_vault : previous.vault_script ≡ candidate.vault_script
  pub external : TxOut
  pub change : ℕ
  pub lower : ℕ
  pub before : IsSpend previous.vault_script previous.outputs external change
  pub after : IsSpend candidate.vault_script candidate.outputs external lower
  pub decreased : lower < change

decreased_lem :
    (previous candidate : ReplayRecord) (external : TxOut) (change lower : ℕ)
    → classify_outputs previous.outputs previous.vault_script
      ≡ some (record { external = external; change_sats = change })
    → classify_outputs candidate.outputs candidate.vault_script
      ≡ some (record { external = external; change_sats = lower })
    → lower < change
    → change_decreased
        (classify_outputs previous.outputs previous.vault_script)
        (classify_outputs candidate.outputs candidate.vault_script)
      ≡ true
unfolding change_decreased
decreased_lem previous candidate external change lower before after less =
    ground (arith, before, after, less)

-- A candidate counts as a fee bump of a previous record exactly when both spend the same non-empty
-- set of outpoints of one vault and pay the same single output that is not the vault's, and the value
-- of the at most one other output, which returns to the vault, is strictly less.
pub is_vault_change_only_iff :
    (previous candidate : ReplayRecord)
    → (is_vault_change_only previous candidate ≡ true) ↔ Bumps previous candidate
unfolding is_vault_change_only
is_vault_change_only_iff previous candidate = (
  λ h.
      let (external, change, lower, prev, cand, less) =
        same_decreased (classify_outputs previous.outputs previous.vault_script)
          (classify_outputs candidate.outputs candidate.vault_script) (ground arith) in
      record {
        same_inputs =
            (outpoints_identical_iff previous.outpoints candidate.outpoints).0 (ground arith);
        same_vault = ground arith;
        external = external;
        change = change;
        lower = lower;
        before =
            (classify_outputs_iff previous.vault_script previous.outputs external change).0 prev;
        after =
            (classify_outputs_iff candidate.vault_script candidate.outputs external lower).0 cand;
        decreased = less;
      },
  λ b.
      let identical =
        (outpoints_identical_iff previous.outpoints candidate.outpoints).1 b.same_inputs in
      let decreased =
        decreased_lem previous candidate b.external b.change b.lower
          ((classify_outputs_iff previous.vault_script previous.outputs b.external b.change).1
            b.before)
          ((classify_outputs_iff candidate.vault_script candidate.outputs b.external b.lower).1
            b.after)
          b.decreased in
      ground (arith, identical, b.same_vault, decreased),
)

-- Two classifications of the outputs of one record.
one_spend :
    (r : ReplayRecord) (external external' : TxOut) (change change' : ℕ)
    → IsSpend r.vault_script r.outputs external change
    → IsSpend r.vault_script r.outputs external' change'
    → (external ≡ external') × (change ≡ change')
one_spend r external external' change change' p q =
    let middle : some (record { external = external; change_sats = change })
        ≡ some (record { external = external'; change_sats = change' }) =
      sym ((classify_outputs_iff r.vault_script r.outputs external change).1 p)
      ∙ (classify_outputs_iff r.vault_script r.outputs external' change').1 q in
    (ground (arith, middle), ground (arith, middle))

-- Bumps compose: a bump of a bump is a bump of the first record.
pub is_vault_change_only_trans :
    (a b c : ReplayRecord)
    → is_vault_change_only a b ≡ true
    → is_vault_change_only b c ≡ true
    → is_vault_change_only a c ≡ true
is_vault_change_only_trans a b c h k =
    let p = (is_vault_change_only_iff a b).0 h in
    let q = (is_vault_change_only_iff b c).0 k in
    let (same, returned) = one_spend b p.external q.external p.lower q.change p.after q.before in
    (is_vault_change_only_iff a c).1 (record {
      same_inputs = SameSet-trans p.same_inputs q.same_inputs;
      same_vault = p.same_vault ∙ q.same_vault;
      external = p.external;
      change = p.change;
      lower = q.lower;
      before = p.before;
      after = rw same q.after;
      decreased = omega (arith, returned, p.decreased, q.decreased);
    })

-- No record bumps itself.
pub is_vault_change_only_irrefl : (a : ReplayRecord) → is_vault_change_only a a ≢ true
is_vault_change_only_irrefl a h =
    let p = (is_vault_change_only_iff a a).0 h in
    let (_, returned) = one_spend a p.external p.external p.change p.lower p.before p.after in
    omega (arith, returned, p.decreased)
