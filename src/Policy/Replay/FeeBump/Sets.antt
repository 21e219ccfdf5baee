-- ===== src/Policy/Replay/FeeBump/Sets.antt =====
-- `outpoints_identical` of tesaurus-policy/src/replay.rs as an equality of sets.
use tesaurus.Prelude.{◌≡◌, ◌≢◌, ◌↔◌, ◌⊎◌, inl, inr, refl, true, List, [], ◌∷◌, arith, contains, all}
use tesaurus.Bitcoin.{OutPoint, OutPoint-discrete}
use tesaurus.Policy.Replay.{outpoints_identical}

-- An outpoint of a list.
abbrev pub Spends : List OutPoint → OutPoint → Type 0
Spends [] op = ⊥
Spends (x ∷ xs) op = (x ≡ op) ⊎ Spends xs op

-- Two lists of the same outpoints, in any order and number, and some outpoint.
pub record SameSet (a b : List OutPoint) : Type 0 where
  pub some_outpoint : a ≢ []
  pub forth : (op : OutPoint) → Spends a op → Spends b op
  pub back : (op : OutPoint) → Spends b op → Spends a op

contains-Spends : (xs : List OutPoint) (op : OutPoint) → (contains xs op ≡ true) ↔ Spends xs op
contains-Spends [] op = (λ h. ground arith, λ m. absurd m)
contains-Spends (x ∷ xs) op =
    let rest = contains-Spends xs op in
    (
      λ h. ground (arith, rest.0),
      λ m. elim m [ inl same ↦ ground (arith, same) | inr later ↦ ground (arith, rest.1 later) ],
    )

all-Spends :
    (xs ys : List OutPoint)
    → (all (λ x. contains ys x) xs ≡ true) ↔ ((op : OutPoint) → Spends xs op → Spends ys op)
all-Spends [] ys = (λ h op m. absurd m, λ h. refl)
all-Spends (x ∷ xs) ys =
    let rest = all-Spends xs ys in
    let one = contains-Spends ys x in
    (
      λ h op m. elim m [
        | inl same ↦ rw same at (one.0 (ground arith))
        | inr later ↦ rest.0 (ground arith) op later
      ],
      λ h. ground (arith, one.1 (h x (inl refl)), rest.1 (λ op m. h op (inr m))),
    )

pub outpoints_identical_iff : (a b : List OutPoint) → (outpoints_identical a b ≡ true) ↔ SameSet a b
unfolding outpoints_identical
outpoints_identical_iff a b = (
  λ h. record {
    some_outpoint = ground arith;
    forth = (all-Spends a b).0 (ground arith);
    back = (all-Spends b a).0 (ground arith);
  },
  λ s. ground (arith, s.some_outpoint, (all-Spends a b).1 s.forth, (all-Spends b a).1 s.back),
)

pub SameSet-trans : {a b c : List OutPoint} → SameSet a b → SameSet b c → SameSet a c
SameSet-trans s t = record {
  some_outpoint = s.some_outpoint;
  forth = λ op m. t.forth op (s.forth op m);
  back = λ op m. s.back op (t.back op m);
}
