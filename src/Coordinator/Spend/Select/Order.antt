-- ===== src/Coordinator/Spend/Select/Order.antt =====
-- The sort of `select_coins` in src/spend.rs: it keeps the coins and puts none after a smaller one.
use tesaurus.Prelude.{
  ◌+◌, ◌≤◌, ◌≡◌, refl, true, List, [], ◌∷◌, ◌++◌, arith, keep, length, sum_of, All, AllPairs,
  All-map, Bool, Bool-cases, inl, inr, leb,
}
use mathlib.Core.List.{Perm}
use mathlib.Core.List.Perm
use tesaurus.Coordinator.Wallet.{VaultUtxo, value_of}
use tesaurus.Coordinator.Spend.Select.{insert_coin, sort_by_value}

insert_lem :
    (u : VaultUtxo) (us : List VaultUtxo)
    → (sum_of value_of (insert_coin u us) ≡ value_of u + sum_of value_of us)
      × (length (insert_coin u us) ≡ 1 + length us)
unfolding insert_coin
insert_lem u [] = (omega arith, omega arith)
insert_lem u (v ∷ vs) = ground (arith, insert_lem u vs)

pub sort_lem :
    (us : List VaultUtxo)
    → (sum_of value_of (sort_by_value us) ≡ sum_of value_of us)
      × (length (sort_by_value us) ≡ length us)
unfolding sort_by_value
sort_lem [] = (refl, refl)
sort_lem (u ∷ us) = omega (arith, sort_lem us, insert_lem u (sort_by_value us))

pub insert_All :
    (P : VaultUtxo → Type 0) (u : VaultUtxo) (us : List VaultUtxo)
    → P u
    → All P us
    → All P (insert_coin u us)
unfolding insert_coin
insert_All P u [] h k = (h, tt)
insert_All P u (v ∷ vs) h k = elim (Bool-cases (leb (value_of v) (value_of u))) [
  | inl first ↦ rw first (h, k)
  | inr later ↦ rw later (k.0, insert_All P u vs h k.1)
]

pub sort_All : (P : VaultUtxo → Type 0) (us : List VaultUtxo) → All P us → All P (sort_by_value us)
unfolding sort_by_value
sort_All P [] h = tt
sort_All P (u ∷ us) h = insert_All P u (sort_by_value us) h.0 (sort_All P us h.1)

-- No coin before another is worth less.
abbrev pub IsSorted : List VaultUtxo → Type 0
IsSorted us = AllPairs (λ u v. value_of v ≤ value_of u) us

insert-IsSorted : (u : VaultUtxo) (us : List VaultUtxo) → IsSorted us → IsSorted (insert_coin u us)
unfolding insert_coin
insert-IsSorted u [] h = (tt, tt)
insert-IsSorted u (v ∷ vs) h = elim (Bool-cases (leb (value_of v) (value_of u))) [
  | inl first ↦
      let top : value_of v ≤ value_of u = ground arith in
      rw first (
        (
          top,
          All-map (λ w. value_of w ≤ value_of v) (λ w. value_of w ≤ value_of u)
              (λ w k. omega (arith, k, top)) vs h.0,
        ),
        h,
      )
  | inr later ↦
      let below : value_of u ≤ value_of v = ground arith in
      rw later (insert_All (λ w. value_of w ≤ value_of v) u vs below h.0, insert-IsSorted u vs h.1)
]

pub sort-IsSorted : (us : List VaultUtxo) → IsSorted (sort_by_value us)
unfolding sort_by_value
sort-IsSorted [] = tt
sort-IsSorted (u ∷ us) = insert-IsSorted u (sort_by_value us) (sort-IsSorted us)

pub keep-All : (p : VaultUtxo → Bool) (us : List VaultUtxo) → All (λ u. p u ≡ true) (keep p us)
keep-All p [] = tt
keep-All p (u ∷ us) = elim (Bool-cases (p u)) [
  | inl holds ↦ rw holds (holds, keep-All p us)
  | inr fails ↦ rw fails (keep-All p us)
]

pub All-prefix : (P : VaultUtxo → Type 0) (xs ys : List VaultUtxo) → All P (xs ++ ys) → All P xs
All-prefix P [] ys h = tt
All-prefix P (x ∷ xs) ys h = (h.0, All-prefix P xs ys h.1)

All-suffix : (P : VaultUtxo → Type 0) (xs ys : List VaultUtxo) → All P (xs ++ ys) → All P ys
All-suffix P [] ys h = h
All-suffix P (x ∷ xs) ys h = All-suffix P xs ys h.1

pub sorted_split :
    (xs ys : List VaultUtxo)
    → IsSorted (xs ++ ys)
    → All (λ x. All (λ y. value_of y ≤ value_of x) ys) xs
sorted_split [] ys h = tt
sorted_split (x ∷ xs) ys h =
    (All-suffix (λ y. value_of y ≤ value_of x) xs ys h.0, sorted_split xs ys h.1)

insert_perm : (u : VaultUtxo) (us : List VaultUtxo) → Perm (insert_coin u us) (u ∷ us)
unfolding insert_coin
insert_perm u [] = Perm.rfl
insert_perm u (v ∷ vs) = elim (Bool-cases (leb (value_of v) (value_of u))) [
  | inl first ↦ rw first Perm.rfl
  | inr later ↦ rw later (Perm.trans (Perm.cons v (insert_perm u vs)) (Perm.swap u v vs))
]

pub sort_perm : (us : List VaultUtxo) → Perm (sort_by_value us) us
unfolding sort_by_value
sort_perm [] = Perm.rfl
sort_perm (u ∷ us) = Perm.trans (insert_perm u (sort_by_value us)) (Perm.cons u (sort_perm us))
