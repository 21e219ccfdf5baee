-- ===== src/Prelude/Fallible.antt =====
-- Fallible code: Rust's `Result` with `?` as a `do` block, and loops that stop at the first error.
use mathlib.Core.Path.{◌≡◌, refl, ap}
use mathlib.Core.Logic.{◌⊎◌, inl, inr}
use mathlib.Core.Bool.{Bool, true, false}
use mathlib.Core.Option.{Option, none, some}
use mathlib.Core.List.{List, [], ◌∷◌}
use native.Mathlib.Omega.{arith}
use tesaurus.Prelude.Lists.{All, length}

pub data Result {ℓ κ} (E : Type ℓ) (A : Type κ) : Type (ℓ ⊔ κ) where
  ok : A → Result E A
  err : E → Result E A

infixl 5 ◌>>=◌ ◌>>◌
abbrev pub ◌>>=◌ {ℓ κ μ} :
    {E : Type ℓ} {A : Type κ} {B : Type μ} → Result E A → (A → Result E B) → Result E B
ok a >>= k = k a
err e >>= k = err e

abbrev pub ◌>>◌ {ℓ μ} : {E : Type ℓ} {B : Type μ} → Result E (Unit {0}) → Result E B → Result E B
m >> k = m >>= λ _. k

-- `Option::ok_or`
abbrev pub ok_or {ℓ κ} : {E : Type ℓ} {A : Type κ} → Option A → E → Result E A
ok_or none e = err e
ok_or (some a) e = ok a

pub ok_or-eq-ok {ℓ κ} :
    {A : Type ℓ} {E : Type κ} (o : Option A) (e : E) (a : A) → ok_or o e ≡ ok a → o ≡ some a
ok_or-eq-ok none e a h = cc
ok_or-eq-ok (some b) e a h = ap some (ap (λ r. elim r [ ok x ↦ x | err _ ↦ b ]) h)

-- `Option::and_then`
abbrev pub and_then {ℓ κ} : {A : Type ℓ} {B : Type κ} → Option A → (A → Option B) → Option B
and_then none k = none
and_then (some a) k = k a

-- `if test { return Err(e) }`
abbrev pub reject_if {ℓ} : {E : Type ℓ} → Bool → E → Result E (Unit {0})
reject_if true e = err e
reject_if false e = ok tt

module _ {ℓ κ} {E : Type ℓ} {A : Type κ} where
  pub Result-cases : (r : Result E A) → ((a : A) × (r ≡ ok a)) ⊎ ((e : E) × (r ≡ err e))
  Result-cases (ok a) = inl (a, refl)
  Result-cases (err e) = inr (e, refl)

  pub ok_injective : (a b : A) → ◌≡◌ {A = Result E A} (ok a) (ok b) → a ≡ b
  ok_injective a b h = ap (λ r. elim r [ ok x ↦ x | err e ↦ a ]) h

  -- A bind returns exactly when its first part returns and the rest does.
  pub >>=-eq-ok {μ} :
      {B : Type μ} (m : Result E A) (k : A → Result E B) {b : B}
      → (m >>= k) ≡ ok b
      → (a : A) × (m ≡ ok a) × (k a ≡ ok b)
  >>=-eq-ok (ok a) k h = (a, refl, h)
  >>=-eq-ok (err e) k h = cc

-- A `for` loop whose body only checks its item.
unfoldable pub for_each {ℓ κ} :
    {E : Type ℓ} {A : Type κ} → (A → Result E (Unit {0})) → List A → Result E (Unit {0})
for_each check [] = ok tt
for_each check (x ∷ xs) = check x >>= λ _. for_each check xs

-- `Iterator::try_fold`, and a `for` loop that updates a variable and may return early.
unfoldable pub try_fold {ℓ κ μ} :
    {E : Type ℓ} {A : Type κ} {S : Type μ} → (S → A → Result E S) → S → List A → Result E S
try_fold step s [] = ok s
try_fold step s (x ∷ xs) = step s x >>= λ s'. try_fold step s' xs

-- `iter().map(f).collect::<Result<Vec<_>>>()`
unfoldable pub try_map {ℓ κ μ} :
    {E : Type ℓ} {A : Type κ} {B : Type μ} → (A → Result E B) → List A → Result E (List B)
try_map f [] = ok []
try_map f (x ∷ xs) = f x >>= λ y. try_map f xs >>= λ ys. ok (y ∷ ys)

module _ {ℓ κ} {E : Type ℓ} {A : Type κ} (check : A → Result E (Unit {0})) where
  -- The loop passes exactly when every item passes.
  pub for_each-All : (xs : List A) → for_each check xs ≡ ok tt → All (λ x. check x ≡ ok tt) xs
  unfolding for_each
  for_each-All [] h = tt
  for_each-All (x ∷ xs) h =
      let (_, passed, rest) = >>=-eq-ok (check x) (λ _. for_each check xs) h in
      (passed, for_each-All xs rest)

  pub for_each_of_All : (xs : List A) → All (λ x. check x ≡ ok tt) xs → for_each check xs ≡ ok tt
  unfolding for_each
  for_each_of_All [] h = refl
  for_each_of_All (x ∷ xs) h = rw h.0 (for_each_of_All xs h.1)

pub try_map-inverse {ℓ κ μ} :
    {E : Type ℓ} {A : Type κ} {B : Type μ} (f : A → Result E B) (g : B → A)
    (law : (y : B) → f (g y) ≡ ok y) (ys : List B)
    → try_map f (mathlib.Core.List.map g ys) ≡ ok ys
unfolding try_map
try_map-inverse f g law [] = refl
try_map-inverse f g law (y ∷ ys) = rw law (rw (try_map-inverse f g law ys))

module _ {ℓ κ μ} {E : Type ℓ} {A : Type κ} {B : Type μ} (f : A → Result E B) where
  pub length-try_map : (xs : List A) (ys : List B) → try_map f xs ≡ ok ys → length ys ≡ length xs
  unfolding try_map
  length-try_map [] ys h = ground arith
  length-try_map (x ∷ xs) ys h =
      let (y, _, rest) = >>=-eq-ok (f x) (λ y. try_map f xs >>= λ ys. ok (y ∷ ys)) h in
      let (zs, tail, e) = >>=-eq-ok (try_map f xs) (λ zs. ok (y ∷ zs)) rest in
      ground (arith, length-try_map xs zs tail)
