-- ===== src/Coordinator/Action.antt =====
-- Stateful code that may fail, as in the functions of src/ that read and write files or call Bitcoin
-- Core: the state is passed on, also by a failure. With it, reasoning about a bind.
use tesaurus.Prelude.{◌≡◌, refl, sym, ap, ◌∙◌, Bool, true, false, arith, ok, err}
use tesaurus.Coordinator.Failure.{Error, CoreResult}

abbrev pub Action : Type 0 → Type 0 → Type 0
Action S A = S → CoreResult A × S

abbrev pub then_run : {S A B : Type 0} → CoreResult A × S → (A → Action S B) → CoreResult B × S
then_run (ok a, s) k = k a s
then_run (err e, s) k = (err e, s)

infixl 5 ◌>>=◌ ◌>>◌
abbrev pub ◌>>=◌ : {S A B : Type 0} → Action S A → (A → Action S B) → Action S B
◌>>=◌ m k s = then_run (m s) k

abbrev pub ◌>>◌ : {S B : Type 0} → Action S (Unit {0}) → Action S B → Action S B
m >> k = m >>= λ _. k

abbrev pub pure : {S A : Type 0} → A → Action S A
pure a s = (ok a, s)

-- A result that touches no state.
abbrev pub lift : {S A : Type 0} → CoreResult A → Action S A
lift r s = (r, s)

-- A test of the state that changes nothing.
abbrev pub look : {S A : Type 0} → (S → A) → Action S A
look f s = (ok (f s), s)

abbrev pub refuse_if : {S : Type 0} → Bool → Error → Action S (Unit {0})
refuse_if true e s = (err e, s)
refuse_if false e s = (ok tt, s)

module _ {S A B : Type 0} (m : Action S A) (k : A → Action S B) (s : S) where
  then_run-state :
      (P : S → Type 0) (r : CoreResult A × S)
      → P r.1
      → ((a : A) (d : S) → r ≡ (ok a, d) → P d → P (k a d).1)
      → P (then_run r k).1
  then_run-state P (ok a, d) start next = next a d refl start
  then_run-state P (err e, d) start next = start

  -- What holds of the state after the first part, and after the rest where the first part succeeds,
  -- holds of the state after both.
  pub >>=-state :
      (P : S → Type 0)
      → P (m s).1
      → ((a : A) (d : S) → m s ≡ (ok a, d) → P d → P (k a d).1)
      → P ((m >>= k) s).1
  >>=-state P start next = then_run-state P (m s) start next

  then_run-ok :
      (r : CoreResult A × S) {b : B} {last : S}
      → then_run r k ≡ (ok b, last)
      → (a : A) × (d : S) × (r ≡ (ok a, d)) × (k a d ≡ (ok b, last))
  then_run-ok (ok a, d) h = (a, d, refl, h)
  then_run-ok (err e, d) h = ground arith

  -- A sequence succeeds only if both parts do.
  pub >>=-ok :
      {b : B} {last : S}
      → (m >>= k) s ≡ (ok b, last)
      → (a : A) × (d : S) × (m s ≡ (ok a, d)) × (k a d ≡ (ok b, last))
  >>=-ok h = then_run-ok (m s) h

  -- A sequence whose first part succeeds goes on with the rest.
  pub >>=-step : (a : A) (d : S) → m s ≡ (ok a, d) → (m >>= k) s ≡ k a d
  >>=-step a d h = ap (λ r. then_run r k) h

-- An action that changes nothing.
abbrev pub Reads : {S A : Type 0} → Action S A → Type 0
Reads {S = S} m = (s : S) → (m s).1 ≡ s

pub >>=-Reads :
    {S A B : Type 0} (m : Action S A) (k : A → Action S B)
    → Reads m
    → ((a : A) → Reads (k a))
    → Reads (m >>= k)
>>=-Reads m k first next s = >>=-state m k s (λ d. d ≡ s) (first s) (λ a d _ same. next a d ∙ same)

module _ {S : Type 0} where
  pub refuse_if-Reads : (refused : Bool) (e : Error) → Reads {S = S} (refuse_if refused e)
  refuse_if-Reads true e s = refl
  refuse_if-Reads false e s = refl

  pub refuse_if-ok :
      (refused : Bool) (e : Error) (s last : S)
      → refuse_if refused e s ≡ (ok tt, last)
      → (refused ≡ false) × (last ≡ s)
  refuse_if-ok true e s last h = ground arith
  refuse_if-ok false e s last h = (refl, sym (ap (λ (r : CoreResult (Unit {0}) × S). r.1) h))

  -- The result of a step that touches no state.
  pub lift-ok :
      {A : Type 0} (r : CoreResult A) (a : A) (s last : S)
      → lift r s ≡ (ok a, last)
      → (r ≡ ok a) × (last ≡ s)
  lift-ok {A = A} r a s last h =
      (ap (λ (x : CoreResult A × S). x.0) h, sym (ap (λ (x : CoreResult A × S). x.1) h))
