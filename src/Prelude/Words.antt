-- ===== src/Prelude/Words.antt =====
-- Machine words: a `u32` or `u64` is a number, and the checked operations test its range.
use Prim.Native.Nat.{ℕ, ◌+◌, ◌-◌, ◌*◌, ◌^◌, ◌<◌}
use mathlib.Core.Path.{◌≡◌}
use mathlib.Core.Option.{Option, none, some}
use mathlib.Core.List.{List, [], ◌∷◌}
use native.Mathlib.Omega.{arith}
use tesaurus.Prelude.Tests.{ltb, leb, if◌then◌else◌}
use tesaurus.Prelude.Lists.{sum_of}
use tesaurus.Prelude.Fallible.{Result, ok, ok_or, try_fold}

abbrev pub u32_size : ℕ
u32_size = 2 ^ 32

abbrev pub u64_size : ℕ
u64_size = 2 ^ 64

abbrev pub u16_max : ℕ
u16_max = 65535

abbrev pub checked_add_u32 : ℕ → ℕ → Option ℕ
checked_add_u32 a b = if ltb (a + b) u32_size then some (a + b) else none

abbrev pub checked_add_u64 : ℕ → ℕ → Option ℕ
checked_add_u64 a b = if ltb (a + b) u64_size then some (a + b) else none

abbrev pub checked_mul_u64 : ℕ → ℕ → Option ℕ
checked_mul_u64 a b = if ltb (a * b) u64_size then some (a * b) else none

abbrev pub checked_sub : ℕ → ℕ → Option ℕ
checked_sub a b = if leb b a then some (a - b) else none

-- A sum over a list in `u64`: `total.checked_add(f(x))`, with the error `e` on overflow.
abbrev pub add_checked {ℓ κ} : {E : Type ℓ} {A : Type κ} → E → (A → ℕ) → ℕ → A → Result E ℕ
add_checked e f total x = ok_or (checked_add_u64 total (f x)) e

module _ {ℓ κ} {E : Type ℓ} {A : Type κ} (e : E) (f : A → ℕ) where
  -- A checked sum that returns is the exact sum, and it fits.
  pub try_fold-add_checked :
      (acc : ℕ) (xs : List A) (total : ℕ)
      → try_fold (add_checked e f) acc xs ≡ ok total
      → acc < u64_size
      → (total ≡ acc + sum_of f xs) × (total < u64_size)
  unfolding try_fold
  try_fold-add_checked acc [] total h fits = ground arith
  try_fold-add_checked acc (x ∷ xs) total h fits =
      ground (arith, try_fold-add_checked (acc + f x) xs total)

  -- It returns whenever the exact sum fits.
  pub try_fold-add_checked_total :
      (acc : ℕ) (xs : List A)
      → acc + sum_of f xs < u64_size
      → try_fold (add_checked e f) acc xs ≡ ok (acc + sum_of f xs)
  unfolding try_fold
  try_fold-add_checked_total acc [] h = ground arith
  try_fold-add_checked_total acc (x ∷ xs) h =
      ground (arith, try_fold-add_checked_total (acc + f x) xs)
