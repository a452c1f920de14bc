-- ===== src/Common/Lists.antt =====
-- Lists measured and indexed by native numbers, and sums over lists.
use Prim.Native.Nat.{ℕ, zero, suc, ◌+◌, ◌≤◌}
use mathlib.Core.Path.{◌≡◌}
use mathlib.Core.Bool.{Bool, true, false}
use mathlib.Core.List.{List, [], ◌∷◌, ◌++◌}
use mathlib.Core.Option.{Option, none, some}
use native.Mathlib.Omega.{arith}
use audio_server.Common.Tests.{◌==◌, if◌then◌else◌}

module _ {ℓ} {A : Type ℓ} where
  abbrev pub length : List A → ℕ
  length [] = 0
  length (x ∷ xs) = suc (length xs)

  abbrev pub is_empty : List A → Bool
  is_empty [] = true
  is_empty (x ∷ xs) = false

  abbrev pub get_elem? : List A → ℕ → Option A
  get_elem? [] i = none
  get_elem? (x ∷ xs) zero = some x
  get_elem? (x ∷ xs) (suc i) = get_elem? xs i

  -- A write out of bounds changes nothing.
  abbrev pub set : List A → ℕ → A → List A
  set [] i v = []
  set (x ∷ xs) zero v = v ∷ xs
  set (x ∷ xs) (suc i) v = x ∷ set xs i v

  abbrev pub take : ℕ → List A → List A
  take zero xs = []
  take (suc n) [] = []
  take (suc n) (x ∷ xs) = x ∷ take n xs

  abbrev pub drop : ℕ → List A → List A
  drop zero xs = xs
  drop (suc n) [] = []
  drop (suc n) (x ∷ xs) = drop n xs

  pub length-append : (xs ys : List A) → length (xs ++ ys) ≡ length xs + length ys
  length-append [] ys = omega arith
  length-append (x ∷ xs) ys = omega (arith, length-append xs ys)

  abbrev pub All {κ} : (A → Type κ) → List A → Type κ
  All P [] = Unit
  All P (x ∷ xs) = P x × All P xs

  -- The sum of a measure over a list.
  abbrev pub sum_by : (A → ℕ) → List A → ℕ
  sum_by f [] = 0
  sum_by f (x ∷ xs) = f x + sum_by f xs

  pub sum_by-append : (f : A → ℕ) (xs ys : List A) → sum_by f (xs ++ ys) ≡ sum_by f xs + sum_by f ys
  sum_by-append f [] ys = omega arith
  sum_by-append f (x ∷ xs) ys = omega (arith, sum_by-append f xs ys)

  -- One element replaced: its measure leaves the sum and the new one enters.
  pub sum_by-set :
      (f : A → ℕ) (xs : List A) (i : ℕ) (v : A) {x : A}
      → get_elem? xs i ≡ some x
      → sum_by f (set xs i v) + f x ≡ sum_by f xs + f v
  sum_by-set f [] i v h = ground arith
  sum_by-set f (x ∷ xs) zero v h = ground arith
  sum_by-set f (x ∷ xs) (suc i) v h = ground (arith, sum_by-set f xs i v h)

  pub sum_by-ge :
      (f : A → ℕ) (xs : List A) (i : ℕ) {x : A} → get_elem? xs i ≡ some x → f x ≤ sum_by f xs
  sum_by-ge f [] i h = ground arith
  sum_by-ge f (x ∷ xs) zero h = ground arith
  sum_by-ge f (x ∷ xs) (suc i) h = ground (arith, sum_by-ge f xs i h)

  pub sum_by-le : (f g : A → ℕ) (xs : List A) → ((x : A) → f x ≤ g x) → sum_by f xs ≤ sum_by g xs
  sum_by-le f g [] h = omega arith
  sum_by-le f g (x ∷ xs) h = omega (arith, h x, sum_by-le f g xs h)

-- How often a number stands in a list.
abbrev pub count : ℕ → List ℕ → ℕ
count j = sum_by (λ x. if x == j then 1 else 0)
