-- ===== src/Prelude/Lists.antt =====
-- Lists measured by native numbers, and membership and removal of a number.
use Prim.Native.Nat.{ℕ, zero, suc, ◌+◌, ◌<◌}
use mathlib.Core.Path.{◌≡◌, refl}
use mathlib.Core.Logic.{◌≢◌}
use mathlib.Core.Bool.{Bool, true, false, ◌||◌}
use mathlib.Core.List.{List, [], ◌∷◌, ◌++◌}
use native.Mathlib.Omega.{arith}
use trader_two.Prelude.Tests.{◌==◌, if◌then◌else◌}

module _ {ℓ} {A : Type ℓ} where
  abbrev pub length : List A → ℕ
  length [] = 0
  length (x ∷ xs) = suc (length xs)

  pub length-append : (xs ys : List A) → length (xs ++ ys) ≡ length xs + length ys
  length-append [] ys = omega arith
  length-append (x ∷ xs) ys = omega (arith, length-append xs ys)

  abbrev pub take : ℕ → List A → List A
  take zero xs = []
  take (suc n) [] = []
  take (suc n) (x ∷ xs) = x ∷ take n xs

  -- Of every element of a list.
  abbrev pub All {κ} : (A → Type κ) → List A → Type κ
  All P [] = Unit
  All P (x ∷ xs) = P x × All P xs

-- Whether a number is in a list.
unfoldable pub elem : ℕ → List ℕ → Bool
elem k [] = false
elem k (x ∷ xs) = (x == k) || elem k xs

-- A list without the first occurrence of a number: unlinking a node.
unfoldable pub unlink : ℕ → List ℕ → List ℕ
unlink k [] = []
unlink k (x ∷ xs) = if x == k then xs else x ∷ unlink k xs

-- No number twice.
abbrev pub Distinct : List ℕ → Type 0
Distinct [] = Unit {0}
Distinct (x ∷ xs) = (elem x xs ≡ false) × Distinct xs

pub elem-append_one : (j k : ℕ) (xs : List ℕ) → elem j (xs ++ (k ∷ [])) ≡ ((k == j) || elem j xs)
unfolding elem
elem-append_one j k [] = refl
elem-append_one j k (x ∷ xs) = ground (arith, elem-append_one j k xs)

pub append_one-Distinct :
    (k : ℕ) (xs : List ℕ) → Distinct xs → elem k xs ≡ false → Distinct (xs ++ (k ∷ []))
unfolding elem
append_one-Distinct k [] d h = ground arith
append_one-Distinct k (x ∷ xs) d h =
    ground (arith, append_one-Distinct k xs d.1, elem-append_one x k xs)

pub elem-unlink_ne : (j k : ℕ) (xs : List ℕ) → j ≢ k → elem j (unlink k xs) ≡ elem j xs
unfolding elem unlink
elem-unlink_ne j k [] h = refl
elem-unlink_ne j k (x ∷ xs) h = ground (arith, elem-unlink_ne j k xs)

pub elem-unlink_self : (k : ℕ) (xs : List ℕ) → Distinct xs → elem k (unlink k xs) ≡ false
unfolding elem unlink
elem-unlink_self k [] d = refl
elem-unlink_self k (x ∷ xs) d = ground (arith, elem-unlink_self k xs d.1)

pub unlink-Distinct : (k : ℕ) (xs : List ℕ) → Distinct xs → Distinct (unlink k xs)
unfolding unlink
unlink-Distinct k [] d = d
unlink-Distinct k (x ∷ xs) d = ground (arith, unlink-Distinct k xs d.1, elem-unlink_ne x k xs)

pub length-unlink : (k : ℕ) (xs : List ℕ) → elem k xs ≡ true → length (unlink k xs) + 1 ≡ length xs
unfolding elem unlink
length-unlink k [] h = absurd (ground arith)
length-unlink k (x ∷ xs) h = ground (arith, length-unlink k xs)

pub length-of_elem : (k : ℕ) (xs : List ℕ) → elem k xs ≡ true → 0 < length xs
unfolding elem
length-of_elem k [] h = absurd (ground arith)
length-of_elem k (x ∷ xs) h = omega arith
