-- ===== src/Prelude/Map.antt =====
-- `std::unordered_map` with a number for its key, as an association list.
use Prim.Native.Nat.{ℕ, ◌+◌, ◌≤◌}
use mathlib.Core.Path.{◌≡◌, refl}
use mathlib.Core.List.{List, [], ◌∷◌}
use mathlib.Core.Option.{Option, none, some}
use native.Mathlib.Omega.{arith}
use trader_two.Prelude.Tests.{◌==◌, if◌then◌else◌}
use trader_two.Prelude.Lists.{length}

abbrev pub Map {ℓ} : Type ℓ → Type ℓ
Map V = List (ℕ × V)

module _ {ℓ} {V : Type ℓ} where
  unfoldable pub find : ℕ → Map V → Option V
  find k [] = none
  find k ((j, v) ∷ m) = if j == k then some v else find k m

  -- `m[k] = v`
  unfoldable pub assign : ℕ → V → Map V → Map V
  assign k v [] = (k, v) ∷ []
  assign k v ((j, w) ∷ m) = if j == k then (k, v) ∷ m else (j, w) ∷ assign k v m

  -- `m.erase(k)`
  unfoldable pub erase : ℕ → Map V → Map V
  erase k [] = []
  erase k ((j, w) ∷ m) = if j == k then erase k m else (j, w) ∷ erase k m

  -- `m.emplace(k, v)`: an entry that is there stays.
  unfoldable pub emplace : ℕ → V → Map V → Map V
  emplace k v m = elim (find k m) [ none ↦ assign k v m | some w ↦ m ]

  pub find-assign :
      (j k : ℕ) (v : V) (m : Map V) → find j (assign k v m) ≡ (if k == j then some v else find j m)
  unfolding find assign
  find-assign j k v [] = refl
  find-assign j k v ((i, w) ∷ m) = ground (arith, find-assign j k v m)

  pub find-erase : (j k : ℕ) (m : Map V) → find j (erase k m) ≡ (if k == j then none else find j m)
  unfolding find erase
  find-erase j k [] = ground arith
  find-erase j k ((i, w) ∷ m) = ground (arith, find-erase j k m)

  pub find-emplace_new :
      (j k : ℕ) (v : V) (m : Map V)
      → find k m ≡ none
      → find j (emplace k v m) ≡ (if k == j then some v else find j m)
  unfolding emplace
  find-emplace_new j k v m h = ground (arith, find-assign j k v m)

  pub length-erase_le : (k : ℕ) (m : Map V) → length (erase k m) ≤ length m
  unfolding erase
  length-erase_le k [] = omega arith
  length-erase_le k ((i, w) ∷ m) = ground (arith, length-erase_le k m)

  pub length-erase :
      (k : ℕ) {v : V} (m : Map V) → find k m ≡ some v → length (erase k m) + 1 ≤ length m
  unfolding find erase
  length-erase k [] h = absurd (ground arith)
  length-erase k {v} ((i, w) ∷ m) h = ground (arith, length-erase k {v = v} m, length-erase_le k m)

  pub length-assign_present :
      (k : ℕ) {v : V} (w : V) (m : Map V) → find k m ≡ some v → length (assign k w m) ≡ length m
  unfolding find assign
  length-assign_present k w [] h = absurd (ground arith)
  length-assign_present k {v} w ((i, u) ∷ m) h = ground (arith, length-assign_present k {v = v} w m)
