-- ===== src/Level/Sums.antt =====
-- The quantity that the orders of a queue have left, and how it follows the index.
use mathlib.Core.Bool.{false≢true}
use trader_two.Prelude.{
  ℕ, ℤ, pos, ◌+ℤ◌, ◌==◌, true, ◌≡◌, refl, List, [], ◌∷◌, ◌++◌, Option, none, some, arith, elem,
  unlink, +ℤ_comm, +ℤ_assoc, ap, ◌∙◌, sym, Bool-cases, ==_iff, inl, inr,
}
use trader_two.Order.{Order}

abbrev pub Index : Type 0
Index = ℕ → Option Order

abbrev pub remaining_of : Option Order → ℤ
remaining_of none = pos 0
remaining_of (some o) = o.remaining

unfoldable pub sum_remaining : Index → List ℕ → ℤ
sum_remaining idx [] = pos 0
sum_remaining idx (k ∷ ks) = remaining_of (idx k) +ℤ sum_remaining idx ks

pub sum_remaining-agree :
    (idx idx' : Index) (ks : List ℕ)
    → ((k : ℕ) → elem k ks ≡ true → idx' k ≡ idx k)
    → sum_remaining idx' ks ≡ sum_remaining idx ks
unfolding sum_remaining elem
sum_remaining-agree idx idx' [] h = refl
sum_remaining-agree idx idx' (k ∷ ks) h =
    ground
      (arith, h k (ground arith), sum_remaining-agree idx idx' ks (λ j m. h j (ground (arith, m))))

pub sum_remaining-append_one :
    (idx : Index) (ks : List ℕ) (k : ℕ)
    → sum_remaining idx (ks ++ (k ∷ [])) ≡ sum_remaining idx ks +ℤ remaining_of (idx k)
unfolding sum_remaining
sum_remaining-append_one idx [] k = +ℤ_comm (remaining_of (idx k)) (pos 0)
sum_remaining-append_one idx (j ∷ ks) k =
    rw (sum_remaining-append_one idx ks k) (sym (+ℤ_assoc _ _ _))

-- What is left of the sum without `k`.
pub sum_remaining-unlink :
    (idx : Index) (ks : List ℕ) (k : ℕ)
    → elem k ks ≡ true
    → sum_remaining idx (unlink k ks) +ℤ remaining_of (idx k) ≡ sum_remaining idx ks
unfolding sum_remaining elem unlink
sum_remaining-unlink idx [] k h = absurd (false≢true h)
sum_remaining-unlink idx (j ∷ ks) k h = elim (Bool-cases (j == k)) [
  | inl e ↦ rw (e, (==_iff j k).0 e) (+ℤ_comm _ _)
  | inr e ↦ rw e (
      +ℤ_assoc _ _ _
      ∙ ap (λ t. remaining_of (idx j) +ℤ t) (sum_remaining-unlink idx ks k (ground (arith, h, e))))
]
