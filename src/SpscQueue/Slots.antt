-- ===== src/SpscQueue/Slots.antt =====
-- The slots of `SPSCQueue` as a window of an endless row: the cursors are numbers modulo 2 ^ 64, and
-- a slot is a cursor modulo the capacity, which divides 2 ^ 64.
use native.Mathlib.Nat.{
  mod-add-mod, mod-eq_of_lt, mod-eq-sub-mod, mod-lt, mod-mod_of_dvd, dvd_of_mod-eq-zero,
}
use trader_two.Prelude.{
  ℕ, ◌+◌, ◌-◌, ◌%◌, ◌^◌, ◌≤◌, ◌<◌, ◌≡◌, ◌≢◌, List, [], ◌∷◌, ◌++◌, length, arith, ap, sym, ◌∙◌,
  Bool-cases, inl, inr, ltb,
}
use trader_two.Types.{next_u64}
use trader_two.SpscQueue.{store_slot, cursor_gap}

-- Fewer than `n` steps round the ring do not come back to the start.
mod_apart_below : (n r k : ℕ) → r < n → 0 < k → k < n → (r + k) % n ≢ r
mod_apart_below n r k hr hk hn = elim (Bool-cases (ltb (r + k) n)) [
  | inl below ↦
      let lt : r + k < n = ground arith in λ e. omega (arith, mod-eq_of_lt {n = r + k} {m = n} lt)
  | inr past ↦
      let le : n ≤ r + k = ground arith in
      λ e. omega (
        arith,
        mod-eq-sub-mod {n = r + k} {m = n} le,
        mod-eq_of_lt {n = r + k - n} {m = n} (omega arith),
      )
]

pub mod_apart : (n i k : ℕ) → 0 < k → k < n → (i + k) % n ≢ i % n
mod_apart n i k hk hn e =
    mod_apart_below n (i % n) k (mod-lt i {m = n} (omega arith)) hk hn (mod-add-mod i n k ∙ e)

-- What the class asserts of its capacity: at least two slots, and a power of two, which divides the
-- 2 ^ 64 values of a cursor.
pub record IsCapacity (n : ℕ) : Type 0 where
  pub several : 1 < n
  pub fits : n < 2 ^ 64
  pub divides : 2 ^ 64 % n ≡ 0

-- The slot of a cursor is the slot of the place that it stands for.
pub slot_of_cursor : {n : ℕ} (j : ℕ) → IsCapacity n → j % 2 ^ 64 % n ≡ j % n
slot_of_cursor {n} j c = mod-mod_of_dvd n j (dvd_of_mod-eq-zero n c.divides)

pub next_cursor : (j : ℕ) → next_u64 (j % 2 ^ 64) ≡ (j + 1) % 2 ^ 64
unfolding next_u64
next_cursor j = omega arith

pub cursor_gap-eq : (h k : ℕ) → k < 2 ^ 64 → cursor_gap ((h + k) % 2 ^ 64) (h % 2 ^ 64) ≡ k
unfolding cursor_gap
cursor_gap-eq h k hk = omega arith

module _ {ℓ} {A : Type ℓ} where
  -- The row from place `h` on holds `xs`.
  abbrev pub InSlots : (ℕ → A) → ℕ → ℕ → List A → Type ℓ
  InSlots s n h [] = Unit
  InSlots s n h (x ∷ xs) = (s (h % n) ≡ x) × InSlots s n (h + 1) xs

  pub store_slot_self : (k : ℕ) (v : A) (s : ℕ → A) → store_slot k v s k ≡ v
  unfolding store_slot
  store_slot_self k v s = ground arith

  pub store_slot_ne : (k i : ℕ) (v : A) (s : ℕ → A) → i ≢ k → store_slot k v s i ≡ s i
  unfolding store_slot
  store_slot_ne k i v s ne = ground arith

  -- A store to the slot of a place behind the row, less than a round away, leaves the row.
  pub InSlots-store :
      (s : ℕ → A) (n h j : ℕ) (v : A) (xs : List A)
      → InSlots s n h xs
      → h + length xs ≤ j
      → j < h + n
      → InSlots (store_slot (j % n) v s) n h xs
  InSlots-store s n h j v [] held le lt = tt
  InSlots-store s n h j v (x ∷ xs) held le lt = (
    store_slot_ne (j % n) (h % n) v s (λ e.
          mod_apart n h (j - h) (omega arith) (omega arith)
            (ap (λ (k : ℕ). k % n) (omega arith) ∙ sym e))
        ∙ held.0,
    InSlots-store s n (h + 1) j v xs held.1 (omega arith) (omega arith),
  )

  pub InSlots-append :
      (s : ℕ → A) (n h j : ℕ) (v : A) (xs : List A)
      → InSlots s n h xs
      → j ≡ h + length xs
      → s (j % n) ≡ v
      → InSlots s n h (xs ++ (v ∷ []))
  InSlots-append s n h j v [] held e at = (ap (λ (k : ℕ). s (k % n)) (omega arith) ∙ at, tt)
  InSlots-append s n h j v (x ∷ xs) held e at =
      (held.0, InSlots-append s n (h + 1) j v xs held.1 (omega arith) at)
