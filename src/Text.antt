-- ===== src/Text.antt =====
-- Text as the list of its bytes, where the program walks it, and the decimal numbers that `snprintf`
-- writes for `%lu` and `%lld`.
use Prim.Native.Char.{code}
use trader_two.Prelude.{
  ℕ, zero, suc, ◌+◌, ◌/◌, ◌%◌, ◌≤◌, ◌<◌, ◌≡◌, refl, ltb, if◌then◌else◌, ℤ, pos, negsuc, List, [],
  ◌∷◌, ◌++◌, String, All, arith, Bool-cases, inl, inr,
}

abbrev pub Bytes : Type 0
Bytes = List ℕ

abbrev pub codes : String → Bytes
codes String.[] = []
codes (String.◌∷◌ c s) = code c ∷ codes s

-- The digits of `n`, highest first. Each round drops one, so `n + 1` rounds are enough.
print_digits : ℕ → ℕ → Bytes
print_digits zero n = []
print_digits (suc fuel) n =
    let rest = print_digits fuel (n / 10) in
    if ltb n 10 then (48 + n) ∷ [] else rest ++ ((48 + n % 10) ∷ [])

-- `%lu`
unfoldable pub print_u64 : ℕ → Bytes
unfolding print_digits
print_u64 n = print_digits (suc n) n

-- `%lld`
unfoldable pub print_i64 : ℤ → Bytes
print_i64 (pos n) = print_u64 n
print_i64 (negsuc n) = 45 ∷ print_u64 (n + 1)

print_u64_test : print_u64 1207 ≡ codes "1207"
unfolding print_u64
print_u64_test = refl

abbrev pub IsDigit : ℕ → Type 0
IsDigit c = (48 ≤ c) × (c ≤ 57)

-- One more digit behind digits.
digits-snoc : (s : Bytes) {c : ℕ} → All IsDigit s → IsDigit c → All IsDigit (s ++ (c ∷ []))
digits-snoc [] h k = (k, tt)
digits-snoc (d ∷ s) h k = (h.0, digits-snoc s h.1 k)

print_digits-IsDigit : (fuel n : ℕ) → All IsDigit (print_digits fuel n)
unfolding print_digits
print_digits-IsDigit zero n = tt
print_digits-IsDigit (suc fuel) n = elim (Bool-cases (ltb n 10)) [
  | inl small ↦ rw small ((omega arith, ground arith), tt)
  | inr large ↦ rw large (
      digits-snoc (print_digits fuel (n / 10)) (print_digits-IsDigit fuel (n / 10))
        (omega arith, omega arith))
]

pub print_u64-IsDigit : (n : ℕ) → All IsDigit (print_u64 n)
unfolding print_u64
print_u64-IsDigit n = print_digits-IsDigit (suc n) n

-- Induction on the digits of a number.
pub print_u64_ind {ℓ} :
    (P : ℕ → Bytes → Type ℓ)
    → ((n : ℕ) → n < 10 → P n ((48 + n) ∷ []))
    → ((n : ℕ) (s : Bytes) → 10 ≤ n → P (n / 10) s → P n (s ++ ((48 + n % 10) ∷ [])))
    → (n : ℕ) → P n (print_u64 n)
unfolding print_u64
print_u64_ind P one more n = go (suc n) n (omega arith)
  where
    go : (fuel k : ℕ) → k < fuel → P k (print_digits fuel k)
    go zero k lt = absurd (omega arith)
    go (suc fuel) k lt = elim (Bool-cases (ltb k 10)) [
      | inl small ↦ rw small (one k (ground arith))
      | inr large ↦
          rw large
            (more k (print_digits fuel (k / 10)) (ground arith) (go fuel (k / 10) (ground arith)))
    ]

-- A part of what a format of `snprintf` spells.
pub data Piece : Type 0 where
  literal : String → Piece
  number : ℕ → Piece
  integer : ℤ → Piece
  bytes : Bytes → Piece

unfoldable pub print_piece : Piece → Bytes
unfolding print_u64 print_i64
print_piece (literal s) = codes s
print_piece (number n) = print_u64 n
print_piece (integer z) = print_i64 z
print_piece (bytes s) = s

unfoldable pub printf : List Piece → Bytes
unfolding print_piece
printf [] = []
printf (p ∷ ps) = print_piece p ++ printf ps
