-- ===== src/Protocol/Numbers.antt =====
-- Which words `parse_u64` and `parse_i64` of src/networking/protocol.cpp take.
use trader_two.Prelude.{
  ℕ, zero, suc, pos, negsuc, ◌==◌, ◌+◌, ◌-◌, ◌*◌, ◌%◌, ◌^◌, ◌≡◌, ◌⊎◌, inl, inr, refl, Bool, true,
  false, if◌then◌else◌, ℤ, [], ◌∷◌, Option, none, some, All, arith, Bool-cases,
}
use trader_two.Text.{Bytes, IsDigit}
use trader_two.Protocol.Tokens.{
  not_digit, read_digits, parse_u64, read_int, read_int_of, with_sign, parse_i64,
}

-- Digits, and one at least.
abbrev pub IsNumber : Bytes → Type 0
IsNumber [] = ⊥
IsNumber (c ∷ s) = All IsDigit (c ∷ s)

abbrev pub IsSigned : Bytes → Type 0
IsSigned [] = ⊥
IsSigned (c ∷ s) = if c == 45 then IsNumber s else IsNumber (c ∷ s)

read_digits-IsDigit :
    (x : ℕ) (s : Bytes)
    → (All IsDigit s × ((v : ℕ) × (read_digits x s ≡ some v)))
      ⊎ (¬ All IsDigit s × (read_digits x s ≡ none))
unfolding read_digits
read_digits-IsDigit x [] = inl (tt, (x, refl))
read_digits-IsDigit x (c ∷ s) = elim (Bool-cases (not_digit c)) [
  | inl bad ↦ inr (λ h. absurd (ground arith), rw bad refl)
  | inr good ↦ elim (read_digits-IsDigit ((x * 10 + (c - 48)) % 2 ^ 64) s) [
    | inl (h, (v, e)) ↦ inl (((ground arith, ground arith), h), (v, rw good e))
    | inr (h, e) ↦ inr (λ k. h k.1, rw good e)
  ]
]

pub parse_u64-cases :
    (s : Bytes)
    → (IsNumber s × ((v : ℕ) × (parse_u64 s ≡ some v))) ⊎ (¬ IsNumber s × (parse_u64 s ≡ none))
unfolding parse_u64
parse_u64-cases [] = inr (λ h. h, refl)
parse_u64-cases (c ∷ s) = read_digits-IsDigit 0 (c ∷ s)

read_int-IsDigit :
    (x : ℕ) (s : Bytes)
    → (All IsDigit s × ((v : ℕ) × (read_int x s ≡ some v)))
      ⊎ (¬ All IsDigit s × (read_int x s ≡ none))
unfolding read_int
read_int-IsDigit x [] = inl (tt, (x, refl))
read_int-IsDigit x (c ∷ s) = elim (Bool-cases (not_digit c)) [
  | inl bad ↦ inr (λ h. absurd (ground arith), rw bad refl)
  | inr good ↦ elim (read_int-IsDigit (x * 10 + (c - 48)) s) [
    | inl (h, (v, e)) ↦ inl (((ground arith, ground arith), h), (v, rw good e))
    | inr (h, e) ↦ inr (λ k. h k.1, rw good e)
  ]
]

read_int_of-cases :
    (s : Bytes)
    → (IsNumber s × ((v : ℕ) × (read_int_of s ≡ some v))) ⊎ (¬ IsNumber s × (read_int_of s ≡ none))
read_int_of-cases [] = inr (λ h. h, refl)
read_int_of-cases (c ∷ s) = read_int-IsDigit 0 (c ∷ s)

with_sign-some : (neg : Bool) (v : ℕ) → (z : ℤ) × (with_sign neg (some v) ≡ some z)
with_sign-some false v = (pos v, refl)
with_sign-some true zero = (pos 0, refl)
with_sign-some true (suc v) = (negsuc v, refl)

-- A sign in front changes nothing of what is taken.
signed_cases :
    (neg : Bool) (P : Type 0) (r : Option ℕ)
    → (P × ((v : ℕ) × (r ≡ some v))) ⊎ (¬ P × (r ≡ none))
    → (P × ((z : ℤ) × (with_sign neg r ≡ some z))) ⊎ (¬ P × (with_sign neg r ≡ none))
signed_cases neg P r (inl (is, (v, e))) = let (z, f) = with_sign-some neg v in inl (is, (z, rw e f))
signed_cases neg P r (inr (isnt, e)) = inr (isnt, rw e refl)

pub parse_i64-cases :
    (s : Bytes)
    → (IsSigned s × ((z : ℤ) × (parse_i64 s ≡ some z))) ⊎ (¬ IsSigned s × (parse_i64 s ≡ none))
unfolding parse_i64
parse_i64-cases [] = inr (λ h. h, refl)
parse_i64-cases (c ∷ s) = elim (Bool-cases (c == 45)) [
  | inl minus ↦ rw minus (signed_cases true (IsNumber s) (read_int_of s) (read_int_of-cases s))
  | inr plain ↦
      rw plain
        (signed_cases false (IsNumber (c ∷ s)) (read_int_of (c ∷ s)) (read_int_of-cases (c ∷ s)))
]
