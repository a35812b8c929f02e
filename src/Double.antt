-- ===== src/Double.antt =====
-- The `double` of src/risk/risk.cpp: IEEE 754 binary64, for numbers that are finite and not negative, as the
-- multiples of 2 ^ -1074, the smallest of them.
use native.Mathlib.Nat.{mul-div_cancel, mul-mod_left, mul_assoc, mul-lt-mul_of_pos_right}
use trader_two.Prelude.{
  ℕ, zero, suc, ◌+◌, ◌-◌, ◌*◌, ◌/◌, ◌%◌, ◌^◌, ◌≤◌, ◌<◌, ◌==◌, ltb, false, if◌then◌else◌, ◌≡◌, refl,
  ◌∙◌, sym, ap, subst, arith, Bool-cases, inl, inr,
}

-- 1.0
unfoldable pub one : ℕ
one = 2 ^ 1074

-- How often a number is to be halved so that it has 53 bits at most. A double has less than 2098 bits here.
unfoldable pub excess : ℕ → ℕ → ℕ
excess zero n = 0
excess (suc fuel) n = let rest = excess fuel (n / 2) in if ltb n (2 ^ 53) then 0 else suc rest

-- The nearer of two neighbours, and the even one in the middle: `rest` out of `unit` beyond `m`.
unfoldable pub nearest : ℕ → ℕ → ℕ → ℕ
nearest m rest unit =
    if ltb (rest * 2) unit then m else if ltb unit (rest * 2) then m + 1 else m + m % 2

-- `p / q` rounded to 53 bits.
unfoldable pub round_to : ℕ → ℕ → ℕ → ℕ
unfolding nearest
round_to p q unit = nearest (p / (q * unit)) (p % (q * unit)) (q * unit) * unit

unfoldable pub rounded : ℕ → ℕ → ℕ
unfolding round_to excess
rounded p q = round_to p q (2 ^ excess 2098 (p / q))

-- `static_cast<double>(n)`, `a + b`, `a - b` for `b` up to `a`, and `a / b` for `b` above zero.
unfoldable pub double_of : ℕ → ℕ
unfolding rounded one
double_of n = rounded (n * one) 1

unfoldable pub add : ℕ → ℕ → ℕ
unfolding rounded
add a b = rounded (a + b) 1

unfoldable pub subtract : ℕ → ℕ → ℕ
unfolding rounded
subtract a b = rounded (a - b) 1

unfoldable pub divide : ℕ → ℕ → ℕ
unfolding rounded one
divide a b = rounded (a * one) b

-- 0.1 + 0.2
inexact_test :
    add (divide (double_of 1) (double_of 10)) (divide (double_of 2) (double_of 10)) * 10
      == double_of 3
    ≡ false
unfolding add divide double_of
inexact_test = refl

excess_le : (fuel j n : ℕ) → n < 2 ^ 53 * 2 ^ j → excess fuel n ≤ j
unfolding excess
excess_le zero j n h = omega arith
excess_le (suc fuel) zero n h = ground arith
excess_le (suc fuel) (suc j) n h =
    let half : n / 2 < 2 ^ 53 * 2 ^ j = omega (arith, h) in
    ground (arith, excess_le fuel j (n / 2) half)

-- The fuel is enough: after that many halvings there are 53 bits at most.
excess-enough : (fuel n : ℕ) → n < 2 ^ 53 * 2 ^ fuel → n < 2 ^ 53 * 2 ^ excess fuel n
unfolding excess
excess-enough zero n h = h
excess-enough (suc fuel) n h = elim (Bool-cases (ltb n (2 ^ 53))) [
  | inl small ↦ rw small (ground (arith, small))
  | inr large ↦
      let half : n / 2 < 2 ^ 53 * 2 ^ fuel = omega (arith, h) in
      let rest : n / 2 < 2 ^ 53 * 2 ^ excess fuel (n / 2) = excess-enough fuel (n / 2) half in
      let twice : n < 2 ^ 53 * 2 ^ suc (excess fuel (n / 2)) = omega (arith, rest) in rw large twice
]

pow_split : (e j : ℕ) → e ≤ j → (d : ℕ) × (2 ^ j ≡ d * 2 ^ e)
pow_split zero j le = (2 ^ j, omega arith)
pow_split (suc e) zero le = absurd (omega arith)
pow_split (suc e) (suc j) le =
    let (d, same) = pow_split e j (omega arith) in
    (d, omega (arith, same) ∙ mul_assoc d (2 ^ e) 2 ∙ ap (λ (t : ℕ). d * t) (omega arith))

pub pow_positive : (e : ℕ) → 0 < 2 ^ e
pow_positive zero = omega arith
pow_positive (suc e) = omega (arith, pow_positive e)

nearest-same : (m unit : ℕ) → 0 < unit → nearest m 0 unit ≡ m
unfolding nearest
nearest-same m unit positive = ground arith

-- What has no rest stays as it is.
round_to-multiple : (m unit : ℕ) → 0 < unit → round_to (m * unit) 1 unit ≡ m * unit
unfolding round_to
round_to-multiple m unit positive =
    let once : 1 * unit ≡ unit = omega arith in
    rw
      (
        once,
        mul-div_cancel m {n = unit} positive,
        mul-mod_left m unit,
        nearest-same m unit positive,
      )
      refl

round_to-split :
    (k j d unit : ℕ) → 2 ^ j ≡ d * unit → 0 < unit → round_to (k * 2 ^ j) 1 unit ≡ k * 2 ^ j
round_to-split k j d unit same positive =
    let whole : k * d * unit ≡ k * 2 ^ j = mul_assoc k d unit ∙ ap (λ (t : ℕ). k * t) (sym same) in
    subst (λ t. round_to t 1 unit ≡ t) whole (round_to-multiple (k * d) unit positive)

-- A whole number of so many bits is kept, in units of any power of two.
pub exact : (k j : ℕ) → k < 2 ^ 53 → rounded (k * 2 ^ j) 1 ≡ k * 2 ^ j
unfolding rounded
exact k j small =
    let below : k * 2 ^ j / 1 < 2 ^ 53 * 2 ^ j =
      omega
        (arith, mul-lt-mul_of_pos_right {m = k} {n = 2 ^ 53} {k = 2 ^ j} small (pow_positive j)) in
    let (d, same) =
      pow_split (excess 2098 (k * 2 ^ j / 1)) j (excess_le 2098 j (k * 2 ^ j / 1) below) in
    round_to-split k j d (2 ^ excess 2098 (k * 2 ^ j / 1)) same
      (pow_positive (excess 2098 (k * 2 ^ j / 1)))

one_taken : (k p : ℕ) → suc k * p - p ≡ k * p
one_taken k p = omega arith

exact-minus : (k j : ℕ) → k < 2 ^ 53 → rounded (suc k * 2 ^ j - 2 ^ j) 1 ≡ k * 2 ^ j
exact-minus k j small = ap (λ (n : ℕ). rounded n 1) (one_taken k (2 ^ j)) ∙ exact k j small

-- Whole numbers below 2 ^ 53 are counted without rounding.
pub double_of-whole : (k : ℕ) → k < 2 ^ 53 → double_of k ≡ k * one
unfolding double_of one
double_of-whole k small = exact k 1074 small

pub subtract-whole : (k : ℕ) → k < 2 ^ 53 → subtract (suc k * one) one ≡ k * one
unfolding subtract one
subtract-whole k small = exact-minus k 1074 small

pub one_positive : 0 < one
unfolding one
one_positive = pow_positive 1074
