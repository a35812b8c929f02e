-- ===== src/Risk/Gate.antt =====
-- What the checks of src/risk/risk.cpp accept, and what the gate makes of them.
use mathlib.Core.Bool.{false≢true}
use trader_two.Prelude.{
  ℤ, pos, ◌*ℤ◌, ◌<ℤ◌, ◌≤ℤ◌, ltb_ℤ, true, false, ◌&&◌, ◌≡◌, refl, ◌↔◌, [], ◌∷◌, ◌++◌, arith, ◌∙◌,
  sym, inl, inr, Bool-cases, All,
}
use trader_two.Types.{price_is_valid, quantity_is_valid}
use trader_two.Order.{Order}
use trader_two.Risk.{
  RiskCheck, RiskGate, decision_ok, check_notional, check_collar, evaluate_check, evaluate,
}

-- The check lets the order pass.
abbrev pub Accepts : ℤ → Order → RiskCheck → Type 0
Accepts now o c = decision_ok (evaluate_check now o c).1 ≡ true

-- The gate lets an order pass exactly if each of its checks does.
pub evaluate-Accepts :
    (now : ℤ) (o : Order) (gate : RiskGate)
    → (decision_ok (evaluate now o gate).1 ≡ true) ↔ All (Accepts now o) gate
unfolding evaluate
evaluate-Accepts now o [] = (λ h. tt, λ h. refl)
evaluate-Accepts now o (c ∷ gate) = elim (Bool-cases (decision_ok (evaluate_check now o c).1)) [
  | inl ok ↦ (
    λ h. (ok, (evaluate-Accepts now o gate).0 (rw ok at h)),
    λ h. rw ok ((evaluate-Accepts now o gate).1 h.1),
  )
  | inr fails ↦ (
    λ h. absurd (false≢true (sym fails ∙ rw fails at h)),
    λ h. absurd (false≢true (sym fails ∙ h.0)),
  )
]

-- The checks after they were asked.
abbrev pub asked : ℤ → Order → RiskGate → RiskGate
asked now o [] = []
asked now o (c ∷ gate) = (evaluate_check now o c).0 ∷ asked now o gate

-- The first check that refuses an order decides: the checks before it, which let the order pass,
-- are asked and may change, the ones after it are not, and its decision is that of the gate.
pub evaluate-first :
    (now : ℤ) (o : Order) (passed : RiskGate) (c : RiskCheck) (after : RiskGate)
    → All (Accepts now o) passed
    → decision_ok (evaluate_check now o c).1 ≡ false
    → evaluate now o (passed ++ (c ∷ after))
      ≡ (asked now o passed ++ ((evaluate_check now o c).0 ∷ after), (evaluate_check now o c).1)
unfolding evaluate
evaluate-first now o [] c after h fails = rw fails refl
evaluate-first now o (p ∷ passed) c after h fails =
    rw (h.0, evaluate-first now o passed c after h.1 fails) refl

-- The notional check lets an order pass exactly if its quantity and its price are valid and their
-- product is at most the limit.
pub check_notional-accepts :
    (max_ticks : ℤ) (o : Order)
    → (decision_ok (check_notional max_ticks o) ≡ true) ↔ (
        (quantity_is_valid o.quantity ≡ true)
        × (price_is_valid o.price ≡ true)
        × (o.price *ℤ o.quantity ≤ℤ max_ticks))
unfolding check_notional
check_notional-accepts max_ticks o = elim (Bool-cases (quantity_is_valid o.quantity)) [
  | inr e ↦ (λ h. absurd (false≢true (rw e at h)), λ h. absurd (false≢true (sym e ∙ h.0)))
  | inl sized ↦ elim (Bool-cases (price_is_valid o.price)) [
    | inr e ↦
        (λ h. absurd (false≢true (rw (sized, e) at h)), λ h. absurd (false≢true (sym e ∙ h.1)))
    | inl priced ↦ elim (Bool-cases (ltb_ℤ max_ticks (o.price *ℤ o.quantity))) [
      | inl over ↦ (
        λ h. absurd (false≢true (rw (sized, priced, over) at h)),
        λ h. absurd (ground (arith, over, h.2)),
      )
      | inr within ↦
          (λ h. (sized, priced, ground (arith, within)), λ h. rw (sized, priced, within) refl)
    ]
  ]
]

-- The collar lets an order with a valid price pass exactly if the price is no lower than the lower
-- bound and no higher than the upper one, where a bound that is not positive does not count.
pub check_collar-accepts :
    (lower upper : ℤ) (o : Order)
    → price_is_valid o.price ≡ true
    → (decision_ok (check_collar lower upper o) ≡ true)
      ↔ ((pos 0 <ℤ lower → lower ≤ℤ o.price) × (pos 0 <ℤ upper → o.price ≤ℤ upper))
unfolding check_collar
check_collar-accepts lower upper o priced =
    elim (Bool-cases (ltb_ℤ (pos 0) lower && ltb_ℤ o.price lower)) [
      | inl below ↦ (
        λ h. absurd (false≢true (rw (priced, below) at h)),
        λ h. absurd (ground (arith, below, h.0 (ground (arith, below)))),
      )
      | inr from ↦ elim (Bool-cases (ltb_ℤ (pos 0) upper && ltb_ℤ upper o.price)) [
        | inl above ↦ (
          λ h. absurd (false≢true (rw (priced, from, above) at h)),
          λ h. absurd (ground (arith, above, h.1 (ground (arith, above)))),
        )
        | inr to ↦ (
          λ h. (λ k. ground (arith, from, k), λ k. ground (arith, to, k)),
          λ h. rw (priced, from, to) refl,
        )
      ]
    ]
