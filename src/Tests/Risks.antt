-- ===== src/Tests/Risks.antt =====
-- The risk checks and the gate on the offer of the other tests.
use trader_two.Prelude.{ℤ, pos, true, false, ◌≡◌, ◌↔◌, refl, List, [], ◌∷◌, ◌++◌, arith, All}
use trader_two.Types.{price_is_valid, quantity_is_valid}
use trader_two.Prelude.Map.{find}
use trader_two.Risk.{
  RiskGate, RateLimit, max_order_quantity_check, max_notional_check, rate_limit_check, always_allow,
  decision_ok, evaluate, evaluate_check, check_quantity, bucket_of,
}
use trader_two.Risk.Gate.{Accepts, asked, evaluate-Accepts, evaluate-first}
use trader_two.Risk.Rate.{admissions, lesser, admissions-burst}
use trader_two.Tests.Books.{offer}

-- Two tokens at most; nobody has asked yet.
abbrev limits : RateLimit
limits = record { burst = 2; refill_ns = 1000; states = [] }

abbrev gate : RiskGate
gate = always_allow ∷ max_notional_check (pos 500) ∷ []

evaluate-Accepts_example :
    (decision_ok (evaluate (pos 1) offer gate).1 ≡ true) ↔ All (Accepts (pos 1) offer) gate
evaluate-Accepts_example = evaluate-Accepts (pos 1) offer gate

small_limit :
    decision_ok (evaluate_check (pos 1) offer (max_order_quantity_check (pos 4))).1 ≡ false
unfolding evaluate_check check_quantity quantity_is_valid
small_limit = refl

allowed : All (Accepts (pos 1) offer) (always_allow ∷ [])
unfolding evaluate_check
allowed = (refl, tt)

evaluate-first_example :
    evaluate
      (pos 1)
      offer
      ((always_allow ∷ []) ++ (max_order_quantity_check (pos 4) ∷ rate_limit_check limits ∷ []))
    ≡ (
      asked (pos 1) offer (always_allow ∷ [])
          ++ ((evaluate_check (pos 1) offer (max_order_quantity_check (pos 4))).0
              ∷ rate_limit_check limits
              ∷ []),
      (evaluate_check (pos 1) offer (max_order_quantity_check (pos 4))).1,
    )
evaluate-first_example =
    evaluate-first (pos 1) offer (always_allow ∷ []) (max_order_quantity_check (pos 4))
      (rate_limit_check limits ∷ []) allowed small_limit

offer-priced : price_is_valid (pos 100) ≡ true
unfolding price_is_valid
offer-priced = refl

limits-unused : (bucket_of 7 limits).last_ns ≡ pos 0
unfolding bucket_of find
limits-unused = refl

abbrev times : List ℤ
times = pos 6 ∷ pos 900 ∷ pos 30 ∷ []

admissions-burst_example : admissions (pos 900 ∷ times) offer limits ≡ lesser 4 2
admissions-burst_example =
    admissions-burst (pos 900) times offer limits (ground arith)
      (ground arith, (ground arith, (ground arith, tt))) limits-unused (omega arith)
