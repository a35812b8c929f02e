-- ===== src/Risk.antt =====
-- include/tt/risk/risk.hpp and src/risk/risk.cpp: the pre-trade checks and the gate that runs them.
-- A bucket's tokens are a `double` as Double.antt has it, with the rounding of each of its steps. The
-- clock is read as an argument; the mutex is left out.
pub mod Gate
pub mod Rate
use trader_two.Prelude.{
  ℕ, ◌==◌, ltb, ℤ, pos_part, pos, ◌+ℤ◌, ◌-ℤ◌, ◌*ℤ◌, ltb_ℤ, eq_ℤ, Bool, true, false, not, ◌&&◌,
  if◌then◌else◌, List, [], ◌∷◌, ◌++◌, Option, none, some, String, length,
}
use trader_two.Double.{one, double_of, add, subtract, divide}
use trader_two.Prelude.Map.{Map, find, assign}
use trader_two.Types.{price_is_valid, quantity_is_valid}
use trader_two.Order.{Order}

pub data RiskRejectCode : Type 0 where
  accepted null_order max_quantity max_notional price_out_of_collar : RiskRejectCode
  rate_limited self_trade_prevent invalid_input : RiskRejectCode

pub record RiskDecision : Type 0 where
  pub code : RiskRejectCode
  pub reason : String

abbrev pub decision_ok : RiskDecision → Bool
decision_ok d = elim d.code [ accepted ↦ true | _ ↦ false ]

abbrev pub accept : RiskDecision
accept = record { code = accepted; reason = "" }

abbrev pub reject : RiskRejectCode → String → RiskDecision
reject c r = record { code = c; reason = r }

-- `MaxOrderQuantityCheck::evaluate`
unfoldable pub check_quantity : ℤ → Order → RiskDecision
check_quantity max o =
    if not (quantity_is_valid o.quantity)
    then reject invalid_input "invalid quantity"
    else if ltb_ℤ max o.quantity
    then reject max_quantity "quantity exceeds maximum"
    else accept

-- `MaxNotionalCheck::evaluate`; the product is an `__int128`.
unfoldable pub check_notional : ℤ → Order → RiskDecision
check_notional max_ticks o =
    if not (quantity_is_valid o.quantity)
    then reject invalid_input "invalid quantity"
    else if not (price_is_valid o.price)
    then reject invalid_input "invalid price"
    else if ltb_ℤ max_ticks (o.price *ℤ o.quantity)
    then reject max_notional "notional exceeds maximum"
    else accept

-- `PriceCollarCheck::evaluate`
unfoldable pub check_collar : ℤ → ℤ → Order → RiskDecision
check_collar lower upper o =
    if not (price_is_valid o.price)
    then accept
    else if ltb_ℤ (pos 0) lower && ltb_ℤ o.price lower
    then reject price_out_of_collar "price below lower collar"
    else if ltb_ℤ (pos 0) upper && ltb_ℤ upper o.price
    then reject price_out_of_collar "price above upper collar"
    else accept

-- `RateLimitCheck::State`
pub record Bucket : Type 0 where
  pub tokens : ℕ
  pub last_ns : ℤ

pub record RateLimit : Type 0 where
  pub burst : ℕ
  pub refill_ns : ℕ
  pub states : Map Bucket

-- `states_[o.trader_id]`
unfoldable pub bucket_of : ℕ → RateLimit → Bucket
bucket_of trader r = elim (find trader r.states) [
  | none ↦ record { tokens = 0; last_ns = pos 0 }
  | some s ↦ s
]

-- `std::min<double>`
abbrev pub min_double : ℕ → ℕ → ℕ
min_double a b = if ltb b a then b else a

-- The tokens after `elapsed` nanoseconds, which are more than none. Divided by zero, they are infinitely
-- many, and the bucket is full.
unfoldable pub topped_up : ℕ → RateLimit → ℕ → ℕ
topped_up elapsed r tokens =
    if r.refill_ns == 0
    then double_of r.burst
    else min_double (add tokens (divide (double_of elapsed) (double_of r.refill_ns)))
        (double_of r.burst)

unfoldable pub refill : ℤ → RateLimit → Bucket → Bucket
unfolding topped_up
refill now r s =
    if eq_ℤ s.last_ns (pos 0)
    then record { tokens = double_of r.burst; last_ns = now }
    else let elapsed = now -ℤ s.last_ns in
      if ltb_ℤ (pos 0) elapsed
      then record { tokens = topped_up (pos_part elapsed) r s.tokens; last_ns = now }
      else s

abbrev with_bucket : ℕ → Bucket → RateLimit → RateLimit
with_bucket trader s r = record r { states = assign trader s r.states }

-- `RateLimitCheck::evaluate`
unfoldable pub check_rate : ℤ → Order → RateLimit → RateLimit × RiskDecision
check_rate now o r =
    let s = refill now r (bucket_of o.trader_id r) in
    if ltb s.tokens one
    then (with_bucket o.trader_id s r, reject rate_limited "rate limit exceeded")
    else (with_bucket o.trader_id (record s { tokens = subtract s.tokens one }) r, accept)

pub data RiskCheck : Type 0 where
  max_order_quantity_check : ℤ → RiskCheck
  max_notional_check : ℤ → RiskCheck
  price_collar_check : ℤ → ℤ → RiskCheck
  rate_limit_check : RateLimit → RiskCheck
  always_allow : RiskCheck

-- `RiskCheck::evaluate`, dispatched on the class. A check may change its own state.
unfoldable pub evaluate_check : ℤ → Order → RiskCheck → RiskCheck × RiskDecision
evaluate_check now o (max_order_quantity_check max) =
    (max_order_quantity_check max, check_quantity max o)
evaluate_check now o (max_notional_check max) = (max_notional_check max, check_notional max o)
evaluate_check now o (price_collar_check lower upper) =
    (price_collar_check lower upper, check_collar lower upper o)
evaluate_check now o (rate_limit_check r) =
    let (r', d) = check_rate now o r in (rate_limit_check r', d)
evaluate_check now o always_allow = (always_allow, accept)

abbrev pub RiskGate : Type 0
RiskGate = List RiskCheck

unfoldable pub add_check : RiskCheck → RiskGate → RiskGate
add_check c checks = checks ++ (c ∷ [])

unfoldable pub clear_checks : RiskGate → RiskGate
clear_checks checks = []

unfoldable pub check_count : RiskGate → ℕ
check_count checks = length checks

-- `RiskGate::evaluate`: the checks in order up to the first that does not pass.
unfoldable pub evaluate : ℤ → Order → RiskGate → RiskGate × RiskDecision
unfolding evaluate_check
evaluate now o [] = ([], accept)
evaluate now o (c ∷ checks) =
    let (c', d) = evaluate_check now o c in
    let rest = evaluate now o checks in
    if decision_ok d then (c' ∷ rest.0, rest.1) else (c' ∷ checks, d)
