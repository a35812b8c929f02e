-- ===== src/Engine/Accounts.antt =====
-- What a submission reports against what it traded (src/matching/matching_engine.cpp, submit).
use trader_two.Prelude.{
  ℕ, zero, suc, ℤ, pos, negsuc, ◌+ℤ◌, ◌-ℤ◌, ◌<ℤ◌, ◌≤ℤ◌, ltb_ℤ, false, ◌≡◌, refl, List, [], Option,
  none, some, arith, ◌∙◌, sym, ap, ap₂, subst, inl, inr, ◌⊎◌, Bool-cases, int_laws,
}
use trader_two.Order.{Order, Trade}
use trader_two.OrderBook.{OrderBook, insert}
use trader_two.OrderBook.Coherent.{IsValid}
use trader_two.Engine.Matching.{Machine, MatchState, trade_with, make_trade}
use trader_two.Engine.Matching.Rounds.{ReadsFreed}
use trader_two.Engine.Matching.Effect.{fill_quantity_bounds, round-IsValid}
use trader_two.Engine.Matching.Runs.{Runs, stop, round}
use trader_two.Engine.Matching.Laws.{traded, Runs-taker}
use trader_two.Registry.{MatchingEngine}
use trader_two.Engine.{Outcome, SubmitResult, settle, rest_order, finish, submit, with_id}
use trader_two.Engine.Validity.{AllValid, Executed, result_of}
use trader_two.Engine.Submits.{Submits, refused, executed, submit-Submits}

plus_pos : (a b : ℤ) → pos 0 <ℤ a → pos 0 ≤ℤ b → pos 0 ≤ℤ a +ℤ b
plus_pos a b h k = omega (arith, int_laws, h, k)

Runs-positive :
    {machine : Machine} {m end : MatchState} {ts : List Trade}
    → ReadsFreed machine
    → Runs machine m end ts
    → IsValid m.book
    → pos 0 ≤ℤ traded ts
unfolding trade_with make_trade
Runs-positive reads (stop e) v = ground arith
Runs-positive {machine} {m} reads (round resting t runs) v =
    plus_pos _ _ (fill_quantity_bounds machine m resting reads v t).0
      (Runs-positive reads runs (round-IsValid machine m resting reads v t))

left_pos : (a b : ℤ) → b ≤ℤ a → pos 0 ≤ℤ a -ℤ b
left_pos a b h = omega (arith, int_laws, h)

Runs-left :
    {machine : Machine} {m end : MatchState} {ts : List Trade}
    → ReadsFreed machine
    → Runs machine m end ts
    → IsValid m.book
    → pos 0 ≤ℤ m.taker.remaining
    → pos 0 ≤ℤ end.taker.remaining
unfolding trade_with
Runs-left reads (stop e) v left = left
Runs-left {machine} {m} reads (round resting t runs) v left =
    Runs-left reads runs (round-IsValid machine m resting reads v t)
      (left_pos m.taker.remaining _ (fill_quantity_bounds machine m resting reads v t).1)

nothing_left : (r : ℤ) → pos 0 ≤ℤ r → ltb_ℤ (pos 0) r ≡ false → r ≡ pos 0
nothing_left (pos zero) h k = refl
nothing_left (pos (suc n)) h k = absurd (ground (arith, k))
nothing_left (negsuc n) h k = absurd (ground (arith, h))

minus_zero : (q : ℤ) → q -ℤ pos 0 ≡ q
minus_zero q = omega int_laws

all_filled : (q r : ℤ) → pos 0 ≤ℤ r → ltb_ℤ (pos 0) r ≡ false → q ≡ q -ℤ r
all_filled q r h k = sym (ap (λ x. q -ℤ x) (nothing_left r h k) ∙ minus_zero q)

-- What `settle` reports of an order: what it filled, and that nothing rests or all that is left does.
settle-filled :
    (r : SubmitResult) (taker : Order)
    → pos 0 ≤ℤ taker.remaining
    → (settle r taker).0.filled_quantity ≡ taker.quantity -ℤ taker.remaining
unfolding settle
settle-filled r taker left = elim (Bool-cases (ltb_ℤ (pos 0) taker.remaining)) [
  | inl some_left ↦ rw some_left (ground (arith, some_left))
  | inr none_left ↦ rw none_left (all_filled taker.quantity taker.remaining left none_left)
]

settle-resting :
    (r : SubmitResult) (taker : Order)
    → ((settle r taker).0.resting_quantity ≡ pos 0)
      ⊎ ((settle r taker).0.resting_quantity ≡ taker.remaining)
unfolding settle
settle-resting r taker = ground arith

rest_order-filled :
    (r : SubmitResult) (o : Option Order) (b : OrderBook)
    → (rest_order r o b).1.filled_quantity ≡ r.filled_quantity
unfolding rest_order
rest_order-filled r none b = refl
rest_order-filled r (some o) b = elim (Bool-cases (insert (some o) b).1) [
  | inl e ↦ rw e
  | inr e ↦ rw e
]

rest_order-resting :
    (r : SubmitResult) (o : Option Order) (b : OrderBook)
    → (rest_order r o b).1.resting_quantity ≡ r.resting_quantity
unfolding rest_order
rest_order-resting r none b = refl
rest_order-resting r (some o) b = elim (Bool-cases (insert (some o) b).1) [
  | inl e ↦ rw e
  | inr e ↦ rw e
]

-- What a submission reports of an order: it filled what was traded, and nothing of it rests or all
-- that was not filled does.
pub record Accounted (o : Order) (out : Outcome) : Type 0 where
  pub filled : out.result.filled_quantity ≡ traded out.trades
  pub not_negative : pos 0 ≤ℤ traded out.trades
  pub bounded : (out.trades ≡ []) ⊎ (traded out.trades ≤ℤ o.quantity)
  pub rests :
      (out.result.resting_quantity ≡ pos 0)
      ⊎ (out.result.filled_quantity +ℤ out.result.resting_quantity ≡ o.quantity)

filled_is : (q t : ℤ) → q -ℤ (q -ℤ t) ≡ t
filled_is q t = omega int_laws

all_of : (q t : ℤ) → t +ℤ (q -ℤ t) ≡ q
all_of q t = omega int_laws

bounded_by : (q t : ℤ) → pos 0 ≤ℤ q -ℤ t → t ≤ℤ q
bounded_by q t h = omega (arith, int_laws, h)

Executed-Accounted :
    (machine : Machine) (o : Order) (b : OrderBook) (r : SubmitResult) (e : MatchingEngine)
    {out : Outcome}
    → ReadsFreed machine
    → IsValid b
    → pos 0 <ℤ o.remaining
    → o.remaining ≡ o.quantity
    → Executed machine o b r e out
    → Accounted o out
unfolding finish
Executed-Accounted machine o b r e {out} reads v positive fresh x =
    let end = x.end.taker in
    let r' = result_of r o e in
    let quantity : end.quantity ≡ o.quantity = ap (λ t. t.quantity) (Runs-taker x.runs) in
    let left : end.remaining ≡ o.quantity -ℤ traded x.trades =
      ap (λ t. t.remaining) (Runs-taker x.runs) ∙ ap (λ y. y -ℤ traded x.trades) fresh in
    let some_left = Runs-left reads x.runs v (ground (arith, positive)) in
    let filled : (settle r' end).0.filled_quantity ≡ traded x.trades =
      settle-filled r' end some_left
      ∙ ap₂ ◌-ℤ◌ quantity left
      ∙ filled_is o.quantity (traded x.trades) in
    let (r'', resting) = settle r' end in
    let filled' = rest_order-filled r'' resting x.end.book ∙ filled in
    subst (Accounted o) (sym x.finished) (record {
      filled = filled';
      not_negative = Runs-positive reads x.runs v;
      bounded =
          inr (bounded_by o.quantity (traded x.trades) (subst (λ y. pos 0 ≤ℤ y) left some_left));
      rests = elim (settle-resting r' end) [
        | inl e ↦ inl (rest_order-resting r'' resting x.end.book ∙ e)
        | inr e ↦ inr (
            ap₂ ◌+ℤ◌ filled' (rest_order-resting r'' resting x.end.book ∙ e ∙ left)
            ∙ all_of o.quantity (traded x.trades))
      ];
    })

Submits-Accounted :
    (machine : Machine) (o : Order) (e : MatchingEngine) {out : Outcome}
    → ReadsFreed machine
    → AllValid e
    → o.remaining ≡ o.quantity
    → Submits machine o e out
    → Accounted o out
Submits-Accounted machine o e reads all fresh (refused e' r reason same f g) = record {
  filled = f;
  not_negative = ground arith;
  bounded = inl refl;
  rests = inl g;
}
Submits-Accounted machine o e reads all fresh (executed b r e' found same sized left x) =
    Executed-Accounted machine o b r e' reads (all o.instrument_id b found) left fresh x

with_id-quantity : (n : ℕ) (o : Order) → (with_id n o).quantity ≡ o.quantity
with_id-quantity n o = ground arith

with_id-remaining : (n : ℕ) (o : Order) → (with_id n o).remaining ≡ o.remaining
with_id-remaining n o = ground arith

-- On valid books, where a destroyed order reads as it was, submitting an order of which nothing is
-- filled yet ends. The filled quantity that it reports is the sum of its trades, which is not
-- negative and, if there is a trade, no more than the order's quantity; and the resting quantity
-- that it reports is zero, or all that was not filled.
pub submit-Accounted :
    (machine : Machine) (now : ℤ) (o : Order) (e : MatchingEngine)
    → ReadsFreed machine
    → AllValid e
    → o.remaining ≡ o.quantity
    → (out : Outcome) × (submit machine now (some o) e ≡ some out)
      × Accounted (with_id e.next_sequence o) out
submit-Accounted machine now o e reads all fresh =
    let (out, done, s) = submit-Submits machine now o e reads all in
    let o' = with_id e.next_sequence o in
    let fresh' : o'.remaining ≡ o'.quantity =
      with_id-remaining e.next_sequence o ∙ fresh ∙ sym (with_id-quantity e.next_sequence o) in
    (out, done, Submits-Accounted machine o' e reads all fresh' s)
