-- ===== src/Engine/Matching/Effect.antt =====
-- The effect of a trading round of `match_against` on the taker and the book.
use trader_two.Prelude.{
  ℕ, ◌+◌, ◌≤◌, ℤ, pos, ◌-ℤ◌, ◌<ℤ◌, ◌≤ℤ◌, ltb_ℤ, ◌≡◌, length, some, arith, Bool-cases, inl, inr, ◌⊎◌,
  int_laws,
}
use trader_two.Prelude.Map.{
  Map, find, erase, assign, length-erase, length-assign_present, find-assign,
}
use trader_two.Order.{Order}
use trader_two.Level.{after_fill}
use trader_two.OrderBook.Queries.{total_order_count}
use trader_two.OrderBook.Coherent.{IsValid}
use trader_two.OrderBook.Leaves.{known-Rests}
use trader_two.OrderBook.Validity.Fill.{fill-IsValid, fill-wholly}
use trader_two.Engine.Matching.{Machine, MatchState, trade_with, fill_quantity}
use trader_two.Engine.Matching.Rounds.{ReadsFreed, Trades}

zero_left : (r : ℤ) → r -ℤ r ≤ℤ pos 0
zero_left r = omega int_laws

erased-length :
    (id : ℕ) (o o' : Order) (m : Map Order)
    → find id m ≡ some o
    → length (erase id (assign id o' m)) + 1 ≤ length m
erased-length id o o' m h = omega (
  arith,
  length-erase id {v = o'} (assign id o' m) (ground (arith, find-assign id id o' m)),
  length-assign_present id {v = o} o' m h,
)

module _ (machine : Machine) (m : MatchState) (resting : Order) (reads : ReadsFreed machine)
    (v : IsValid m.book) (t : Trades m resting) where
  q : ℤ
  q = fill_quantity m.taker resting

  after : MatchState
  after = (trade_with machine m resting.price resting).0

  resting_left : pos 0 <ℤ resting.remaining
  resting_left = (known-Rests m.book resting.id resting v t.best.front.known).some_left

  -- A fill is positive, and no more than either order has left.
  pub fill_quantity_bounds :
      (pos 0 <ℤ fill_quantity m.taker resting)
      × (fill_quantity m.taker resting ≤ℤ m.taker.remaining)
      × (fill_quantity m.taker resting ≤ℤ resting.remaining)
  unfolding fill_quantity
  fill_quantity_bounds = ground (arith, resting_left, t.wanting)

  pub round-IsValid : IsValid (trade_with machine m resting.price resting).0.book
  unfolding trade_with
  round-IsValid =
      fill-IsValid machine.freed m.book resting.id resting t.best.level
        (fill_quantity m.taker resting) v t.best.front fill_quantity_bounds.0
        (reads.same_price resting)

  -- A round takes an order off the book, or the taker has nothing left.
  pub round-shrinks :
      (total_order_count (trade_with machine m resting.price resting).0.book + 1
        ≤ total_order_count m.book)
      ⊎ ((trade_with machine m resting.price resting).0.taker.remaining ≤ℤ pos 0)
  unfolding trade_with total_order_count fill_quantity
  round-shrinks = elim (Bool-cases (ltb_ℤ resting.remaining m.taker.remaining)) [
    | inr all ↦ inr (rw all (zero_left m.taker.remaining))
    | inl less ↦ inl (
        rw less (
          rw
            (fill-wholly machine.freed m.book resting.id resting t.best.level resting.remaining v
              t.best.front resting_left (reads.same_price resting) (omega arith))
            (erased-length resting.id resting (after_fill resting.remaining resting) m.book.id_index
              t.best.front.known)))
  ]
