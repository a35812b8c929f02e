-- ===== src/Engine/Matching/Rounds.antt =====
-- One round of `match_against` of src/matching/matching_engine.cpp on a valid book.
use mathlib.Core.Bool.{false≢true}
use trader_two.Prelude.{
  pos, ◌<ℤ◌, ◌≤ℤ◌, ltb_ℤ, Bool, true, false, not, ◌&&◌, ◌≡◌, refl, none, some, arith, ◌∙◌, sym, ap,
  Bool-cases, inl, inr, ◌⊎◌,
}
use trader_two.Types.{price_is_valid, invalid_price}
use trader_two.Order.{Order, is_limit}
use trader_two.OrderBook.{OrderBook, ladder}
use trader_two.OrderBook.Queries.{
  best_opposite_order, best_opposite_price, opposite_is_bid, best_price, first_level,
}
use trader_two.OrderBook.Coherent.{IsValid}
use trader_two.OrderBook.Best.{Best, best_order-Best, best_order-cases}
use trader_two.Engine.Matching.{Machine, MatchState, match_round, trade_with, crosses}

-- What the match loop relies on: a destroyed order still reads as it was.
pub record ReadsFreed (machine : Machine) : Type 0 where
  pub same_price : (o : Order) → (machine.freed o).price ≡ o.price
  pub same_trader : (o : Order) → (machine.freed o).trader_id ≡ o.trader_id

-- A round happens: the taker has some left, and the resting order is the best of the other side at a
-- price that the taker takes.
pub record Trades (m : MatchState) (resting : Order) : Type 0 where
  pub wanting : pos 0 <ℤ m.taker.remaining
  pub best : Best m.book (opposite_is_bid m.taker.side) resting
  pub agreed : (is_limit m.taker && not (crosses m.taker.side m.taker.price resting.price)) ≡ false

-- The loop is over: the taker has nothing left, or the other side has no level, or a limit taker does
-- not take the best price.
pub data Ended (m : MatchState) : Type 0 where
  exhausted : m.taker.remaining ≤ℤ pos 0 → Ended m
  no_level : first_level (ladder (opposite_is_bid m.taker.side) m.book) ≡ none → Ended m
  price_refused :
      is_limit m.taker ≡ true
      → crosses m.taker.side m.taker.price (best_opposite_price m.taker.side m.book) ≡ false
      → Ended m

invalid_price-invalid : price_is_valid invalid_price ≡ false
unfolding price_is_valid
invalid_price-invalid = refl

-- The best order of a side with an invalid best price is missing.
side_empty :
    (b : OrderBook) (s : Bool)
    → IsValid b
    → price_is_valid (best_price s b) ≡ false
    → first_level (ladder s b) ≡ none
side_empty b s v h = elim (best_order-cases b s v) [
  | inl (e, _) ↦ e
  | inr (o, e) ↦
      let best = best_order-Best b s v o e in
      absurd (false≢true (sym h ∙ ap price_is_valid (sym best.at_best) ∙ best.valid_price))
]

module _ (machine : Machine) (m : MatchState) (v : IsValid m.book) where
  s : Bool
  s = opposite_is_bid m.taker.side

  Result : Type 0
  Result =
      (Ended m × (match_round machine m ≡ none))
      ⊎ ((resting : Order) × Trades m resting
          × (match_round machine m ≡ some (trade_with machine m resting.price resting)))

  no_price :
      price_is_valid (best_opposite_price m.taker.side m.book) ≡ false
      → first_level (ladder s m.book) ≡ none
  unfolding best_opposite_price s
  no_price h = side_empty m.book s v h

  after_guards :
      ltb_ℤ (pos 0) m.taker.remaining ≡ true
      → price_is_valid (best_opposite_price m.taker.side m.book) ≡ true
      → (is_limit m.taker
          && not (crosses m.taker.side m.taker.price (best_opposite_price m.taker.side m.book)))
        ≡ false
      → Result
  unfolding match_round best_opposite_order best_opposite_price s Result
  after_guards wanting valid agreed = elim (best_order-cases m.book s v) [
    | inl (e, none_valid) ↦
        absurd (false≢true (sym invalid_price-invalid ∙ ap price_is_valid (sym none_valid) ∙ valid))
    | inr (resting, e) ↦
        let best = best_order-Best m.book s v resting e in
        inr (
          resting,
          record {
            wanting = ground (arith, wanting);
            best = best;
            agreed = rw best.at_best agreed;
          },
          rw (wanting, valid, agreed, e)
              (ap (λ p. some (trade_with machine m p resting)) (sym best.at_best)),
        )
  ]

  -- A round of the match loop on a valid book either ends the loop, because the taker has nothing
  -- left, the other side has no level, or a limit taker does not take the best price; or it trades
  -- with the resting order that is first in the queue of the best price of the other side, at the
  -- price of that order.
  pub match_round-cases :
      (Ended m × (match_round machine m ≡ none))
      ⊎ ((resting : Order) × Trades m resting
          × (match_round machine m ≡ some (trade_with machine m resting.price resting)))
  unfolding match_round s Result
  match_round-cases = elim (Bool-cases (ltb_ℤ (pos 0) m.taker.remaining)) [
    | inr e ↦ inl (exhausted (ground (arith, e)), rw e)
    | inl wanting ↦ elim (Bool-cases (price_is_valid (best_opposite_price m.taker.side m.book))) [
      | inr e ↦ inl (no_level (no_price e), rw (wanting, e))
      | inl valid ↦
          elim (Bool-cases (
            is_limit m.taker
            && not
                (crosses m.taker.side m.taker.price (best_opposite_price m.taker.side m.book)))) [
                  | inl e ↦ inl (
                    price_refused (ground (arith, e)) (ground (arith, e)),
                    rw (wanting, valid, e),
                  )
                  | inr agreed ↦ after_guards wanting valid agreed
                ]
    ]
  ]
