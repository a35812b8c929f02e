-- ===== src/Engine/Matching.antt =====
-- `match_against`: the match loop of the engine, on the book of the taker's instrument.
pub mod Rounds
pub mod Effect
pub mod Runs
pub mod Laws
use trader_two.Prelude.{
  ℕ, zero, suc, ℤ, pos, ◌-ℤ◌, ltb_ℤ, leb_ℤ, Bool, not, ◌&&◌, if◌then◌else◌, List, [], ◌∷◌, Option,
  none, some,
}
use trader_two.Prelude.Map.{find}
use trader_two.Types.{price_is_valid, next_u64}
use trader_two.Order.{Order, Trade, Side, buy, sell, is_limit, is_buy}
use trader_two.OrderBook.{OrderBook, Freed, fill}
use trader_two.OrderBook.Queries.{best_opposite_order, best_opposite_price, total_order_count}

-- What the source leaves to the machine: reads of destroyed orders, and the reading of the clock
-- when the trade with a given id is made.
pub record Machine : Type 0 where
  pub freed : Freed
  pub now_ns : ℕ → ℕ

unfoldable pub crosses : Side → ℤ → ℤ → Bool
crosses buy taker_price book_price = leb_ℤ book_price taker_price
crosses sell taker_price book_price = leb_ℤ taker_price book_price

-- `resting->trader_id` after the fill: the order may be gone from the book by then.
unfoldable pub trader_after : Freed → Order → OrderBook → ℕ
trader_after freed resting b = elim (find resting.id b.id_index) [
  | some o ↦ o.trader_id
  | none ↦ (freed resting).trader_id
]

unfoldable pub make_trade : Machine → Order → Order → ℕ → ℤ → ℤ → ℕ → Trade
make_trade machine taker resting resting_trader price qty id = record {
  id = id;
  instrument_id = taker.instrument_id;
  buy_order_id = if is_buy taker then taker.id else resting.id;
  sell_order_id = if is_buy taker then resting.id else taker.id;
  buy_trader_id = if is_buy taker then taker.trader_id else resting_trader;
  sell_trader_id = if is_buy taker then resting_trader else taker.trader_id;
  price = price;
  quantity = qty;
  sequence = taker.sequence;
  timestamp = machine.now_ns id;
}

-- The variables of the loop.
pub record MatchState : Type 0 where
  pub taker : Order
  pub book : OrderBook
  pub next_sequence : ℕ

-- The quantity of a fill.
unfoldable pub fill_quantity : Order → Order → ℤ
fill_quantity taker resting =
    if ltb_ℤ resting.remaining taker.remaining then resting.remaining else taker.remaining

-- The part of a round after the guards.
unfoldable pub trade_with : Machine → MatchState → ℤ → Order → MatchState × Trade
unfolding fill_quantity make_trade trader_after
trade_with machine m price resting =
    let qty = fill_quantity m.taker resting in
    let b = (fill machine.freed resting.id qty m.book).0 in
    (
      record {
        taker = record (m.taker) { remaining = m.taker.remaining -ℤ qty };
        book = b;
        next_sequence = next_u64 m.next_sequence;
      },
      make_trade machine m.taker resting (trader_after machine.freed resting b) price qty
          m.next_sequence,
    )

-- One round, or `none` where the loop ends: by its condition or by a `break`.
unfoldable pub match_round : Machine → MatchState → Option (MatchState × Trade)
unfolding crosses trade_with
match_round machine m =
    let price = best_opposite_price m.taker.side m.book in
    if not (ltb_ℤ (pos 0) m.taker.remaining)
    then none
    else if not (price_is_valid price)
    then none
    else if is_limit m.taker && not (crosses m.taker.side m.taker.price price)
    then none
    else elim (best_opposite_order m.taker.side m.book) [
      | none ↦ none
      | some resting ↦ some (trade_with machine m price resting)
    ]

pub record Matched : Type 0 where
  pub state : MatchState
  pub trades : List Trade

abbrev pub add_trade : Trade → Option Matched → Option Matched
add_trade t none = none
add_trade t (some r) = some (record r { trades = t ∷ r.trades })

-- The loop on fuel; `none` means that the fuel ran out.
unfoldable pub match_loop : Machine → ℕ → MatchState → Option Matched
match_loop machine zero m = none
match_loop machine (suc fuel) m = elim (match_round machine m) [
  | none ↦ some (record { state = m; trades = [] })
  | some (m', t) ↦ add_trade t (match_loop machine fuel m')
]

-- Each round but the last takes an order off the book: one more round than there are orders.
unfoldable pub match_against : Machine → MatchState → Option Matched
match_against machine m = match_loop machine (suc (suc (total_order_count m.book))) m
