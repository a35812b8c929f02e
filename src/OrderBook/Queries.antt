-- ===== src/OrderBook/Queries.antt =====
-- The reads of the order book: best prices, top of book and depth.
use trader_two.Prelude.{
  ℕ, zero, suc, ◌==◌, ℤ, pos, Bool, true, false, ◌&&◌, List, [], ◌∷◌, Option, none, some, length,
}
use trader_two.Types.{invalid_price}
use trader_two.Order.{Order, Side, buy, sell}
use trader_two.Level.{Level, head_order}
use trader_two.OrderBook.{OrderBook, ladder}

-- The level that `begin()` points at.
unfoldable pub first_level : List Level → Option Level
first_level [] = none
first_level (l ∷ ls) = some l

-- `best_bid` and `best_ask`
unfoldable pub best_price : Bool → OrderBook → ℤ
unfolding first_level
best_price is_bid b = elim (first_level (ladder is_bid b)) [
  | none ↦ invalid_price
  | some l ↦ l.price
]

-- `best_bid_quantity` and `best_ask_quantity`
unfoldable pub best_quantity : Bool → OrderBook → ℤ
unfolding first_level
best_quantity is_bid b = elim (first_level (ladder is_bid b)) [
  | none ↦ pos 0
  | some l ↦ l.total_quantity
]

-- `best_bid_order` and `best_ask_order`
unfoldable pub best_order : Bool → OrderBook → Option Order
unfolding first_level
best_order is_bid b = elim (first_level (ladder is_bid b)) [
  | none ↦ none
  | some l ↦ head_order l b.id_index
]

-- Whether the side that an aggressor trades against is the bids.
abbrev pub opposite_is_bid : Side → Bool
opposite_is_bid buy = false
opposite_is_bid sell = true

unfoldable pub best_opposite_order : Side → OrderBook → Option Order
best_opposite_order s b = best_order (opposite_is_bid s) b

unfoldable pub best_opposite_price : Side → OrderBook → ℤ
best_opposite_price s b = best_price (opposite_is_bid s) b

pub record TopOfBook : Type 0 where
  pub valid : Bool
  pub price : ℤ
  pub quantity : ℤ
  pub order_count : ℕ

-- `top_bid` and `top_ask`
unfoldable pub top : Bool → OrderBook → TopOfBook
unfolding first_level
top is_bid b = elim (first_level (ladder is_bid b)) [
  | none ↦ record { valid = false; price = pos 0; quantity = pos 0; order_count = 0 }
  | some l ↦ record {
    valid = true;
    price = l.price;
    quantity = l.total_quantity;
    order_count = l.order_count;
  }
]

pub record DepthLevel : Type 0 where
  pub price : ℤ
  pub total_quantity : ℤ
  pub order_count : ℕ

-- One loop of `depth`.
unfoldable pub depth_side : ℕ → List Level → List DepthLevel
depth_side zero ls = []
depth_side (suc n) [] = []
depth_side (suc n) (l ∷ ls) =
    record { price = l.price; total_quantity = l.total_quantity; order_count = l.order_count }
    ∷ depth_side n ls

unfoldable pub depth : ℕ → OrderBook → List DepthLevel × List DepthLevel
depth levels b = (depth_side levels b.bids, depth_side levels b.asks)

-- `bids_.empty() && asks_.empty()`
unfoldable pub book_empty : OrderBook → Bool
book_empty b = length b.bids == 0 && length b.asks == 0

unfoldable pub total_order_count : OrderBook → ℕ
total_order_count b = length b.id_index
