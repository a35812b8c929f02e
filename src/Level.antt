-- ===== src/Level.antt =====
-- `Level` of include/tt/orderbook/order_book.hpp and src/orderbook/order_book.cpp: the orders at one
-- price. The doubly linked list is the list of the orders' ids from head to tail; an `Order*` is an
-- id, read through the book's index, which owns the orders.
pub mod Sums
pub mod Keeps
pub mod Fills
use trader_two.Prelude.{
  ℕ, ◌+◌, ◌-◌, ℤ, pos, ◌+ℤ◌, ◌-ℤ◌, ltb_ℤ, leb_ℤ, eq_ℤ, Bool, false, if◌then◌else◌, List, [], ◌∷◌,
  ◌++◌, Option, none, some, unlink,
}
use trader_two.Prelude.Map.{Map, find, assign}
use trader_two.Order.{Order, filled, touch_status}

pub record Level : Type 0 where
  pub price : ℤ
  pub queue : List ℕ
  pub order_count : ℕ
  pub total_quantity : ℤ

-- `Level(Price p)`
unfoldable pub empty_level : ℤ → Level
empty_level p = record { price = p; queue = []; order_count = 0; total_quantity = pos 0 }

unfoldable pub append : Order → Level → Level
append o l = record l {
  queue = l.queue ++ (o.id ∷ []);
  order_count = l.order_count + 1;
  total_quantity = l.total_quantity +ℤ o.remaining;
}

unfoldable pub remove : Order → Level → Level
remove o l = record l {
  queue = unlink o.id l.queue;
  order_count = l.order_count - 1;
  total_quantity = l.total_quantity -ℤ o.remaining;
}

unfoldable pub sub_from_total : ℤ → Level → Level
sub_from_total q l = record l { total_quantity = l.total_quantity -ℤ q }

-- The order at the head of a queue.
unfoldable pub head_of : List ℕ → Map Order → Option Order
head_of [] index = none
head_of (id ∷ rest) index = find id index

-- `head_order()` and `front()`
abbrev pub head_order : Level → Map Order → Option Order
head_order l index = head_of l.queue index

-- What `reduce_front` leaves and writes.
pub record Reduced : Type 0 where
  pub level : Level
  pub index : Map Order
  pub fill_qty : ℤ
  pub filled_out : Option Order
  pub consumed : Bool

abbrev untouched : Level → Map Order → Reduced
untouched l index = record {
  level = l;
  index = index;
  fill_qty = pos 0;
  filled_out = none;
  consumed = false;
}

-- `fill_qty`: capped at the front's remaining.
unfoldable pub capped : ℤ → Order → ℤ
capped qty o = if ltb_ℤ o.remaining qty then o.remaining else qty

-- The front after a fill of `q`.
unfoldable pub after_fill : ℤ → Order → Order
after_fill q o =
    let left = o.remaining -ℤ q in
    record o {
      remaining = left;
      status = if eq_ℤ left (pos 0) then filled else touch_status o.status;
    }

reduce_order : ℤ → Order → Level → Map Order → Reduced
unfolding after_fill
reduce_order q o l index =
    let o' = after_fill q o in
    let total = l.total_quantity -ℤ q in
    record {
      level =
          if eq_ℤ o'.remaining (pos 0)
          then record l {
            queue = unlink o.id l.queue;
            order_count = l.order_count - 1;
            total_quantity = total;
          }
          else record l { total_quantity = total };
      index = assign o.id o' index;
      fill_qty = q;
      filled_out = some o';
      consumed = eq_ℤ o'.remaining (pos 0);
    }

unfoldable pub reduce_front : ℤ → Level → Map Order → Reduced
unfolding reduce_order capped
reduce_front qty l index = elim (head_order l index) [
  | none ↦ untouched l index
  | some o ↦ if leb_ℤ qty (pos 0) then untouched l index else reduce_order (capped qty o) o l index
]

-- `front_remaining()`
unfoldable pub front_remaining : Level → Map Order → ℤ
front_remaining l index = elim (head_order l index) [ none ↦ pos 0 | some o ↦ o.remaining ]
