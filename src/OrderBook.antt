-- ===== src/OrderBook.antt =====
-- `OrderBook` of include/tt/orderbook/order_book.hpp and src/orderbook/order_book.cpp. A method
-- returns the new book and its result. A failed assertion leaves the book as it is.
pub mod Ladder
pub mod Queries
pub mod Coherent
pub mod Moves
pub mod Leaves
pub mod Joins
pub mod Shrinks
pub mod Validity
pub mod Best
pub mod Priority
pub mod Effects
use trader_two.Prelude.{
  ℕ, ◌==◌, ◌-◌, suc, zero, ℤ, pos, ◌-ℤ◌, ltb_ℤ, leb_ℤ, eq_ℤ, Bool, true, false, not, ◌&&◌, ◌||◌,
  if◌then◌else◌, List, [], ◌∷◌, Option, none, some, length,
}
use trader_two.Prelude.Map.{Map, find, assign, erase, emplace}
use trader_two.Types.{price_is_valid, quantity_is_valid, invalid_price, invalid_order_id}
use trader_two.Order.{
  Order, Side, buy, sell, new, is_limit, is_market, is_buy, status_is_gone, touch_status,
}
use trader_two.Level.{
  Level, empty_level, append, remove, sub_from_total, head_order, reduce_front, Reduced,
}
use Ladder.{find_level, emplace_level, write_level, erase_level, Storage, owner, own, disown}

pub record OrderBook : Type 0 where
  pub instrument : ℕ
  pub asks : List Level
  pub bids : List Level
  pub level_storage : Storage
  pub id_index : Map Order

-- `OrderBook(InstrumentId)`
unfoldable pub new_book : ℕ → OrderBook
new_book instrument = record {
  instrument = instrument;
  asks = [];
  bids = [];
  level_storage = [];
  id_index = [];
}

-- `bids_` if `is_bid`, else `asks_`.
abbrev pub ladder : Bool → OrderBook → List Level
ladder is_bid b = if is_bid then b.bids else b.asks

abbrev pub with_ladder : Bool → List Level → OrderBook → OrderBook
with_ladder is_bid ls b = record b {
  asks = if is_bid then b.asks else ls;
  bids = if is_bid then ls else b.bids;
}

-- A new level is owned by the storage, unless its price has an owner there: `emplace` then keeps
-- the old entry, and the ladder's pointer dangles from the start.
unfoldable pub get_or_create_level : ℤ → Bool → OrderBook → OrderBook × Level
get_or_create_level price is_bid b = elim (find_level price (ladder is_bid b)) [
  | some l ↦ (b, l)
  | none ↦
      let l = empty_level price in
      let b' = record b { level_storage = own price is_bid b.level_storage } in
      (with_ladder is_bid (emplace_level is_bid l (ladder is_bid b')) b', l)
]

-- The storage is keyed by the price alone.
unfoldable pub destroy_level : ℤ → Bool → OrderBook → OrderBook
destroy_level price is_bid b =
    let b' = with_ladder is_bid (erase_level price (ladder is_bid b)) b in
    record b' { level_storage = disown price b'.level_storage }

-- A change of a level through its pointer.
abbrev pub update_level : Bool → Level → OrderBook → OrderBook
update_level is_bid l b = with_ladder is_bid (write_level l (ladder is_bid b)) b

-- `get_or_create_level(...)->append(o)`
unfoldable pub enqueue : Order → Bool → OrderBook → OrderBook
unfolding get_or_create_level append
enqueue o is_bid b =
    let (b', l) = get_or_create_level o.price is_bid b in update_level is_bid (append o l) b'

unfoldable pub insert : Option Order → OrderBook → OrderBook × Bool
insert none b = (b, false)
insert (some o) b =
    if o.id == invalid_order_id
    then (b, false)
    else if not (is_limit o)
    then (b, false)
    else if not (price_is_valid o.price)
    then (b, false)
    else if not (quantity_is_valid o.remaining)
    then (b, false)
    else elim (find o.id b.id_index) [
      | some _ ↦ (b, false)
      | none ↦
          let b' = enqueue o (is_buy o) b in
          (record b' { id_index = emplace o.id o b'.id_index }, true)
    ]

-- Take an order out of its level, and the level off the ladder if that was the last one.
unfoldable pub dequeue : Order → Bool → OrderBook → OrderBook
unfolding remove
dequeue o is_bid b = elim (find_level o.price (ladder is_bid b)) [
  | none ↦ b
  | some l ↦
      let l' = remove o l in
      let b' = update_level is_bid l' b in
      if l'.order_count == 0 then destroy_level o.price is_bid b' else b'
]

unfoldable pub cancel : ℕ → OrderBook → OrderBook × Bool
cancel id b = elim (find id b.id_index) [
  | none ↦ (b, false)
  | some o ↦
      if status_is_gone o.status
      then (b, false)
      else let b' = dequeue o (is_buy o) b in (record b' { id_index = erase id b'.id_index }, true)
]

-- `remove(OrderId)`
unfoldable pub drop_order : ℕ → OrderBook → OrderBook
drop_order id b = (cancel id b).0

-- `sub_from_total` on the level of an order, found by the order's price.
unfoldable pub shrink_level : Order → ℤ → OrderBook → OrderBook
unfolding sub_from_total
shrink_level o diff b = elim (find_level o.price (ladder (is_buy o) b)) [
  | none ↦ b
  | some l ↦ update_level (is_buy o) (sub_from_total diff l) b
]

unfoldable pub reduce : ℕ → ℤ → OrderBook → OrderBook × Bool
unfolding shrink_level
reduce id new_qty b = elim (find id b.id_index) [
  | none ↦ (b, false)
  | some o ↦
      if status_is_gone o.status
      then (b, false)
      else if leb_ℤ new_qty (pos 0) || leb_ℤ o.remaining new_qty
      then (b, false)
      else let b' = shrink_level o (o.remaining -ℤ new_qty) b in
        let o' = record o { remaining = new_qty; status = touch_status o.status } in
        (record b' { id_index = assign id o' b'.id_index }, true)
]

pub data ModifyResult : Type 0 where
  not_found rejected modified replaced : ModifyResult

-- The same price and less of it: the order keeps its place.
unfoldable pub shrink : ℕ → Order → ℤ → OrderBook → OrderBook
unfolding shrink_level
shrink id o new_qty b =
    let diff = o.remaining -ℤ new_qty in
    let b' = shrink_level o diff b in
    let o' = record o {
      remaining = new_qty;
      quantity = o.quantity -ℤ diff;
      status = touch_status o.status;
    } in
    record b' { id_index = assign id o' b'.id_index }

-- Another price or more of it: to the back of the queue.
unfoldable pub replace : ℕ → Order → ℤ → ℤ → OrderBook → OrderBook
replace id o new_qty new_price b =
    let is_bid = is_buy o in
    let b' = dequeue o is_bid b in
    let o' = record o {
      price = new_price;
      quantity = new_qty;
      remaining = new_qty;
      status = new;
    } in
    let b'' = record b' { id_index = assign id o' b'.id_index } in enqueue o' is_bid b''

unfoldable pub modify : ℕ → ℤ → ℤ → OrderBook → OrderBook × ModifyResult
unfolding shrink replace
modify id new_qty new_price b = elim (find id b.id_index) [
  | none ↦ (b, not_found)
  | some o ↦
      if status_is_gone o.status
      then (b, not_found)
      else if is_market o
      then (b, rejected)
      else if not (quantity_is_valid new_qty)
      then (b, rejected)
      else if not (price_is_valid new_price)
      then (b, rejected)
      else if eq_ℤ new_price o.price && eq_ℤ new_qty o.remaining
      then (b, modified)
      else if eq_ℤ new_price o.price && ltb_ℤ new_qty o.remaining
      then (shrink id o new_qty b, modified)
      else (replace id o new_qty new_price b, replaced)
]

-- What a read through a pointer to a destroyed order gives, for the order's last contents.
-- The language leaves it undefined.
abbrev pub Freed : Type 0
Freed = Order → Order

-- `it` is erased before `o.price` is read for `destroy_level`.
unfoldable pub after_reduce : Freed → ℕ → Order → Reduced → OrderBook → OrderBook × Bool
after_reduce freed id o r b =
    let b' = record (update_level (is_buy o) r.level b) { id_index = r.index } in
    let b'' = record b' { id_index = erase id r.index } in
    if r.consumed
    then (
      if r.level.order_count == 0 then destroy_level (freed o).price (is_buy o) b'' else b'',
      false,
    )
    else (b', true)

unfoldable pub fill : Freed → ℕ → ℤ → OrderBook → OrderBook × Bool
unfolding after_reduce
fill freed id qty b = elim (find id b.id_index) [
  | none ↦ (b, false)
  | some o ↦ elim (find_level o.price (ladder (is_buy o) b)) [
    | none ↦ (b, true)
    | some l ↦ after_reduce freed id o (reduce_front qty l b.id_index) b
  ]
]
