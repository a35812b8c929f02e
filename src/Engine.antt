-- ===== src/Engine.antt =====
-- Submissions, cancellations and modifications of include/tt/matching/matching_engine.hpp and
-- src/matching/matching_engine.cpp, on the state of Registry.antt.
-- An operation returns the new engine and what it tells the sink; the trades of a submission come
-- before its result.
pub mod Matching
pub mod Validity
pub mod Submits
pub mod Accounts
pub mod Operations
use Prim.Native.String.{◌++◌ as str_append}
use text.Mathlib.Text.{◌==◌ as str_eq}
use mathlib.Core.Option
use trader_two.Prelude.{
  ℕ, ◌==◌, ℤ, pos, ◌-ℤ◌, ltb_ℤ, leb_ℤ, eq_ℤ, Bool, true, false, not, ◌&&◌, ◌||◌, if◌then◌else◌,
  List, [], ◌∷◌, map, Option, none, some, String, length,
}
use trader_two.Prelude.Map.{Map, find, assign, erase, emplace}
use trader_two.Types.{
  price_is_valid, quantity_is_valid, invalid_order_id, invalid_instrument_id, next_u64,
}
use trader_two.Order.{
  Order, Trade, Side, buy, sell, OrderType, market, limit, TimeInForce, gtc, ioc, fok, is_limit,
  is_market, new, tif_is_ioc,
}
use trader_two.OrderBook.{OrderBook, new_book, insert, ModifyResult, not_found}
use trader_two.OrderBook
use trader_two.Decimal.{to_string}
use trader_two.Instrument.{InstrumentDescriptor, is_valid_tick, is_valid_lot, ◌%ℤ◌}
use trader_two.Risk.{RiskGate, RiskDecision, accept, evaluate, decision_ok}
use trader_two.Registry.{MatchingEngine, book}
use Matching.{Machine, MatchState, Matched, match_against}

pub data SubmitStatus : Type 0 where
  accepted fully_filled partially_filled rejected cancelled : SubmitStatus

pub record SubmitResult : Type 0 where
  pub status : SubmitStatus
  pub order_id : ℕ
  pub instrument_id : ℕ
  pub sequence : ℕ
  pub filled_quantity : ℤ
  pub resting_quantity : ℤ
  pub side : Side
  pub type : OrderType
  pub price : ℤ
  pub reject_reason : String

-- `SubmitResult{}`
abbrev pub blank_result : SubmitResult
blank_result = record {
  status = accepted;
  order_id = invalid_order_id;
  instrument_id = invalid_instrument_id;
  sequence = 0;
  filled_quantity = pos 0;
  resting_quantity = pos 0;
  side = buy;
  type = limit;
  price = pos 0;
  reject_reason = "";
}

-- What a submission leaves, and what the sink is told.
pub record Outcome : Type 0 where
  pub engine : MatchingEngine
  pub trades : List Trade
  pub result : SubmitResult

abbrev pub rejection : MatchingEngine → SubmitResult → String → Outcome
rejection e r reason = record {
  engine = e;
  trades = [];
  result = record r { status = rejected; reject_reason = reason };
}

-- The risk gate's decision, and the engine with the gate's new state.
unfoldable pub ask_gate : ℤ → Order → MatchingEngine → MatchingEngine × RiskDecision
ask_gate now o e = elim e.risk_gate [
  | none ↦ (e, accept)
  | some gate ↦ let (gate', d) = evaluate now o gate in (record e { risk_gate = some gate' }, d)
]

-- The result of an order that was matched, and the order that is to rest.
unfoldable pub settle : SubmitResult → Order → SubmitResult × Option Order
settle r taker =
    let filled = taker.quantity -ℤ taker.remaining in
    if not (ltb_ℤ (pos 0) taker.remaining)
    then (
      record r {
        status = fully_filled;
        filled_quantity = taker.quantity;
        resting_quantity = pos 0;
      },
      none,
    )
    else if is_market taker
    then (
      if ltb_ℤ (pos 0) filled
          then record r {
            status = partially_filled;
            filled_quantity = filled;
            resting_quantity = pos 0;
          }
          else record r {
            status = rejected;
            filled_quantity = filled;
            resting_quantity = pos 0;
            reject_reason = "no liquidity for market order";
          },
      none,
    )
    else if tif_is_ioc taker.tif
    then (
      record r {
        status = if ltb_ℤ (pos 0) filled then partially_filled else cancelled;
        filled_quantity = filled;
        resting_quantity = pos 0;
      },
      none,
    )
    else (
      record r { status = accepted; filled_quantity = filled; resting_quantity = taker.remaining },
      some taker,
    )

-- `ob->insert(std::move(order))`
unfoldable pub rest_order : SubmitResult → Option Order → OrderBook → OrderBook × SubmitResult
rest_order r none b = (b, r)
rest_order r (some o) b =
    let (b', inserted) = insert (some o) b in
    if inserted
    then (b', r)
    else (b', record r { status = rejected; reject_reason = "duplicate order id" })

-- From the match loop on.
unfoldable pub finish : SubmitResult → MatchingEngine → Matched → Outcome
unfolding settle rest_order
finish r e m =
    let (r', resting) = settle r m.state.taker in
    let (b, r'') = rest_order r' resting m.state.book in
    record {
      engine = record e {
        books = assign m.state.taker.instrument_id b e.books;
        next_sequence = m.state.next_sequence;
      };
      trades = m.trades;
      result = r'';
    }

-- Sequence assignment, matching and resting, on the book of the order's instrument.
unfoldable pub execute :
    Machine → Order → OrderBook → SubmitResult → MatchingEngine → Option Outcome
execute machine o b r e =
    let taker = record o { sequence = e.next_sequence } in
    let r' = record r {
      sequence = taker.sequence;
      side = o.side;
      type = o.type;
      price = o.price;
    } in
    let start : MatchState = record {
      taker = taker;
      book = b;
      next_sequence = next_u64 e.next_sequence;
    } in
    Option.map (finish r' e) (match_against machine start)

-- The risk gate and what follows.
unfoldable pub gated :
    Machine → ℤ → Order → OrderBook → SubmitResult → MatchingEngine → Option Outcome
gated machine now o b r e =
    let (e', d) = ask_gate now o e in
    if not (decision_ok d)
    then some (rejection e' r (str_append "risk: " d.reason))
    else execute machine o b r e'

-- An order that has no id takes the next sequence number.
abbrev pub with_id : ℕ → Order → Order
with_id next o = if o.id == invalid_order_id then record o { id = next } else o

-- The checks of an order with an id.
unfoldable pub submit_order : Machine → ℤ → Order → MatchingEngine → Option Outcome
submit_order machine now o e =
    let r = record blank_result { order_id = o.id; instrument_id = o.instrument_id } in
    if o.instrument_id == invalid_instrument_id
    then some (rejection e r "invalid instrument")
    else if not (quantity_is_valid o.quantity) || leb_ℤ o.remaining (pos 0)
    then some (rejection e r "invalid quantity")
    else if is_limit o && not (price_is_valid o.price)
    then some (rejection e r "invalid price")
    else elim (book o.instrument_id e) [
      | none ↦ some (rejection e r "instrument not registered")
      | some b ↦ gated machine now o b r e
    ]

-- `submit`; `now` is what the risk checks read from the clock. `none` is a match loop out of fuel.
unfoldable pub submit : Machine → ℤ → Option Order → MatchingEngine → Option Outcome
submit machine now none e = some (rejection e blank_result "null order")
submit machine now (some o) e = submit_order machine now (with_id e.next_sequence o) e

-- The order that `submit_limit` builds.
unfoldable pub limit_order : ℕ → ℕ → Side → ℤ → ℤ → TimeInForce → ℕ → Order
limit_order instrument trader side price qty tif timestamp = record {
  id = 0;
  trader_id = trader;
  instrument_id = instrument;
  side = side;
  type = limit;
  tif = tif;
  price = price;
  quantity = qty;
  remaining = qty;
  sequence = 0;
  timestamp = timestamp;
  status = new;
}

-- `submit_limit` at the time `timestamp`.
unfoldable pub submit_limit :
    Machine → ℤ → ℕ → ℕ → Side → ℤ → ℤ → TimeInForce → ℕ → MatchingEngine → Option Outcome
unfolding limit_order
submit_limit machine now instrument trader side price qty tif timestamp =
    submit machine now (some (limit_order instrument trader side price qty tif timestamp))

-- An operation on the book of an instrument.
abbrev pub on_book {ℓ} :
    {A : Type ℓ} → ℕ → (OrderBook → OrderBook × A) → A → MatchingEngine → MatchingEngine × A
on_book id f missing e = elim (find id e.books) [
  | none ↦ (e, missing)
  | some b ↦ (record e { books = assign id (f b).0 e.books }, (f b).1)
]

unfoldable pub cancel : ℕ → ℕ → MatchingEngine → MatchingEngine × Bool
cancel instrument id = on_book instrument (OrderBook.cancel id) false

unfoldable pub modify : ℕ → ℕ → ℤ → ℤ → MatchingEngine → MatchingEngine × ModifyResult
modify instrument id new_qty new_price =
    on_book instrument (OrderBook.modify id new_qty new_price) not_found

unfoldable pub reduce : ℕ → ℕ → ℤ → MatchingEngine → MatchingEngine × Bool
reduce instrument id new_qty = on_book instrument (OrderBook.reduce id new_qty) false
