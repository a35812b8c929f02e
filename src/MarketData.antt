-- ===== src/MarketData.antt =====
-- include/tt/market_data: the events of events.hpp, and `MarketDataPublisher` of publisher.hpp and
-- src/market_data/publisher.cpp. A listener is the number that stands for its address, and an operation
-- returns the calls of listeners that it makes, in order. The engine that the publisher refers to is an
-- argument; the mutexes are left out.
pub mod Recent
pub mod Subscribers
pub mod Quotes
use trader_two.Prelude.{
  ℕ, zero, suc, ◌+◌, ◌-◌, ◌%◌, ◌==◌, ltb, ℤ, pos, Bool, true, false, List, [], ◌∷◌, ◌++◌, map,
  if◌then◌else◌, Option, none, some, String, elem, unlink,
}
use trader_two.Prelude.Map.{Map, find, assign}
use trader_two.Types.{invalid_order_id, invalid_instrument_id}
use trader_two.Order.{Order, Trade, Side, OrderType, buy, limit}
use trader_two.OrderBook.{OrderBook}
use trader_two.OrderBook.Queries.{DepthLevel, depth, top}
use trader_two.Registry.{MatchingEngine, book}
use trader_two.Engine.{
  SubmitResult, SubmitStatus, accepted, fully_filled, partially_filled, rejected, cancelled,
}

pub data EventKind : Type 0 where
  order_accepted order_rested order_rejected order_cancelled order_filled : EventKind
  order_partially_filled order_modified trade top_of_book_changed : EventKind

pub record OrderPayload : Type 0 where
  pub order_id : ℕ
  pub trader_id : ℕ
  pub instrument : ℕ
  pub side : Side
  pub type : OrderType
  pub price : ℤ
  pub qty : ℤ

pub record TobPayload : Type 0 where
  pub instrument : ℕ
  pub bid_price : ℤ
  pub bid_qty : ℤ
  pub ask_price : ℤ
  pub ask_qty : ℤ

pub record Event : Type 0 where
  pub kind : EventKind
  pub sequence : ℕ
  pub timestamp : ℕ
  pub order : OrderPayload
  pub trade : Trade
  pub tob : TobPayload
  pub reject_reason : String

-- `Trade{}`
abbrev pub blank_trade : Trade
blank_trade = record {
  id = 0;
  instrument_id = invalid_instrument_id;
  buy_order_id = invalid_order_id;
  sell_order_id = invalid_order_id;
  buy_trader_id = 0;
  sell_trader_id = 0;
  price = pos 0;
  quantity = pos 0;
  sequence = 0;
  timestamp = 0;
}

-- `Event{}`
abbrev pub blank_event : Event
blank_event = record {
  kind = order_accepted;
  sequence = 0;
  timestamp = 0;
  order = record {
    order_id = invalid_order_id;
    trader_id = 0;
    instrument = invalid_instrument_id;
    side = buy;
    type = limit;
    price = pos 0;
    qty = pos 0;
  };
  trade = blank_trade;
  tob = record {
    instrument = invalid_instrument_id;
    bid_price = pos 0;
    bid_qty = pos 0;
    ask_price = pos 0;
    ask_qty = pos 0;
  };
  reject_reason = "";
}

unfoldable pub make_trade_event : Trade → Event
make_trade_event t = record blank_event {
  kind = trade;
  sequence = t.sequence;
  timestamp = t.timestamp;
  trade = t;
}

unfoldable pub make_reject_event : ℕ → ℕ → ℕ → String → Event
make_reject_event id seq ts reason = record blank_event {
  kind = order_rejected;
  sequence = seq;
  timestamp = ts;
  order = record (blank_event.order) { order_id = id };
  reject_reason = reason;
}

pub record TopOfBookSnapshot : Type 0 where
  pub instrument : ℕ
  pub has_bid : Bool
  pub bid_price : ℤ
  pub bid_qty : ℤ
  pub has_ask : Bool
  pub ask_price : ℤ
  pub ask_qty : ℤ

-- `TopOfBookSnapshot{}`
abbrev pub blank_snapshot : TopOfBookSnapshot
blank_snapshot = record {
  instrument = invalid_instrument_id;
  has_bid = false;
  bid_price = pos 0;
  bid_qty = pos 0;
  has_ask = false;
  ask_price = pos 0;
  ask_qty = pos 0;
}

-- `snapshot_of`
unfoldable pub snapshot_of : Option OrderBook → TopOfBookSnapshot
snapshot_of none = blank_snapshot
snapshot_of (some b) =
    let bid = top true b in
    let ask = top false b in
    record {
      instrument = b.instrument;
      has_bid = bid.valid;
      bid_price = if bid.valid then bid.price else pos 0;
      bid_qty = if bid.valid then bid.quantity else pos 0;
      has_ask = ask.valid;
      ask_price = if ask.valid then ask.price else pos 0;
      ask_qty = if ask.valid then ask.quantity else pos 0;
    }

-- `kEventRingCapacity`
abbrev pub event_ring_capacity : ℕ
event_ring_capacity = 4096

-- `ring_`, an array as the function from its indices, with its head and count.
pub record EventRing : Type 0 where
  pub slots : ℕ → Event
  pub head : ℕ
  pub count : ℕ

pub record MarketDataPublisher : Type 0 where
  pub snapshots : Map TopOfBookSnapshot
  pub ring : EventRing
  pub listeners : List ℕ

-- `MarketDataPublisher(MatchingEngine&)`
unfoldable pub new_publisher : MarketDataPublisher
new_publisher = record {
  snapshots = [];
  ring = record { slots = λ i. blank_event; head = 0; count = 0 };
  listeners = [];
}

-- A call of a listener.
pub data Call : Type 0 where
  on_event : ℕ → Event → Call
  on_top_of_book : ℕ → TopOfBookSnapshot → Call

-- The ring with one more event.
unfoldable pub push_event : Event → EventRing → EventRing
push_event e r = record {
  slots = λ i. if i == r.head then e else r.slots i;
  head = (r.head + 1) % event_ring_capacity;
  count = if ltb r.count event_ring_capacity then r.count + 1 else r.count;
}

unfoldable pub notify_event : Event → MarketDataPublisher → MarketDataPublisher × List Call
unfolding push_event
notify_event e p = (record p { ring = push_event e p.ring }, map (λ l. on_event l e) p.listeners)

unfoldable pub notify_tob :
    ℕ → MatchingEngine → MarketDataPublisher → MarketDataPublisher × List Call
notify_tob id engine p = elim (book id engine) [
  | none ↦ (p, [])
  | some b ↦
      let s = snapshot_of (some b) in
      (record p { snapshots = assign id s p.snapshots }, map (λ l. on_top_of_book l s) p.listeners)
]

-- A trade, while the engine stands as given.
unfoldable pub on_trade :
    Trade → MatchingEngine → MarketDataPublisher → MarketDataPublisher × List Call
on_trade t engine p =
    let (p', calls) = notify_event (make_trade_event t) p in
    let (p'', calls') = notify_tob t.instrument_id engine p' in (p'', calls ++ calls')

-- The kind of event that a result is.
abbrev pub result_kind : SubmitStatus → EventKind
result_kind accepted = order_rested
result_kind fully_filled = order_filled
result_kind partially_filled = order_partially_filled
result_kind cancelled = order_cancelled
result_kind rejected = order_rejected

abbrev pub result_reason : SubmitStatus → String → String
result_reason accepted reason = ""
result_reason fully_filled reason = ""
result_reason partially_filled reason = ""
result_reason cancelled reason = ""
result_reason rejected reason = reason

unfoldable pub result_event : SubmitResult → Event
result_event r = record blank_event {
  kind = result_kind r.status;
  sequence = r.sequence;
  order = record (blank_event.order) { order_id = r.order_id; qty = r.resting_quantity };
  reject_reason = result_reason r.status r.reject_reason;
}

-- `Accepted`, `PartiallyFilled` or `FullyFilled`.
abbrev pub changes_top : SubmitStatus → Bool
changes_top accepted = true
changes_top fully_filled = true
changes_top partially_filled = true
changes_top cancelled = false
changes_top rejected = false

unfoldable pub on_submit_result :
    SubmitResult → MatchingEngine → MarketDataPublisher → MarketDataPublisher × List Call
unfolding result_event
on_submit_result r engine p =
    let (p', calls) = notify_event (result_event r) p in
    if changes_top r.status
    then (let (p'', calls') = notify_tob r.instrument_id engine p' in (p'', calls ++ calls'))
    else (p', calls)

unfoldable pub top_of_book : ℕ → MatchingEngine → MarketDataPublisher → TopOfBookSnapshot
top_of_book id engine p = elim (find id p.snapshots) [
  | some s ↦ s
  | none ↦ snapshot_of (book id engine)
]

-- `bid_depth` and `ask_depth`
unfoldable pub side_depth : Bool → ℕ → ℕ → MatchingEngine → List DepthLevel
side_depth is_bid id levels engine = elim (book id engine) [
  | none ↦ []
  | some b ↦ let (bids, asks) = depth levels b in if is_bid then bids else asks
]

unfoldable pub subscribe : ℕ → MarketDataPublisher → MarketDataPublisher
subscribe l p = if elem l p.listeners then p else record p { listeners = p.listeners ++ (l ∷ []) }

unfoldable pub unsubscribe : ℕ → MarketDataPublisher → MarketDataPublisher
unsubscribe l p = record p { listeners = unlink l p.listeners }

-- The loop of `recent_events`: `k` more events from the one at `i`, counted back from the last.
unfoldable pub walk_back : ℕ → ℕ → EventRing → List Event
walk_back i zero r = []
walk_back i (suc k) r =
    r.slots ((r.head + event_ring_capacity - 1 - i) % event_ring_capacity) ∷ walk_back (suc i) k r

unfoldable pub recent_events : ℕ → MarketDataPublisher → List Event
unfolding walk_back
recent_events max_n p = walk_back 0 (if ltb max_n p.ring.count then max_n else p.ring.count) p.ring
