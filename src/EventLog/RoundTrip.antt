-- ===== src/EventLog/RoundTrip.antt =====
-- Writing and reading a record of src/persistence/event_log.cpp (`write_payload`, `read_payload`).
use trader_two.Prelude.{
  ℕ, ◌<◌, true, false, ◌≡◌, refl, List, ◌++◌, length, arith, if◌then◌else◌, Bool-cases, inl, inr,
}
use trader_two.Order.{Trade, Side, buy, sell, OrderType, market, limit}
use trader_two.MarketData.{
  EventKind, OrderPayload, order_accepted, order_rested, order_rejected, order_cancelled,
  order_filled, order_partially_filled, order_modified, trade, top_of_book_changed,
}
use trader_two.EventLog.{
  PersistedEvent, blank_persisted, write_u64, write_u8, write_i64, write_str, write_trade,
  write_order, write_payload, to_bits, read_trade, read_order, read_payload, kind_code, kind_of,
  kind_is_trade, side_code, side_of, type_code, type_of,
}
use trader_two.EventLog.Bytes.{
  Fits, before_end, read-write_uint, read-write_more, read-write_str, Int64, of_bits-to_bits,
  to_bits-Fits,
}

-- The numbers of a trade fit their eight bytes.
pub record TradeFits (t : Trade) : Type 0 where
  pub id : Fits 8 t.id
  pub instrument : Fits 8 t.instrument_id
  pub buy_order : Fits 8 t.buy_order_id
  pub sell_order : Fits 8 t.sell_order_id
  pub buy_trader : Fits 8 t.buy_trader_id
  pub sell_trader : Fits 8 t.sell_trader_id
  pub price : Int64 t.price
  pub quantity : Int64 t.quantity

-- What the log keeps of a trade: its sequence and time are those of its record.
abbrev pub stored_trade : Trade → Trade
stored_trade t = record t { sequence = 0; timestamp = 0 }

read-write_trade :
    (t : Trade) (rest : List ℕ)
    → TradeFits t
    → read_trade (before_end (write_trade t ++ rest)) ≡ (stored_trade t, before_end rest)
unfolding read_trade write_trade
read-write_trade t rest f =
    let m7 = write_i64 t.price ++ write_i64 t.quantity in
    let m6 = write_u64 t.sell_trader_id ++ m7 in
    let m5 = write_u64 t.buy_trader_id ++ m6 in
    let m4 = write_u64 t.sell_order_id ++ m5 in
    let m3 = write_u64 t.buy_order_id ++ m4 in
    let m2 = write_u64 t.instrument_id ++ m3 in
    rw
      (
        read-write_more 8 t.id m2 rest f.id,
        read-write_more 8 t.instrument_id m3 rest f.instrument,
        read-write_more 8 t.buy_order_id m4 rest f.buy_order,
        read-write_more 8 t.sell_order_id m5 rest f.sell_order,
        read-write_more 8 t.buy_trader_id m6 rest f.buy_trader,
        read-write_more 8 t.sell_trader_id m7 rest f.sell_trader,
        read-write_more 8 (to_bits t.price) (write_i64 t.quantity) rest
            (to_bits-Fits t.price f.price),
        read-write_uint 8 (to_bits t.quantity) rest (to_bits-Fits t.quantity f.quantity),
        of_bits-to_bits t.price f.price,
        of_bits-to_bits t.quantity f.quantity,
      )
      refl

-- The numbers of an order payload fit their bytes, and so does the length of the reason.
pub record OrderFits (o : OrderPayload) (reason : List ℕ) : Type 0 where
  pub id : Fits 8 o.order_id
  pub instrument : Fits 8 o.instrument
  pub price : Int64 o.price
  pub qty : Int64 o.qty
  pub reason_length : length reason < 4294967296

abbrev pub stored_order : OrderPayload → OrderPayload
stored_order o = record o { trader_id = 0 }

side_of-side_code : (s : Side) → side_of (side_code s) ≡ s
side_of-side_code buy = refl
side_of-side_code sell = refl

type_of-type_code : (t : OrderType) → type_of (type_code t) ≡ t
type_of-type_code market = refl
type_of-type_code limit = refl

side-Fits : (s : Side) → Fits 1 (side_code s)
side-Fits buy = refl
side-Fits sell = refl

type-Fits : (t : OrderType) → Fits 1 (type_code t)
type-Fits market = refl
type-Fits limit = refl

read-write_order :
    (o : OrderPayload) (reason rest : List ℕ)
    → OrderFits o reason
    → read_order (before_end (write_order o reason ++ rest))
      ≡ ((stored_order o, reason), before_end rest)
unfolding read_order write_order
read-write_order o reason rest f =
    let m6 = write_str reason in
    let m5 = write_i64 o.qty ++ m6 in
    let m4 = write_i64 o.price ++ m5 in
    let m3 = write_u8 (type_code o.type) ++ m4 in
    let m2 = write_u8 (side_code o.side) ++ m3 in
    let m1 = write_u64 o.instrument ++ m2 in
    rw
      (
        read-write_more 8 o.order_id m1 rest f.id,
        read-write_more 8 o.instrument m2 rest f.instrument,
        read-write_more 1 (side_code o.side) m3 rest (side-Fits o.side),
        read-write_more 1 (type_code o.type) m4 rest (type-Fits o.type),
        read-write_more 8 (to_bits o.price) m5 rest (to_bits-Fits o.price f.price),
        read-write_more 8 (to_bits o.qty) m6 rest (to_bits-Fits o.qty f.qty),
        read-write_str reason rest f.reason_length,
        side_of-side_code o.side,
        type_of-type_code o.type,
        of_bits-to_bits o.price f.price,
        of_bits-to_bits o.qty f.qty,
      )
      refl

-- The payload that the event's kind has fits.
pub record Storable (e : PersistedEvent) : Type 0 where
  pub sequence : Fits 8 e.sequence
  pub timestamp : Fits 8 e.timestamp
  pub trade : kind_is_trade e.kind ≡ true → TradeFits e.trade
  pub order : kind_is_trade e.kind ≡ false → OrderFits e.order e.reject_reason

-- What the log keeps of an event: the payload of its kind.
abbrev pub stored : PersistedEvent → PersistedEvent
stored e =
    let e' = record blank_persisted {
      kind = e.kind;
      sequence = e.sequence;
      timestamp = e.timestamp;
    } in
    if kind_is_trade e.kind
    then record e' { trade = stored_trade e.trade }
    else record e' { order = stored_order e.order; reject_reason = e.reject_reason }

kind_of-kind_code : (k : EventKind) → kind_of (kind_code k) ≡ k
kind_of-kind_code order_accepted = refl
kind_of-kind_code order_rested = refl
kind_of-kind_code order_rejected = refl
kind_of-kind_code order_cancelled = refl
kind_of-kind_code order_filled = refl
kind_of-kind_code order_partially_filled = refl
kind_of-kind_code order_modified = refl
kind_of-kind_code trade = refl
kind_of-kind_code top_of_book_changed = refl

kind-Fits : (k : EventKind) → Fits 1 (kind_code k)
kind-Fits k = ground arith

-- A record that is written and followed by any bytes is read back with its kind, sequence number,
-- time and the payload of its kind, but for the trader of an order and the sequence number and the
-- time of a trade, which are not written and are read as zero; and those bytes are left. The
-- numbers of the event fit the bytes that they are written in.
pub read-write_payload :
    (e : PersistedEvent) (rest : List ℕ)
    → Storable e
    → read_payload (before_end (write_payload e ++ rest)) ≡ (stored e, before_end rest)
unfolding read_payload write_payload
read-write_payload e rest f = elim (Bool-cases (kind_is_trade e.kind)) [
  | inl is ↦
      let m2 = write_trade e.trade in
      let m1 = write_u64 e.timestamp ++ m2 in
      let m0 = write_u64 e.sequence ++ m1 in
      rw
        (
          is,
          read-write_more 1 (kind_code e.kind) m0 rest (kind-Fits e.kind),
          read-write_more 8 e.sequence m1 rest f.sequence,
          read-write_more 8 e.timestamp m2 rest f.timestamp,
          kind_of-kind_code e.kind,
          is,
          read-write_trade e.trade rest (f.trade is),
        )
        refl
  | inr not_trade ↦
      let m2 = write_order e.order e.reject_reason in
      let m1 = write_u64 e.timestamp ++ m2 in
      let m0 = write_u64 e.sequence ++ m1 in
      rw
        (
          not_trade,
          read-write_more 1 (kind_code e.kind) m0 rest (kind-Fits e.kind),
          read-write_more 8 e.sequence m1 rest f.sequence,
          read-write_more 8 e.timestamp m2 rest f.timestamp,
          kind_of-kind_code e.kind,
          not_trade,
          read-write_order e.order e.reject_reason rest (f.order not_trade),
        )
        refl
]
