-- ===== src/EventLog.antt =====
-- include/tt/persistence/event_log.hpp and src/persistence/event_log.cpp: the log of events in a file, the
-- sink that writes it and the replay. A file is the list of its bytes, numbers in it have their low
-- byte first, and a text is its bytes. A read past the end keeps the bytes that were there and takes
-- the others for zero.
pub mod Files
pub mod Replays
pub mod Bytes
pub mod RoundTrip
pub mod Recovery
use trader_two.Prelude.{
  ℕ, zero, suc, ◌+◌, ◌-◌, ◌*◌, ◌/◌, ◌%◌, ◌==◌, ltb, ℤ, pos, negsuc, ◌+ℤ◌, ltb_ℤ, Bool, true, false,
  not, ◌||◌, List, [], ◌∷◌, ◌++◌, length, if◌then◌else◌, Option, none, some, String,
}
use trader_two.Order.{Order, Trade, Side, buy, sell, OrderType, market, limit, gtc, new}
use trader_two.Engine.Matching.{Machine}
use trader_two.Registry.{MatchingEngine}
use trader_two.Engine.{
  Outcome, SubmitResult, SubmitStatus, accepted, fully_filled, partially_filled, rejected,
  cancelled, submit,
}
use trader_two.MarketData.{
  EventKind, order_accepted, order_rested, order_rejected, order_cancelled, order_filled,
  order_partially_filled, order_modified, trade, top_of_book_changed, OrderPayload, blank_trade,
  blank_event,
}

pub record PersistedEvent : Type 0 where
  pub sequence : ℕ
  pub timestamp : ℕ
  pub kind : EventKind
  pub order : OrderPayload
  pub trade : Trade
  pub reject_reason : List ℕ

-- `PersistedEvent{}`
abbrev pub blank_persisted : PersistedEvent
blank_persisted = record {
  sequence = 0;
  timestamp = 0;
  kind = order_accepted;
  order = blank_event.order;
  trade = blank_trade;
  reject_reason = [];
}

-- The low `n` bytes of a number.
unfoldable pub write_uint : ℕ → ℕ → List ℕ
write_uint zero v = []
write_uint (suc n) v = v % 256 ∷ write_uint n (v / 256)

-- `write_u64`, `write_u8`
abbrev pub write_u64 : ℕ → List ℕ
write_u64 v = write_uint 8 v

abbrev pub write_u8 : ℕ → List ℕ
write_u8 v = write_uint 1 v

-- An `int64_t` as the number that its eight bytes are.
unfoldable pub to_bits : ℤ → ℕ
to_bits (pos n) = n
to_bits (negsuc n) = 18446744073709551615 - n

unfoldable pub of_bits : ℕ → ℤ
of_bits v = if ltb v 9223372036854775808 then pos v else negsuc (18446744073709551615 - v)

abbrev pub write_i64 : ℤ → List ℕ
write_i64 v = write_uint 8 (to_bits v)

-- `write_str`
unfoldable pub write_str : List ℕ → List ℕ
write_str s = write_uint 4 (length s) ++ s

-- `static_cast<std::uint8_t>`
abbrev pub kind_code : EventKind → ℕ
kind_code order_accepted = 0
kind_code order_rested = 1
kind_code order_rejected = 2
kind_code order_cancelled = 3
kind_code order_filled = 4
kind_code order_partially_filled = 5
kind_code order_modified = 6
kind_code trade = 7
kind_code top_of_book_changed = 8

-- `static_cast<EventKind>`. A code without a kind reads as one that is treated alike.
abbrev pub kind_of : ℕ → EventKind
kind_of c =
    if c == 0
    then order_accepted
    else if c == 1
    then order_rested
    else if c == 2
    then order_rejected
    else if c == 3
    then order_cancelled
    else if c == 4
    then order_filled
    else if c == 5
    then order_partially_filled
    else if c == 6
    then order_modified
    else if c == 7
    then trade
    else top_of_book_changed

abbrev pub side_code : Side → ℕ
side_code buy = 0
side_code sell = 1

-- Here and in `type_of` and `kind_of`, a byte that no enumerator has is read as one of them; the source
-- keeps it as it is.
abbrev pub side_of : ℕ → Side
side_of c = if c == 0 then buy else sell

abbrev pub type_code : OrderType → ℕ
type_code market = 0
type_code limit = 1

abbrev pub type_of : ℕ → OrderType
type_of c = if c == 0 then market else limit

abbrev pub kind_is_trade : EventKind → Bool
kind_is_trade k = kind_code k == 7

-- The payload of a trade, and that of the other kinds.
unfoldable pub write_trade : Trade → List ℕ
write_trade t =
    write_u64 t.id
    ++ (write_u64 t.instrument_id
        ++ (write_u64 t.buy_order_id
            ++ (write_u64 t.sell_order_id
                ++ (write_u64 t.buy_trader_id
                    ++ (write_u64 t.sell_trader_id
                        ++ (write_i64 t.price ++ write_i64 t.quantity))))))

unfoldable pub write_order : OrderPayload → List ℕ → List ℕ
write_order o reason =
    write_u64 o.order_id
    ++ (write_u64 o.instrument
        ++ (write_u8 (side_code o.side)
            ++ (write_u8 (type_code o.type)
                ++ (write_i64 o.price ++ (write_i64 o.qty ++ write_str reason)))))

unfoldable pub write_payload : PersistedEvent → List ℕ
write_payload e =
    write_u8 (kind_code e.kind)
    ++ (write_u64 e.sequence
        ++ (write_u64 e.timestamp
            ++ (if kind_is_trade e.kind
                then write_trade e.trade
                else write_order e.order e.reject_reason)))

-- A file that is read: the bytes that are left, and whether a read came to the end.
pub record Reader : Type 0 where
  pub rest : List ℕ
  pub eof : Bool

unfoldable pub read_uint : ℕ → Reader → ℕ × Reader
read_uint zero r = (0, r)
read_uint (suc n) r = elim r.rest [
  | [] ↦ (0, record { rest = []; eof = true })
  | b ∷ bs ↦ let (v, r') = read_uint n (record { rest = bs; eof = r.eof }) in (b + 256 * v, r')
]

-- `fread` of so many bytes of a text, which was filled with zeros.
unfoldable pub read_text : ℕ → Reader → List ℕ × Reader
read_text zero r = ([], r)
read_text (suc n) r = elim r.rest [
  | [] ↦ let (s, r') = read_text n (record { rest = []; eof = true }) in (0 ∷ s, r')
  | b ∷ bs ↦ let (s, r') = read_text n (record { rest = bs; eof = r.eof }) in (b ∷ s, r')
]

-- `read_str`
unfoldable pub read_str : Reader → List ℕ × Reader
read_str r = let (len, r') = read_uint 4 r in read_text len r'

unfoldable pub read_trade : Reader → Trade × Reader
read_trade r =
    let (id, r) = read_uint 8 r in
    let (instrument, r) = read_uint 8 r in
    let (buy_order, r) = read_uint 8 r in
    let (sell_order, r) = read_uint 8 r in
    let (buy_trader, r) = read_uint 8 r in
    let (sell_trader, r) = read_uint 8 r in
    let (price, r) = read_uint 8 r in
    let (qty, r) = read_uint 8 r in
    (
      record blank_trade {
        id = id;
        instrument_id = instrument;
        buy_order_id = buy_order;
        sell_order_id = sell_order;
        buy_trader_id = buy_trader;
        sell_trader_id = sell_trader;
        price = of_bits price;
        quantity = of_bits qty;
      },
      r,
    )

unfoldable pub read_order : Reader → (OrderPayload × List ℕ) × Reader
read_order r =
    let (id, r) = read_uint 8 r in
    let (instrument, r) = read_uint 8 r in
    let (side, r) = read_uint 1 r in
    let (type, r) = read_uint 1 r in
    let (price, r) = read_uint 8 r in
    let (qty, r) = read_uint 8 r in
    let (reason, r) = read_str r in
    (
      (
        record (blank_event.order) {
          order_id = id;
          instrument = instrument;
          side = side_of side;
          type = type_of type;
          price = of_bits price;
          qty = of_bits qty;
        },
        reason,
      ),
      r,
    )

unfoldable pub read_payload : Reader → PersistedEvent × Reader
read_payload r =
    let (kind, r) = read_uint 1 r in
    let (sequence, r) = read_uint 8 r in
    let (timestamp, r) = read_uint 8 r in
    let e = record blank_persisted {
      kind = kind_of kind;
      sequence = sequence;
      timestamp = timestamp;
    } in
    if kind_is_trade (kind_of kind)
    then (let (t, r) = read_trade r in (record e { trade = t }, r))
    else (let ((o, reason), r) = read_order r in
        (record e { order = o; reject_reason = reason }, r))
