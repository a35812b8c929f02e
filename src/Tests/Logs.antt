-- ===== src/Tests/Logs.antt =====
-- A log of a trade and a rejection, and a replay.
use trader_two.Prelude.{pos, false, ◌≡◌, sym, [], ◌∷◌, ◌++◌, map, some, arith}
use mathlib.Core.Bool.{false≢true}
use trader_two.MarketData.{blank_trade, blank_event, trade, order_rejected, order_rested}
use trader_two.EventLog.{PersistedEvent, blank_persisted, write_payload, read_payload}
use trader_two.EventLog.Files.{open_log, read_all, replay}
use trader_two.EventLog.Bytes.{before_end, not_negative, Fits-u64}
use trader_two.EventLog.RoundTrip.{Storable, stored, read-write_payload}
use trader_two.EventLog.Recovery.{append_all, read_all-append}
use trader_two.EventLog.Replays.{Rebuilt, replay-Rebuilt}
use trader_two.Tests.Matches.{machine, machine-ReadsFreed}
use trader_two.Tests.Engines.{listed, listed-AllValid}

abbrev dealt : PersistedEvent
dealt = record blank_persisted {
  sequence = 4;
  timestamp = 1000;
  kind = trade;
  trade = record blank_trade {
    id = 5;
    instrument_id = 1;
    buy_order_id = 2;
    sell_order_id = 1;
    price = pos 100;
    quantity = pos 3;
  };
}

abbrev refused : PersistedEvent
refused = record blank_persisted {
  sequence = 6;
  kind = order_rejected;
  order = record (blank_event.order) { order_id = 9; instrument = 1; price = pos 70; qty = pos 2 };
  reject_reason = 114 ∷ 105 ∷ [];
}

dealt-Storable : Storable dealt
dealt-Storable = record {
  sequence = Fits-u64 4 (omega arith);
  timestamp = Fits-u64 1000 (omega arith);
  trade = λ h. record {
    id = Fits-u64 5 (omega arith);
    instrument = Fits-u64 1 (omega arith);
    buy_order = Fits-u64 2 (omega arith);
    sell_order = Fits-u64 1 (omega arith);
    buy_trader = Fits-u64 0 (omega arith);
    sell_trader = Fits-u64 0 (omega arith);
    price = not_negative 100 (omega arith);
    quantity = not_negative 3 (omega arith);
  };
  order = λ h. absurd (false≢true (sym h));
}

refused-Storable : Storable refused
refused-Storable = record {
  sequence = Fits-u64 6 (omega arith);
  timestamp = Fits-u64 0 (omega arith);
  trade = λ h. absurd (false≢true h);
  order = λ h. record {
    id = Fits-u64 9 (omega arith);
    instrument = Fits-u64 1 (omega arith);
    price = not_negative 70 (omega arith);
    qty = not_negative 2 (omega arith);
    reason_length = omega arith;
  };
}

read-write_payload_example :
    read_payload (before_end (write_payload dealt ++ (7 ∷ [])))
    ≡ (stored dealt, before_end (7 ∷ []))
read-write_payload_example = read-write_payload dealt (7 ∷ []) dealt-Storable

read_all-append_example :
    (read_all (append_all (dealt ∷ refused ∷ []) (open_log false (1 ∷ [])))).1
    ≡ some (map stored (dealt ∷ refused ∷ []))
read_all-append_example =
    read_all-append (1 ∷ []) (dealt ∷ refused ∷ []) (dealt-Storable, (refused-Storable, tt))

-- An order of two at 70.
abbrev rested : PersistedEvent
rested = record refused { kind = order_rested }

replay-Rebuilt_example :
    Rebuilt machine
      (pos 1)
      listed
      (dealt ∷ rested ∷ [])
      0
      (replay machine (pos 1) (dealt ∷ rested ∷ []) 0 listed)
replay-Rebuilt_example =
    replay-Rebuilt machine (pos 1) (dealt ∷ rested ∷ []) 0 listed machine-ReadsFreed listed-AllValid
