-- ===== src/EventLog/Files.antt =====
-- `EventLog`, `PersistingSink` and `Replayer` of src/persistence/event_log.cpp. Opening a file
-- succeeds; the bytes of a text of the engine are a parameter.
use trader_two.Prelude.{
  ℕ, zero, suc, ◌==◌, ℤ, pos, ◌+ℤ◌, ltb_ℤ, Bool, true, false, not, ◌||◌, List, [], ◌∷◌, ◌++◌,
  length, if◌then◌else◌, Option, none, some, String,
}
use trader_two.Order.{Order, Trade, market, limit, gtc, new}
use trader_two.Engine.Matching.{Machine}
use trader_two.Registry.{MatchingEngine}
use trader_two.Engine.{SubmitResult, submit}
use trader_two.MarketData.{
  EventKind, order_rested, order_rejected, order_filled, order_partially_filled, order_accepted,
  order_cancelled, order_modified, trade, top_of_book_changed, result_kind, blank_event,
}
use trader_two.EventLog.{
  PersistedEvent, blank_persisted, Reader, read_uint, read_payload, write_u64, write_payload,
}

abbrev pub magic : ℕ
magic = 1414813233

abbrev pub version : ℕ
version = 1

-- The file on disk, whether the log has it open, and what it counts.
pub record EventLog : Type 0 where
  pub file : List ℕ
  pub is_open : Bool
  pub bytes_written : ℕ

-- The header of a file.
abbrev pub header : List ℕ
header = write_u64 magic ++ write_u64 version

-- `EventLog(path, append)` on a file with these bytes. A file opened for appending cannot be read, so
-- that the header's two numbers keep their zeros.
unfoldable pub open_log : Bool → List ℕ → EventLog
open_log append file =
    if not append
    then record { file = header; is_open = true; bytes_written = 16 }
    else if not (0 == magic) || not (0 == version)
    then record { file = file; is_open = false; bytes_written = 0 }
    else record { file = file; is_open = true; bytes_written = length file }

unfoldable pub close : EventLog → EventLog
close log = record log { is_open = false }

unfoldable pub append : PersistedEvent → EventLog → EventLog
append e log =
    if not log.is_open
    then log
    else let file = log.file ++ write_payload e in
      record log { file = file; bytes_written = length file }

abbrev pub keep : PersistedEvent → Option (List PersistedEvent) → Option (List PersistedEvent)
keep e none = none
keep e (some es) = some (e ∷ es)

-- The loop of `read_all`; `none` means that the fuel ran out.
unfoldable pub read_loop : ℕ → Reader → Option (List PersistedEvent)
read_loop zero r = none
read_loop (suc fuel) r =
    if r.eof
    then some []
    else let (e, r') = read_payload r in
      let rest = read_loop fuel r' in
      if length r'.rest == length r.rest
      then some []
      else if r'.eof
      then some (e ∷ [])
      else keep e rest

-- The records of a file.
unfoldable pub read_file : List ℕ → Option (List PersistedEvent)
read_file file =
    let (m, r) = read_uint 8 (record { rest = file; eof = false }) in
    let (v, r) = read_uint 8 r in
    if not (m == magic) || not (v == version) then some [] else read_loop (suc (length r.rest)) r

unfoldable pub read_all : EventLog → EventLog × Option (List PersistedEvent)
read_all log = (close log, read_file log.file)

-- `PersistingSink::on_trade`
unfoldable pub persist_trade : Trade → EventLog → EventLog
persist_trade t log =
    append
      (record blank_persisted {
        sequence = t.sequence;
        timestamp = t.timestamp;
        kind = trade;
        trade = t;
      })
      log

-- `PersistingSink::on_submit_result`
unfoldable pub persist_result : (String → List ℕ) → SubmitResult → EventLog → EventLog
persist_result bytes_of r log =
    append
      (record blank_persisted {
        sequence = r.sequence;
        kind = result_kind r.status;
        order = record (blank_event.order) {
          order_id = r.order_id;
          instrument = r.instrument_id;
          side = r.side;
          type = r.type;
          price = r.price;
          qty = r.filled_quantity +ℤ r.resting_quantity;
        };
        reject_reason = bytes_of r.reject_reason;
      })
      log

-- What the replay does with a kind of record.
pub data ReplayStep : Type 0 where
  skip resubmit unsupported : ReplayStep

unfoldable pub replay_step : EventKind → ReplayStep
replay_step trade = skip
replay_step order_rejected = skip
replay_step order_rested = resubmit
replay_step order_filled = resubmit
replay_step order_partially_filled = resubmit
replay_step order_accepted = unsupported
replay_step order_cancelled = unsupported
replay_step order_modified = unsupported
replay_step top_of_book_changed = unsupported

-- The order that a record is turned into.
unfoldable pub replayed_order : PersistedEvent → Order
replayed_order e = record {
  id = e.order.order_id;
  trader_id = 0;
  instrument_id = e.order.instrument;
  side = e.order.side;
  type = if ltb_ℤ (pos 0) e.order.qty then limit else market;
  tif = gtc;
  price = e.order.price;
  quantity = e.order.qty;
  remaining = e.order.qty;
  sequence = 0;
  timestamp = 0;
  status = new;
}

-- `Replayer::replay`: the count of applied records and the engine. `none` is a match loop out of fuel.
unfoldable pub replay :
    Machine → ℤ → List PersistedEvent → ℕ → MatchingEngine → Option (ℕ × MatchingEngine)
replay machine now [] applied engine = some (applied, engine)
replay machine now (e ∷ es) applied engine = elim (replay_step e.kind) [
  | skip ↦ replay machine now es (suc applied) engine
  | unsupported ↦ some (applied, engine)
  | resubmit ↦ elim (submit machine now (some (replayed_order e)) engine) [
    | none ↦ none
    | some out ↦ replay machine now es (suc applied) out.engine
  ]
]
