-- ===== src/WorkerPool/Outbound.antt =====
-- The events that a worker sends of include/tt/concurrency/worker_pool.hpp, `MPSCRingQueue`, and
-- `WorkerSink` of src/concurrency/worker_pool.cpp. The mutex is left out, and the padding.
use Prim.Native.String.{◌∷◌ as str_cons}
use trader_two.Prelude.{
  ℕ, zero, suc, leb, ℤ, pos, Bool, true, false, if◌then◌else◌, List, [], ◌∷◌, ◌++◌, map, Option,
  none, some, String, length,
}
use trader_two.Types.{invalid_order_id, invalid_instrument_id}
use trader_two.Order.{Side, buy, OrderType, limit, Trade}
use trader_two.Engine.{Outcome, SubmitResult, SubmitStatus, accepted}
use trader_two.MarketData.{TopOfBookSnapshot, blank_snapshot, blank_trade}

pub data OutboundKind : Type 0 where
  trade submit top_of_book error : OutboundKind

pub record SubmitResultLite : Type 0 where
  pub status : SubmitStatus
  pub order_id : ℕ
  pub instrument_id : ℕ
  pub sequence : ℕ
  pub filled_quantity : ℤ
  pub resting_quantity : ℤ
  pub side : Side
  pub type : OrderType
  pub price : ℤ
  pub reject_reason : String

-- `SubmitResultLite{}`
abbrev pub blank_lite : SubmitResultLite
blank_lite = record {
  status = accepted;
  order_id = invalid_order_id;
  instrument_id = invalid_instrument_id;
  sequence = 0;
  filled_quantity = pos 0;
  resting_quantity = pos 0;
  side = buy;
  type = limit;
  price = pos 0;
  reject_reason = "";
}

pub record OutboundEvent : Type 0 where
  pub kind : OutboundKind
  pub trade : Trade
  pub result : SubmitResultLite
  pub tob : TopOfBookSnapshot
  pub error_message : String

-- `OutboundEvent{}`
abbrev pub blank_outbound : OutboundEvent
blank_outbound = record {
  kind = submit;
  trade = blank_trade;
  result = blank_lite;
  tob = blank_snapshot;
  error_message = "";
}

-- The first `n` characters of a text.
unfoldable pub take_text : ℕ → String → String
take_text zero s = String.[]
take_text (suc n) String.[] = String.[]
take_text (suc n) (String.◌∷◌ c s) = str_cons c (take_text n s)

-- `copy_error`: what an array of 128 bytes holds in front of its zero.
unfoldable pub copy_error : String → String
unfolding take_text
copy_error s = take_text 127 s

unfoldable pub to_lite : SubmitResult → SubmitResultLite
to_lite r = record {
  status = r.status;
  order_id = r.order_id;
  instrument_id = r.instrument_id;
  sequence = r.sequence;
  filled_quantity = r.filled_quantity;
  resting_quantity = r.resting_quantity;
  side = r.side;
  type = r.type;
  price = r.price;
  reject_reason = copy_error r.reject_reason;
}

-- `capacity_`
abbrev pub outbound_capacity : ℕ
outbound_capacity = 65536

pub record MpscRingQueue : Type 0 where
  pub buffer : List OutboundEvent

-- `MPSCRingQueue::push`
unfoldable pub outbound_push : OutboundEvent → MpscRingQueue → MpscRingQueue × Bool
outbound_push v q =
    if leb outbound_capacity (length q.buffer)
    then (q, false)
    else (record q { buffer = q.buffer ++ (v ∷ []) }, true)

-- `MPSCRingQueue::pop`
unfoldable pub outbound_pop : MpscRingQueue → MpscRingQueue × Option OutboundEvent
outbound_pop q = elim q.buffer [ [] ↦ (q, none) | v ∷ rest ↦ (record q { buffer = rest }, some v) ]

-- The event of `WorkerSink::on_trade`.
unfoldable pub trade_outbound : Trade → OutboundEvent
trade_outbound t = record blank_outbound { kind = trade; trade = t }

-- The event of `WorkerSink::on_submit_result`.
unfoldable pub result_outbound : SubmitResult → OutboundEvent
result_outbound r = record blank_outbound {
  kind = submit;
  result = to_lite r;
  error_message = copy_error r.reject_reason;
}

-- Pushes in order; what the queue answers is not looked at.
unfoldable pub push_each : List OutboundEvent → MpscRingQueue → MpscRingQueue
push_each [] q = q
push_each (v ∷ rest) q = push_each rest (outbound_push v q).0

-- What the sink is told of a submission: each trade, then the result.
unfoldable pub events_of : Outcome → List OutboundEvent
unfolding trade_outbound result_outbound
events_of x = map trade_outbound x.trades ++ (result_outbound x.result ∷ [])

-- `WorkerSink` during a submission.
unfoldable pub report : Outcome → MpscRingQueue → MpscRingQueue
report x q = push_each (events_of x) q
