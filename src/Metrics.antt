-- ===== src/Metrics.antt =====
-- include/tt/observability/metrics.hpp and src/observability/metrics.cpp: the counters of an instrument,
-- the sink that keeps them, their registry, and how they are printed. A counter is a number modulo 2 ^ 64.
pub mod Totals
pub mod Rendering
use trader_two.Prelude.{
  ℕ, ◌+◌, ◌-◌, ◌*◌, ◌%◌, ◌^◌, ◌==◌, ℤ, pos, negsuc, Bool, true, false, if◌then◌else◌, List, [], ◌∷◌,
  ◌++◌, String, take,
}
use trader_two.Types.{next_u64}
use trader_two.Order.{Trade}
use trader_two.Engine.{
  SubmitResult, SubmitStatus, accepted, fully_filled, partially_filled, cancelled, rejected,
}
use trader_two.Sink.{SinkCall, told_trade, told_result}
use trader_two.Text.{Bytes, codes, Piece, literal, number, bytes, printf}

-- A bundle, and a snapshot of it.
pub record CounterBundle : Type 0 where
  pub submits_accepted : ℕ
  pub submits_filled : ℕ
  pub submits_partial : ℕ
  pub submits_cancelled : ℕ
  pub submits_rejected : ℕ
  pub trades_total : ℕ
  pub trade_qty_total : ℕ
  pub trade_notional_total : ℕ
  pub cancels_attempted : ℕ
  pub cancels_succeeded : ℕ
  pub modifies_attempted : ℕ
  pub modifies_succeeded : ℕ
  pub last_sequence : ℕ

-- `CounterBundle()`, and what `reset` leaves.
abbrev pub reset_bundle : CounterBundle
reset_bundle = record {
  submits_accepted = 0;
  submits_filled = 0;
  submits_partial = 0;
  submits_cancelled = 0;
  submits_rejected = 0;
  trades_total = 0;
  trade_qty_total = 0;
  trade_notional_total = 0;
  cancels_attempted = 0;
  cancels_succeeded = 0;
  modifies_attempted = 0;
  modifies_succeeded = 0;
  last_sequence = 0;
}

-- `static_cast<std::uint64_t>` of an `int64_t`
unfoldable pub unsigned_of : ℤ → ℕ
unsigned_of (pos n) = n % 2 ^ 64
unsigned_of (negsuc n) = 2 ^ 64 - 1 - n % 2 ^ 64

-- `fetch_add`
unfoldable pub fetch_add : ℕ → ℕ → ℕ
fetch_add counter n = (counter + n) % 2 ^ 64

-- `price.ticks * qty.qty` in `uint64_t`
unfoldable pub notional : Trade → ℕ
unfolding unsigned_of
notional t = unsigned_of t.price * unsigned_of t.quantity % 2 ^ 64

-- `MetricsSink::on_trade`
unfoldable pub count_trade : Trade → CounterBundle → CounterBundle
unfolding fetch_add
count_trade t b = record b {
  trades_total = fetch_add b.trades_total 1;
  trade_qty_total = fetch_add b.trade_qty_total (unsigned_of t.quantity);
  trade_notional_total = fetch_add b.trade_notional_total (notional t);
  last_sequence = t.sequence;
}

-- The counter of a status goes up.
unfoldable pub count_status : SubmitStatus → CounterBundle → CounterBundle
unfolding fetch_add
count_status accepted b = record b { submits_accepted = fetch_add b.submits_accepted 1 }
count_status fully_filled b = record b { submits_filled = fetch_add b.submits_filled 1 }
count_status partially_filled b = record b { submits_partial = fetch_add b.submits_partial 1 }
count_status cancelled b = record b { submits_cancelled = fetch_add b.submits_cancelled 1 }
count_status rejected b = record b { submits_rejected = fetch_add b.submits_rejected 1 }

-- `MetricsSink::on_submit_result`
unfoldable pub count_result : SubmitResult → CounterBundle → CounterBundle
unfolding count_status
count_result r b = record (count_status r.status b) { last_sequence = r.sequence }

-- A call of the sink.
unfoldable pub count_call : SinkCall → CounterBundle → CounterBundle
unfolding count_trade count_result
count_call (told_trade t) b = count_trade t b
count_call (told_result r) b = count_result r b

-- `MetricsSink`: the bundle, whether there is a sink downstream, and what that has been told.
pub record MetricsSink : Type 0 where
  pub bundle : CounterBundle
  pub has_downstream : Bool
  pub passed_on : List SinkCall

unfoldable pub metrics_call : SinkCall → MetricsSink → MetricsSink
unfolding count_call
metrics_call c s = record s {
  bundle = count_call c s.bundle;
  passed_on = if s.has_downstream then s.passed_on ++ (c ∷ []) else s.passed_on;
}

unfoldable pub metrics_calls : List SinkCall → MetricsSink → MetricsSink
metrics_calls [] s = s
metrics_calls (c ∷ cs) s = metrics_calls cs (metrics_call c s)

unfoldable pub record_cancel_attempt : Bool → CounterBundle → CounterBundle
unfolding fetch_add
record_cancel_attempt ok b = record b {
  cancels_attempted = fetch_add b.cancels_attempted 1;
  cancels_succeeded = if ok then fetch_add b.cancels_succeeded 1 else b.cancels_succeeded;
}

unfoldable pub record_modify_attempt : Bool → CounterBundle → CounterBundle
unfolding fetch_add
record_modify_attempt ok b = record b {
  modifies_attempted = fetch_add b.modifies_attempted 1;
  modifies_succeeded = if ok then fetch_add b.modifies_succeeded 1 else b.modifies_succeeded;
}

-- `kMaxInstruments`
abbrev pub max_instruments : ℕ
max_instruments = 256

-- `per_instrument_`, an array as the function from its slots, and `global_`.
pub record MetricsRegistry : Type 0 where
  pub per_instrument : ℕ → CounterBundle
  pub global : CounterBundle

unfoldable pub for_instrument : ℕ → MetricsRegistry → CounterBundle
for_instrument id r = r.per_instrument (id % max_instruments)

-- A write through the reference that `for_instrument` gives.
unfoldable pub update_instrument :
    ℕ → (CounterBundle → CounterBundle) → MetricsRegistry → MetricsRegistry
update_instrument id f r = record r {
  per_instrument =
      λ i. if i == id % max_instruments then f (r.per_instrument i) else r.per_instrument i;
}

-- What the format of `render_prometheus` spells.
unfoldable pub prometheus_pieces : Bytes → CounterBundle → List Piece
prometheus_pieces prefix s =
    literal "# HELP "
    ∷ bytes prefix
    ∷ literal "_submits_total Number of submissions by status.\n# TYPE "
    ∷ bytes prefix
    ∷ literal "_submits_total counter\n"
    ∷ bytes prefix
    ∷ literal "_submits_total{status=\"accepted\"} "
    ∷ number s.submits_accepted
    ∷ literal "\n"
    ∷ bytes prefix
    ∷ literal "_submits_total{status=\"filled\"}   "
    ∷ number s.submits_filled
    ∷ literal "\n"
    ∷ bytes prefix
    ∷ literal "_submits_total{status=\"partial\"}  "
    ∷ number s.submits_partial
    ∷ literal "\n"
    ∷ bytes prefix
    ∷ literal "_submits_total{status=\"cancelled\"}"
    ∷ number s.submits_cancelled
    ∷ literal "\n"
    ∷ bytes prefix
    ∷ literal "_submits_total{status=\"rejected\"} "
    ∷ number s.submits_rejected
    ∷ literal "\n# HELP "
    ∷ bytes prefix
    ∷ literal "_trades_total Number of matched trades.\n# TYPE "
    ∷ bytes prefix
    ∷ literal "_trades_total counter\n"
    ∷ bytes prefix
    ∷ literal "_trades_total "
    ∷ number s.trades_total
    ∷ literal "\n# HELP "
    ∷ bytes prefix
    ∷ literal "_trade_qty_total Sum of trade quantities.\n# TYPE "
    ∷ bytes prefix
    ∷ literal "_trade_qty_total counter\n"
    ∷ bytes prefix
    ∷ literal "_trade_qty_total "
    ∷ number s.trade_qty_total
    ∷ literal "\n# HELP "
    ∷ bytes prefix
    ∷ literal "_trade_notional_total Sum of trade notionals (price*qty).\n# TYPE "
    ∷ bytes prefix
    ∷ literal "_trade_notional_total counter\n"
    ∷ bytes prefix
    ∷ literal "_trade_notional_total "
    ∷ number s.trade_notional_total
    ∷ literal "\n# HELP "
    ∷ bytes prefix
    ∷ literal "_cancels_attempted_total Cancel attempts.\n# TYPE "
    ∷ bytes prefix
    ∷ literal "_cancels_attempted_total counter\n"
    ∷ bytes prefix
    ∷ literal "_cancels_attempted_total "
    ∷ number s.cancels_attempted
    ∷ literal "\n"
    ∷ bytes prefix
    ∷ literal "_cancels_succeeded_total "
    ∷ number s.cancels_succeeded
    ∷ literal "\n# HELP "
    ∷ bytes prefix
    ∷ literal "_modifies_attempted_total Modify attempts.\n# TYPE "
    ∷ bytes prefix
    ∷ literal "_modifies_attempted_total counter\n"
    ∷ bytes prefix
    ∷ literal "_modifies_attempted_total "
    ∷ number s.modifies_attempted
    ∷ literal "\n"
    ∷ bytes prefix
    ∷ literal "_modifies_succeeded_total "
    ∷ number s.modifies_succeeded
    ∷ literal "\n# HELP "
    ∷ bytes prefix
    ∷ literal "_last_sequence Last observed sequence number.\n# TYPE "
    ∷ bytes prefix
    ∷ literal "_last_sequence gauge\n"
    ∷ bytes prefix
    ∷ literal "_last_sequence "
    ∷ number s.last_sequence
    ∷ literal "\n"
    ∷ []

-- `snprintf` into a buffer of 1024 bytes.
unfoldable pub render_prometheus : Bytes → CounterBundle → Bytes
unfolding prometheus_pieces
render_prometheus prefix s = take 1023 (printf (prometheus_pieces prefix s))

unfoldable pub json_pieces : CounterBundle → List Piece
json_pieces s =
    literal "{\"submits\":{\"accepted\":"
    ∷ number s.submits_accepted
    ∷ literal ",\"filled\":"
    ∷ number s.submits_filled
    ∷ literal ",\"partial\":"
    ∷ number s.submits_partial
    ∷ literal ",\"cancelled\":"
    ∷ number s.submits_cancelled
    ∷ literal ",\"rejected\":"
    ∷ number s.submits_rejected
    ∷ literal "},\"trades\":{\"total\":"
    ∷ number s.trades_total
    ∷ literal ",\"qty_total\":"
    ∷ number s.trade_qty_total
    ∷ literal ",\"notional_total\":"
    ∷ number s.trade_notional_total
    ∷ literal "},\"cancels\":{\"attempted\":"
    ∷ number s.cancels_attempted
    ∷ literal ",\"succeeded\":"
    ∷ number s.cancels_succeeded
    ∷ literal "},\"modifies\":{\"attempted\":"
    ∷ number s.modifies_attempted
    ∷ literal ",\"succeeded\":"
    ∷ number s.modifies_succeeded
    ∷ literal "},\"last_sequence\":"
    ∷ number s.last_sequence
    ∷ literal "}"
    ∷ []

unfoldable pub render_json : CounterBundle → Bytes
unfolding json_pieces
render_json s = take 1023 (printf (json_pieces s))
