-- ===== src/Tests/Observed.antt =====
-- Counters and log lines that the theorems are applied to.
use trader_two.Prelude.{◌≡◌, refl, true, List, [], ◌∷◌, ◌++◌, some, arith, pos}
use trader_two.Engine.{blank_result}
use trader_two.MarketData.{blank_trade}
use trader_two.Sink.{SinkCall, told_trade, told_result}
use trader_two.Text.{codes, printf}
use trader_two.Metrics.{CounterBundle, reset_bundle, metrics_calls, json_pieces, render_json}
use trader_two.Metrics.Totals.{summary, metrics_calls-summary}
use trader_two.Metrics.Rendering.{render_json-whole}
use trader_two.StructuredLog.{info, TimeOfDay, timestamp_iso8601, log_text}
use trader_two.StructuredLog.Escapes.{escape, read_text, read_text-escape}

-- A trade and the result behind it.
abbrev calls : List SinkCall
calls =
    told_trade (record blank_trade { price = pos 100; quantity = pos 5; sequence = 3 })
    ∷ told_result (record blank_result { sequence = 3 })
    ∷ []

metrics_calls-summary_example :
    metrics_calls calls (record { bundle = reset_bundle; has_downstream = true; passed_on = [] })
    ≡ record { bundle = summary calls; has_downstream = true; passed_on = calls }
metrics_calls-summary_example = metrics_calls-summary true calls

abbrev few : CounterBundle
few = record reset_bundle { submits_accepted = 12; trades_total = 4 }

render_json-whole_example : render_json few ≡ printf (json_pieces few)
render_json-whole_example = render_json-whole few (omega arith)

read_text-escape_example :
    read_text 9 (escape (codes "a\"b\n") ++ (b'"' ∷ codes "}")) ≡ some (codes "a\"b\n", codes "}")
read_text-escape_example = read_text-escape 9 (codes "a\"b\n") (codes "}") (omega arith)

abbrev noon : TimeOfDay
noon = record { year = 2024; month = 5; day = 6; hour = 12; minute = 0; second = 7; micros = 89 }

timestamp_test : timestamp_iso8601 noon ≡ codes "2024-05-06T12:00:07.000089Z"
unfolding timestamp_iso8601 printf
timestamp_test = refl

-- The fields come as an object of their own, and only one of the braces is closed.
log_line_test :
    log_text info (codes "start") (codes "{\"port\":9}") noon
    ≡ codes
        "{\"ts\":\"2024-05-06T12:00:07.000089Z\",\"level\":\"INFO\",\"event\":\"start\",{\"port\":9}\n"
unfolding log_text escape printf
log_line_test = refl
