-- ===== src/StructuredLog.antt =====
-- include/tt/observability/structured_log.hpp and src/observability/structured_log.cpp: log lines in JSON.
-- What a logger has written is a list of bytes; whether its file opens, and the time of day, are
-- arguments. The mutex is left out.
pub mod Escapes
use Prim.Native.String.{String}
use text.Mathlib.Text.{◌==◌ as str_eq}
use trader_two.Prelude.{
  ℕ, zero, suc, ◌+◌, ◌-◌, ◌/◌, ◌%◌, ◌==◌, ltb, Bool, true, false, not, ◌||◌, if◌then◌else◌, List,
  [], ◌∷◌, ◌++◌, take, length,
}
use trader_two.Order.{Trade}
use trader_two.Engine.{
  SubmitResult, SubmitStatus, accepted, fully_filled, partially_filled, cancelled, rejected,
}
use trader_two.Text.{Bytes, codes, print_u64, Piece, literal, number, integer, bytes, printf}
use Escapes.{escape}

pub data LogLevel : Type 0 where
  debug info warn error : LogLevel

unfoldable pub level_name : LogLevel → String
level_name debug = "DEBUG"
level_name info = "INFO"
level_name warn = "WARN"
level_name error = "ERROR"

-- What `gmtime_r` gives for the time of day, and the microseconds.
pub record TimeOfDay : Type 0 where
  pub year : ℕ
  pub month : ℕ
  pub day : ℕ
  pub hour : ℕ
  pub minute : ℕ
  pub second : ℕ
  pub micros : ℕ

unfoldable pub zeros : ℕ → Bytes
zeros zero = []
zeros (suc n) = 48 ∷ zeros n

-- `%0*d`
unfoldable pub print_padded : ℕ → ℕ → Bytes
unfolding zeros
print_padded width n = zeros (width - length (print_u64 n)) ++ print_u64 n

unfoldable pub timestamp_iso8601 : TimeOfDay → Bytes
unfolding print_padded
timestamp_iso8601 t = take 39 (
    printf (
      bytes (print_padded 4 t.year)
      ∷ literal "-"
      ∷ bytes (print_padded 2 t.month)
      ∷ literal "-"
      ∷ bytes (print_padded 2 t.day)
      ∷ literal "T"
      ∷ bytes (print_padded 2 t.hour)
      ∷ literal ":"
      ∷ bytes (print_padded 2 t.minute)
      ∷ literal ":"
      ∷ bytes (print_padded 2 t.second)
      ∷ literal "."
      ∷ bytes (print_padded 6 t.micros)
      ∷ literal "Z"
      ∷ []))

-- The file of a logger, or the standard output.
pub record StructuredLogger : Type 0 where
  pub is_stdout : Bool
  pub written : Bytes

-- `StructuredLogger(std::string)`: a file is opened to append to what it holds.
unfoldable pub open_logger : String → Bool → Bytes → StructuredLogger
open_logger path opens contents =
    if str_eq path "-" || not opens
    then record { is_stdout = true; written = [] }
    else record { is_stdout = false; written = contents }

unfoldable pub write_line : Bytes → StructuredLogger → StructuredLogger
write_line line l = record l { written = l.written ++ (line ++ (10 ∷ [])) }

-- `if (!body.empty() && body.back() == '}') body.remove_suffix(1)`
unfoldable pub without_brace : Bytes → Bytes
without_brace [] = []
without_brace (c ∷ []) = if c == b'}' then [] else c ∷ []
without_brace (c ∷ d ∷ s) = c ∷ without_brace (d ∷ s)

-- The line that `log` builds, with the newline that it ends in.
unfoldable pub log_text : LogLevel → Bytes → Bytes → TimeOfDay → Bytes
unfolding without_brace timestamp_iso8601 level_name
log_text level event kv_json now =
    take 159 (
      printf (
        literal "{\"ts\":\""
        ∷ bytes (timestamp_iso8601 now)
        ∷ literal "\",\"level\":\""
        ∷ literal (level_name level)
        ∷ literal "\",\"event\":\""
        ∷ bytes (escape event)
        ∷ literal "\","
        ∷ []))
    ++ (without_brace kv_json ++ codes "}\n")

-- `log`, and `info`, `warn`, `error` and `debug` at their levels
unfoldable pub log : LogLevel → Bytes → Bytes → TimeOfDay → StructuredLogger → StructuredLogger
unfolding log_text write_line
log level event kv_json now l = write_line (log_text level event kv_json now) l

unfoldable pub json_trade : Trade → Bytes
json_trade t = take 255 (
    printf (
      literal "{\"buy_order_id\":"
      ∷ number t.buy_order_id
      ∷ literal ",\"sell_order_id\":"
      ∷ number t.sell_order_id
      ∷ literal ",\"price_ticks\":"
      ∷ integer t.price
      ∷ literal ",\"qty\":"
      ∷ integer t.quantity
      ∷ literal ",\"sequence\":"
      ∷ number t.sequence
      ∷ literal ",\"instrument\":"
      ∷ number t.instrument_id
      ∷ literal "}"
      ∷ []))

abbrev pub json_status : SubmitStatus → String
json_status accepted = "accepted"
json_status fully_filled = "filled"
json_status partially_filled = "partial"
json_status cancelled = "cancelled"
json_status rejected = "rejected"

-- A buffer of 256 bytes: a long reason is cut.
unfoldable pub json_submit : SubmitResult → Bytes
json_submit r = take 255 (
    printf (
      literal "{\"order_id\":"
      ∷ number r.order_id
      ∷ literal ",\"sequence\":"
      ∷ number r.sequence
      ∷ literal ",\"status\":\""
      ∷ literal (json_status r.status)
      ∷ literal "\",\"instrument\":"
      ∷ number r.instrument_id
      ∷ literal ",\"filled\":"
      ∷ integer r.filled_quantity
      ∷ literal ",\"resting\":"
      ∷ integer r.resting_quantity
      ∷ literal ",\"price_ticks\":"
      ∷ integer r.price
      ∷ literal ",\"reject_reason\":\""
      ∷ bytes (escape (codes r.reject_reason))
      ∷ literal "\"}"
      ∷ []))
