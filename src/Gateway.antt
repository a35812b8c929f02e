-- ===== src/Gateway.antt =====
-- src/networking/gateway.cpp: what the text gateway does with a request, with a buffer and with the
-- chunks that a client's socket gives. What the sink hands on to the publisher is a list of calls, since
-- the publisher only reads the engine. `recv` gives the chunks, and `send` takes all that it is given.
pub mod Chunks
use trader_two.Prelude.{
  ℕ, zero, suc, ◌+◌, ◌==◌, ℤ, pos, negsuc, Bool, true, false, not, if◌then◌else◌, List, [], ◌∷◌,
  ◌++◌, map, Option, none, some, String, length,
}
use trader_two.Types.{invalid_order_id}
use trader_two.Order.{Order, Trade}
use trader_two.Order
use trader_two.OrderBook.{OrderBook}
use trader_two.OrderBook.Queries.{TopOfBook, top}
use trader_two.Registry.{MatchingEngine, book}
use trader_two.Engine.Matching.{Machine}
use trader_two.Engine.{
  SubmitResult, SubmitStatus, accepted, fully_filled, partially_filled, rejected, cancelled,
  Outcome, submit,
}
use trader_two.Engine
use trader_two.Sink.{SinkCall, told_trade, told_result}
use trader_two.Text.{Bytes, codes}
use trader_two.Protocol.{
  ParsedRequest, blank_request, InboundCommand, unknown, new, cancel, modify, quote, ping,
  parse_request, format_submit_reply, format_trade, format_quote, format_error, newline,
}

-- The engine, the calls of the publisher so far, the log of the sink, what is written to the client, and
-- how many orders it has submitted.
pub record Session : Type 0 where
  pub engine : MatchingEngine
  pub told : List SinkCall
  pub log : List Bytes
  pub sent : Bytes
  pub submissions : ℕ

-- A client that has just connected.
unfoldable pub new_session : MatchingEngine → Session
new_session e = record { engine = e; told = []; log = []; sent = []; submissions = 0 }

abbrev pub status_word : SubmitStatus → String
status_word accepted = "ACCEPTED"
status_word fully_filled = "FILLED"
status_word partially_filled = "PARTIAL"
status_word cancelled = "CANCELLED"
status_word rejected = "REJECTED"

-- `write_all`
abbrev pub write_all : Bytes → Session → Session
write_all reply s = record s { sent = s.sent ++ reply }

-- `GatewaySink::on_trade`
unfoldable pub sink_trade : Trade → Session → Session
sink_trade t s = record s {
  log = s.log ++ (format_trade t ∷ []);
  told = s.told ++ (told_trade t ∷ []);
}

-- `GatewaySink::on_submit_result`
unfoldable pub sink_result : SubmitResult → Session → Session
sink_result r s = record s {
  log = s.log ++ (format_submit_reply r.order_id r.sequence (status_word r.status) ∷ []);
  told = s.told ++ (told_result r ∷ []);
}

unfoldable pub sink_trades : List Trade → Session → Session
sink_trades [] s = s
sink_trades (t ∷ ts) s = sink_trades ts (sink_trade t s)

-- What a submission leaves: the engine, and the sink told of its trades and its result.
unfoldable pub after_submit : Session → Outcome → Session
unfolding sink_trades sink_result
after_submit s x =
    sink_result x.result
      (sink_trades x.trades (record s { engine = x.engine; submissions = s.submissions + 1 }))

-- The order of a `NEW` request.
unfoldable pub requested_order : ParsedRequest → Order
requested_order req = record {
  id = invalid_order_id;
  trader_id = req.trader_id;
  instrument_id = req.instrument;
  side = req.side;
  type = req.type;
  tif = req.tif;
  price = req.price;
  quantity = req.qty;
  remaining = req.qty;
  sequence = 0;
  timestamp = 0;
  status = Order.new;
}

-- `b.valid ? b.price : Price{-1}` and the same for the quantity.
abbrev pub quoted_price : TopOfBook → ℤ
quoted_price t = if t.valid then t.price else negsuc 0

abbrev pub quoted_quantity : TopOfBook → ℤ
quoted_quantity t = if t.valid then t.quantity else pos 0

unfoldable pub quote_reply : ℕ → Option OrderBook → Bytes
quote_reply id none = format_error "instrument not registered"
quote_reply id (some b) =
    format_quote id (quoted_price (top true b)) (quoted_quantity (top true b))
      (quoted_price (top false b)) (quoted_quantity (top false b))

abbrev pub and_then {ℓ κ} : {A : Type ℓ} {B : Type κ} → Option A → (A → Option B) → Option B
and_then none f = none
and_then (some a) f = f a

-- `in.find('\n', pos)`: the line in front of the first newline, and what follows it.
unfoldable pub split_line : Bytes → Option (Bytes × Bytes)
split_line [] = none
split_line (c ∷ s) =
    let rest = split_line s in
    if c == newline then some ([], s) else and_then rest λ p. some (c ∷ p.0, p.1)

module _ (machine : Machine) (clock : ℕ → ℤ) where
  -- The request of a line; the clock is read at each submission. `none` is a match loop out of fuel.
  unfoldable pub serve_command : InboundCommand → ParsedRequest → Session → Option Session
  serve_command unknown req s = some (write_all (format_error "unknown command") s)
  serve_command ping req s = some (write_all (codes "PONG\n") s)
  serve_command quote req s =
      some (write_all (quote_reply req.instrument (book req.instrument s.engine)) s)
  serve_command new req s =
      and_then (submit machine (clock s.submissions) (some (requested_order req)) s.engine)
        λ x. some (after_submit s x)
  serve_command cancel req s =
      some (record s { engine = (Engine.cancel req.instrument req.order_id s.engine).0 })
  serve_command modify req s = some (record s {
    engine = (Engine.modify req.instrument req.order_id req.qty req.price s.engine).0;
  })

  unfoldable pub serve_line : Bytes → Session → Option Session
  unfolding serve_command
  serve_line line s =
      let (req, err) = parse_request line blank_request in
      if not err.ok
      then some (write_all (format_error err.message) s)
      else serve_command req.command req s

  -- The loop of `process_buffer`: each round takes a newline at least.
  unfoldable pub serve_buffer : ℕ → Bytes → Session → Option Session
  serve_buffer zero input s = some s
  serve_buffer (suc fuel) input s = elim (split_line input) [
    | none ↦ some s
    | some (line, rest) ↦ and_then (serve_line line s) (serve_buffer fuel rest)
  ]

  -- The inner loop of `client_loop`, with the line that has begun.
  unfoldable pub serve_chunk : ℕ → Bytes → Bytes → Session → Option (Session × Bytes)
  serve_chunk zero line chunk s = some (s, line ++ chunk)
  serve_chunk (suc fuel) line chunk s = elim (split_line chunk) [
    | none ↦ some (s, line ++ chunk)
    | some (l, rest) ↦ and_then (serve_line (line ++ l) s) (serve_chunk fuel [] rest)
  ]

  -- The outer loop of `client_loop`, over what `recv` gives before the client leaves.
  unfoldable pub serve_chunks : List Bytes → Bytes → Session → Option Session
  serve_chunks [] line s = some s
  serve_chunks (chunk ∷ chunks) line s =
      and_then (serve_chunk (length chunk) line chunk s) λ p. serve_chunks chunks p.1 p.0

-- The log goes out at the end.
unfoldable pub send_log : List Bytes → Bytes
send_log [] = []
send_log (l ∷ ls) = l ++ send_log ls

unfoldable pub close_session : Session → Session
unfolding send_log
close_session s = record s { sent = s.sent ++ send_log s.log }

unfoldable pub process_buffer : Machine → (ℕ → ℤ) → Bytes → MatchingEngine → Option Session
process_buffer machine clock input e =
    and_then (serve_buffer machine clock (length input) input (new_session e))
      λ s. some (close_session s)

unfoldable pub client_loop : Machine → (ℕ → ℤ) → List Bytes → MatchingEngine → Option Session
client_loop machine clock chunks e =
    and_then (serve_chunks machine clock chunks [] (new_session e)) λ s. some (close_session s)
