-- ===== src/WsGateway.antt =====
-- src/networking/ws_gateway.cpp: what a command of a web socket client does to the engine, what the
-- publisher is told, and the reply. The gateway holds a lock over each of the engine's operations.
pub mod Replies
use trader_two.Prelude.{
  ℕ, zero, suc, ◌+◌, ◌==◌, ℤ, Bool, true, false, if◌then◌else◌, List, [], ◌∷◌, ◌++◌, Option, none,
  some, String,
}
use trader_two.Order.{Side, buy, sell, TimeInForce, gtc, ioc, fok}
use trader_two.OrderBook.{ModifyResult}
use trader_two.OrderBook
use trader_two.Registry.{MatchingEngine}
use trader_two.Engine.Matching.{Machine}
use trader_two.Engine.{
  SubmitResult, SubmitStatus, accepted, fully_filled, partially_filled, rejected, cancelled,
  Outcome, submit_limit,
}
use trader_two.Engine
use trader_two.Sink.{SinkCall, calls_of}
use trader_two.Text.{Bytes, codes, Piece, literal, number, integer, bytes}
use trader_two.Gateway.{and_then}
use trader_two.WebSocket.{
  WsPeer, Command, ping_command, submit_command, cancel_command, modify_command, send_text,
  same_text, printed, serve_chunks_of_frames,
}

-- The engine, the calls of the publisher so far, and how many orders the web clients have submitted.
pub record Desk : Type 0 where
  pub engine : MatchingEngine
  pub told : List SinkCall
  pub submissions : ℕ

-- `c_str()` under `%s`: up to the first zero byte.
unfoldable pub c_str : Bytes → Bytes
c_str [] = []
c_str (c ∷ s) = if c == 0 then [] else c ∷ c_str s

unfoldable pub status_name : SubmitStatus → String
status_name accepted = "ACCEPTED"
status_name fully_filled = "FILLED"
status_name partially_filled = "PARTIAL"
status_name cancelled = "CANCELLED"
status_name rejected = "REJECTED"

abbrev pub is_rejected : SubmitStatus → Bool
is_rejected rejected = true
is_rejected _ = false

-- `PerPeerSink::on_submit_result`: the text of the reply.
unfoldable pub submit_reply : Bytes → SubmitResult → Bytes
unfolding c_str status_name
submit_reply req r =
    if is_rejected r.status
    then printed 511 (
        literal "{\"type\":\"submit_result\",\"req\":\""
        ∷ bytes (c_str req)
        ∷ literal "\",\"status\":\"REJECTED\",\"reason\":\""
        ∷ literal r.reject_reason
        ∷ literal "\"}"
        ∷ [])
    else printed 511 (
        literal "{\"type\":\"submit_result\",\"req\":\""
        ∷ bytes (c_str req)
        ∷ literal "\",\"status\":\""
        ∷ literal (status_name r.status)
        ∷ literal "\",\"id\":"
        ∷ number r.order_id
        ∷ literal ",\"i\":"
        ∷ number r.instrument_id
        ∷ literal ",\"seq\":"
        ∷ number r.sequence
        ∷ literal ",\"filled\":"
        ∷ integer r.filled_quantity
        ∷ literal ",\"resting\":"
        ∷ integer r.resting_quantity
        ∷ literal "}"
        ∷ [])

-- `side` has 32 bits.
abbrev pub web_side : ℕ → Side
web_side side = if side == 0 then buy else sell

unfoldable pub tif_named : Bytes → TimeInForce
unfolding same_text
tif_named tif =
    if same_text tif (codes "IOC") then ioc else if same_text tif (codes "FOK") then fok else gtc

-- What a submission leaves: the publisher told of its trades and its result, and the peer of the result.
unfoldable pub after_web_submit : Bytes → Desk × WsPeer → Outcome → Desk × WsPeer
unfolding submit_reply
after_web_submit req (d, p) x = (
  record d { engine = x.engine; told = d.told ++ calls_of x; submissions = d.submissions + 1 },
  send_text (submit_reply req x.result) p,
)

-- The clock of the risk checks and that of the order are read at each submission. The engine throws
-- nothing; `none` is a match loop out of fuel.
unfoldable pub on_submit :
    Machine
    → (ℕ → ℤ)
    → (ℕ → ℕ)
    → Bytes
    → ℕ
    → ℕ
    → ℕ
    → ℤ
    → ℤ
    → Bytes
    → Desk × WsPeer
    → Option (Desk × WsPeer)
unfolding tif_named
on_submit machine clock stamp req instrument trader side px qty tif (d, p) =
    and_then
      (submit_limit machine (clock d.submissions) instrument trader (web_side side) px qty
        (tif_named tif) (stamp d.submissions) d.engine)
      λ x. some (after_web_submit req (d, p) x)

unfoldable pub cancel_reply : Bytes → ℕ → ℕ → Bool → Bytes
unfolding c_str
cancel_reply req instrument id ok = printed 255 (
    literal "{\"type\":\"cancel_result\",\"req\":\""
    ∷ bytes (c_str req)
    ∷ literal "\",\"ok\":"
    ∷ literal (if ok then "true" else "false")
    ∷ literal ",\"i\":"
    ∷ number instrument
    ∷ literal ",\"id\":"
    ∷ number id
    ∷ literal "}"
    ∷ [])

unfoldable pub on_cancel : Bytes → ℕ → ℕ → Desk × WsPeer → Desk × WsPeer
unfolding cancel_reply
on_cancel req instrument id (d, p) =
    let (e, ok) = Engine.cancel instrument id d.engine in
    (record d { engine = e }, send_text (cancel_reply req instrument id ok) p)

abbrev pub modify_name : ModifyResult → String
modify_name OrderBook.modified = "MODIFIED"
modify_name OrderBook.replaced = "REPLACED"
modify_name OrderBook.not_found = "NOT_FOUND"
modify_name OrderBook.rejected = "REJECTED"

unfoldable pub modify_reply : Bytes → ℕ → ℕ → ModifyResult → Bytes
unfolding c_str
modify_reply req instrument id r = printed 255 (
    literal "{\"type\":\"modify_result\",\"req\":\""
    ∷ bytes (c_str req)
    ∷ literal "\",\"status\":\""
    ∷ literal (modify_name r)
    ∷ literal "\",\"i\":"
    ∷ number instrument
    ∷ literal ",\"id\":"
    ∷ number id
    ∷ literal "}"
    ∷ [])

unfoldable pub on_modify : Bytes → ℕ → ℕ → ℤ → ℤ → Desk × WsPeer → Desk × WsPeer
unfolding modify_reply
on_modify req instrument id qty px (d, p) =
    let (e, r) = Engine.modify instrument id qty px d.engine in
    (record d { engine = e }, send_text (modify_reply req instrument id r) p)

unfoldable pub ping_reply : Bytes → Bytes
unfolding c_str
ping_reply req =
    printed 63 (literal "{\"type\":\"pong\",\"req\":\"" ∷ bytes (c_str req) ∷ literal "\"}" ∷ [])

unfoldable pub on_ping : Bytes → Desk × WsPeer → Desk × WsPeer
unfolding ping_reply
on_ping req (d, p) = (d, send_text (ping_reply req) p)

-- The callbacks that `install` gives to the server.
unfoldable pub run_command :
    Machine → (ℕ → ℤ) → (ℕ → ℕ) → Command → Desk × WsPeer → Option (Desk × WsPeer)
unfolding on_submit on_cancel on_modify on_ping
run_command machine clock stamp (ping_command req) s = some (on_ping req s)
run_command machine clock stamp (submit_command req instrument trader side px qty tif) s =
    on_submit machine clock stamp req instrument trader side px qty tif s
run_command machine clock stamp (cancel_command req instrument id) s =
    some (on_cancel req instrument id s)
run_command machine clock stamp (modify_command req instrument id qty px) s =
    some (on_modify req instrument id qty px s)

-- `serve_peer` behind the handshake, with the gateway's callbacks, for what `recv` gives.
unfoldable pub serve_client :
    Machine → (ℕ → ℤ) → (ℕ → ℕ) → List Bytes → Desk × WsPeer → Option (Desk × WsPeer)
serve_client machine clock stamp chunks s =
    serve_chunks_of_frames (run_command machine clock stamp) chunks [] s
