-- ===== src/WsGateway/Replies.antt =====
-- What every command of src/networking/ws_gateway.cpp leaves: an engine that operations reach, and a reply.
use trader_two.Prelude.{◌≤◌, true, ◌≡◌, ◌++◌, length}
use trader_two.Order.{Order}
use trader_two.Engine.Operations.{MovesFreely}
use trader_two.Text.{Bytes}
use trader_two.WebSocket.Frames.{ws_encode_server_frame}
use trader_two.WebSocket.{WsPeer, Command, modify_command}
use trader_two.WsGateway.{Desk}

-- One text frame went out, of at most 511 bytes.
abbrev pub Replied : WsPeer → WsPeer → Type 0
Replied p q =
    (reply : Bytes) × (length reply ≤ 511)
    × (q ≡ record p { sent = p.sent ++ ws_encode_server_frame true reply })

-- A modification moves its order to a price where the other side has no level.
abbrev pub IsFreeCommand : Command → Desk → Type 0
IsFreeCommand (modify_command req instrument id qty px) d = MovesFreely instrument id px d.engine
IsFreeCommand _ d = Unit
