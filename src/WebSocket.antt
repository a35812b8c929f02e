-- ===== src/WebSocket.antt =====
-- src/networking/ws_server.cpp and include/tt/networking/ws_server.hpp: peers, broadcasts, the commands in
-- text frames, and the loop over the frames of a peer. `recv` gives the chunks, and `send` takes all that it
-- is given. Of the callbacks only those of commands are installed, as src/networking/ws_gateway.cpp does it.
pub mod Frames
pub mod Masks
pub mod FrameTrips
pub mod Json
pub mod Handshake
pub mod Loop
use trader_two.Prelude.{
  ℕ, zero, suc, ◌+◌, ◌-◌, ◌*◌, ◌/◌, ◌%◌, ◌^◌, ◌==◌, ltb, leb, ℤ, pos, Bool, true, false, not, ◌&&◌,
  ◌||◌, if◌then◌else◌, List, [], ◌∷◌, ◌++◌, map, Option, none, some, String, length, take, ◌≡◌,
  refl,
}
use trader_two.Order.{Trade}
use trader_two.MarketData.{TopOfBookSnapshot, Event, EventKind}
use trader_two.MarketData
use trader_two.Text.{Bytes, codes, Piece, literal, number, integer, printf}
use trader_two.Gateway.{and_then}
use Frames.{FrameRead, incomplete, frame_read, out_of_range, read_frame, ws_encode_server_frame}
use Json.{json_find_value, json_get_int, json_get_uint}

-- `WsPeer`: whether it is open, and what has been sent to it.
pub record WsPeer : Type 0 where
  pub is_open : Bool
  pub sent : Bytes

unfoldable pub send_text : Bytes → WsPeer → WsPeer
send_text payload p =
    if p.is_open then record p { sent = p.sent ++ ws_encode_server_frame true payload } else p

-- `frame[0] = 0x80 | opcode`
abbrev pub with_opcode : ℕ → Bytes → Bytes
with_opcode opcode [] = []
with_opcode opcode (c ∷ s) = (128 + opcode) ∷ s

-- `WsPeer::close`; nothing goes out on a socket that is closed.
unfoldable pub close_peer : ℕ → WsPeer → WsPeer
close_peer status p =
    if p.is_open
    then record p {
      is_open = false;
      sent =
          p.sent
          ++ with_opcode 8 (ws_encode_server_frame false (status / 256 % 256 ∷ status % 256 ∷ []));
    }
    else p

-- A command in a text frame, with the `req` that its reply repeats.
pub data Command : Type 0 where
  ping_command : Bytes → Command
  submit_command : Bytes → ℕ → ℕ → ℕ → ℤ → ℤ → Bytes → Command
  cancel_command : Bytes → ℕ → ℕ → Command
  modify_command : Bytes → ℕ → ℕ → ℤ → ℤ → Command

abbrev pub or_default {ℓ} : {A : Type ℓ} → A → Option A → A
or_default d none = d
or_default d (some a) = a

abbrev pub gtc_if_empty : Bytes → Bytes
gtc_if_empty [] = codes "GTC"
gtc_if_empty (c ∷ s) = c ∷ s

-- Whether two texts agree, byte by byte.
unfoldable pub same_text : Bytes → Bytes → Bool
same_text [] [] = true
same_text [] (b ∷ t) = false
same_text (a ∷ s) [] = false
same_text (a ∷ s) (b ∷ t) = (a == b) && same_text s t

-- `dispatch_command_frame`, where the callbacks are installed: a missing field keeps its zero.
unfoldable pub command_of : Bytes → Bytes → Bytes → Option Command
unfolding same_text
command_of payload type req =
    if same_text type (codes "ping")
    then some (ping_command req)
    else if same_text type (codes "submit")
    then some (
        submit_command req (or_default 0 (json_get_uint payload "i"))
          (or_default 0 (json_get_uint payload "trader"))
          (or_default 0 (json_get_uint payload "side") % 2 ^ 32)
          (or_default (pos 0) (json_get_int payload "px"))
          (or_default (pos 0) (json_get_int payload "qty"))
          (gtc_if_empty (or_default [] (json_find_value payload "tif"))))
    else if same_text type (codes "cancel")
    then some (
        cancel_command req (or_default 0 (json_get_uint payload "i"))
          (or_default 0 (json_get_uint payload "id")))
    else if same_text type (codes "modify")
    then some (
        modify_command req (or_default 0 (json_get_uint payload "i"))
          (or_default 0 (json_get_uint payload "id"))
          (or_default (pos 0) (json_get_int payload "qty"))
          (or_default (pos 0) (json_get_int payload "px")))
    else none

unfoldable pub dispatch_command_frame : Bytes → Option Command
dispatch_command_frame payload = elim (json_find_value payload "type") [
  | none ↦ none
  | some type ↦ command_of payload type (or_default [] (json_find_value payload "req"))
]

unfoldable pub broadcast_text : Bytes → List WsPeer → List WsPeer
broadcast_text payload peers = map (send_text payload) peers

-- What `snprintf` leaves in a buffer of `size + 1` bytes.
abbrev pub printed : ℕ → List Piece → Bytes
printed size ps = take size (printf ps)

unfoldable pub trade_json : Trade → Bytes
trade_json t = printed 255 (
    literal "{\"type\":\"trade\",\"i\":"
    ∷ number t.instrument_id
    ∷ literal ",\"buy\":"
    ∷ number t.buy_order_id
    ∷ literal ",\"sell\":"
    ∷ number t.sell_order_id
    ∷ literal ",\"px\":"
    ∷ integer t.price
    ∷ literal ",\"qty\":"
    ∷ integer t.quantity
    ∷ literal ",\"seq\":"
    ∷ number t.sequence
    ∷ literal "}"
    ∷ [])

abbrev pub is_trade : EventKind → Bool
is_trade MarketData.trade = true
is_trade _ = false

unfoldable pub on_publisher_event : Event → List WsPeer → List WsPeer
unfolding trade_json broadcast_text
on_publisher_event e peers =
    if is_trade e.kind then broadcast_text (trade_json e.trade) peers else peers

abbrev pub shown : Bool → ℤ → ℤ
shown present x = if present then x else pos 0

unfoldable pub tob_json : TopOfBookSnapshot → Bytes
tob_json t = printed 255 (
    literal "{\"type\":\"tob\",\"i\":"
    ∷ number t.instrument
    ∷ literal ",\"b\":"
    ∷ integer (shown t.has_bid t.bid_price)
    ∷ literal ",\"bq\":"
    ∷ integer (shown t.has_bid t.bid_qty)
    ∷ literal ",\"a\":"
    ∷ integer (shown t.has_ask t.ask_price)
    ∷ literal ",\"aq\":"
    ∷ integer (shown t.has_ask t.ask_qty)
    ∷ literal ",\"hb\":"
    ∷ number (if t.has_bid then 1 else 0)
    ∷ literal ",\"ha\":"
    ∷ number (if t.has_ask then 1 else 0)
    ∷ literal "}"
    ∷ [])

-- `on_publisher_tob`, with what the publisher says of the instrument.
unfoldable pub on_publisher_tob : TopOfBookSnapshot → List WsPeer → List WsPeer
unfolding tob_json broadcast_text
on_publisher_tob t peers = broadcast_text (tob_json t) peers

-- The answer to a ping, on the socket of an open peer.
unfoldable pub send_pong : Bytes → WsPeer → WsPeer
send_pong payload p = record p {
  sent = p.sent ++ with_opcode 10 (ws_encode_server_frame false payload);
}

module _ {ℓ} {A : Type ℓ} (on_command : Command → A × WsPeer → Option (A × WsPeer)) where
  -- A text frame without a command calls nothing.
  abbrev pub on_text_frame : Option Command → A × WsPeer → Option (A × WsPeer)
  on_text_frame none s = some s
  on_text_frame (some c) s = on_command c s

  -- What a frame does, other than one that closes.
  unfoldable pub serve_payload : ℕ → Bytes → A × WsPeer → Option (A × WsPeer)
  unfolding dispatch_command_frame send_pong
  serve_payload opcode payload (a, p) =
      if opcode == 9
      then some (a, send_pong payload p)
      else if opcode == 1
      then on_text_frame (dispatch_command_frame payload) (a, p)
      else some (a, p)

  -- The inner loop of `serve_peer`, with what is left of the buffer. A frame has two bytes at least. It is
  -- `none` where a payload would be read from outside of the buffer, or where a callback does not return.
  unfoldable pub serve_frames : ℕ → Bytes → A × WsPeer → Option (Bytes × (A × WsPeer))
  serve_frames zero buffer s = some (buffer, s)
  serve_frames (suc fuel) buffer s = elim (read_frame buffer) [
    | incomplete ↦ some (buffer, s)
    | out_of_range ↦ none
    | frame_read opcode payload rest ↦ elim (opcode == 8) [
      | true ↦ some (rest, (s.0, close_peer 1000 s.1))
      | false ↦ and_then (serve_payload opcode payload s) (serve_frames fuel rest)
    ]
  ]

  -- The outer loop, over what `recv` gives, with what is left in the buffer: it goes on while the peer is
  -- open. At its end the socket is closed.
  unfoldable pub serve_chunks_of_frames : List Bytes → Bytes → A × WsPeer → Option (A × WsPeer)
  serve_chunks_of_frames [] buffer (a, p) = some (a, record p { is_open = false })
  serve_chunks_of_frames (chunk ∷ chunks) buffer (a, p) =
      if p.is_open
      then (and_then (serve_frames (length (buffer ++ chunk)) (buffer ++ chunk) (a, p))
          (λ r. serve_chunks_of_frames chunks r.0 r.1))
      else some (a, p)
