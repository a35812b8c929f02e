-- ===== src/WebSocket/Handshake.antt =====
-- The handshake of src/networking/ws_server.cpp: its base64, its request line and headers, and its answers.
-- The hash of the key is an argument.
use trader_two.Prelude.{
  ℕ, ◌+◌, ◌-◌, ◌*◌, ◌/◌, ◌%◌, ◌==◌, ltb, Bool, true, false, not, ◌||◌, if◌then◌else◌, [], ◌∷◌, ◌++◌,
  Option, none, some, String, length,
}
use trader_two.Text.{Bytes, codes, literal, bytes, printf}
use trader_two.Protocol.Tokens.{to_lower, ieq}
use trader_two.WebSocket.Json.{is_blank, skip_blanks, or_else}

-- A sign of base64.
unfoldable pub sextet : ℕ → ℕ
sextet k =
    if ltb k 26
    then 65 + k
    else if ltb k 52
    then 71 + k
    else if ltb k 62
    then k - 4
    else if k == 62
    then b'+'
    else b'/'

unfoldable pub base64_encode : Bytes → Bytes
unfolding sextet
base64_encode [] = []
base64_encode (a ∷ []) = sextet (a / 4) ∷ sextet (a % 4 * 16) ∷ b'=' ∷ b'=' ∷ []
base64_encode (a ∷ b ∷ []) =
    sextet (a / 4) ∷ sextet (a % 4 * 16 + b / 16) ∷ sextet (b % 16 * 4) ∷ b'=' ∷ []
base64_encode (a ∷ b ∷ c ∷ rest) =
    sextet (a / 4)
    ∷ sextet (a % 4 * 16 + b / 16)
    ∷ sextet (b % 16 * 4 + c / 64)
    ∷ sextet (c % 64)
    ∷ base64_encode rest

-- `hay.find(needle)` without case, and what follows there in the request.
unfoldable pub drop_prefix_ieq : Bytes → Bytes → Option Bytes
unfolding to_lower
drop_prefix_ieq [] s = some s
drop_prefix_ieq (n ∷ needle) [] = none
drop_prefix_ieq (n ∷ needle) (c ∷ s) =
    if to_lower c == to_lower n then drop_prefix_ieq needle s else none

unfoldable pub find_after_ieq : Bytes → Bytes → Option Bytes
unfolding drop_prefix_ieq
find_after_ieq needle [] = drop_prefix_ieq needle []
find_after_ieq needle (c ∷ s) = or_else (drop_prefix_ieq needle (c ∷ s)) (find_after_ieq needle s)

unfoldable pub up_to_newline : Bytes → Bytes
up_to_newline [] = []
up_to_newline (c ∷ s) = if c == 10 then [] else c ∷ up_to_newline s

-- A byte in front of what is left of the end after trimming.
abbrev pub trim_byte : ℕ → Bytes → Bytes
trim_byte c [] = if c == 13 || is_blank c then [] else c ∷ []
trim_byte c (d ∷ s) = c ∷ d ∷ s

unfoldable pub trim_end : Bytes → Bytes
trim_end [] = []
trim_end (c ∷ s) = trim_byte c (trim_end s)

unfoldable pub header_value : Option Bytes → Bytes
unfolding up_to_newline trim_end
header_value none = []
header_value (some []) = []
header_value (some (c ∷ s)) = if c == b':' then trim_end (up_to_newline (skip_blanks s)) else []

unfoldable pub find_header : Bytes → String → Bytes
unfolding find_after_ieq header_value
find_header req name = header_value (find_after_ieq (codes name) req)

-- The bytes in front of a byte, and those behind it.
unfoldable pub split_at : ℕ → Bytes → Option (Bytes × Bytes)
split_at k [] = none
split_at k (c ∷ s) =
    let rest = split_at k s in
    if c == k then some ([], s) else elim rest [ none ↦ none | some (a, b) ↦ some (c ∷ a, b) ]

abbrev pub method_of : Option (Bytes × Bytes) → Option Bytes
method_of none = none
method_of (some (method, rest)) = elim (split_at 32 rest) [ none ↦ none | some _ ↦ some method ]

-- `parse_request_line`: of its results only the method is used. A carriage return is part of the version.
unfoldable pub parse_request_line : Bytes → Option Bytes
unfolding split_at
parse_request_line req = elim (split_at 10 req) [
  | none ↦ none
  | some (line, _) ↦ method_of (split_at 32 line)
]

-- What the server answers to a request, and whether it goes on with frames.
unfoldable pub handshake : (Bytes → Bytes) → Bytes → Bytes × Bool
unfolding find_header ieq base64_encode
handshake sha1 req = elim (parse_request_line req) [
  | none ↦ ([], false)
  | some method ↦
      let key = find_header req "Sec-WebSocket-Key" in
      if not (ieq method (codes "GET"))
      then (codes "HTTP/1.1 405 Method Not Allowed\r\n\r\n", false)
      else if length key == 0
      then (codes "HTTP/1.1 400 Bad Request\r\n\r\n", false)
      else (
        printf (
            literal "HTTP/1.1 101 Switching Protocols\r\nUpgrade: websocket\r\n"
            ∷ literal "Connection: Upgrade\r\nSec-WebSocket-Accept: "
            ∷ bytes (base64_encode (sha1 (key ++ codes "258EAFA5-E914-47DA-95CA-C5AB0DC85B11")))
            ∷ literal "\r\n\r\n"
            ∷ []),
        true,
      )
]
