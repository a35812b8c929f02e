-- ===== src/Tests/Sockets.antt =====
-- A web socket client with a ping and a command, and what it is answered.
use trader_two.Prelude.{pos, true, ◌≡◌, refl, List, [], ◌∷◌, ◌++◌, some, length, arith}
use trader_two.Text.{Bytes, codes}
use trader_two.Gateway.{and_then}
use trader_two.WebSocket.Frames.{ws_encode_server_frame, read_frame, incomplete, frame_read}
use trader_two.WebSocket.FrameTrips.{read_frame-encode}
use trader_two.WebSocket.Json.{json_find_value, json_get_int, json_get_uint, strtoll, skip_blanks}
use trader_two.WebSocket.Handshake.{base64_encode, find_header}
use trader_two.WebSocket.{WsPeer, cancel_command, dispatch_command_frame, command_of, serve_frames}
use trader_two.WebSocket.Loop.{ClientFrame, written_all, serve_each, serve_frames-each}
use trader_two.WsGateway.{Desk, run_command}
use trader_two.Tests.Matches.{machine}
use trader_two.Tests.Engines.{listed}

read_frame-encode_example :
    read_frame (ws_encode_server_frame true (codes "hi") ++ (129 ∷ []))
    ≡ frame_read 1 (codes "hi") (129 ∷ [])
read_frame-encode_example = read_frame-encode true (codes "hi") (129 ∷ []) (omega arith)

abbrev client : WsPeer
client = record { is_open = true; sent = [] }

abbrev desk : Desk
desk = record { engine = listed; told = []; submissions = 0 }

abbrev command_text : Bytes
command_text = codes "{\"type\":\"cancel\",\"req\":7,\"i\":1,\"id\": 3}"

command_test : dispatch_command_frame command_text ≡ some (cancel_command (codes "7") 1 3)
unfolding dispatch_command_frame json_find_value command_of json_get_uint json_get_int strtoll
command_test = refl

base64_test : base64_encode (codes "Hello") ≡ codes "SGVsbG8="
unfolding base64_encode
base64_test = refl

header_test : find_header (codes "GET / HTTP/1.1\r\nhost: a \r\n\r\n") "Host" ≡ codes "a"
unfolding find_header skip_blanks
header_test = refl

-- A ping and a command.
abbrev frames : List ClientFrame
frames =
    record { opcode = 9; mask_0 = 1; mask_1 = 2; mask_2 = 3; mask_3 = 4; payload = codes "x" }
    ∷ record { opcode = 1; mask_0 = 9; mask_1 = 8; mask_2 = 7; mask_3 = 6; payload = codes "{}" }
    ∷ []

tail_incomplete : read_frame (129 ∷ []) ≡ incomplete
unfolding read_frame
tail_incomplete = refl

serve_frames-each_example :
    serve_frames
      (run_command machine (λ n. pos n) (λ n. n))
      (length (written_all frames ++ (129 ∷ [])))
      (written_all frames ++ (129 ∷ []))
      (desk, client)
    ≡ and_then
        (serve_each (run_command machine (λ n. pos n) (λ n. n)) frames (desk, client))
        (λ r. some (129 ∷ [], r))
serve_frames-each_example =
    serve_frames-each (run_command machine (λ n. pos n) (λ n. n)) frames (129 ∷ []) (desk, client)
      (
        (
          omega arith,
          refl,
          (omega arith, (omega arith, (omega arith, (omega arith, (omega arith, tt))))),
          omega arith,
        ),
        (
          (
            omega arith,
            refl,
            (
              omega arith,
              (omega arith, (omega arith, (omega arith, (omega arith, (omega arith, tt))))),
            ),
            omega arith,
          ),
          tt,
        ),
      )
      tail_incomplete
