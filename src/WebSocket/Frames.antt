-- ===== src/WebSocket/Frames.antt =====
-- The frames of src/networking/ws_server.cpp: `ws_encode_server_frame`, and the part of `serve_peer` that
-- takes a frame off what a client has sent. Texts are lists of bytes.
use Prim.Native.Nat.{bit_xor}
use trader_two.Prelude.{
  ℕ, zero, suc, ◌+◌, ◌*◌, ◌/◌, ◌%◌, ◌^◌, ◌==◌, ltb, leb, Bool, if◌then◌else◌, List, [], ◌∷◌, ◌++◌,
  take, length,
}
use trader_two.Text.{Bytes}

-- The bytes of a 64-bit number, highest first.
abbrev pub eight_bytes : ℕ → Bytes
eight_bytes n =
    n / 2 ^ 56 % 256
    ∷ n / 2 ^ 48 % 256
    ∷ n / 2 ^ 40 % 256
    ∷ n / 2 ^ 32 % 256
    ∷ n / 2 ^ 24 % 256
    ∷ n / 2 ^ 16 % 256
    ∷ n / 2 ^ 8 % 256
    ∷ n % 256
    ∷ []

-- The length of a payload, in one, three or nine bytes.
unfoldable pub length_bytes : ℕ → Bytes
length_bytes len =
    if leb len 125
    then len ∷ []
    else if leb len 65535
    then 126 ∷ len / 256 % 256 ∷ len % 256 ∷ []
    else 127 ∷ eight_bytes len

-- `ws_encode_server_frame`, which appends this to `out`.
unfoldable pub ws_encode_server_frame : Bool → Bytes → Bytes
ws_encode_server_frame is_text payload =
    (if is_text then 129 else 130) ∷ (length_bytes (length payload) ++ payload)

-- What is behind the first `n` bytes.
abbrev pub drop {ℓ} : {A : Type ℓ} → ℕ → List A → List A
drop zero xs = xs
drop (suc n) [] = []
drop (suc n) (x ∷ xs) = drop n xs

-- `payload[i] ^ mask[i % 4]`, from the byte of the mask that is next on.
unfoldable pub unmask : ℕ → ℕ → ℕ → ℕ → Bytes → Bytes
unmask a b c d [] = []
unmask a b c d (x ∷ xs) = bit_xor x a ∷ unmask b c d a xs

-- What a round of the frame loop finds: a frame that is not all there; a frame, with its opcode and
-- payload, and what is left of the buffer; or a length at which the sum of the sizes wraps around, so that
-- the payload is read from outside of the buffer.
pub data FrameRead : Type 0 where
  incomplete : FrameRead
  frame_read : ℕ → Bytes → Bytes → FrameRead
  out_of_range : FrameRead

-- The size of a header of `need` bytes, a mask and a payload, in `uint64_t`.
abbrev pub frame_size : ℕ → ℕ → ℕ → ℕ
frame_size need mask_len len = (need + mask_len + len) % 2 ^ 64

-- The payload behind the header and the mask.
unfoldable pub take_masked : ℕ → ℕ → Bytes → FrameRead
unfolding unmask
take_masked opcode len (a ∷ b ∷ c ∷ d ∷ masked) =
    if leb len (length masked)
    then frame_read opcode (unmask a b c d (take len masked)) (drop len masked)
    else out_of_range
take_masked opcode len _ = out_of_range

unfoldable pub take_plain : ℕ → ℕ → Bytes → FrameRead
take_plain opcode len body =
    if leb len (length body)
    then frame_read opcode (take len body) (drop len body)
    else out_of_range

-- From the length on, where `body` is what follows a header of `need` bytes.
unfoldable pub read_body : ℕ → Bool → ℕ → ℕ → Bytes → FrameRead
unfolding take_masked take_plain
read_body opcode masked need len body =
    if ltb (need + length body) (frame_size need (if masked then 4 else 0) len)
    then incomplete
    else if masked
    then take_masked opcode len body
    else take_plain opcode len body

-- `len = (len << 8) | byte`, eight times.
abbrev pub number_of : ℕ → ℕ → ℕ → ℕ → ℕ → ℕ → ℕ → ℕ → ℕ
number_of a b c d e f g h =
    a * 2 ^ 56 + b * 2 ^ 48 + c * 2 ^ 40 + d * 2 ^ 32 + e * 2 ^ 24 + f * 2 ^ 16 + g * 2 ^ 8 + h

unfoldable pub read_two : ℕ → Bool → Bytes → FrameRead
unfolding read_body
read_two opcode masked (x ∷ y ∷ body) = read_body opcode masked 4 (x * 256 + y) body
read_two opcode masked _ = incomplete

unfoldable pub read_eight : ℕ → Bool → Bytes → FrameRead
unfolding read_body
read_eight opcode masked (a ∷ b ∷ c ∷ d ∷ e ∷ f ∷ g ∷ h ∷ body) =
    read_body opcode masked 10 (number_of a b c d e f g h) body
read_eight opcode masked _ = incomplete

-- Lengths from 126 on stand in the next two bytes, or in the next eight.
unfoldable pub read_length : ℕ → Bool → ℕ → Bytes → FrameRead
unfolding read_body read_two read_eight
read_length opcode masked len7 rest =
    if len7 == 126
    then read_two opcode masked rest
    else if len7 == 127
    then read_eight opcode masked rest
    else read_body opcode masked 2 len7 rest

-- A round of the frame loop, on the bytes that the client has sent.
unfoldable pub read_frame : Bytes → FrameRead
unfolding read_length
read_frame (b0 ∷ b1 ∷ rest) = read_length (b0 % 16) (leb 128 b1) (b1 % 128) rest
read_frame _ = incomplete
