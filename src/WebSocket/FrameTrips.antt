-- ===== src/WebSocket/FrameTrips.antt =====
-- Frames as a client writes them and as the server does, for src/networking/ws_server.cpp.
use mathlib.Core.List.{append_assoc}
use trader_two.Prelude.{
  ℕ, ◌+◌, ◌*◌, ◌/◌, ◌%◌, ◌^◌, ◌≤◌, ◌<◌, ◌==◌, ltb, leb, ◌≡◌, refl, sym, ap, ap₂, ◌∙◌, Bool, true,
  false, if◌then◌else◌, List, [], ◌∷◌, ◌++◌, take, length, length-append, All, arith, Bool-cases,
  inl, inr,
}
use trader_two.Text.{Bytes}
use trader_two.WebSocket.Masks.{
  IsByte, unmask_twice, length-unmask, mask_byte, masked_from, masked_from-unmask,
  mask_byte-periodic,
}
use trader_two.WebSocket.Frames.{
  length_bytes, ws_encode_server_frame, drop, unmask, frame_read, take_masked, take_plain,
  read_body, number_of, read_two, read_eight, read_length, read_frame,
}

take-append {ℓ} : {A : Type ℓ} (xs ys : List A) → take (length xs) (xs ++ ys) ≡ xs
take-append [] ys = refl
take-append (x ∷ xs) ys = ap (◌∷◌ x) (take-append xs ys)

drop-append {ℓ} : {A : Type ℓ} (xs ys : List A) → drop (length xs) (xs ++ ys) ≡ ys
drop-append [] ys = refl
drop-append (x ∷ xs) ys = drop-append xs ys

-- The first byte of a length carries the bit that says whether there is a mask.
abbrev pub with_flag : Bool → Bytes → Bytes
with_flag m [] = []
with_flag m (x ∷ xs) = (if m then 128 + x else x) ∷ xs

abbrev header_size : ℕ → ℕ
header_size len = if leb len 125 then 2 else if leb len 65535 then 4 else 10

number_of-eight_bytes :
    (n : ℕ)
    → n < 2 ^ 64
    → number_of
        (n / 2 ^ 56 % 256)
        (n / 2 ^ 48 % 256)
        (n / 2 ^ 40 % 256)
        (n / 2 ^ 32 % 256)
        (n / 2 ^ 24 % 256)
        (n / 2 ^ 16 % 256)
        (n / 2 ^ 8 % 256)
        (n % 256)
      ≡ n
number_of-eight_bytes n lt = omega arith

flag_read : (m : Bool) (x : ℕ) → x < 128 → leb 128 (if m then 128 + x else x) ≡ m
flag_read true x lt = ground arith
flag_read false x lt = ground arith

length_read : (m : Bool) (x : ℕ) → x < 128 → (if m then 128 + x else x) % 128 ≡ x
length_read true x lt = omega arith
length_read false x lt = omega arith

-- A header is read as what was written.
read_header :
    (b0 : ℕ) (m : Bool) (len : ℕ) (body : Bytes)
    → len < 2 ^ 64
    → read_frame (b0 ∷ (with_flag m (length_bytes len) ++ body))
      ≡ read_body (b0 % 16) m (header_size len) len body
unfolding read_frame length_bytes read_length read_two read_eight
read_header b0 m len body lt = elim (Bool-cases (leb len 125)) [
  | inl small ↦
      let le : len ≤ 125 = ground arith in
      let e2 : (len == 126) ≡ false = ground arith in
      let e8 : (len == 127) ≡ false = ground arith in
      rw (small, flag_read m len (omega arith), length_read m len (omega arith), e2, e8) refl
  | inr large ↦ elim (Bool-cases (leb len 65535)) [
    | inl middle ↦
        let le : len ≤ 65535 = ground arith in
        let e : len / 256 % 256 * 256 + len % 256 ≡ len = omega arith in
        rw (large, middle, flag_read m 126 (omega arith), length_read m 126 (omega arith), e) refl
    | inr huge ↦
        rw
          (
            large,
            huge,
            flag_read m 127 (omega arith),
            length_read m 127 (omega arith),
            number_of-eight_bytes len lt,
          )
          refl
  ]
]

header_size-le : (len : ℕ) → header_size len ≤ 10
header_size-le len = ground arith

module _ (opcode need : ℕ) (rest : Bytes) (small : need ≤ 10) where
  -- A plain payload is all there.
  read_whole :
      (p : Bytes)
      → length p < 2 ^ 63
      → read_body opcode false need (length p) (p ++ rest) ≡ frame_read opcode p rest
  unfolding read_body take_plain
  read_whole p lt = rw (there, long, take-append p rest, drop-append p rest) refl
    where
      there : ltb (need + length (p ++ rest)) ((need + 0 + length p) % 2 ^ 64) ≡ false
      there = ground (arith, length-append p rest)

      long : leb (length p) (length (p ++ rest)) ≡ true
      long = ground (arith, length-append p rest)

  -- So is a masked one.
  read_masked :
      (a b c d : ℕ) (p : Bytes)
      → length p < 2 ^ 63
      → IsByte a
      → IsByte b
      → IsByte c
      → IsByte d
      → All IsByte p
      → read_body opcode true need (length p) (a ∷ b ∷ c ∷ d ∷ (unmask a b c d p ++ rest))
        ≡ frame_read opcode p rest
  unfolding read_body take_masked
  read_masked a b c d p lt ha hb hc hd bytes =
      rw (there, long, taken, dropped, unmask_twice a b c d p ha hb hc hd bytes) refl
    where
      sizes : length (unmask a b c d p ++ rest) ≡ length p + length rest
      sizes = omega (arith, length-append (unmask a b c d p) rest, length-unmask a b c d p)

      there :
          ltb
            (need + length (a ∷ b ∷ c ∷ d ∷ (unmask a b c d p ++ rest)))
            ((need + 4 + length p) % 2 ^ 64)
          ≡ false
      there = ground (arith, sizes)

      long : leb (length p) (length (unmask a b c d p ++ rest)) ≡ true
      long = ground (arith, sizes)

      taken : take (length p) (unmask a b c d p ++ rest) ≡ unmask a b c d p
      taken =
          ap (λ (n : ℕ). take n (unmask a b c d p ++ rest)) (sym (length-unmask a b c d p))
          ∙ take-append (unmask a b c d p) rest

      dropped : drop (length p) (unmask a b c d p ++ rest) ≡ rest
      dropped =
          ap (λ (n : ℕ). drop n (unmask a b c d p ++ rest)) (sym (length-unmask a b c d p))
          ∙ drop-append (unmask a b c d p) rest

no_flag : (s : Bytes) → with_flag false s ≡ s
no_flag [] = refl
no_flag (x ∷ s) = refl

-- A frame without a mask.
read_frame_plain :
    (b0 : ℕ) (payload rest : Bytes)
    → length payload < 2 ^ 63
    → read_frame ((b0 ∷ (length_bytes (length payload) ++ payload)) ++ rest)
      ≡ frame_read (b0 % 16) payload rest
read_frame_plain b0 payload rest lt =
    ap (λ (s : Bytes). read_frame (b0 ∷ s))
      (append_assoc (length_bytes (length payload)) payload rest
        ∙ ap (λ (s : Bytes). s ++ (payload ++ rest))
            (sym (no_flag (length_bytes (length payload)))))
    ∙ read_header b0 false (length payload) (payload ++ rest) (omega arith)
    ∙ read_whole (b0 % 16) (header_size (length payload)) rest (header_size-le (length payload))
        payload lt

-- A frame that the server has encoded, whatever follows it, is read as the opcode of its kind and
-- its payload, with what follows left, where the payload is shorter than 2 ^ 63.
pub read_frame-encode :
    (is_text : Bool) (payload rest : Bytes)
    → length payload < 2 ^ 63
    → read_frame (ws_encode_server_frame is_text payload ++ rest)
      ≡ frame_read (if is_text then 1 else 2) payload rest
unfolding ws_encode_server_frame
read_frame-encode true payload rest lt = read_frame_plain 129 payload rest lt
read_frame-encode false payload rest lt = read_frame_plain 130 payload rest lt

-- A client's frame, as the protocol has it: an opcode in one whole frame, and a mask.
abbrev pub client_frame : ℕ → ℕ → ℕ → ℕ → ℕ → Bytes → Bytes
client_frame opcode a b c d payload =
    (128 + opcode)
    ∷ (with_flag true (length_bytes (length payload))
        ++ (a ∷ b ∷ c ∷ d ∷ masked_from (mask_byte a b c d) 0 payload))

pub read_frame-client :
    (opcode a b c d : ℕ) (payload rest : Bytes)
    → opcode < 16
    → All IsByte (a ∷ b ∷ c ∷ d ∷ payload)
    → length payload < 2 ^ 63
    → read_frame (client_frame opcode a b c d payload ++ rest) ≡ frame_read opcode payload rest
read_frame-client opcode a b c d payload rest op (ha, (hb, (hc, (hd, bytes)))) lt =
    ap (λ (s : Bytes). read_frame ((128 + opcode) ∷ s))
      (append_assoc (with_flag true (length_bytes (length payload))) _ rest)
    ∙ read_header (128 + opcode) true (length payload)
        (a ∷ b ∷ c ∷ d ∷ (masked_from (mask_byte a b c d) 0 payload ++ rest)) (omega arith)
    ∙ ap₂
        (λ (k : ℕ) (m : Bytes).
          read_body k true (header_size (length payload)) (length payload)
            (a ∷ b ∷ c ∷ d ∷ (m ++ rest)))
        kept (masked_from-unmask (mask_byte a b c d) (mask_byte-periodic a b c d) 0 payload)
    ∙ read_masked opcode (header_size (length payload)) rest (header_size-le (length payload)) a b c
        d payload lt ha hb hc hd bytes
  where
    kept : (128 + opcode) % 16 ≡ opcode
    kept = omega arith
