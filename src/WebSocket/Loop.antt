-- ===== src/WebSocket/Loop.antt =====
-- The loop of `serve_peer` of src/networking/ws_server.cpp over the frames that a client has written.
use mathlib.Core.List.{append_assoc}
use trader_two.Prelude.{
  ℕ, zero, suc, ◌≤◌, ◌<◌, ◌^◌, ◌==◌, false, ◌≡◌, refl, ap, ◌∙◌, List, [], ◌∷◌, ◌++◌, length,
  length-append, All, Option, none, some, arith,
}
use trader_two.Text.{Bytes}
use trader_two.Gateway.{and_then}
use trader_two.WebSocket.Frames.{read_frame, incomplete, frame_read}
use trader_two.WebSocket.Masks.{IsByte}
use trader_two.WebSocket.FrameTrips.{client_frame, read_frame-client}
use trader_two.WebSocket.{WsPeer, Command, serve_payload, serve_frames}

-- A frame of a client: its opcode, the four bytes of its mask, and its payload.
pub record ClientFrame : Type 0 where
  pub opcode : ℕ
  pub mask_0 : ℕ
  pub mask_1 : ℕ
  pub mask_2 : ℕ
  pub mask_3 : ℕ
  pub payload : Bytes

abbrev pub written : ClientFrame → Bytes
written f = client_frame f.opcode f.mask_0 f.mask_1 f.mask_2 f.mask_3 f.payload

-- A frame that does not close, made of bytes, its payload shorter than 2 ^ 63.
abbrev pub IsFrame : ClientFrame → Type 0
IsFrame f =
    (f.opcode < 16)
    × ((f.opcode == 8) ≡ false)
    × All IsByte (f.mask_0 ∷ f.mask_1 ∷ f.mask_2 ∷ f.mask_3 ∷ f.payload)
    × (length f.payload < 2 ^ 63)

abbrev pub written_all : List ClientFrame → Bytes
written_all [] = []
written_all (f ∷ fs) = written f ++ written_all fs

rejoin {ℓ κ μ} :
    {A : Type ℓ} {B : Type κ} {C : Type μ} (r : Option A) {f : A → Option C} (g : A → Option B)
    (k : B → Option C)
    → ((a : A) → f a ≡ and_then (g a) k)
    → and_then r f ≡ and_then (and_then r g) k
rejoin none g k h = refl
rejoin (some a) g k h = h a

module _ {ℓ} {A : Type ℓ} (on_command : Command → A × WsPeer → Option (A × WsPeer)) where
  -- One frame after the other.
  abbrev pub serve_each : List ClientFrame → A × WsPeer → Option (A × WsPeer)
  serve_each [] s = some s
  serve_each (f ∷ fs) s = and_then (serve_payload on_command f.opcode f.payload s) (serve_each fs)

  -- The loop at a frame that is there.
  serve_frames-step :
      (fuel : ℕ) (buffer : Bytes) (opcode : ℕ) (payload rest : Bytes) (s : A × WsPeer)
      → read_frame buffer ≡ frame_read opcode payload rest
      → (opcode == 8) ≡ false
      → serve_frames on_command (suc fuel) buffer s
        ≡ and_then (serve_payload on_command opcode payload s) (serve_frames on_command fuel rest)
  unfolding serve_frames
  serve_frames-step fuel buffer opcode payload rest s there goes_on =
      rw (there, goes_on, serve_frames) refl

  serve_frames-tail :
      (fuel : ℕ) (tail : Bytes) (s : A × WsPeer)
      → read_frame tail ≡ incomplete
      → serve_frames on_command fuel tail s ≡ some (tail, s)
  unfolding serve_frames
  serve_frames-tail zero tail s h = refl
  serve_frames-tail (suc fuel) tail s h = rw (h, serve_frames) refl

  serve_frames-fuel :
      (fuel : ℕ) (frames : List ClientFrame) (tail : Bytes) (s : A × WsPeer)
      → length frames ≤ fuel
      → All IsFrame frames
      → read_frame tail ≡ incomplete
      → serve_frames on_command fuel (written_all frames ++ tail) s
        ≡ and_then (serve_each frames s) (λ r. some (tail, r))
  serve_frames-fuel fuel [] tail s le whole h = serve_frames-tail fuel tail s h
  serve_frames-fuel zero (f ∷ fs) tail s le whole h = absurd (omega arith)
  serve_frames-fuel (suc fuel) (f ∷ fs) tail s le ((op, goes_on, bytes, lt), whole) h =
      ap (λ (b : Bytes). serve_frames on_command (suc fuel) b s)
        (append_assoc (written f) (written_all fs) tail)
      ∙ serve_frames-step fuel (written f ++ (written_all fs ++ tail)) f.opcode f.payload
          (written_all fs ++ tail) s
          (read_frame-client f.opcode f.mask_0 f.mask_1 f.mask_2 f.mask_3 f.payload
            (written_all fs ++ tail) op bytes lt)
          goes_on
      ∙ rejoin (serve_payload on_command f.opcode f.payload s) _ _
          (λ q. serve_frames-fuel fuel fs tail q (omega arith) whole h)

  -- Every frame has a byte at least.
  length-written_all :
      (frames : List ClientFrame) (tail : Bytes)
      → length frames ≤ length (written_all frames ++ tail)
  length-written_all [] tail = omega arith
  length-written_all (f ∷ fs) tail = omega (
    arith,
    length-written_all fs tail,
    length-append (written f ++ written_all fs) tail,
    length-append (written f) (written_all fs),
    length-append (written_all fs) tail,
  )

  -- Of any frames that a client has written one behind the other, each with a mask and none of them
  -- closing, followed by a frame that is not all there, the loop handles each with its opcode and
  -- its payload, in order, and leaves the rest in the buffer. Opcodes are below 16, the masks and
  -- payloads are bytes, and a payload is shorter than 2 ^ 63.
  pub serve_frames-each :
      (frames : List ClientFrame) (tail : Bytes) (s : A × WsPeer)
      → All IsFrame frames
      → read_frame tail ≡ incomplete
      → serve_frames on_command (length (written_all frames ++ tail)) (written_all frames ++ tail) s
        ≡ and_then (serve_each frames s) (λ r. some (tail, r))
  serve_frames-each frames tail s whole h =
      serve_frames-fuel (length (written_all frames ++ tail)) frames tail s
        (length-written_all frames tail) whole h
