-- ===== src/WebSocket/Masks.antt =====
-- The mask over a payload in src/networking/ws_server.cpp, and as the protocol has it.
use Prim.Native.Nat.{bit_xor}
use trader_two.Prelude.{
  ℕ, zero, suc, ◌+◌, ◌%◌, ◌<◌, ◌==◌, ==_iff, ◌≡◌, refl, sym, ap, ap₂, ◌∙◌, Bool, true,
  if◌then◌else◌, [], ◌∷◌, length, All, arith, Bool-cases, inl, inr,
}
use trader_two.Text.{Bytes}
use trader_two.WebSocket.Frames.{unmask}

-- How many of the numbers below a bound fail a test.
failures : (ℕ → Bool) → ℕ → ℕ
failures passes zero = 0
failures passes (suc bound) = failures passes bound + (if passes bound then 0 else 1)

passes_where_none_fails :
    (passes : ℕ → Bool) {bound : ℕ} (k : ℕ)
    → k < bound
    → failures passes bound ≡ 0
    → passes k ≡ true
unfolding failures
passes_where_none_fails passes {bound = zero} k inside none_fails = absurd (omega arith)
passes_where_none_fails passes {bound = suc bound} k inside none_fails =
    elim (Bool-cases (k == bound)) [
      | inl last ↦ ap passes ((==_iff k bound).0 last) ∙ ground arith
      | inr earlier ↦ passes_where_none_fails passes {bound = bound} k (ground arith) (omega arith)
    ]

abbrev mends : ℕ → ℕ → Bool
mends m x = x == bit_xor (bit_xor x m) m

abbrev pub IsByte : ℕ → Type 0
IsByte c = c < 256

-- No mask fails on a byte.
masks_mend : failures (λ m. failures (mends m) 256 == 0) 256 ≡ 0
unfolding failures
masks_mend = refl

masked_byte : (m x : ℕ) → IsByte m → IsByte x → bit_xor (bit_xor x m) m ≡ x
masked_byte m x hm hx =
    let row : failures (mends m) 256 ≡ 0 =
      (==_iff _ 0).0 (passes_where_none_fails _ {bound = 256} m hm masks_mend) in
    let same : x ≡ bit_xor (bit_xor x m) m =
      (==_iff x _).0 (passes_where_none_fails (mends m) {bound = 256} x hx row) in
    sym same

pub unmask_twice :
    (a b c d : ℕ) (xs : Bytes)
    → IsByte a
    → IsByte b
    → IsByte c
    → IsByte d
    → All IsByte xs
    → unmask a b c d (unmask a b c d xs) ≡ xs
unfolding unmask
unmask_twice a b c d [] ha hb hc hd h = refl
unmask_twice a b c d (x ∷ xs) ha hb hc hd h =
    ap₂ ◌∷◌ (masked_byte a x ha h.0) (unmask_twice b c d a xs hb hc hd ha h.1)

pub length-unmask : (a b c d : ℕ) (xs : Bytes) → length (unmask a b c d xs) ≡ length xs
unfolding unmask
length-unmask a b c d [] = refl
length-unmask a b c d (x ∷ xs) = omega (arith, length-unmask b c d a xs)

-- The byte of a mask for the byte of a payload at an index.
abbrev pub mask_byte : ℕ → ℕ → ℕ → ℕ → ℕ → ℕ
mask_byte a b c d i =
    if i % 4 == 0 then a else if i % 4 == 1 then b else if i % 4 == 2 then c else d

-- A payload under a mask, from an index on, as the protocol has it.
abbrev pub masked_from : (ℕ → ℕ) → ℕ → Bytes → Bytes
masked_from mask i [] = []
masked_from mask i (x ∷ xs) = bit_xor x (mask i) ∷ masked_from mask (suc i) xs

pub masked_from-unmask :
    (mask : ℕ → ℕ)
    → ((i : ℕ) → mask (suc (suc (suc (suc i)))) ≡ mask i)
    → (i : ℕ) (xs : Bytes)
    → masked_from mask i xs
      ≡ unmask (mask i) (mask (suc i)) (mask (suc (suc i))) (mask (suc (suc (suc i)))) xs
unfolding unmask
masked_from-unmask mask periodic i [] = refl
masked_from-unmask mask periodic i (x ∷ xs) = ap (◌∷◌ (bit_xor x (mask i))) (
    masked_from-unmask mask periodic (suc i) xs
    ∙ ap (λ (k : ℕ). unmask (mask (suc i)) (mask (suc (suc i))) (mask (suc (suc (suc i)))) k xs)
        (periodic i))

pub mask_byte-periodic :
    (a b c d i : ℕ) → mask_byte a b c d (suc (suc (suc (suc i)))) ≡ mask_byte a b c d i
mask_byte-periodic a b c d i =
    let same : suc (suc (suc (suc i))) % 4 ≡ i % 4 = omega arith in
    ap (λ (k : ℕ). if k == 0 then a else if k == 1 then b else if k == 2 then c else d) same
