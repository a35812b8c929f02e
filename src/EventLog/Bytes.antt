-- ===== src/EventLog/Bytes.antt =====
-- Writing and reading the numbers and texts of src/persistence/event_log.cpp.
use mathlib.Core.List.{append_assoc}
use trader_two.Prelude.{
  ℕ, zero, suc, ◌+◌, ◌-◌, ◌*◌, ◌/◌, ◌%◌, ◌<◌, ltb, ℤ, pos, negsuc, false, ◌≡◌, refl, List, [], ◌∷◌,
  ◌++◌, length, arith, sym, ap, ◌∙◌,
}
use trader_two.EventLog.{
  write_uint, write_str, to_bits, of_bits, Reader, read_uint, read_text, read_str,
}

-- The number has no more than so many bytes.
abbrev pub Fits : ℕ → ℕ → Type 0
Fits zero v = v ≡ 0
Fits (suc n) v = Fits n (v / 256)

-- Bytes to be read, before the end.
abbrev pub before_end : List ℕ → Reader
before_end bs = record { rest = bs; eof = false }

whole : (v w : ℕ) → w ≡ v / 256 → v % 256 + 256 * w ≡ v
whole v w h = omega (arith, h)

pub read-write_uint :
    (n v : ℕ) (rest : List ℕ)
    → Fits n v
    → read_uint n (before_end (write_uint n v ++ rest)) ≡ (v, before_end rest)
unfolding read_uint write_uint
read-write_uint zero v rest fits = ap (λ w. (w, before_end rest)) (sym fits)
read-write_uint (suc n) v rest fits =
    rw (read-write_uint n (v / 256) rest fits)
      (ap (λ w. (w, before_end rest)) (whole v (v / 256) refl))

-- The same, where more follows in the same record.
pub read-write_more :
    (n v : ℕ) (more rest : List ℕ)
    → Fits n v
    → read_uint n (before_end ((write_uint n v ++ more) ++ rest)) ≡ (v, before_end (more ++ rest))
read-write_more n v more rest fits =
    ap (λ bs. read_uint n (before_end bs)) (append_assoc (write_uint n v) more rest)
    ∙ read-write_uint n v (more ++ rest) fits

pub read_text-append :
    (s rest : List ℕ) → read_text (length s) (before_end (s ++ rest)) ≡ (s, before_end rest)
unfolding read_text
read_text-append [] rest = refl
read_text-append (b ∷ s) rest = rw (read_text-append s rest) refl

pub Fits-u64 : (v : ℕ) → v < 18446744073709551616 → Fits 8 v
Fits-u64 v h = omega (arith, h)

pub Fits-u32 : (v : ℕ) → v < 4294967296 → Fits 4 v
Fits-u32 v h = omega (arith, h)

pub read-write_str :
    (s rest : List ℕ)
    → length s < 4294967296
    → read_str (before_end (write_str s ++ rest)) ≡ (s, before_end rest)
unfolding read_str write_str
read-write_str s rest h =
    rw (read-write_more 4 (length s) s rest (Fits-u32 (length s) h)) (read_text-append s rest)

-- An `int64_t`.
pub data Int64 : ℤ → Type 0 where
  not_negative : (n : ℕ) → n < 9223372036854775808 → Int64 (pos n)
  negative : (n : ℕ) → n < 9223372036854775808 → Int64 (negsuc n)

high :
    (n : ℕ) → n < 9223372036854775808 → ltb (18446744073709551615 - n) 9223372036854775808 ≡ false
high n h = ground (arith, h)

complement :
    (n : ℕ) → n < 9223372036854775808 → 18446744073709551615 - (18446744073709551615 - n) ≡ n
complement n h = omega (arith, h)

pub of_bits-to_bits : (v : ℤ) → Int64 v → of_bits (to_bits v) ≡ v
unfolding of_bits to_bits
of_bits-to_bits _ (not_negative n h) = ground (arith, h)
of_bits-to_bits _ (negative n h) = rw (high n h) (ap negsuc (complement n h))

pub to_bits-Fits : (v : ℤ) → Int64 v → Fits 8 (to_bits v)
unfolding to_bits
to_bits-Fits _ (not_negative n h) = Fits-u64 n (omega (arith, h))
to_bits-Fits _ (negative n h) = Fits-u64 (18446744073709551615 - n) (omega arith)
