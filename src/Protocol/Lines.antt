-- ===== src/Protocol/Lines.antt =====
-- How the loop of src/networking/protocol.cpp splits a line at white space, and the numbers it reads.
use trader_two.Prelude.{
  ℕ, zero, suc, ◌+◌, ◌-◌, ◌*◌, ◌%◌, ◌^◌, ◌≤◌, ◌<◌, ◌==◌, ◌≡◌, refl, ap, ◌∙◌, true, false, ℤ, pos,
  negsuc, List, [], ◌∷◌, ◌++◌, some, some_inj, none_ne_some, length, length-append, All, arith,
  Bool-cases, inl, inr,
}
use trader_two.Text.{Bytes, IsDigit, print_u64, print_i64, print_u64-IsDigit, print_u64_ind}
use trader_two.Protocol.Tokens.{
  is_space, skip_spaces, take_word, add_word, tokenise, tokens, read_digits, parse_u64, read_int,
  read_int_of, with_sign, parse_i64, not_digit,
}

-- A byte of a word.
abbrev pub IsInk : ℕ → Type 0
IsInk c = is_space c ≡ false

abbrev pub IsBlank : ℕ → Type 0
IsBlank c = is_space c ≡ true

abbrev pub IsWord : Bytes → Type 0
IsWord [] = ⊥
IsWord (c ∷ w) = IsInk c × All IsInk w

-- Behind a word the line ends or goes on with white space.
abbrev pub Breaks : Bytes → Type 0
Breaks [] = Unit {0}
Breaks (c ∷ s) = IsBlank c

-- The words of a line, with any white space in front of each, between them and behind the last.
pub data Splits : Bytes → List Bytes → Type 0 where
  end : {s : Bytes} → All IsBlank s → Splits s []
  word :
      {s : Bytes} (gap w rest : Bytes) {ws : List Bytes}
      → s ≡ gap ++ (w ++ rest)
      → All IsBlank gap
      → IsWord w
      → Breaks rest
      → Splits rest ws
      → Splits s (w ∷ ws)

skip_blank : (s : Bytes) → All IsBlank s → skip_spaces s ≡ []
unfolding skip_spaces
skip_blank [] h = refl
skip_blank (c ∷ s) h = rw h.0 (skip_blank s h.1)

skip_gap :
    (gap w rest : Bytes) → All IsBlank gap → IsWord w → skip_spaces (gap ++ (w ++ rest)) ≡ w ++ rest
unfolding skip_spaces
skip_gap [] [] rest h k = absurd k
skip_gap [] (c ∷ w) rest h k = rw (k.0) refl
skip_gap (b ∷ gap) w rest h k = rw h.0 (skip_gap gap w rest h.1 k)

take_word_lem : (w rest : Bytes) → All IsInk w → Breaks rest → take_word (w ++ rest) ≡ (w, rest)
unfolding take_word
take_word_lem [] [] h b = refl
take_word_lem [] (c ∷ rest) h b = rw b refl
take_word_lem (c ∷ w) rest h b = rw (h.0, take_word_lem w rest h.1 b) refl

add_word_lem : (w : Bytes) (ts : List Bytes) → IsWord w → add_word w ts ≡ w ∷ ts
add_word_lem [] ts h = absurd h
add_word_lem (c ∷ w) ts h = refl

IsWord-All : (w : Bytes) → IsWord w → All IsInk w
IsWord-All [] h = absurd h
IsWord-All (c ∷ w) h = h

IsWord-length : (w : Bytes) → IsWord w → 0 < length w
IsWord-length [] h = absurd h
IsWord-length (c ∷ w) h = omega arith

tokenise_nothing : (fuel : ℕ) → tokenise fuel [] ≡ []
unfolding tokenise
tokenise_nothing zero = refl
tokenise_nothing (suc fuel) = refl

-- A round of the loop on what starts with a byte.
tokenise_round :
    (fuel : ℕ) (s w rest : Bytes)
    → 0 < length s
    → skip_spaces s ≡ w ++ rest
    → All IsInk w
    → Breaks rest
    → tokenise (suc fuel) s ≡ add_word w (tokenise fuel rest)
unfolding tokenise
tokenise_round fuel [] w rest lt e h b = absurd (omega arith)
tokenise_round fuel (c ∷ s) w rest lt e h b = rw (e, take_word_lem w rest h b) refl

split_length :
    {s : Bytes} (gap w rest : Bytes)
    → s ≡ gap ++ (w ++ rest)
    → length s ≡ length gap + length w + length rest
split_length gap w rest e =
    ap length e ∙ omega (arith, length-append gap (w ++ rest), length-append w rest)

tokenise-Splits :
    (fuel : ℕ) (s : Bytes) {ws : List Bytes} → length s ≤ fuel → Splits s ws → tokenise fuel s ≡ ws
unfolding tokenise
tokenise-Splits zero s le (end blank) = refl
tokenise-Splits (suc fuel) [] le (end blank) = refl
tokenise-Splits (suc fuel) (c ∷ s) le (end blank) =
    tokenise_round fuel (c ∷ s) [] [] (omega arith) (skip_blank (c ∷ s) blank) tt tt
    ∙ tokenise_nothing fuel
tokenise-Splits zero s le (word gap w rest e blank ink breaks more) =
    absurd (omega (arith, split_length gap w rest e, IsWord-length w ink))
tokenise-Splits (suc fuel) s le (word gap w rest e blank ink breaks more) =
    tokenise_round fuel s w rest (omega (arith, split_length gap w rest e, IsWord-length w ink))
      (ap skip_spaces e ∙ skip_gap gap w rest blank ink) (IsWord-All w ink) breaks
    ∙ add_word_lem w (tokenise fuel rest) ink
    ∙ ap (◌∷◌ w) (
        tokenise-Splits fuel rest (omega (arith, split_length gap w rest e, IsWord-length w ink))
          more)

pub tokens-Splits : {s : Bytes} {ws : List Bytes} → Splits s ws → tokens s ≡ ws
unfolding tokens
tokens-Splits {s} h = tokenise-Splits (length s) s (omega arith) h

digit-IsInk : (s : Bytes) → All IsDigit s → All IsInk s
unfolding is_space
digit-IsInk [] h = tt
digit-IsInk (c ∷ s) h = (ground arith, digit-IsInk s h.1)

-- A printed number is a word of a line.
digits-IsWord : (s : Bytes) → 0 < length s → All IsDigit s → IsWord s
digits-IsWord [] lt h = absurd (omega arith)
digits-IsWord (c ∷ s) lt h = digit-IsInk (c ∷ s) h

print_u64-length : (n : ℕ) → 0 < length (print_u64 n)
print_u64-length =
    print_u64_ind (λ n s. 0 < length s) (λ n lt. omega arith)
      (λ n s le h. omega (arith, length-append s ((48 + n % 10) ∷ [])))

pub print_u64-IsWord : (n : ℕ) → IsWord (print_u64 n)
print_u64-IsWord n = digits-IsWord (print_u64 n) (print_u64-length n) (print_u64-IsDigit n)

pub print_i64-IsWord : (z : ℤ) → IsWord (print_i64 z)
unfolding print_i64 is_space
print_i64-IsWord (pos n) = print_u64-IsWord n
print_i64-IsWord (negsuc n) = (refl, digit-IsInk (print_u64 (n + 1)) (print_u64-IsDigit (n + 1)))

read_digits_last :
    (x : ℕ) {y : ℕ} (s : Bytes) (d : ℕ)
    → d < 10
    → read_digits x s ≡ some y
    → read_digits x (s ++ ((48 + d) ∷ [])) ≡ some ((y * 10 + d) % 2 ^ 64)
unfolding read_digits
read_digits_last x [] d lt h = ground (arith, some_inj h)
read_digits_last x (c ∷ s) d lt h = elim (Bool-cases (not_digit c)) [
  | inl bad ↦ absurd (none_ne_some (rw bad at h))
  | inr good ↦ rw good (read_digits_last ((x * 10 + (c - 48)) % 2 ^ 64) s d lt (rw good at h))
]

read-print_digits : (n : ℕ) → n < 2 ^ 64 → read_digits 0 (print_u64 n) ≡ some n
unfolding read_digits
read-print_digits =
    print_u64_ind (λ n s. n < 2 ^ 64 → read_digits 0 s ≡ some n) (λ n lt fits. ground arith)
      (λ n s le h fits.
        read_digits_last 0 s (n % 10) (omega arith) (h (omega arith)) ∙ ap some (omega arith))

read_int_last :
    (x : ℕ) {y : ℕ} (s : Bytes) (d : ℕ)
    → d < 10
    → read_int x s ≡ some y
    → read_int x (s ++ ((48 + d) ∷ [])) ≡ some (y * 10 + d)
unfolding read_int
read_int_last x [] d lt h = ground (arith, some_inj h)
read_int_last x (c ∷ s) d lt h = elim (Bool-cases (not_digit c)) [
  | inl bad ↦ absurd (none_ne_some (rw bad at h))
  | inr good ↦ rw good (read_int_last (x * 10 + (c - 48)) s d lt (rw good at h))
]

read-print_int : (n : ℕ) → read_int 0 (print_u64 n) ≡ some n
unfolding read_int
read-print_int =
    print_u64_ind (λ n s. read_int 0 s ≡ some n) (λ n lt. ground arith)
      (λ n s le h. read_int_last 0 s (n % 10) (omega arith) h ∙ ap some (omega arith))

parse_u64-read : (s : Bytes) → 0 < length s → parse_u64 s ≡ read_digits 0 s
unfolding parse_u64
parse_u64-read [] lt = absurd (omega arith)
parse_u64-read (c ∷ s) lt = refl

pub parse-print_u64 : (n : ℕ) → n < 2 ^ 64 → parse_u64 (print_u64 n) ≡ some n
parse-print_u64 n fits =
    parse_u64-read (print_u64 n) (print_u64-length n) ∙ read-print_digits n fits

read_int_of_lem : (s : Bytes) → 0 < length s → read_int_of s ≡ read_int 0 s
read_int_of_lem [] lt = absurd (omega arith)
read_int_of_lem (c ∷ s) lt = refl

-- A number that starts with a digit has no sign.
parse_i64-read :
    (s : Bytes) → 0 < length s → All IsDigit s → parse_i64 s ≡ with_sign false (read_int_of s)
unfolding parse_i64
parse_i64-read [] lt h = absurd (omega arith)
parse_i64-read (c ∷ s) lt h = let no_sign : (c == 45) ≡ false = ground arith in rw no_sign refl

pub parse-print_i64 : (z : ℤ) → parse_i64 (print_i64 z) ≡ some z
unfolding parse_i64 print_i64
parse-print_i64 (pos n) =
    parse_i64-read (print_u64 n) (print_u64-length n) (print_u64-IsDigit n)
    ∙ ap (with_sign false) (read_int_of_lem (print_u64 n) (print_u64-length n) ∙ read-print_int n)
parse-print_i64 (negsuc n) =
    ap (with_sign true)
      (read_int_of_lem (print_u64 (n + 1)) (print_u64-length (n + 1)) ∙ read-print_int (n + 1))
    ∙ negated n
  where
    negated : (k : ℕ) → with_sign true (some (k + 1)) ≡ some (negsuc k)
    negated k = ap (λ (j : ℕ). with_sign true (some j)) add_one
      where
        add_one : k + 1 ≡ suc k
        add_one = omega arith
