-- ===== src/Metrics/Rendering.antt =====
-- How long what src/observability/metrics.cpp prints is, beside the buffers that it is printed into.
use trader_two.Prelude.{
  ℕ, zero, suc, ◌+◌, ◌*◌, ◌/◌, ◌%◌, ◌^◌, ◌≤◌, ◌<◌, ◌≡◌, refl, ap, List, [], ◌∷◌, ◌++◌, take, length,
  length-append, All, arith,
}
use trader_two.Text.{
  Bytes, codes, print_u64, print_u64_ind, Piece, literal, number, integer, bytes, print_piece,
  printf,
}
use trader_two.Metrics.{
  CounterBundle, prometheus_pieces, render_prometheus, json_pieces, render_json,
}

abbrev ten_pow : ℕ → ℕ
ten_pow zero = 1
ten_pow (suc k) = 10 * ten_pow k

print_u64-length : (n k : ℕ) → n < ten_pow (suc k) → length (print_u64 n) ≤ suc k
print_u64-length =
    print_u64_ind (λ n s. (k : ℕ) → n < ten_pow (suc k) → length s ≤ suc k)
      (λ n lt k h. omega arith) longer
  where
    longer :
        (n : ℕ) (s : Bytes)
        → 10 ≤ n
        → ((k : ℕ) → n / 10 < ten_pow (suc k) → length s ≤ suc k)
        → (k : ℕ) → n < ten_pow (suc k)
        → length (s ++ ((48 + n % 10) ∷ [])) ≤ suc k
    longer n s le h zero lt = absurd (omega arith)
    longer n s le h (suc k) lt =
        let shorter = h k (omega arith) in omega (arith, length-append s ((48 + n % 10) ∷ []))

print_u64-length_u64 : (n : ℕ) → n < 2 ^ 64 → length (print_u64 n) ≤ 20
print_u64-length_u64 n lt = print_u64-length n 19 (omega arith)

take_all {ℓ} : {A : Type ℓ} (n : ℕ) (xs : List A) → length xs ≤ n → take n xs ≡ xs
take_all zero [] le = refl
take_all zero (x ∷ xs) le = absurd (omega arith)
take_all (suc n) [] le = refl
take_all (suc n) (x ∷ xs) le = ap (◌∷◌ x) (take_all n xs (omega arith))

length-take_less {ℓ} : {A : Type ℓ} (n : ℕ) (xs : List A) → n ≤ length xs → length (take n xs) ≡ n
length-take_less zero xs le = refl
length-take_less (suc n) [] le = absurd (omega arith)
length-take_less (suc n) (x ∷ xs) le = ap suc (length-take_less n xs (omega arith))

-- A number takes twenty bytes at most.
abbrev most : Piece → ℕ
most (literal s) = length (codes s)
most (number n) = 20
most (integer z) = 0
most (bytes s) = length s

abbrev Fits : Piece → Type 0
Fits (literal s) = Unit {0}
Fits (number n) = n < 2 ^ 64
Fits (integer z) = ⊥
Fits (bytes s) = Unit {0}

abbrev most_of : List Piece → ℕ
most_of [] = 0
most_of (p ∷ ps) = most p + most_of ps

print_piece-le : (p : Piece) → Fits p → length (print_piece p) ≤ most p
unfolding print_piece
print_piece-le (literal s) h = omega arith
print_piece-le (number n) h = print_u64-length_u64 n h
print_piece-le (integer z) h = absurd h
print_piece-le (bytes s) h = omega arith

printf-le : (ps : List Piece) → All Fits ps → length (printf ps) ≤ most_of ps
unfolding printf
printf-le [] h = omega arith
printf-le (p ∷ ps) h =
    omega (arith, length-append (print_piece p) (printf ps), print_piece-le p h.0, printf-le ps h.1)

-- What the texts alone take.
abbrev least : Piece → ℕ
least (literal s) = length (codes s)
least (number n) = 0
least (integer z) = 0
least (bytes s) = length s

abbrev least_of : List Piece → ℕ
least_of [] = 0
least_of (p ∷ ps) = least p + least_of ps

least-le : (p : Piece) → least p ≤ length (print_piece p)
unfolding print_piece
least-le (literal s) = omega arith
least-le (number n) = omega arith
least-le (integer z) = omega arith
least-le (bytes s) = omega arith

printf-ge : (ps : List Piece) → least_of ps ≤ length (printf ps)
unfolding printf
printf-ge [] = omega arith
printf-ge (p ∷ ps) =
    omega (arith, length-append (print_piece p) (printf ps), least-le p, printf-ge ps)

-- Every counter is below 2 ^ 64.
pub record IsU64 (s : CounterBundle) : Type 0 where
  pub accepted_in : s.submits_accepted < 2 ^ 64
  pub filled_in : s.submits_filled < 2 ^ 64
  pub partial_in : s.submits_partial < 2 ^ 64
  pub cancelled_in : s.submits_cancelled < 2 ^ 64
  pub rejected_in : s.submits_rejected < 2 ^ 64
  pub trades_in : s.trades_total < 2 ^ 64
  pub quantity_in : s.trade_qty_total < 2 ^ 64
  pub notional_in : s.trade_notional_total < 2 ^ 64
  pub cancels_in : s.cancels_attempted < 2 ^ 64
  pub cancelled_ok_in : s.cancels_succeeded < 2 ^ 64
  pub modifies_in : s.modifies_attempted < 2 ^ 64
  pub modified_ok_in : s.modifies_succeeded < 2 ^ 64
  pub sequence_in : s.last_sequence < 2 ^ 64

json-Fits : {s : CounterBundle} → IsU64 s → All Fits (json_pieces s)
unfolding json_pieces
json-Fits u = omega arith

-- The JSON text of a snapshot whose counters are below 2 ^ 64 fits the buffer that it is printed
-- into: nothing of it is cut off.
pub render_json-whole : (s : CounterBundle) → IsU64 s → render_json s ≡ printf (json_pieces s)
unfolding render_json
render_json-whole s u =
    take_all 1023 (printf (json_pieces s))
      (omega (arith, printf-le (json_pieces s) (json-Fits u), enough))
  where
    enough : most_of (json_pieces s) ≤ 1023
    enough = omega arith

-- That of `render_prometheus` is too small.
pub render_prometheus-cut :
    (s : CounterBundle)
    → (length (render_prometheus (codes "trader_two") s) ≡ 1023)
      × (1023 < length (printf (prometheus_pieces (codes "trader_two") s)))
unfolding render_prometheus
render_prometheus-cut s = (length-take_less 1023 _ (omega (arith, long)), long)
  where
    long : 1023 < length (printf (prometheus_pieces (codes "trader_two") s))
    long = omega (arith, printf-ge (prometheus_pieces (codes "trader_two") s))
