-- ===== src/Protocol/Tokens.antt =====
-- The words and numbers of a line in src/networking/protocol.cpp: `ieq`, the loop that splits at white
-- space, `parse_u64` and `parse_i64`.
use trader_two.Prelude.{
  ℕ, zero, suc, ◌+◌, ◌-◌, ◌*◌, ◌%◌, ◌^◌, ◌==◌, ltb, leb, ℤ, pos, negsuc, Bool, true, false, ◌&&◌,
  ◌||◌, if◌then◌else◌, List, [], ◌∷◌, Option, none, some, length, ◌≡◌, refl,
}
use trader_two.Text.{Bytes, codes}

-- `std::isspace`
unfoldable pub is_space : ℕ → Bool
is_space c = c == 32 || (leb 9 c && leb c 13)

-- `std::tolower`
unfoldable pub to_lower : ℕ → ℕ
to_lower c = if leb 65 c && leb c 90 then c + 32 else c

unfoldable pub ieq : Bytes → Bytes → Bool
unfolding to_lower
ieq [] [] = true
ieq [] (b ∷ t) = false
ieq (a ∷ s) [] = false
ieq (a ∷ s) (b ∷ t) = (to_lower a == to_lower b) && ieq s t

unfoldable pub skip_spaces : Bytes → Bytes
unfolding is_space
skip_spaces [] = []
skip_spaces (c ∷ s) = if is_space c then skip_spaces s else c ∷ s

-- The bytes up to white space, and the rest.
unfoldable pub take_word : Bytes → Bytes × Bytes
unfolding is_space
take_word [] = ([], [])
take_word (c ∷ s) = let (w, rest) = take_word s in if is_space c then ([], c ∷ s) else (c ∷ w, rest)

-- `if (begin < pos) tok.emplace_back(…)`
abbrev pub add_word : Bytes → List Bytes → List Bytes
add_word [] ts = ts
add_word (c ∷ w) ts = (c ∷ w) ∷ ts

-- `while (pos < line.size())`: each round takes a byte at least.
unfoldable pub tokenise : ℕ → Bytes → List Bytes
unfolding skip_spaces take_word
tokenise zero s = []
tokenise (suc fuel) [] = []
tokenise (suc fuel) (c ∷ s) =
    let (w, rest) = take_word (skip_spaces (c ∷ s)) in add_word w (tokenise fuel rest)

unfoldable pub tokens : Bytes → List Bytes
unfolding tokenise
tokens s = tokenise (length s) s

-- A byte that is no digit; a byte from 128 on is a negative `char`.
abbrev pub not_digit : ℕ → Bool
not_digit c = ltb c 48 || ltb 57 c

-- `x = x * 10 + (c - '0')` in `uint64_t`
unfoldable pub read_digits : ℕ → Bytes → Option ℕ
read_digits x [] = some x
read_digits x (c ∷ s) = if not_digit c then none else read_digits ((x * 10 + (c - 48)) % 2 ^ 64) s

unfoldable pub parse_u64 : Bytes → Option ℕ
unfolding read_digits
parse_u64 [] = none
parse_u64 (c ∷ s) = read_digits 0 (c ∷ s)

-- The same in `int64_t`, whose overflow is undefined: the number has no bound.
unfoldable pub read_int : ℕ → Bytes → Option ℕ
read_int x [] = some x
read_int x (c ∷ s) = if not_digit c then none else read_int (x * 10 + (c - 48)) s

-- `neg ? -x : x`
abbrev pub with_sign : Bool → Option ℕ → Option ℤ
with_sign neg none = none
with_sign false (some x) = some (pos x)
with_sign true (some zero) = some (pos 0)
with_sign true (some (suc x)) = some (negsuc x)

-- The digits, of which there is one at least.
abbrev pub read_int_of : Bytes → Option ℕ
read_int_of [] = none
read_int_of (c ∷ s) = read_int 0 (c ∷ s)

unfoldable pub parse_i64 : Bytes → Option ℤ
unfolding read_int
parse_i64 [] = none
parse_i64 (c ∷ s) =
    if c == 45 then with_sign true (read_int_of s) else with_sign false (read_int_of (c ∷ s))

-- `static_cast<int64_t>` of an `uint64_t`
unfoldable pub signed_of : ℕ → ℤ
signed_of v = if ltb v (2 ^ 63) then pos v else negsuc (2 ^ 64 - 1 - v)

tokens_test : tokens (codes "  NEW 1 20 ") ≡ codes "NEW" ∷ codes "1" ∷ codes "20" ∷ []
unfolding tokens
tokens_test = refl
