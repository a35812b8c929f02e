-- ===== src/WebSocket/Json.antt =====
-- The flat JSON of commands in src/networking/ws_server.cpp: `json_find_value` and the fields read by it.
use trader_two.Prelude.{
  ℕ, zero, suc, ◌+◌, ◌-◌, ◌*◌, ◌^◌, ◌==◌, ltb, leb, ℤ, pos, negsuc, Bool, true, false, ◌&&◌, ◌||◌,
  if◌then◌else◌, [], ◌∷◌, ◌++◌, Option, none, some, String, ◌≡◌, refl,
}
use trader_two.Protocol.Tokens.{is_space}
use trader_two.Text.{Bytes, codes}

-- What follows `needle` where `s` starts with it.
unfoldable pub drop_prefix : Bytes → Bytes → Option Bytes
drop_prefix [] s = some s
drop_prefix (n ∷ needle) [] = none
drop_prefix (n ∷ needle) (c ∷ s) = if c == n then drop_prefix needle s else none

abbrev pub or_else {ℓ} : {A : Type ℓ} → Option A → Option A → Option A
or_else none y = y
or_else (some x) y = some x

-- `s.find(needle)`, and what follows there.
unfoldable pub find_after : Bytes → Bytes → Option Bytes
unfolding drop_prefix
find_after needle [] = drop_prefix needle []
find_after needle (c ∷ s) = or_else (drop_prefix needle (c ∷ s)) (find_after needle s)

abbrev pub is_blank : ℕ → Bool
is_blank c = c == 32 || c == 9

unfoldable pub skip_blanks : Bytes → Bytes
skip_blanks [] = []
skip_blanks (c ∷ s) = if is_blank c then skip_blanks s else c ∷ s

-- `s.find('"', pos)`: what stands in front of it.
unfoldable pub up_to_quote : Bytes → Option Bytes
up_to_quote [] = none
up_to_quote (c ∷ s) =
    let rest = up_to_quote s in
    if c == b'"' then some [] else elim rest [ none ↦ none | some t ↦ some (c ∷ t) ]

-- Up to a comma, a brace or a blank.
unfoldable pub up_to_end : Bytes → Bytes
up_to_end [] = []
up_to_end (c ∷ s) = if c == b',' || c == b'}' || is_blank c then [] else c ∷ up_to_end s

-- The value, from its first byte on.
unfoldable pub value_at : Bytes → Option Bytes
unfolding up_to_quote up_to_end
value_at [] = some []
value_at (c ∷ s) = if c == b'"' then up_to_quote s else some (up_to_end (c ∷ s))

unfoldable pub after_colon : Bytes → Option Bytes
unfolding value_at skip_blanks
after_colon [] = none
after_colon (c ∷ s) = if c == b':' then value_at (skip_blanks s) else none

-- `json_find_value`, with the value itself.
unfoldable pub json_find_value : Bytes → String → Option Bytes
unfolding find_after skip_blanks after_colon
json_find_value s name = elim (find_after (b'"' ∷ (codes name ++ (b'"' ∷ []))) s) [
  | none ↦ none
  | some rest ↦ after_colon (skip_blanks rest)
]

abbrev pub is_digit : ℕ → Bool
is_digit c = leb 48 c && leb c 57

unfoldable pub leading_number : ℕ → Bytes → ℕ
leading_number x [] = x
leading_number x (c ∷ s) = if is_digit c then leading_number (x * 10 + (c - 48)) s else x

unfoldable pub skip_white : Bytes → Bytes
unfolding is_space
skip_white [] = []
skip_white (c ∷ s) = if is_space c then skip_white s else c ∷ s

-- What `strtoll` makes of a number too large.
abbrev pub clamp_positive : ℕ → ℤ
clamp_positive x = if ltb x (2 ^ 63) then pos x else pos (2 ^ 63 - 1)

abbrev pub clamp_negative : ℕ → ℤ
clamp_negative zero = pos 0
clamp_negative (suc x) = if ltb x (2 ^ 63) then negsuc x else negsuc (2 ^ 63 - 1)

-- Digits, one at least.
unfoldable pub signed_number : Bool → Bytes → Option ℤ
unfolding leading_number
signed_number neg [] = none
signed_number neg (c ∷ s) =
    if is_digit c
    then (let x = leading_number 0 (c ∷ s) in
        some (if neg then clamp_negative x else clamp_positive x))
    else none

unfoldable pub with_sign_byte : Bytes → Option ℤ
unfolding signed_number
with_sign_byte [] = none
with_sign_byte (c ∷ s) =
    if c == b'-'
    then signed_number true s
    else if c == b'+'
    then signed_number false s
    else signed_number false (c ∷ s)

-- `std::strtoll` in base ten; `none` is no number.
unfoldable pub strtoll : Bytes → Option ℤ
unfolding skip_white with_sign_byte
strtoll s = with_sign_byte (skip_white s)

unfoldable pub json_get_int : Bytes → String → Option ℤ
json_get_int s name = elim (json_find_value s name) [ none ↦ none | some v ↦ strtoll v ]

abbrev pub uint_of : ℤ → Option ℕ
uint_of (pos n) = some n
uint_of (negsuc n) = none

unfoldable pub json_get_uint : Bytes → String → Option ℕ
json_get_uint s name = elim (json_get_int s name) [ none ↦ none | some v ↦ uint_of v ]

json_test : json_get_int (codes "{\"type\":\"submit\",\"px\": -42}") "px" ≡ some (negsuc 41)
unfolding json_get_int json_find_value strtoll
json_test = refl
