-- ===== src/Decimal.antt =====
-- `std::to_string` of an unsigned number.
use Prim.Native.Char.{Char}
use Prim.Native.String.{[], ◌∷◌}
use trader_two.Prelude.{ℕ, zero, suc, ◌==◌, ◌/◌, ◌%◌, ◌≡◌, refl, ltb, if◌then◌else◌, String}

abbrev digit : ℕ → Char
digit d =
    if d == 0
    then "0"
    else if d == 1
    then "1"
    else if d == 2
    then "2"
    else if d == 3
    then "3"
    else if d == 4
    then "4"
    else if d == 5
    then "5"
    else if d == 6
    then "6"
    else if d == 7
    then "7"
    else if d == 8
    then "8"
    else "9"

-- The digits of `n` in front of `acc`. Each round drops a digit, so `n + 1` rounds are enough.
print : ℕ → ℕ → String → String
print zero n acc = acc
print (suc fuel) n acc =
    let s = digit (n % 10) ∷ acc in let rest = print fuel (n / 10) s in if ltb n 10 then s else rest

unfoldable pub to_string : ℕ → String
unfolding print
to_string n = print (suc n) n []

to_string_test : to_string 1207 ≡ "1207"
unfolding to_string
to_string_test = refl
