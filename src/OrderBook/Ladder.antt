-- ===== src/OrderBook/Ladder.antt =====
-- `bids_`, `asks_` (a `std::map` from prices to levels, as the list of the levels in its order) and
-- `level_storage_` (which owns the levels, as the side of the level that each price owns).
pub mod Laws
use trader_two.Prelude.{
  ℤ, ltb_ℤ, eq_ℤ, Bool, true, false, if◌then◌else◌, List, [], ◌∷◌, Option, none, some,
}
use trader_two.Level.{Level}

-- `std::greater` for the bids, `std::less` for the asks.
abbrev pub comes_before : Bool → ℤ → ℤ → Bool
comes_before true p q = ltb_ℤ q p
comes_before false p q = ltb_ℤ p q

unfoldable pub find_level : ℤ → List Level → Option Level
find_level p [] = none
find_level p (l ∷ ls) = if eq_ℤ l.price p then some l else find_level p ls

unfoldable pub emplace_level : Bool → Level → List Level → List Level
emplace_level is_bid l [] = l ∷ []
emplace_level is_bid l (m ∷ ls) =
    if comes_before is_bid l.price m.price
    then l ∷ m ∷ ls
    else if eq_ℤ m.price l.price
    then m ∷ ls
    else m ∷ emplace_level is_bid l ls

-- The level at its price becomes `l`.
unfoldable pub write_level : Level → List Level → List Level
write_level l [] = []
write_level l (m ∷ ls) = if eq_ℤ m.price l.price then l ∷ ls else m ∷ write_level l ls

unfoldable pub erase_level : ℤ → List Level → List Level
erase_level p [] = []
erase_level p (l ∷ ls) = if eq_ℤ l.price p then ls else l ∷ erase_level p ls

abbrev pub Storage : Type 0
Storage = List (ℤ × Bool)

unfoldable pub owner : ℤ → Storage → Option Bool
owner p [] = none
owner p ((q, is_bid) ∷ s) = if eq_ℤ q p then some is_bid else owner p s

-- `level_storage_.emplace`
unfoldable pub own : ℤ → Bool → Storage → Storage
own p is_bid s = elim (owner p s) [ none ↦ (p, is_bid) ∷ s | some _ ↦ s ]

-- `level_storage_.erase`
unfoldable pub disown : ℤ → Storage → Storage
disown p [] = []
disown p ((q, is_bid) ∷ s) = if eq_ℤ q p then disown p s else (q, is_bid) ∷ disown p s
