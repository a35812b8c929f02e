-- ===== src/Types.antt =====
-- include/tt/common/types.hpp: prices in ticks, quantities, and the ranges that are valid.
-- An `int64_t` is an integer ℤ; identifiers and sequence numbers are numbers below 2 ^ 64.
use trader_two.Prelude.{
  ℕ, ◌+◌, ◌%◌, ◌^◌, ℤ, pos, negsuc, ltb_ℤ, leb_ℤ, ◌≤ℤ◌, ◌<ℤ◌, Bool, true, ◌&&◌, ◌≡◌, arith,
}

abbrev pub max_price_ticks : ℤ
max_price_ticks = pos 1_000_000_000_000

abbrev pub max_quantity : ℤ
max_quantity = pos 1_000_000_000_000

-- The least `int64_t`.
abbrev pub invalid_price : ℤ
invalid_price = negsuc 9_223_372_036_854_775_807

abbrev pub invalid_order_id : ℕ
invalid_order_id = 0

abbrev pub invalid_instrument_id : ℕ
invalid_instrument_id = 0

-- `Price::is_valid`
unfoldable pub price_is_valid : ℤ → Bool
price_is_valid ticks = leb_ℤ (pos 0) ticks && leb_ℤ ticks max_price_ticks

-- `Quantity::is_valid`
unfoldable pub quantity_is_valid : ℤ → Bool
quantity_is_valid qty = ltb_ℤ (pos 0) qty && leb_ℤ qty max_quantity

-- `++` on an `uint64_t`.
unfoldable pub next_u64 : ℕ → ℕ
next_u64 n = (n + 1) % 2 ^ 64

pub price_is_valid→range : (p : ℤ) → price_is_valid p ≡ true → (pos 0 ≤ℤ p) × (p ≤ℤ max_price_ticks)
unfolding price_is_valid
price_is_valid→range p h = ground arith

pub quantity_is_valid→range :
    (q : ℤ) → quantity_is_valid q ≡ true → (pos 0 <ℤ q) × (q ≤ℤ max_quantity)
unfolding quantity_is_valid
quantity_is_valid→range q h = ground arith

pub range→quantity_is_valid : (q : ℤ) → pos 0 <ℤ q → q ≤ℤ max_quantity → quantity_is_valid q ≡ true
unfolding quantity_is_valid
range→quantity_is_valid q h k = ground arith
