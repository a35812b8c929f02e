-- ===== src/Instrument.antt =====
-- include/tt/common/instrument.hpp: the metadata of an instrument, and rounding to its tick and lot.
use trader_two.Prelude.{
  ℕ, suc, ◌%◌, ℤ, pos, negsuc, ◌-ℤ◌, ltb_ℤ, leb_ℤ, Bool, ◌&&◌, if◌then◌else◌, String, pos_part,
}
use trader_two.Types.{max_price_ticks, max_quantity}

pub record InstrumentDescriptor : Type 0 where
  pub id : ℕ
  pub symbol : String
  pub display_name : String
  pub tick_size : ℤ
  pub lot_size : ℤ
  pub enabled : Bool

unfoldable pub is_valid_tick : ℤ → Bool
is_valid_tick tick = ltb_ℤ (pos 0) tick && leb_ℤ tick max_price_ticks

unfoldable pub is_valid_lot : ℤ → Bool
is_valid_lot lot = ltb_ℤ (pos 0) lot && leb_ℤ lot max_quantity

-- `%` on `int64_t` by a positive divisor: the remainder has the sign of the dividend.
unfoldable pub ◌%ℤ◌ : ℤ → ℤ → ℤ
◌%ℤ◌ (pos n) d = pos (n % pos_part d)
◌%ℤ◌ (negsuc n) d = pos 0 -ℤ pos (suc n % pos_part d)

infixl 70 ◌%ℤ◌
unfoldable pub round_to_tick : ℤ → ℤ → ℤ
round_to_tick p tick = if leb_ℤ tick (pos 0) then p else p -ℤ p %ℤ tick

unfoldable pub round_to_lot : ℤ → ℤ → ℤ
round_to_lot q lot = if leb_ℤ lot (pos 0) then q else q -ℤ q %ℤ lot
