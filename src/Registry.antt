-- ===== src/Registry.antt =====
-- The state of `MatchingEngine` of include/tt/matching/matching_engine.hpp, and the operations of
-- src/matching/matching_engine.cpp on its instruments: registration, validation and look-up.
pub mod Validation
use text.Mathlib.Text.{◌==◌ as str_eq}
use trader_two.Prelude.{
  ℕ, ℤ, pos, ltb_ℤ, eq_ℤ, Bool, true, false, not, if◌then◌else◌, List, [], map, Option, none, some,
  String, length,
}
use trader_two.Prelude.Map.{Map, find, assign, erase, emplace}
use trader_two.Types.{price_is_valid, quantity_is_valid}
use trader_two.OrderBook.{OrderBook, new_book}
use trader_two.Decimal.{to_string}
use trader_two.Instrument.{InstrumentDescriptor, is_valid_tick, is_valid_lot, ◌%ℤ◌}
use trader_two.Risk.{RiskGate}

pub record MatchingEngine : Type 0 where
  pub books : Map OrderBook
  pub descriptors : Map InstrumentDescriptor
  pub risk_gate : Option RiskGate
  pub next_sequence : ℕ

-- `MatchingEngine()`
unfoldable pub new_engine : MatchingEngine
new_engine = record { books = []; descriptors = []; risk_gate = none; next_sequence = 1 }

-- The descriptor of an instrument that is registered by its id alone.
abbrev pub default_descriptor : ℕ → InstrumentDescriptor
default_descriptor id = record {
  id = id;
  symbol = to_string id;
  display_name = "";
  tick_size = pos 1;
  lot_size = pos 1;
  enabled = true;
}

-- `register_instrument(InstrumentId)`
unfoldable pub register_id : ℕ → MatchingEngine → MatchingEngine
register_id id e = record e {
  books = emplace id (new_book id) e.books;
  descriptors = emplace id (default_descriptor id) e.descriptors;
}

-- `register_instrument(const InstrumentDescriptor&)`
unfoldable pub register_instrument : InstrumentDescriptor → MatchingEngine → MatchingEngine
register_instrument desc e =
    let e' = register_id desc.id e in record e' { descriptors = assign desc.id desc e'.descriptors }

unfoldable pub unregister_instrument : ℕ → MatchingEngine → MatchingEngine × Bool
unregister_instrument id e = elim (find id e.books) [
  | none ↦ (e, false)
  | some _ ↦ (record e { books = erase id e.books; descriptors = erase id e.descriptors }, true)
]

unfoldable pub descriptor : ℕ → MatchingEngine → Option InstrumentDescriptor
descriptor id e = find id e.descriptors

unfoldable pub instrument_ids : MatchingEngine → List ℕ
instrument_ids e = map (λ d. d.0) e.descriptors

-- `instrument_count`
unfoldable pub instrument_count : MatchingEngine → ℕ
instrument_count e = length e.books

-- The checks of `validate_order` on a price above zero.
unfoldable pub price_problem : InstrumentDescriptor → ℤ → String
price_problem desc price =
    if not (is_valid_tick desc.tick_size)
    then "invalid tick size"
    else if not (price_is_valid price)
    then "invalid price"
    else if not (eq_ℤ (price %ℤ desc.tick_size) (pos 0))
    then "price not on tick"
    else ""

unfoldable pub lot_problem : InstrumentDescriptor → ℤ → String
lot_problem desc qty =
    if not (is_valid_lot desc.lot_size)
    then "invalid lot size"
    else if not (eq_ℤ (qty %ℤ desc.lot_size) (pos 0))
    then "qty not on lot"
    else ""

-- The reason why a price and a quantity are refused, or the empty text.
unfoldable pub validate_order : ℕ → ℤ → ℤ → MatchingEngine → String
unfolding descriptor
validate_order id price qty e =
    if not (quantity_is_valid qty) then "invalid quantity" else elim (descriptor id e) [
      | none ↦ "instrument not registered"
      | some desc ↦
          if not desc.enabled
          then "instrument disabled"
          else let problem = if ltb_ℤ (pos 0) price then price_problem desc price else "" in
            if str_eq problem "" then lot_problem desc qty else problem
    ]

unfoldable pub clear : MatchingEngine → MatchingEngine
clear e = record e { books = []; descriptors = []; next_sequence = 1 }

unfoldable pub book : ℕ → MatchingEngine → Option OrderBook
book id e = find id e.books

unfoldable pub set_risk_gate : Option RiskGate → MatchingEngine → MatchingEngine
set_risk_gate gate e = record e { risk_gate = gate }
