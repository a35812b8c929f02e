-- ===== src/Tests/Priorities.antt =====
-- A second offer behind the first, and a cancellation of either.
use trader_two.Prelude.{
  ℕ, ℤ, pos, Bool, true, false, ◌≡◌, refl, some, none, ◌==◌, if◌then◌else◌, arith,
}
use trader_two.Prelude.Map.{find, assign, emplace}
use trader_two.Types.{price_is_valid, quantity_is_valid}
use trader_two.Order.{Order}
use trader_two.Level.{append}
use trader_two.OrderBook.{new_book, insert, cancel, enqueue, get_or_create_level}
use trader_two.OrderBook.Ladder.{find_level, emplace_level, write_level, own}
use trader_two.OrderBook.Coherent.{levels_of}
use trader_two.OrderBook.Joins.{IsFree}
use trader_two.OrderBook.Moves.{Moves}
use trader_two.OrderBook.Moves.Dequeue.{left_by}
use trader_two.OrderBook.Validity.{Insertable}
use trader_two.OrderBook.Priority.{cancel-Moves, cancel-insert}
use trader_two.Tests.Books.{
  offer, one_offer, one_offer-IsValid, one_offer-find, one_offer-level, offer_level,
}

-- Two more at the price of the first offer.
abbrev later : Order
later = record offer { id = 3; quantity = pos 2; remaining = pos 2 }

later-Insertable : Insertable one_offer later
unfolding new_book insert enqueue get_or_create_level append find assign emplace find_level
    emplace_level write_level own price_is_valid quantity_is_valid
later-Insertable = record {
  named = λ h. absurd (ground arith);
  limited = refl;
  priced = refl;
  sized = refl;
  unknown = refl;
}

later-IsFree : IsFree one_offer true (pos 100)
unfolding new_book insert enqueue get_or_create_level append find assign emplace find_level
    emplace_level write_level own price_is_valid quantity_is_valid
later-IsFree = refl

cancel-Moves_example :
    Moves
      (levels_of one_offer)
      (levels_of (cancel 1 one_offer).0)
      false
      (pos 100)
      (left_by offer offer_level)
    × ((j : ℕ)
        → find j (cancel 1 one_offer).0.id_index
          ≡ (if 1 == j then none else find j one_offer.id_index))
cancel-Moves_example =
    cancel-Moves one_offer 1 offer offer_level one_offer-IsValid one_offer-find one_offer-level

cancel-insert_example :
    ((s : Bool) (p : ℤ)
      → levels_of (cancel 3 (insert (some later) one_offer).0).0 s p ≡ levels_of one_offer s p)
    × ((j : ℕ)
        → find j (cancel 3 (insert (some later) one_offer).0).0.id_index
          ≡ find j one_offer.id_index)
cancel-insert_example =
    cancel-insert one_offer later one_offer-IsValid refl later-IsFree later-Insertable
