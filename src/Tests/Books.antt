-- ===== src/Tests/Books.antt =====
-- A book with one ask, and the operations of a book on it.
use trader_two.Prelude.{
  pos, ◌<ℤ◌, ◌-ℤ◌, true, false, not, ◌≡◌, refl, some, ◌⊎◌, arith, [], ◌∷◌, elem, subst, some_inj,
  sym, ◌∙◌, ◌+ℤ◌,
}
use trader_two.Prelude.Map.{find, assign, emplace}
use trader_two.Types.{price_is_valid, quantity_is_valid}
use trader_two.Order.{Order, sell, limit, gtc, new, is_buy, touch_status}
use trader_two.Level.{Level, append, empty_level, head_of}
use trader_two.OrderBook.{
  OrderBook, new_book, insert, reduce, modify, fill, enqueue, get_or_create_level,
}
use trader_two.OrderBook.Ladder.{find_level, emplace_level, write_level, own}
use trader_two.OrderBook.Queries.{first_level, best_order}
use trader_two.OrderBook.Coherent.{IsValid, levels_of}
use trader_two.OrderBook.Joins.{IsFree}
use trader_two.OrderBook.Validity.{new_book-IsValid, insert-IsValid, Insertable}
use trader_two.OrderBook.Validity.Modify.{modify-IsValid}
use trader_two.OrderBook.Effects.{Joins, insert-Joins, Lessens, reduce-Lessens, Edits, modify-Edits}
use trader_two.OrderBook.Validity.Fill.{IsFront, fill-IsValid}

-- An offer of five at 100.
abbrev pub offer : Order
offer = record {
  id = 1;
  trader_id = 7;
  instrument_id = 1;
  side = sell;
  type = limit;
  tif = gtc;
  price = pos 100;
  quantity = pos 5;
  remaining = pos 5;
  sequence = 1;
  timestamp = 0;
  status = new;
}

abbrev pub empty_book : OrderBook
empty_book = new_book 1

abbrev pub one_offer : OrderBook
one_offer = (insert (some offer) empty_book).0

empty_book-IsFree : IsFree empty_book true (pos 100)
unfolding new_book find_level
empty_book-IsFree = refl

-- The same, for the other examples.
pub one_offer-IsValid : IsValid one_offer
one_offer-IsValid = insert-IsValid empty_book offer (new_book-IsValid 1) refl empty_book-IsFree

pub one_offer-find : find 1 one_offer.id_index ≡ some offer
unfolding new_book insert enqueue get_or_create_level append find assign emplace find_level
    emplace_level write_level own price_is_valid quantity_is_valid
one_offer-find = refl

-- The level of the offer.
abbrev pub offer_level : Level
offer_level = record { price = pos 100; queue = 1 ∷ []; total_quantity = pos 5; order_count = 1 }

pub one_offer-level : levels_of one_offer false (pos 100) ≡ some offer_level
unfolding new_book insert enqueue get_or_create_level append find assign emplace find_level
    emplace_level write_level own price_is_valid quantity_is_valid empty_level ◌+ℤ◌
one_offer-level = refl

offer-first : head_of (1 ∷ []) one_offer.id_index ≡ some offer
unfolding head_of
offer-first = one_offer-find

offer-inside : elem 1 (1 ∷ []) ≡ true
unfolding elem
offer-inside = refl

pub offer-IsFront : IsFront one_offer 1 offer offer_level
offer-IsFront = record {
  known = one_offer-find;
  level_found = one_offer-level;
  first = offer-first;
  queued = offer-inside;
}

no_bid : IsFree one_offer true (pos 101)
unfolding new_book insert enqueue get_or_create_level append find assign emplace find_level
    emplace_level write_level own price_is_valid quantity_is_valid
no_bid = refl

-- No bid stands where an order of the book would move.
one_offer-MovesFreely :
    (o : Order) → find 1 one_offer.id_index ≡ some o → IsFree one_offer (not (is_buy o)) (pos 101)
one_offer-MovesFreely o h =
    subst (λ u. IsFree one_offer (not (is_buy u)) (pos 101)) (some_inj (sym one_offer-find ∙ h))
      no_bid

modify-IsValid_example : IsValid (modify 1 (pos 8) (pos 101) one_offer).0
modify-IsValid_example =
    modify-IsValid one_offer 1 (pos 8) (pos 101) one_offer-IsValid one_offer-MovesFreely

-- A destroyed order reads as it was.
fill-IsValid_example : IsValid (fill (λ o. o) 1 (pos 3) one_offer).0
fill-IsValid_example =
    fill-IsValid (λ o. o) one_offer 1 offer offer_level (pos 3) one_offer-IsValid offer-IsFront
      (ground arith) refl

one_offer-best : best_order false one_offer ≡ some offer
unfolding new_book insert enqueue get_or_create_level append find assign emplace find_level
    emplace_level write_level own price_is_valid quantity_is_valid best_order first_level head_of
    empty_level
one_offer-best = refl

insert-Joins_example :
    (Insertable empty_book offer
      × ((insert (some offer) empty_book).1 ≡ true)
      × Joins empty_book (insert (some offer) empty_book).0 offer)
    ⊎ (¬ (Insertable empty_book offer) × (insert (some offer) empty_book ≡ (empty_book, false)))
insert-Joins_example = insert-Joins offer empty_book

reduce-Lessens_example :
    ((reduce 1 (pos 2) one_offer ≡ (one_offer, false))
      × ((o : Order)
          → find 1 one_offer.id_index ≡ some o
          → ¬ ((pos 0 <ℤ pos 2) × (pos 2 <ℤ o.remaining))))
    ⊎ ((o : Order) × (find 1 one_offer.id_index ≡ some o)
        × (pos 0 <ℤ pos 2)
        × (pos 2 <ℤ o.remaining)
        × ((reduce 1 (pos 2) one_offer).1 ≡ true)
        × Lessens one_offer
            (reduce 1 (pos 2) one_offer).0
            1
            o
            (record o { remaining = pos 2; status = touch_status o.status })
            (o.remaining -ℤ pos 2))
reduce-Lessens_example = reduce-Lessens one_offer 1 (pos 2) one_offer-IsValid

modify-Edits_example : Edits one_offer 1 (pos 8) (pos 101) (modify 1 (pos 8) (pos 101) one_offer)
modify-Edits_example = modify-Edits one_offer 1 (pos 8) (pos 101) one_offer-IsValid
