-- ===== src/OrderBook/Validity/Fill.antt =====
-- `OrderBook::fill` of src/orderbook/order_book.cpp on the order at the front of its level.
use trader_two.Prelude.{
  ℕ, ◌==◌, ℤ, pos, ◌<ℤ◌, ◌≤ℤ◌, ltb_ℤ, true, false, ◌≡◌, refl, if◌then◌else◌, some, arith, ◌∙◌, ap,
  Bool-cases, inl, inr, elem,
}
use trader_two.Prelude.Map.{Map, find, assign, erase, find-assign, find-erase}
use trader_two.Order.{Order, is_buy}
use trader_two.Level.{Level, sub_from_total, remove, after_fill, head_of}
use trader_two.Level.Fills.{left-pos, sub_pos, reduce_front-partly, reduce_front-wholly}
use trader_two.Level.Keeps.{Rests}
use trader_two.OrderBook.{
  OrderBook, update_level, dequeue, destroy_level, fill, after_reduce, Freed,
}
use trader_two.OrderBook.Coherent.{levels_of, IsValid}
use trader_two.OrderBook.Moves.{update_level-Sorted}
use trader_two.OrderBook.Moves.Dequeue.{dequeue-Sorted}
use trader_two.OrderBook.Leaves.{known-Rests, leave-Coherent}
use trader_two.OrderBook.Shrinks.{shrink-Coherent, less_on}
use trader_two.OrderBook.Validity.{agrees-assign}
use trader_two.OrderBook.Validity.Reduce.{touched}

-- The order is at the front of the level of its side and price.
pub record IsFront (b : OrderBook) (id : ℕ) (o : Order) (l : Level) : Type 0 where
  pub known : find id b.id_index ≡ some o
  pub level_found : levels_of b (is_buy o) o.price ≡ some l
  pub first : head_of l.queue b.id_index ≡ some o
  pub queued : elem id l.queue ≡ true

-- The book after a fill that leaves some of the order.
abbrev pub partly_filled : ℕ → Order → ℤ → Level → OrderBook → OrderBook
partly_filled id o q l b = record (less_on b (is_buy o) q l) {
  id_index = assign id (after_fill q o) b.id_index;
}

-- The book after a fill of all that the order has left.
abbrev pub wholly_filled : ℕ → Order → OrderBook → OrderBook
wholly_filled id o b = record (dequeue o (is_buy o) b) {
  id_index = erase id (assign id (after_fill o.remaining o) b.id_index);
}

module _ (freed : Freed) (b : OrderBook) (id : ℕ) (o : Order) (l : Level) (q : ℤ) (v : IsValid b)
    (front : IsFront b id o l) (positive : pos 0 <ℤ q) where
  id_is : o.id ≡ id
  id_is = (known-Rests b id o v front.known).named

  -- Filling the order at the front of its level in a valid book by a positive quantity less than
  -- what it has left keeps it at the front, takes the quantity off what it has left and off the
  -- total of its level, and reports that it still rests.
  pub fill-partly : q <ℤ o.remaining → fill freed id q b ≡ (partly_filled id o q l b, true)
  unfolding fill
  fill-partly less = rw (
    front.known,
    fill,
    front.level_found,
    reduce_front-partly q o l b.id_index front.first positive less,
    after_reduce,
    id_is,
  )

  -- The last two steps of a fill that consumes the front, where `p` is the price that is read.
  finished : ℤ → Map Order → OrderBook
  finished p index =
      let b' = record (update_level (is_buy o) (remove o l) b) { id_index = index } in
      if (remove o l).order_count == 0 then destroy_level p (is_buy o) b' else b'

  -- Unlinking the front and destroying its level is `dequeue`.
  finished-dequeue :
      (index : Map Order)
      → finished o.price index ≡ record (dequeue o (is_buy o) b) { id_index = index }
  unfolding finished dequeue destroy_level
  finished-dequeue index = elim (Bool-cases ((remove o l).order_count == 0)) [
    | inl e ↦ rw (front.level_found, dequeue, e)
    | inr e ↦ rw (front.level_found, dequeue, e)
  ]

  fill-finished :
      o.remaining ≤ℤ q
      → fill freed id q b ≡ (
        finished (freed o).price (erase id (assign o.id (after_fill o.remaining o) b.id_index)),
        false,
      )
  unfolding fill finished after_reduce
  fill-finished enough = rw (
    front.known,
    fill,
    front.level_found,
    reduce_front-wholly q o l b.id_index front.first positive enough,
  )

  pub fill-wholly :
      (freed o).price ≡ o.price
      → o.remaining ≤ℤ q
      → fill freed id q b ≡ (wholly_filled id o b, false)
  fill-wholly keeps enough =
      let o' = after_fill o.remaining o in
      fill-finished enough
      ∙ ap (λ x. (x, false))
          (ap (λ p. finished p (erase id (assign o.id o' b.id_index))) keeps
            ∙ finished-dequeue (erase id (assign o.id o' b.id_index))
            ∙ ap
                (λ k. record (dequeue o (is_buy o) b) {
                  id_index = erase id (assign k o' b.id_index);
                })
                id_is)

  filled-Rests : q <ℤ o.remaining → Rests (is_buy o) o.price id (after_fill q o)
  unfolding after_fill
  filled-Rests less =
      let r = known-Rests b id o v front.known in
      record {
        named = r.named;
        on_side = refl;
        at_price = refl;
        some_left = sub_pos o.remaining q less;
        not_gone = rw (left-pos o.remaining q less) (touched o.status ∙ r.not_gone);
        limited = r.limited;
      }

  partly_filled-IsValid : q <ℤ o.remaining → IsValid (partly_filled id o q l b)
  unfolding after_fill
  partly_filled-IsValid less = record {
    sorted = update_level-Sorted (is_buy o) (sub_from_total q l) b v.sorted;
    coherent =
        shrink-Coherent b id o (after_fill q o) q l
          (λ j. find j (assign id (after_fill q o) b.id_index)) v front.known front.level_found
          front.queued (agrees-assign id (after_fill q o) b.id_index)
          (ground (arith, find-assign id id (after_fill q o) b.id_index)) refl (filled-Rests less);
  }

  wholly_filled-IsValid : IsValid (wholly_filled id o b)
  wholly_filled-IsValid =
      let o' = after_fill o.remaining o in
      record {
        sorted = dequeue-Sorted o (is_buy o) b l front.level_found v.sorted;
        coherent =
            leave-Coherent b id o v front.known (λ j. find j (erase id (assign id o' b.id_index)))
              (λ j ne.
                ground (
                  arith,
                  find-erase j id (assign id o' b.id_index),
                  find-assign j id o' b.id_index,
                ))
              (ground (arith, find-erase id id (assign id o' b.id_index)));
      }

  -- Filling the order at the front of its level by a positive quantity keeps a valid book valid, if
  -- the price of a destroyed order reads as it was.
  pub fill-IsValid : (freed o).price ≡ o.price → IsValid (fill freed id q b).0
  fill-IsValid keeps = elim (Bool-cases (ltb_ℤ q o.remaining)) [
    | inl less ↦
        rw (fill-partly (ground (arith, less))) (partly_filled-IsValid (ground (arith, less)))
    | inr more ↦ rw (fill-wholly keeps (ground (arith, more))) wholly_filled-IsValid
  ]
