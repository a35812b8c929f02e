-- ===== src/OrderBook/Validity/Replace.antt =====
-- The branch of `OrderBook::modify` that moves an order to another price or to the back.
use trader_two.Prelude.{ℕ, ℤ, Bool, true, false, not, ◌≡◌, refl, some, arith, ◌∙◌, sym, ap, subst}
use trader_two.Prelude.Map.{find, assign, erase, find-assign, find-erase}
use trader_two.Types.{price_is_valid, quantity_is_valid, quantity_is_valid→range}
use trader_two.Order.{Order, new, is_buy}
use trader_two.Level.Sums.{Index}
use trader_two.Level.Keeps.{Rests}
use trader_two.OrderBook.{OrderBook, dequeue, replace}
use trader_two.OrderBook.Coherent.{levels_of, index_of, owners_of, IsValid, Coherent}
use trader_two.OrderBook.Moves.Dequeue.{dequeue-Sorted, dequeue-Moves}
use trader_two.OrderBook.Moves.Enqueue.{enqueue-Sorted, index-enqueue}
use trader_two.OrderBook.Leaves.{known-Rests, leave-Coherent}
use trader_two.OrderBook.Joins.{IsFree, join-Coherent}
use trader_two.OrderBook.Shrinks.{home_of}
use trader_two.OrderBook.Validity.{agrees-erase, index-dequeue_known}

not_ne : (s : Bool) → ¬ (not s ≡ s)
not_ne true e = ground arith
not_ne false e = ground arith

-- What `modify` writes to an order that it moves.
abbrev pub replaced_by : ℤ → ℤ → Order → Order
replaced_by q p o = record o { price = p; quantity = q; remaining = q; status = new }

-- The book between the two steps of `replace`, and the index after it.
abbrev pub taken_out : ℕ → Order → ℤ → ℤ → OrderBook → OrderBook
taken_out id o q p b =
    let b' = dequeue o (is_buy o) b in
    record b' { id_index = assign id (replaced_by q p o) b'.id_index }

module _ (b : OrderBook) (id : ℕ) (o : Order) (q p : ℤ) (v : IsValid b)
    (e : find id b.id_index ≡ some o) (sized : quantity_is_valid q ≡ true)
    (priced : price_is_valid p ≡ true) (free : IsFree b (not (is_buy o)) p) where
  new-Rests : Rests (is_buy o) p id (replaced_by q p o)
  new-Rests = record {
    named = (known-Rests b id o v e).named;
    on_side = refl;
    at_price = refl;
    some_left = (quantity_is_valid→range q sized).0;
    not_gone = refl;
    limited = (known-Rests b id o v e).limited;
  }

  -- The index while the order is out of its level, and the one that `replace` leaves.
  without : Index
  without j = find j (erase id b.id_index)

  rewritten : Index
  rewritten j = find j (assign id (replaced_by q p o) b.id_index)

  taken_out-Coherent :
      Coherent (levels_of (taken_out id o q p b)) without (owners_of (taken_out id o q p b))
  unfolding without
  taken_out-Coherent =
      leave-Coherent b id o v e without (agrees-erase id b.id_index)
        (ground (arith, find-erase id id b.id_index))

  still-IsFree : IsFree (taken_out id o q p b) (not (is_buy o)) p
  still-IsFree =
      let home = home_of b id o v e in
      (dequeue-Moves o (is_buy o) b home.level home.found v.sorted).others (not (is_buy o)) p
        (λ x. not_ne (is_buy o) x.0)
      ∙ free

  joined-Coherent :
      Coherent (levels_of (replace id o q p b)) rewritten (owners_of (replace id o q p b))
  unfolding replace without rewritten
  joined-Coherent =
      join-Coherent (taken_out id o q p b) id (replaced_by q p o) rewritten taken_out-Coherent
        (λ j ne.
          ground
            (arith, find-assign j id (replaced_by q p o) b.id_index, find-erase j id b.id_index))
        (ground (arith, find-erase id id b.id_index))
        (ground (arith, find-assign id id (replaced_by q p o) b.id_index)) new-Rests priced
        still-IsFree

  index-replace : index_of (replace id o q p b) ≡ rewritten
  unfolding replace rewritten
  index-replace =
      ap {B = Index} (λ m j. find j m)
        (index-enqueue (replaced_by q p o) (is_buy o) (taken_out id o q p b)
          ∙ ap (assign id (replaced_by q p o)) (index-dequeue_known b id o v e))

  pub replace-IsValid : IsValid (replace id o q p b)
  unfolding replace
  replace-IsValid = record {
    sorted =
        let home = home_of b id o v e in
        enqueue-Sorted (replaced_by q p o) (is_buy o) (taken_out id o q p b)
          (dequeue-Sorted o (is_buy o) b home.level home.found v.sorted) _ refl;
    coherent =
        subst (λ i. Coherent (levels_of (replace id o q p b)) i (owners_of (replace id o q p b)))
          (sym index-replace) joined-Coherent;
  }
