-- ===== src/OrderBook/Effects.antt =====
-- What `insert`, `reduce` and `modify` of src/orderbook/order_book.cpp do to the levels and to the index.
use trader_two.Prelude.{
  ℕ, ◌==◌, ℤ, pos, ◌-ℤ◌, ◌<ℤ◌, Bool, true, false, ◌≡◌, ◌≢◌, refl, some, none, sym, ap, ◌∙◌, subst,
  if◌then◌else◌, inl, inr, ◌⊎◌,
}
use trader_two.Prelude.Map.{find, assign, find-assign}
use trader_two.Types.{price_is_valid, quantity_is_valid}
use trader_two.Order.{Order, new, is_buy, touch_status}
use trader_two.Level.{Level, append, sub_from_total}
use trader_two.OrderBook.{
  OrderBook, insert, reduce, modify, shrink, shrink_level, update_level, replace, ModifyResult,
  not_found, rejected, modified, replaced,
}
use trader_two.OrderBook.Coherent.{Levels, levels_of, IsValid}
use trader_two.OrderBook.Moves.{Moves, update_level-Moves}
use trader_two.OrderBook.Moves.Enqueue.{joined, enqueue-Moves, index-enqueue}
use trader_two.OrderBook.Moves.Dequeue.{left_by, dequeue-Moves}
use trader_two.OrderBook.Shrinks.{home_of}
use trader_two.OrderBook.Validity.{Insertable, insert-cases, index-dequeue_known}
use trader_two.OrderBook.Validity.Reduce.{with_less, reduced_to, reduce-cases}
use trader_two.OrderBook.Validity.Replace.{replaced_by, taken_out}
use trader_two.OrderBook.Validity.Modify.{
  Modifies, missing, refused, unchanged, shrunk, moved, modify-Modifies,
}
use trader_two.OrderBook.Priority.{insert-Moves}

-- The index finds this order under this id, and every other as before.
abbrev pub Knows : OrderBook → OrderBook → ℕ → Order → Type 0
Knows b b' id o = (j : ℕ) → find j b'.id_index ≡ (if id == j then some o else find j b.id_index)

-- A book where an order has joined the back of the queue of its level, which is new if there was none.
abbrev pub Joins : OrderBook → OrderBook → Order → Type 0
Joins b b' o =
    Moves (levels_of b) (levels_of b') (is_buy o) o.price
      (some (append o (joined o.price (levels_of b (is_buy o) o.price))))
    × Knows b b' o.id o

-- An order is inserted exactly if it has an id that the book does not know, is a limit order and
-- has a valid price and a valid quantity left: then it is at the back of the queue of the level of
-- its side and price, new if there was none, and counts in it, no other level changes, and the
-- index finds it and every other order as before; any other order leaves the book as it was, and
-- the insertion reports which.
pub insert-Joins :
    (o : Order) (b : OrderBook)
    → (Insertable b o × ((insert (some o) b).1 ≡ true) × Joins b (insert (some o) b).0 o)
      ⊎ (¬ (Insertable b o) × (insert (some o) b ≡ (b, false)))
insert-Joins o b = elim (insert-cases o b) [
  | inr h ↦ inr h
  | inl (i, e) ↦ inl (
    i,
    ap (λ (r : OrderBook × Bool). r.1) e,
    insert-Moves b o (levels_of b (is_buy o) o.price) i refl,
  )
]

-- A book where an order keeps its place and its level has `d` less in total.
abbrev pub Lessens : OrderBook → OrderBook → ℕ → Order → Order → ℤ → Type 0
Lessens b b' id o o' d =
    ((l : Level) × (levels_of b (is_buy o) o.price ≡ some l)
      × Moves (levels_of b) (levels_of b') (is_buy o) o.price
          (some (record l { total_quantity = l.total_quantity -ℤ d })))
    × Knows b b' id o'

with_less-Lessens :
    (b : OrderBook) (id : ℕ) (o o' : Order) (q : ℤ)
    → IsValid b
    → find id b.id_index ≡ some o
    → Lessens b (with_less id o o' q b) id o o' (o.remaining -ℤ q)
unfolding shrink_level sub_from_total
with_less-Lessens b id o o' q v e =
    let home = home_of b id o v e in
    let l = home.level in
    let l' : Level = sub_from_total (o.remaining -ℤ q) l in
    let priced = (v.coherent.levels (is_buy o) o.price l home.found).0.priced in
    rw (home.found, shrink_level)
      (
        (
          l,
          refl,
          subst
              (λ r.
                Moves (levels_of b) (levels_of (update_level (is_buy o) l' b)) (is_buy o) r
                  (some l'))
              priced
              (update_level-Moves (is_buy o) l' l b
                (subst (λ r. levels_of b (is_buy o) r ≡ some l) (sym priced) home.found)),
        ),
        λ j. find-assign j id o' b.id_index,
      )

-- On a valid book a reduction is refused, and the book stays as it was, if no known order has more
-- left than a positive new quantity; otherwise the total of the order's level falls by the
-- difference while its queue and its count stay, no other level changes, and the index finds the
-- order with the new quantity left and every other order as before.
pub reduce-Lessens :
    (b : OrderBook) (id : ℕ) (q : ℤ)
    → IsValid b
    → ((reduce id q b ≡ (b, false))
        × ((o : Order) → find id b.id_index ≡ some o → ¬ ((pos 0 <ℤ q) × (q <ℤ o.remaining))))
      ⊎ ((o : Order) × (find id b.id_index ≡ some o)
          × (pos 0 <ℤ q)
          × (q <ℤ o.remaining)
          × ((reduce id q b).1 ≡ true)
          × Lessens b
              (reduce id q b).0
              id
              o
              (record o { remaining = q; status = touch_status o.status })
              (o.remaining -ℤ q))
reduce-Lessens b id q v = elim (reduce-cases b id q v) [
  | inl h ↦ inl h
  | inr (o, e, positive, less, done) ↦ inr (
    o,
    e,
    positive,
    less,
    ap (λ (r : OrderBook × Bool). r.1) done,
    rw done (with_less-Lessens b id o (reduced_to q o) q v e),
  )
]

-- An order that has left its level, which goes if it was alone there, and joined the queue at its new
-- place at the back.
abbrev pub Requeues : OrderBook → OrderBook → ℕ → Order → Order → Type 0
Requeues b b' id o o' =
    ((l : Level) × (between : Levels) × (levels_of b (is_buy o) o.price ≡ some l)
      × Moves (levels_of b) between (is_buy o) o.price (left_by o l)
      × Moves between (levels_of b') (is_buy o) o'.price
          (some (append o' (joined o'.price (between (is_buy o) o'.price)))))
    × Knows b b' id o'

replace-Requeues :
    (b : OrderBook) (id : ℕ) (o : Order) (q p : ℤ)
    → IsValid b
    → find id b.id_index ≡ some o
    → Requeues b (replace id o q p b) id o (replaced_by q p o)
unfolding replace
replace-Requeues b id o q p v e =
    let home = home_of b id o v e in
    let b' = taken_out id o q p b in
    (
      (
        home.level,
        levels_of b',
        home.found,
        dequeue-Moves o (is_buy o) b home.level home.found v.sorted,
        enqueue-Moves (replaced_by q p o) (is_buy o) b' (levels_of b' (is_buy o) p) refl,
      ),
      λ j.
          ap (find j) (
            index-enqueue (replaced_by q p o) (is_buy o) b'
            ∙ ap (assign id (replaced_by q p o)) (index-dequeue_known b id o v e))
          ∙ find-assign j id (replaced_by q p o) b.id_index,
    )

-- What `modify` leaves and answers.
pub data Edits (b : OrderBook) (id : ℕ) (q p : ℤ) : OrderBook × ModifyResult → Type 0 where
  unknown : find id b.id_index ≡ none → Edits b id q p (b, not_found)
  invalid :
      (o : Order)
      → find id b.id_index ≡ some o
      → (quantity_is_valid q ≡ false) ⊎ (price_is_valid p ≡ false)
      → Edits b id q p (b, rejected)
  kept :
      (o : Order)
      → find id b.id_index ≡ some o
      → p ≡ o.price
      → q ≡ o.remaining
      → Edits b id q p (b, modified)
  lessened :
      {b' : OrderBook} (o : Order)
      → find id b.id_index ≡ some o
      → quantity_is_valid q ≡ true
      → p ≡ o.price
      → q <ℤ o.remaining
      → Lessens b b' id o
          (record o {
            remaining = q;
            quantity = o.quantity -ℤ (o.remaining -ℤ q);
            status = touch_status o.status;
          })
          (o.remaining -ℤ q)
      → Edits b id q p (b', modified)
  requeued :
      {b' : OrderBook} (o : Order)
      → find id b.id_index ≡ some o
      → quantity_is_valid q ≡ true
      → price_is_valid p ≡ true
      → (p ≢ o.price) ⊎ (o.remaining <ℤ q)
      → Requeues b b' id o (record o { price = p; quantity = q; remaining = q; status = new })
      → Edits b id q p (b', replaced)

Modifies-Edits :
    (b : OrderBook) (id : ℕ) (q p : ℤ) {r : OrderBook × ModifyResult}
    → IsValid b
    → Modifies b id q p r
    → Edits b id q p r
unfolding shrink
Modifies-Edits b id q p v (missing e) = unknown e
Modifies-Edits b id q p v (refused o e h) = invalid o e h
Modifies-Edits b id q p v (unchanged o e f g) = kept o e f g
Modifies-Edits b id q p v (shrunk o e sized f less) =
    lessened o e sized f less (with_less-Lessens b id o _ q v e)
Modifies-Edits b id q p v (moved o e sized priced differ) =
    requeued o e sized priced differ (replace-Requeues b id o q p v e)

-- On a valid book a modification is answered with not found for an unknown order and with rejected
-- for an invalid quantity or price, and changes nothing then or for the same price and quantity.
-- For the same price and less of it the queue of the order's level stays and its total falls by the
-- difference. Otherwise the order leaves its level, which goes if it was alone there, and joins the
-- back of the queue at the new price, and no other level changes. The index then finds the order as
-- it was modified, and every other order as before.
pub modify-Edits : (b : OrderBook) (id : ℕ) (q p : ℤ) → IsValid b → Edits b id q p (modify id q p b)
modify-Edits b id q p v = Modifies-Edits b id q p v (modify-Modifies b id q p v)
