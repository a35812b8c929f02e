-- ===== src/OrderBook/Validity.antt =====
-- The invariant of a book under `insert` and `cancel` of src/orderbook/order_book.cpp.
pub mod Reduce
pub mod Replace
pub mod Modify
pub mod Fill
use mathlib.Core.Bool.{false≢true}
use trader_two.Prelude.{
  ℕ, zero, ◌==◌, ◌<◌, ℤ, pos, ◌-ℤ◌, ◌<ℤ◌, ◌≤ℤ◌, ltb_ℤ, leb_ℤ, Bool, true, false, not, ◌&&◌, ◌||◌,
  ◌≡◌, ◌≢◌, refl, if◌then◌else◌, Option, none, some, arith, ◌∙◌, sym, ap, Bool-cases, Option-cases,
  inl, inr, ◌⊎◌, subst, elem, some_inj, none_ne_some, List, [], ==_iff, int_laws, -ℤ_parts,
}
use trader_two.Prelude.Map.{
  Map, find, assign, erase, emplace, find-assign, find-erase, find-emplace_new,
}
use trader_two.Types.{price_is_valid, quantity_is_valid, quantity_is_valid→range, invalid_order_id}
use trader_two.Order.{Order, is_buy, is_limit, status_is_gone, touch_status}
use trader_two.Level.{Level, sub_from_total}
use trader_two.Level.Keeps.{Rests, AgreesOff}
use trader_two.OrderBook.{
  OrderBook, ladder, new_book, insert, cancel, reduce, enqueue, dequeue, shrink_level,
}
use trader_two.OrderBook.Ladder.{find_level, owner}
use trader_two.OrderBook.Coherent.{levels_of, index_of, owners_of, IsValid, Coherent, Queued}
use trader_two.OrderBook.Moves.{update_level-Sorted}
use trader_two.OrderBook.Moves.Dequeue.{dequeue-Sorted, index-dequeue}
use trader_two.OrderBook.Moves.Enqueue.{enqueue-Sorted, index-enqueue}
use trader_two.OrderBook.Leaves.{known-Rests, leave-Coherent}
use trader_two.OrderBook.Joins.{IsFree, join-Coherent}
use trader_two.OrderBook.Shrinks.{shrink-Coherent, less_on}

-- A new book is valid.
pub new_book-IsValid : (i : ℕ) → IsValid (new_book i)
unfolding new_book find_level find owner
new_book-IsValid i = record {
  sorted = elim [ true ↦ tt | false ↦ tt ];
  coherent = record {
    levels = λ s p l h. absurd (no_level s p l h);
    queued = λ k o h. absurd (none_ne_some h);
    live = λ s p l h. absurd (no_level s p l h);
    tight = λ s p h. absurd (none_ne_some h);
  };
}
  where
    no_level : (s : Bool) (p : ℤ) (l : Level) → ¬ (levels_of (new_book i) s p ≡ some l)
    no_level true p l h = none_ne_some h
    no_level false p l h = none_ne_some h

pub agrees-emplace :
    (k : ℕ) (o : Order) (m : Map Order)
    → find k m ≡ none
    → AgreesOff k (λ j. find j m) (λ j. find j (emplace k o m))
agrees-emplace k o m h j ne = ground (arith, find-emplace_new j k o m h)

pub agrees-erase : (k : ℕ) (m : Map Order) → AgreesOff k (λ j. find j m) (λ j. find j (erase k m))
agrees-erase k m j ne = ground (arith, find-erase j k m)

pub agrees-assign :
    (k : ℕ) (o : Order) (m : Map Order) → AgreesOff k (λ j. find j m) (λ j. find j (assign k o m))
agrees-assign k o m j ne = ground (arith, find-assign j k o m)

-- What `insert` asks of an order.
pub record Insertable (b : OrderBook) (o : Order) : Type 0 where
  pub named : o.id ≢ invalid_order_id
  pub limited : is_limit o ≡ true
  pub priced : price_is_valid o.price ≡ true
  pub sized : quantity_is_valid o.remaining ≡ true
  pub unknown : find o.id b.id_index ≡ none

-- The book after an insertion.
abbrev pub inserted : Order → OrderBook → OrderBook
inserted o b =
    let b' = enqueue o (is_buy o) b in record b' { id_index = emplace o.id o b'.id_index }

-- An order is inserted, by `inserted`, exactly if it has an id that the book does not know, is a limit
-- order and has a valid price and a valid quantity left.
pub insert-cases :
    (o : Order) (b : OrderBook)
    → (Insertable b o × (insert (some o) b ≡ (inserted o b, true)))
      ⊎ (¬ (Insertable b o) × (insert (some o) b ≡ (b, false)))
unfolding insert
insert-cases o b = elim (Bool-cases (o.id == invalid_order_id)) [
  | inl e ↦ inr (λ i. i.named ((==_iff o.id 0).0 e), rw e)
  | inr named ↦ elim (Bool-cases (is_limit o)) [
    | inr e ↦ inr (λ i. false≢true (sym e ∙ i.limited), rw (named, e))
    | inl limited ↦ elim (Bool-cases (price_is_valid o.price)) [
      | inr e ↦ inr (λ i. false≢true (sym e ∙ i.priced), rw (named, limited, e))
      | inl priced ↦ elim (Bool-cases (quantity_is_valid o.remaining)) [
        | inr e ↦ inr (λ i. false≢true (sym e ∙ i.sized), rw (named, limited, priced, e))
        | inl sized ↦ elim (Option-cases (find o.id b.id_index)) [
          | inr (u, e) ↦
              inr (λ i. none_ne_some (sym i.unknown ∙ e), rw (named, limited, priced, sized, e))
          | inl unknown ↦ inl (
            record {
              named = λ z. false≢true (sym named ∙ (==_iff o.id 0).1 z);
              limited = limited;
              priced = priced;
              sized = sized;
              unknown = unknown;
            },
            rw (named, limited, priced, sized, unknown),
          )
        ]
      ]
    ]
  ]
]

Insertable-Rests :
    (b : OrderBook) (o : Order)
    → status_is_gone o.status ≡ false
    → Insertable b o
    → Rests (is_buy o) o.price o.id o
Insertable-Rests b o working i = record {
  named = refl;
  on_side = refl;
  at_price = refl;
  some_left = (quantity_is_valid→range o.remaining i.sized).0;
  not_gone = working;
  limited = i.limited;
}

inserted-index :
    (o : Order) (b : OrderBook) → index_of (inserted o b) ≡ λ j. find j (emplace o.id o b.id_index)
inserted-index o b = rw (index-enqueue o (is_buy o) b)

-- Inserting an order that is not filled or cancelled keeps a valid book valid, if the other side
-- has no level at its price.
pub insert-IsValid :
    (b : OrderBook) (o : Order)
    → IsValid b
    → status_is_gone o.status ≡ false
    → IsFree b (not (is_buy o)) o.price
    → IsValid (insert (some o) b).0
insert-IsValid b o v working free = elim (insert-cases o b) [
  | inr (_, e) ↦ rw e v
  | inl (i, e) ↦ rw e (record {
    sorted = enqueue-Sorted o (is_buy o) b v.sorted _ refl;
    coherent = rw (inserted-index o b) (
        join-Coherent b o.id o (λ j. find j (emplace o.id o b.id_index)) v.coherent
          (agrees-emplace o.id o b.id_index i.unknown) i.unknown
          (ground (arith, find-emplace_new o.id o.id o b.id_index i.unknown))
          (Insertable-Rests b o working i) i.priced free);
  })
]

-- The book after a cancellation.
abbrev pub cancelled_book : ℕ → Order → OrderBook → OrderBook
cancelled_book id o b =
    let b' = dequeue o (is_buy o) b in record b' { id_index = erase id b'.id_index }

-- Every order of a valid book can be cancelled.
pub cancel-known :
    (b : OrderBook) (id : ℕ) (o : Order)
    → IsValid b
    → find id b.id_index ≡ some o
    → cancel id b ≡ (cancelled_book id o b, true)
unfolding cancel
cancel-known b id o v e = rw (e, cancel, (known-Rests b id o v e).not_gone)

pub cancel-unknown : (b : OrderBook) (id : ℕ) → find id b.id_index ≡ none → cancel id b ≡ (b, false)
unfolding cancel
cancel-unknown b id e = rw (e, cancel)

known-home :
    (b : OrderBook) (id : ℕ) (o : Order)
    → IsValid b
    → find id b.id_index ≡ some o
    → Queued (levels_of b) id o
known-home b id o v e = v.coherent.queued id o e

pub index-dequeue_known :
    (b : OrderBook) (id : ℕ) (o : Order)
    → IsValid b
    → find id b.id_index ≡ some o
    → (dequeue o (is_buy o) b).id_index ≡ b.id_index
index-dequeue_known b id o v e =
    index-dequeue o (is_buy o) b (known-home b id o v e).level (known-home b id o v e).found

cancelled-index :
    (b : OrderBook) (id : ℕ) (o : Order)
    → IsValid b
    → find id b.id_index ≡ some o
    → index_of (cancelled_book id o b) ≡ λ j. find j (erase id b.id_index)
cancelled-index b id o v e = rw (index-dequeue_known b id o v e)

-- A cancellation, of a known order or an unknown one, keeps a valid book valid.
pub cancel-IsValid : (b : OrderBook) (id : ℕ) → IsValid b → IsValid (cancel id b).0
cancel-IsValid b id v = elim (Option-cases (find id b.id_index)) [
  | inl e ↦ rw (cancel-unknown b id e) v
  | inr (o, e) ↦ rw (cancel-known b id o v e) (record {
    sorted = dequeue-Sorted o (is_buy o) b _ (known-home b id o v e).found v.sorted;
    coherent = rw (cancelled-index b id o v e) (
        leave-Coherent b id o v e (λ j. find j (erase id b.id_index)) (agrees-erase id b.id_index)
          (ground (arith, find-erase id id b.id_index)));
  })
]
