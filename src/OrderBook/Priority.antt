-- ===== src/OrderBook/Priority.antt =====
-- The places that `insert` and `cancel` of src/orderbook/order_book.cpp change.
use mathlib.Core.Bool.{false≢true}
use trader_two.Prelude.{
  ℕ, ◌+◌, ◌-◌, ◌==◌, ==_iff, ◌<◌, ℤ, ◌+ℤ◌, ◌-ℤ◌, Bool, true, false, not, ◌≡◌, refl, Option, some,
  none, arith, sym, ap, ap₂, ◌∙◌, List, [], ◌∷◌, ◌++◌, if◌then◌else◌, inl, inr, elem, unlink,
  int_laws, Bool-cases, none_ne_some,
}
use trader_two.Prelude.Map.{find, find-emplace_new, find-erase}
use trader_two.Order.{Order, is_buy, status_is_gone}
use trader_two.Level.{Level, append, remove, empty_level}
use trader_two.OrderBook.{OrderBook, insert, cancel}
use trader_two.OrderBook.Coherent.{levels_of, IsValid, place-cases}
use trader_two.OrderBook.Moves.{Moves}
use trader_two.OrderBook.Moves.Enqueue.{joined, enqueue-Moves, index-enqueue}
use trader_two.OrderBook.Moves.Dequeue.{left_by, dequeue-Moves}
use trader_two.OrderBook.Joins.{IsFree}
use trader_two.OrderBook.Validity.{
  Insertable, inserted, insert-cases, insert-IsValid, cancel-known, index-dequeue_known,
}

insert-Insertable :
    (b : OrderBook) (o : Order) → Insertable b o → insert (some o) b ≡ (inserted o b, true)
insert-Insertable b o i = elim (insert-cases o b) [
  | inl (_, e) ↦ e
  | inr (refused, _) ↦ absurd (refused i)
]

pub insert-Moves :
    (b : OrderBook) (o : Order) (m : Option Level)
    → Insertable b o
    → levels_of b (is_buy o) o.price ≡ m
    → Moves
        (levels_of b)
        (levels_of (insert (some o) b).0)
        (is_buy o)
        o.price
        (some (append o (joined o.price m)))
      × ((j : ℕ)
          → find j (insert (some o) b).0.id_index
            ≡ (if o.id == j then some o else find j b.id_index))
insert-Moves b o m i h = rw (insert-Insertable b o i) (
  enqueue-Moves o (is_buy o) b m h,
  λ j. rw (index-enqueue o (is_buy o) b) (find-emplace_new j o.id o b.id_index i.unknown),
)

-- Cancelling an order of a valid book takes it out of the level of its side and price, and takes
-- that level off the book if the order was alone there, changes no other level, and removes the
-- order and no other from the index.
pub cancel-Moves :
    (b : OrderBook) (id : ℕ) (o : Order) (l : Level)
    → IsValid b
    → find id b.id_index ≡ some o
    → levels_of b (is_buy o) o.price ≡ some l
    → Moves (levels_of b) (levels_of (cancel id b).0) (is_buy o) o.price (left_by o l)
      × ((j : ℕ) → find j (cancel id b).0.id_index ≡ (if id == j then none else find j b.id_index))
cancel-Moves b id o l v e h = rw (cancel-known b id o v e) (
  dequeue-Moves o (is_buy o) b l h v.sorted,
  λ j. rw (index-dequeue_known b id o v e) (find-erase j id b.id_index),
)

unlink-append_one : (k : ℕ) (q : List ℕ) → elem k q ≡ false → unlink k (q ++ (k ∷ [])) ≡ q
unfolding elem unlink
unlink-append_one k [] h = rw ((==_iff k k).1 refl) refl
unlink-append_one k (x ∷ q) h = elim (Bool-cases (x == k)) [
  | inl e ↦ absurd (false≢true (sym h ∙ rw e refl))
  | inr e ↦ rw e (ap (λ t. x ∷ t) (unlink-append_one k q (rw e at h)))
]

one_less : (n : ℕ) → n + 1 - 1 ≡ n
one_less n = omega arith

same_total : (t r : ℤ) → t +ℤ r -ℤ r ≡ t
same_total t r = omega int_laws

remove-append : (o : Order) (l : Level) → elem o.id l.queue ≡ false → remove o (append o l) ≡ l
unfolding remove append
remove-append o l h =
    rw
      (
        unlink-append_one o.id l.queue h,
        one_less l.order_count,
        same_total l.total_quantity o.remaining,
      )
      refl

-- What a level may be where an order is not in it.
abbrev Outside : Order → Option Level → Type 0
Outside o m = (l : Level) → m ≡ some l → (elem o.id l.queue ≡ false) × (0 < l.order_count)

left_by-joined :
    (o : Order) (m : Option Level) → Outside o m → left_by o (append o (joined o.price m)) ≡ m
unfolding remove append empty_level
left_by-joined o none out = refl
left_by-joined o (some l) out =
    let (absent, filled) = out l refl in
    ap (λ l'. if l'.order_count == 0 then none else some l') (remove-append o l absent)
    ∙ rw (positive l.order_count filled) refl
  where
    positive : (n : ℕ) → 0 < n → (n == 0) ≡ false
    positive n h = ground arith

valid-Outside :
    (b : OrderBook) (o : Order)
    → IsValid b
    → find o.id b.id_index ≡ none
    → Outside o (levels_of b (is_buy o) o.price)
valid-Outside b o v unknown l h =
    let (c, filled) = v.coherent.levels (is_buy o) o.price l h in
    (
      elim (Bool-cases (elem o.id l.queue)) [
        | inr out ↦ out
        | inl inside ↦
            let (u, known, _) = c.members o.id inside in absurd (none_ne_some (sym unknown ∙ known))
      ],
      filled,
    )

-- Cancelling an order just after inserting it gives back every level and every order of the index,
-- on a valid book that takes the order, where the order is not a filled or cancelled one and the
-- other side has no level at its price.
pub cancel-insert :
    (b : OrderBook) (o : Order)
    → IsValid b
    → status_is_gone o.status ≡ false
    → IsFree b (not (is_buy o)) o.price
    → Insertable b o
    → ((s : Bool) (p : ℤ) → levels_of (cancel o.id (insert (some o) b).0).0 s p ≡ levels_of b s p)
      × ((j : ℕ) → find j (cancel o.id (insert (some o) b).0).0.id_index ≡ find j b.id_index)
cancel-insert b o v working free i =
    let m = levels_of b (is_buy o) o.price in
    let b' = (insert (some o) b).0 in
    let (joins, index) = insert-Moves b o m i refl in
    let known : find o.id b'.id_index ≡ some o =
      index o.id
      ∙ ap (λ t. if t then some o else find o.id b.id_index) ((==_iff o.id o.id).1 refl) in
    let (leaves, index') =
      cancel-Moves b' o.id o (append o (joined o.price m)) (insert-IsValid b o v working free) known
        joins.here in
    (
      λ s p. elim (place-cases (is_buy o) s o.price p) [
        | inl (same, at) ↦
            ap₂ (levels_of (cancel o.id b').0) same at
            ∙ leaves.here
            ∙ left_by-joined o m (valid-Outside b o v i.unknown)
            ∙ sym (ap₂ (levels_of b) same at)
        | inr far ↦ leaves.others s p far ∙ joins.others s p far
      ],
      λ j. index' j ∙ undone j (index j),
    )
  where
    undone :
        (j : ℕ) {x : Option Order}
        → x ≡ (if o.id == j then some o else find j b.id_index)
        → (if o.id == j then none else x) ≡ find j b.id_index
    undone j h = elim (Bool-cases (o.id == j)) [
      | inl same ↦ rw same (sym i.unknown ∙ ap (λ k. find k b.id_index) ((==_iff o.id j).0 same))
      | inr apart ↦ rw apart (h ∙ rw apart refl)
    ]
