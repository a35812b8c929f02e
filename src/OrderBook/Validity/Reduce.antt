-- ===== src/OrderBook/Validity/Reduce.antt =====
-- `OrderBook::reduce` of src/orderbook/order_book.cpp, and any step that leaves an order less.
use trader_two.Prelude.{
  ℕ, ℤ, pos, ◌-ℤ◌, ◌<ℤ◌, leb_ℤ, true, false, ◌||◌, ◌≡◌, refl, some, arith, ◌∙◌, sym, Bool-cases,
  Option-cases, inl, inr, ◌⊎◌, subst, some_inj, none_ne_some, int_laws,
}
use trader_two.Prelude.Map.{find, assign, find-assign}
use trader_two.Order.{Order, OrderStatus, is_buy, status_is_gone, touch_status}
use trader_two.Level.{sub_from_total}
use trader_two.Level.Keeps.{Rests}
use trader_two.OrderBook.{OrderBook, reduce, shrink_level}
use trader_two.OrderBook.Coherent.{IsValid}
use trader_two.OrderBook.Moves.{update_level-Sorted}
use trader_two.OrderBook.Leaves.{known-Rests}
use trader_two.OrderBook.Shrinks.{shrink-Coherent, home_of}
use trader_two.OrderBook.Validity.{agrees-assign}

sub_sub : (r q : ℤ) → q ≡ r -ℤ (r -ℤ q)
sub_sub r q = omega int_laws

pub touched : (s : OrderStatus) → status_is_gone (touch_status s) ≡ status_is_gone s
touched s = ground arith

-- An order of the book with less left, and a new record of it in the index.
abbrev pub with_less : ℕ → Order → Order → ℤ → OrderBook → OrderBook
with_less id o o' q b =
    let b' = shrink_level o (o.remaining -ℤ q) b in
    record b' { id_index = assign id o' b'.id_index }

pub with_less-IsValid :
    (b : OrderBook) (id : ℕ) (o o' : Order) (q : ℤ)
    → IsValid b
    → find id b.id_index ≡ some o
    → Rests (is_buy o) o.price id o'
    → o'.remaining ≡ q
    → IsValid (with_less id o o' q b)
unfolding shrink_level
with_less-IsValid b id o o' q v e rests left =
    let home = home_of b id o v e in
    rw (home.found, shrink_level)
      (record {
        sorted =
            update_level-Sorted (is_buy o) (sub_from_total (o.remaining -ℤ q) home.level) b
              v.sorted;
        coherent =
            shrink-Coherent b id o o' (o.remaining -ℤ q) home.level
              (λ j. find j (assign id o' b.id_index)) v e home.found home.inside
              (agrees-assign id o' b.id_index) (ground (arith, find-assign id id o' b.id_index))
              (left ∙ sub_sub o.remaining q) rests;
      })

-- What `reduce` writes to the order.
abbrev pub reduced_to : ℤ → Order → Order
reduced_to q o = record o { remaining = q; status = touch_status o.status }

-- On a valid book a reduction is refused if no known order has more left than a positive new quantity;
-- otherwise it leaves the book `with_less`.
pub reduce-cases :
    (b : OrderBook) (id : ℕ) (q : ℤ)
    → IsValid b
    → ((reduce id q b ≡ (b, false))
        × ((o : Order) → find id b.id_index ≡ some o → ¬ ((pos 0 <ℤ q) × (q <ℤ o.remaining))))
      ⊎ ((o : Order) × (find id b.id_index ≡ some o)
          × (pos 0 <ℤ q)
          × (q <ℤ o.remaining)
          × (reduce id q b ≡ (with_less id o (reduced_to q o) q b, true)))
unfolding reduce
reduce-cases b id q v = elim (Option-cases (find id b.id_index)) [
  | inl e ↦ inl (rw (e, reduce), λ o f. absurd (none_ne_some (sym e ∙ f)))
  | inr (o, e) ↦ elim (Bool-cases (leb_ℤ q (pos 0) || leb_ℤ o.remaining q)) [
    | inl out ↦ inl (
      rw (e, reduce, (known-Rests b id o v e).not_gone, out),
      λ u f r.
          let same = some_inj (sym e ∙ f) in
          absurd (ground (arith, out, r.0, subst (λ x. q <ℤ x.remaining) (sym same) r.1)),
    )
    | inr fits ↦ inr (
      o,
      e,
      ground (arith, fits),
      ground (arith, fits),
      rw (e, reduce, (known-Rests b id o v e).not_gone, fits),
    )
  ]
]

-- A reduction, whether it is refused or not, keeps a valid book valid.
pub reduce-IsValid : (b : OrderBook) (id : ℕ) (q : ℤ) → IsValid b → IsValid (reduce id q b).0
reduce-IsValid b id q v = elim (reduce-cases b id q v) [
  | inl (e, _) ↦ rw e v
  | inr (o, e, positive, less, done) ↦
      let r = known-Rests b id o v e in
      rw done (
        with_less-IsValid b id o (reduced_to q o) q v e
          (record {
            named = r.named;
            on_side = refl;
            at_price = refl;
            some_left = positive;
            not_gone = touched o.status ∙ r.not_gone;
            limited = r.limited;
          })
          refl)
]
