-- ===== src/OrderBook/Validity/Modify.antt =====
-- `OrderBook::modify` of src/orderbook/order_book.cpp by its branches.
use mathlib.Core.Bool.{false≢true}
use trader_two.Prelude.{
  ℕ, ℤ, ◌<ℤ◌, ltb_ℤ, eq_ℤ, true, false, not, ◌&&◌, ◌≡◌, ◌≢◌, refl, none, some, arith, ◌∙◌, sym,
  Bool-cases, Option-cases, inl, inr, ◌⊎◌, eq_ℤ_iff,
}
use trader_two.Prelude.Map.{find}
use trader_two.Types.{price_is_valid, quantity_is_valid, quantity_is_valid→range}
use trader_two.Order.{Order, is_buy, is_limit, is_market}
use trader_two.OrderBook.{
  OrderBook, modify, shrink, replace, ModifyResult, not_found, rejected, modified, replaced,
}
use trader_two.OrderBook.Coherent.{IsValid}
use trader_two.OrderBook.Leaves.{known-Rests}
use trader_two.OrderBook.Joins.{IsFree}
use trader_two.OrderBook.Validity.Reduce.{with_less-IsValid, touched}
use trader_two.OrderBook.Validity.Replace.{replace-IsValid}

-- The book after `modify`, by the branch that it takes.
pub data Modifies (b : OrderBook) (id : ℕ) (q p : ℤ) : OrderBook × ModifyResult → Type 0 where
  missing : find id b.id_index ≡ none → Modifies b id q p (b, not_found)
  refused :
      (o : Order)
      → find id b.id_index ≡ some o
      → (quantity_is_valid q ≡ false) ⊎ (price_is_valid p ≡ false)
      → Modifies b id q p (b, rejected)
  unchanged :
      (o : Order)
      → find id b.id_index ≡ some o
      → p ≡ o.price
      → q ≡ o.remaining
      → Modifies b id q p (b, modified)
  shrunk :
      (o : Order)
      → find id b.id_index ≡ some o
      → quantity_is_valid q ≡ true
      → p ≡ o.price
      → q <ℤ o.remaining
      → Modifies b id q p (shrink id o q b, modified)
  moved :
      (o : Order)
      → find id b.id_index ≡ some o
      → quantity_is_valid q ≡ true
      → price_is_valid p ≡ true
      → (p ≢ o.price) ⊎ (o.remaining <ℤ q)
      → Modifies b id q p (replace id o q p b, replaced)

not_market : (o : Order) → is_limit o ≡ true → is_market o ≡ false
not_market o h = ground arith

-- Neither the same nor less at the same price: another price, or more.
moves :
    (p q : ℤ) (o : Order)
    → (eq_ℤ p o.price && eq_ℤ q o.remaining) ≡ false
    → (eq_ℤ p o.price && ltb_ℤ q o.remaining) ≡ false
    → (p ≢ o.price) ⊎ (o.remaining <ℤ q)
moves p q o h k = elim (Bool-cases (eq_ℤ p o.price)) [
  | inr ne ↦ inl (λ e. false≢true (sym ne ∙ (eq_ℤ_iff p o.price).1 e))
  | inl e ↦ inr (ground (arith, e, h, k))
]

-- The branches on a known order.
modify-known :
    (b : OrderBook) (id : ℕ) (q p : ℤ)
    → IsValid b
    → (o : Order) → find id b.id_index ≡ some o
    → Modifies b id q p (modify id q p b)
unfolding modify
modify-known b id q p v o e =
    let r = known-Rests b id o v e in
    elim (Bool-cases (quantity_is_valid q)) [
      | inr z ↦ rw (e, modify, r.not_gone, not_market o r.limited, z) (refused o e (inl z))
      | inl sized ↦ elim (Bool-cases (price_is_valid p)) [
        | inr z ↦ rw (e, modify, r.not_gone, not_market o r.limited, sized, z) (refused o e (inr z))
        | inl priced ↦ elim (Bool-cases (eq_ℤ p o.price && eq_ℤ q o.remaining)) [
          | inl z ↦
              rw (e, modify, r.not_gone, not_market o r.limited, sized, priced, z)
                (unchanged o e ((eq_ℤ_iff p o.price).0 (ground (arith, z)))
                  ((eq_ℤ_iff q o.remaining).0 (ground (arith, z))))
          | inr differ ↦ elim (Bool-cases (eq_ℤ p o.price && ltb_ℤ q o.remaining)) [
            | inl z ↦
                rw (e, modify, r.not_gone, not_market o r.limited, sized, priced, differ, z)
                  (shrunk o e sized ((eq_ℤ_iff p o.price).0 (ground (arith, z)))
                    (ground (arith, z)))
            | inr z ↦
                rw (e, modify, r.not_gone, not_market o r.limited, sized, priced, differ, z)
                  (moved o e sized priced (moves p q o differ z))
          ]
        ]
      ]
    ]

-- On a valid book a modification takes one of the branches of `Modifies`.
pub modify-Modifies :
    (b : OrderBook) (id : ℕ) (q p : ℤ) → IsValid b → Modifies b id q p (modify id q p b)
unfolding modify
modify-Modifies b id q p v = elim (Option-cases (find id b.id_index)) [
  | inl e ↦ rw (e, modify) (missing e)
  | inr (o, e) ↦ modify-known b id q p v o e
]

Modifies-IsValid :
    (b : OrderBook) (id : ℕ) (q p : ℤ) {r : OrderBook × ModifyResult}
    → IsValid b
    → ((o : Order) → find id b.id_index ≡ some o → IsFree b (not (is_buy o)) p)
    → Modifies b id q p r
    → IsValid r.0
unfolding shrink
Modifies-IsValid b id q p v free (missing e) = v
Modifies-IsValid b id q p v free (refused o e h) = v
Modifies-IsValid b id q p v free (unchanged o e f g) = v
Modifies-IsValid b id q p v free (shrunk o e sized f less) =
    let r = known-Rests b id o v e in
    with_less-IsValid b id o _ q v e
      (record {
        named = r.named;
        on_side = refl;
        at_price = refl;
        some_left = (quantity_is_valid→range q sized).0;
        not_gone = touched o.status ∙ r.not_gone;
        limited = r.limited;
      })
      refl
Modifies-IsValid b id q p v free (moved o e sized priced differ) =
    replace-IsValid b id o q p v e sized priced (free o e)

-- A modification keeps a valid book valid, if the side opposite to the order has no level at the
-- new price.
pub modify-IsValid :
    (b : OrderBook) (id : ℕ) (q p : ℤ)
    → IsValid b
    → ((o : Order) → find id b.id_index ≡ some o → IsFree b (not (is_buy o)) p)
    → IsValid (modify id q p b).0
modify-IsValid b id q p v free = Modifies-IsValid b id q p v free (modify-Modifies b id q p v)
