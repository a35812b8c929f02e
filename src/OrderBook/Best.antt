-- ===== src/OrderBook/Best.antt =====
-- The best level of a side of a valid book and its first order (`best_bid_order`, `best_ask_order`).
use trader_two.Prelude.{
  ℕ, ℤ, eq_ℤ_refl, Bool, true, false, ◌≡◌, refl, List, [], ◌∷◌, none, some, arith, ◌∙◌, sym, ap,
  subst, subst₂, elem, some_inj, none_ne_some, length, ◌⊎◌, Option-cases, inl, inr, ==_iff,
}
use trader_two.Prelude.Map.{find}
use trader_two.Types.{price_is_valid, invalid_price}
use trader_two.Order.{Order, is_buy}
use trader_two.Level.{Level, head_of}
use trader_two.Level.Keeps.{Rests}
use trader_two.OrderBook.{OrderBook, ladder}
use trader_two.OrderBook.Ladder.{comes_before, find_level}
use trader_two.OrderBook.Ladder.Laws.{Sorted, After}
use trader_two.OrderBook.Queries.{first_level, best_price, best_order}
use trader_two.OrderBook.Coherent.{levels_of, IsValid}
use trader_two.OrderBook.Validity.Fill.{IsFront}

pub first_level-found :
    (ls : List Level) {l : Level} → first_level ls ≡ some l → find_level l.price ls ≡ some l
unfolding first_level find_level
first_level-found [] h = absurd (none_ne_some h)
first_level-found (m ∷ ls) {l} h = rw (some_inj h, eq_ℤ_refl l.price)

-- The order at the front of a side, and where it rests.
pub record Best (b : OrderBook) (s : Bool) (o : Order) : Type 0 where
  pub level : Level
  pub front : IsFront b o.id o level
  pub on_side : is_buy o ≡ s
  pub at_best : o.price ≡ best_price s b
  pub valid_price : price_is_valid o.price ≡ true

module _ (b : OrderBook) (s : Bool) (v : IsValid b) where
  head-Best :
      (l : Level) (q : List ℕ) (o : Order)
      → first_level (ladder s b) ≡ some l
      → l.queue ≡ q
      → head_of q b.id_index ≡ some o
      → Best b s o
  unfolding head_of elem best_price
  head-Best l [] o f e h = absurd (none_ne_some h)
  head-Best l (k ∷ rest) o f e h =
      let found = first_level-found (ladder s b) f in
      let c = (v.coherent.levels s l.price l found).0 in
      let inside : elem k l.queue ≡ true = rw e (ground (arith, (==_iff k k).1 refl)) in
      let (u, known, r) = c.members k inside in
      let same : u ≡ o = some_inj (sym known ∙ h) in
      let r' : Rests s l.price k o = subst (Rests s l.price k) same r in
      record {
        level = l;
        front = record {
          known = ap (λ i. find i b.id_index) r'.named ∙ h;
          level_found =
              subst₂ (λ t p. levels_of b t p ≡ some l) (sym r'.on_side) (sym r'.at_price) found;
          first = rw e h;
          queued = rw r'.named inside;
        };
        on_side = r'.on_side;
        at_best = r'.at_price ∙ rw (f, best_price);
        valid_price = rw r'.at_price c.valid_price;
      }

  -- The best order of a side of a valid book is on that side, rests at the best price of the side,
  -- which is a valid price, and is first in the queue of its level.
  pub best_order-Best : (o : Order) → best_order s b ≡ some o → Best b s o
  unfolding best_order
  best_order-Best o h = elim (Option-cases (first_level (ladder s b))) [
    | inl e ↦ absurd (none_ne_some (rw (e, best_order) at h))
    | inr (l, e) ↦ head-Best l l.queue o e refl (rw (e, best_order) at h)
  ]

  head-some :
      (l : Level) (q : List ℕ)
      → first_level (ladder s b) ≡ some l
      → l.queue ≡ q
      → (o : Order) × (head_of q b.id_index ≡ some o)
  unfolding head_of elem
  head-some l [] f e =
      let (c, nonempty) = v.coherent.levels s l.price l (first_level-found (ladder s b) f) in
      absurd (omega (arith, nonempty, c.counted, ap length e))
  head-some l (k ∷ rest) f e =
      let c = (v.coherent.levels s l.price l (first_level-found (ladder s b) f)).0 in
      let (o, known, r) = c.members k (rw e (ground (arith, (==_iff k k).1 refl))) in (o, known)

  -- A side has a best order unless it has no level; then its price is not valid.
  pub best_order-cases :
      ((first_level (ladder s b) ≡ none) × (best_price s b ≡ invalid_price))
      ⊎ ((o : Order) × (best_order s b ≡ some o))
  unfolding best_order best_price
  best_order-cases = elim (Option-cases (first_level (ladder s b))) [
    | inl e ↦ inl (e, rw (e, best_price))
    | inr (l, e) ↦ let (o, h) = head-some l l.queue e refl in inr (o, rw (e, best_order) h)
  ]

After-price :
    (s : Bool) (p q : ℤ) (ls : List Level) {l : Level}
    → After s p ls
    → find_level q ls ≡ some l
    → comes_before s p q ≡ true
unfolding find_level
After-price s p q [] a h = absurd (none_ne_some h)
After-price true p q (m ∷ ls) {l} a h = ground (arith, After-price true p q ls {l = l} a.1)
After-price false p q (m ∷ ls) {l} a h = ground (arith, After-price false p q ls {l = l} a.1)

pub first-best :
    (s : Bool) (ls : List Level) (q : ℤ) {l m : Level}
    → Sorted s ls
    → first_level ls ≡ some m
    → find_level q ls ≡ some l
    → comes_before s q m.price ≡ false
unfolding find_level first_level
first-best s [] q o f h = absurd (none_ne_some h)
first-best true (x ∷ ls) q {l} {m} o f h =
    ground (arith, After-price true x.price q ls {l = l} o.0, some_inj f)
first-best false (x ∷ ls) q {l} {m} o f h =
    ground (arith, After-price false x.price q ls {l = l} o.0, some_inj f)

pub first-none : (ls : List Level) (q : ℤ) → first_level ls ≡ none → find_level q ls ≡ none
unfolding find_level first_level
first-none [] q h = refl
first-none (m ∷ ls) q h = absurd (none_ne_some (sym h))

-- No level of a side of a valid book comes before the best price of that side: no bid is higher and
-- no ask is lower.
pub best_price-best :
    (b : OrderBook) (s : Bool) (q : ℤ) {l : Level}
    → IsValid b
    → levels_of b s q ≡ some l
    → comes_before s q (best_price s b) ≡ false
unfolding best_price
best_price-best b s q {l} v h = elim (Option-cases (first_level (ladder s b))) [
  | inl e ↦ absurd (none_ne_some (sym (first-none (ladder s b) q e) ∙ h))
  | inr (m, e) ↦ rw (e, best_price) (first-best s (ladder s b) q {l = l} {m = m} (v.sorted s) e h)
]
