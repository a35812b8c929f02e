-- ===== src/OrderBook/Shrinks.antt =====
-- The invariant of a book where an order of a queue has less left.
use mathlib.Core.Path.{subst₂}
use trader_two.Prelude.{
  ℕ, ◌<◌, ℤ, ◌-ℤ◌, Bool, true, ◌≡◌, some, ◌∙◌, sym, subst, elem, some_inj, inl, inr,
}
use trader_two.Prelude.Map.{find}
use trader_two.Order.{Order, is_buy}
use trader_two.Level.{Level, sub_from_total}
use trader_two.Level.Sums.{Index}
use trader_two.Level.Keeps.{Consistent, Rests, AgreesOff, sub_from_total-Consistent}
use trader_two.OrderBook.{OrderBook, update_level}
use trader_two.OrderBook.Coherent.{
  levels_of, index_of, owners_of, place-cases, IsValid, Coherent, edit-Coherent, Queued,
}
use trader_two.OrderBook.Moves.{Moves, update_level-Moves}
use trader_two.OrderBook.Leaves.{known-away}

-- The level of an order of the index.
pub home_of :
    (b : OrderBook) (k : ℕ) (o : Order)
    → IsValid b
    → find k b.id_index ≡ some o
    → Queued (levels_of b) k o
home_of b k o v e = v.coherent.queued k o e

abbrev pub less_on : OrderBook → Bool → ℤ → Level → OrderBook
less_on b s d l = update_level s (sub_from_total d l) b

module _ (b : OrderBook) (k : ℕ) (o o' : Order) (d : ℤ) (l : Level) (idx' : Index) (v : IsValid b)
    (e : find k b.id_index ≡ some o) (found : levels_of b (is_buy o) o.price ≡ some l)
    (inside : elem k l.queue ≡ true) (agree : AgreesOff k (index_of b) idx') (e' : idx' k ≡ some o')
    (less : o'.remaining ≡ o.remaining -ℤ d) (rests : Rests (is_buy o) o.price k o') where
  smaller-Consistent : Consistent idx' (is_buy o) o.price (sub_from_total d l)
  smaller-Consistent =
      sub_from_total-Consistent o o' d agree inside e e' less rests
        (v.coherent.levels (is_buy o) o.price l found).0

  moved :
      Moves
        (levels_of b)
        (levels_of (less_on b (is_buy o) d l))
        (is_buy o)
        o.price
        (some (sub_from_total d l))
  unfolding sub_from_total
  moved =
      let priced = (v.coherent.levels (is_buy o) o.price l found).0.priced in
      subst
        (λ q.
          Moves (levels_of b) (levels_of (less_on b (is_buy o) d l)) (is_buy o) q
            (some (sub_from_total d l)))
        priced
        (update_level-Moves (is_buy o) (sub_from_total d l) l b
          (subst (λ q. levels_of b (is_buy o) q ≡ some l) (sym priced) found))

  pub shrink-Coherent :
      Coherent (levels_of (less_on b (is_buy o) d l)) idx' (owners_of (less_on b (is_buy o) d l))
  unfolding sub_from_total
  shrink-Coherent = edit-Coherent v.coherent (record {
    others = moved.others;
    agree = agree;
    away = known-away b k o v e;
    here = λ m h.
        subst (λ x. Consistent idx' (is_buy o) o.price x × (0 < x.order_count))
          (some_inj (sym moved.here ∙ h))
          (smaller-Consistent, (v.coherent.levels (is_buy o) o.price l found).1);
    keeps = λ j m ne h i. (
      sub_from_total d l,
      moved.here,
      subst (λ x. elem j x.queue ≡ true) (some_inj (sym h ∙ found)) i,
    );
    fresh = λ u h.
        subst (Queued (levels_of (less_on b (is_buy o) d l)) k) (some_inj (sym e' ∙ h)) (record {
          level = sub_from_total d l;
          found =
              subst₂ (λ t q. levels_of (less_on b (is_buy o) d l) t q ≡ some (sub_from_total d l))
                (sym rests.on_side) (sym rests.at_price) moved.here;
          inside = inside;
        });
    owned = λ t q m h. elim (place-cases (is_buy o) t o.price q) [
      | inl (a, c) ↦ rw (a, c) (v.coherent.live (is_buy o) o.price l found)
      | inr far ↦ v.coherent.live t q m (sym (moved.others t q far) ∙ h)
    ];
    held = λ t q h. elim (place-cases (is_buy o) t o.price q) [
      | inl (a, c) ↦ (sub_from_total d l, rw (a, c) moved.here)
      | inr far ↦ let (m, old) = v.coherent.tight t q h in (m, moved.others t q far ∙ old)
    ];
  })
