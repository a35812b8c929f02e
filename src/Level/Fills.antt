-- ===== src/Level/Fills.antt =====
-- `reduce_front` on a level with an order at its front.
use trader_two.Prelude.{
  ℤ, pos, ◌-ℤ◌, ◌<ℤ◌, ◌≤ℤ◌, ltb_ℤ, leb_ℤ, eq_ℤ, true, false, ◌≡◌, some, arith, Bool-cases, inl, inr,
  int_laws, eq_of_parts,
}
use trader_two.Prelude.Map.{Map, assign}
use trader_two.Order.{Order}
use trader_two.Level.{
  Level, sub_from_total, remove, reduce_front, capped, after_fill, reduce_order, head_order,
}

sub_self : (r : ℤ) → r -ℤ r ≡ pos 0
sub_self r = omega int_laws

pub sub_pos : (r q : ℤ) → q <ℤ r → pos 0 <ℤ r -ℤ q
sub_pos r q h = omega int_laws

pub left-pos : (r q : ℤ) → q <ℤ r → eq_ℤ (r -ℤ q) (pos 0) ≡ false
left-pos r q h = ground (arith, sub_pos r q h)

left-zero : (r : ℤ) → eq_ℤ (r -ℤ r) (pos 0) ≡ true
left-zero r = ground (arith, sub_self r)

capped-partly : (q : ℤ) (o : Order) → q <ℤ o.remaining → capped q o ≡ q
unfolding capped
capped-partly q o h = ground arith

capped-wholly : (q : ℤ) (o : Order) → o.remaining ≤ℤ q → capped q o ≡ o.remaining
unfolding capped
capped-wholly q o h = elim (Bool-cases (ltb_ℤ o.remaining q)) [
  | inl e ↦ rw e
  | inr e ↦ rw e (eq_of_parts q o.remaining (ground (arith, e)))
]

module _ (q : ℤ) (o : Order) (l : Level) (index : Map Order) (first : head_order l index ≡ some o)
    (positive : pos 0 <ℤ q) where
  some_qty : leb_ℤ q (pos 0) ≡ false
  some_qty = ground arith

  reduce_front-order : reduce_front q l index ≡ reduce_order (capped q o) o l index
  unfolding reduce_front
  reduce_front-order = rw (first, reduce_front, some_qty)

  -- It loses `q` where it has more.
  pub reduce_front-partly :
      q <ℤ o.remaining
      → reduce_front q l index ≡ record {
        level = sub_from_total q l;
        index = assign o.id (after_fill q o) index;
        fill_qty = q;
        filled_out = some (after_fill q o);
        consumed = false;
      }
  unfolding reduce_order sub_from_total after_fill
  reduce_front-partly less =
      rw (reduce_front-order, capped-partly q o less)
        (rw (reduce_order, left-pos o.remaining q less))

  -- It goes where it has no more than that.
  pub reduce_front-wholly :
      o.remaining ≤ℤ q
      → reduce_front q l index ≡ record {
        level = remove o l;
        index = assign o.id (after_fill o.remaining o) index;
        fill_qty = o.remaining;
        filled_out = some (after_fill o.remaining o);
        consumed = true;
      }
  unfolding reduce_order remove after_fill
  reduce_front-wholly enough =
      rw (reduce_front-order, capped-wholly q o enough) (rw (reduce_order, left-zero o.remaining))
