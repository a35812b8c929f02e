-- ===== src/OrderBook/Moves/Dequeue.antt =====
-- `dequeue`: an order leaves its level, and an empty level its ladder and the storage.
use trader_two.Prelude.{
  ◌==◌, ℤ, Bool, ◌≡◌, if◌then◌else◌, Option, none, some, sym, ◌&&◌, Bool-cases, inl, inr, eq_ℤ,
  subst,
}
use trader_two.Order.{Order}
use trader_two.Level.{Level, remove}
use trader_two.OrderBook.{OrderBook, ladder, update_level, destroy_level, dequeue}
use trader_two.OrderBook.Ladder.{find_level}
use trader_two.OrderBook.Ladder.Laws.{Sorted, find_level-price}
use trader_two.OrderBook.Coherent.{levels_of, owners_of}
use trader_two.OrderBook.Moves.{
  Moves, Moves-trans, update_level-Moves, update_level-Sorted, destroy_level-Moves,
  destroy_level-Sorted, owner-destroy_level,
}

-- What taking `o` out of its level `l` leaves at that place.
abbrev pub left_by : Order → Level → Option Level
left_by o l = let l' = remove o l in if l'.order_count == 0 then none else some l'

module _ (o : Order) (s : Bool) (b : OrderBook) (l : Level)
    (found : find_level o.price (ladder s b) ≡ some l) where
  updated : OrderBook
  updated = update_level s (remove o l) b

  remove-price : (remove o l).price ≡ o.price
  unfolding remove
  remove-price = find_level-price o.price (ladder s b) found

  updated-Moves : Moves (levels_of b) (levels_of updated) s o.price (some (remove o l))
  unfolding updated
  updated-Moves =
      subst
        (λ q.
          Moves (levels_of b) (levels_of (update_level s (remove o l) b)) s q (some (remove o l)))
        remove-price
        (update_level-Moves s (remove o l) l b
          (subst (λ q. find_level q (ladder s b) ≡ some l) (sym remove-price) found))

  pub dequeue-Moves :
      ((t : Bool) → Sorted t (ladder t b))
      → Moves (levels_of b) (levels_of (dequeue o s b)) s o.price (left_by o l)
  unfolding dequeue updated
  dequeue-Moves sorted = elim (Bool-cases ((remove o l).order_count == 0)) [
    | inl e ↦
        rw (found, dequeue, e)
          (Moves-trans updated-Moves
            (destroy_level-Moves s o.price updated (update_level-Sorted s (remove o l) b sorted s)))
    | inr e ↦ rw (found, dequeue, e) updated-Moves
  ]

  pub dequeue-Sorted :
      ((t : Bool) → Sorted t (ladder t b)) → (t : Bool) → Sorted t (ladder t (dequeue o s b))
  unfolding dequeue updated
  dequeue-Sorted sorted t = elim (Bool-cases ((remove o l).order_count == 0)) [
    | inl e ↦
        rw (found, dequeue, e)
          (destroy_level-Sorted s o.price updated (update_level-Sorted s (remove o l) b sorted) t)
    | inr e ↦ rw (found, dequeue, e) (update_level-Sorted s (remove o l) b sorted t)
  ]

  pub index-dequeue : (dequeue o s b).id_index ≡ b.id_index
  unfolding dequeue destroy_level
  index-dequeue = elim (Bool-cases ((remove o l).order_count == 0)) [
    | inl e ↦ rw (found, dequeue, e)
    | inr e ↦ rw (found, dequeue, e)
  ]

  pub owner-dequeue :
      (q : ℤ)
      → owners_of (dequeue o s b) q
        ≡ (if ((remove o l).order_count == 0) && eq_ℤ o.price q then none else owners_of b q)
  unfolding dequeue
  owner-dequeue q = elim (Bool-cases ((remove o l).order_count == 0)) [
    | inl e ↦
        rw (found, dequeue, e) (owner-destroy_level s o.price q (update_level s (remove o l) b))
    | inr e ↦ rw (found, dequeue, e)
  ]
