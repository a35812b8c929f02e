-- ===== src/OrderBook/Moves/Enqueue.antt =====
-- `enqueue`: an order joins the level at its price, which may be new.
use trader_two.Prelude.{
  ℤ, Bool, ◌≡◌, refl, if◌then◌else◌, Option, none, some, sym, Option-cases, inl, inr, eq_ℤ, subst,
}
use trader_two.Order.{Order}
use trader_two.Level.{Level, append, empty_level}
use trader_two.OrderBook.{
  OrderBook, ladder, with_ladder, update_level, enqueue, get_or_create_level,
}
use trader_two.OrderBook.Ladder.{find_level, emplace_level, own}
use trader_two.OrderBook.Ladder.Laws.{
  Sorted, find_level-price, find_level-emplace_level, emplace_level-Sorted, owner-own,
  owner-own_present,
}
use trader_two.OrderBook.Coherent.{levels_of, owners_of}
use trader_two.OrderBook.Moves.{
  Moves, Moves-trans, with_ladder-Sorted, with_ladder-Moves, update_level-Moves,
  update_level-Sorted,
}

-- The level that an order joins.
abbrev pub joined : ℤ → Option Level → Level
joined p none = empty_level p
joined p (some l) = l

module _ (o : Order) (s : Bool) (b : OrderBook) where
  owning : OrderBook
  owning = record b { level_storage = own o.price s b.level_storage }

  -- After `get_or_create_level` on a price with no level.
  created : OrderBook
  unfolding owning
  created = with_ladder s (emplace_level s (empty_level o.price) (ladder s owning)) owning

  created-Moves :
      find_level o.price (ladder s b) ≡ none
      → Moves (levels_of b) (levels_of created) s o.price (some (empty_level o.price))
  unfolding created owning empty_level
  created-Moves h =
      with_ladder-Moves s o.price (emplace_level s (empty_level o.price) (ladder s owning)) owning
        (some (empty_level o.price))
        (λ q. find_level-emplace_level s q (empty_level o.price) (ladder s b) h)

  created-Sorted : ((t : Bool) → Sorted t (ladder t b)) → (t : Bool) → Sorted t (ladder t created)
  unfolding created owning
  created-Sorted sorted =
      with_ladder-Sorted s _ owning sorted
        (emplace_level-Sorted s (empty_level o.price) (ladder s b) (sorted s))

  enqueue-created :
      find_level o.price (ladder s b) ≡ none
      → enqueue o s b ≡ update_level s (append o (empty_level o.price)) created
  unfolding enqueue created owning
  enqueue-created h = rw (h, enqueue, get_or_create_level)

  enqueue-present :
      {l : Level}
      → find_level o.price (ladder s b) ≡ some l
      → enqueue o s b ≡ update_level s (append o l) b
  unfolding enqueue
  enqueue-present h = rw (h, enqueue, get_or_create_level)

  append-Moves :
      (l : Level) (c : OrderBook)
      → l.price ≡ o.price
      → find_level o.price (ladder s c) ≡ some l
      → Moves
          (levels_of c)
          (levels_of (update_level s (append o l) c))
          s
          o.price
          (some (append o l))
  unfolding append
  append-Moves l c e h =
      subst
        (λ q.
          Moves (levels_of c) (levels_of (update_level s (append o l) c)) s q (some (append o l)))
        e
        (update_level-Moves s (append o l) l c
          (subst (λ q. find_level q (ladder s c) ≡ some l) (sym e) h))

  pub enqueue-Moves :
      (m : Option Level)
      → find_level o.price (ladder s b) ≡ m
      → Moves
          (levels_of b)
          (levels_of (enqueue o s b))
          s
          o.price
          (some (append o (joined o.price m)))
  unfolding empty_level
  enqueue-Moves none h = rw (enqueue-created h) (
      Moves-trans (created-Moves h)
        (append-Moves (empty_level o.price) created refl (created-Moves h).here))
  enqueue-Moves (some l) h =
      rw (enqueue-present h) (append-Moves l b (find_level-price o.price (ladder s b) h) h)

  pub enqueue-Sorted :
      ((t : Bool) → Sorted t (ladder t b))
      → (m : Option Level) → find_level o.price (ladder s b) ≡ m
      → (t : Bool) → Sorted t (ladder t (enqueue o s b))
  enqueue-Sorted sorted none h =
      rw (enqueue-created h)
        (update_level-Sorted s (append o (empty_level o.price)) created (created-Sorted sorted))
  enqueue-Sorted sorted (some l) h =
      rw (enqueue-present h) (update_level-Sorted s (append o l) b sorted)

  pub index-enqueue : (enqueue o s b).id_index ≡ b.id_index
  unfolding created owning
  index-enqueue = elim (Option-cases (find_level o.price (ladder s b))) [
    | inl h ↦ rw (enqueue-created h)
    | inr (l, h) ↦ rw (enqueue-present h)
  ]

  -- A new level is owned by its side if its price had no owner; nothing else changes.
  pub owner-enqueue_new :
      find_level o.price (ladder s b) ≡ none
      → owners_of b o.price ≡ none
      → (q : ℤ) → owners_of (enqueue o s b) q ≡ (if eq_ℤ o.price q then some s else owners_of b q)
  unfolding created owning
  owner-enqueue_new h free q = rw (enqueue-created h) (owner-own q o.price s b.level_storage free)

  -- Where the price has an owner, the storage stays as it is.
  pub owner-enqueue_owned :
      {other : Bool}
      → owners_of b o.price ≡ some other
      → (q : ℤ) → owners_of (enqueue o s b) q ≡ owners_of b q
  unfolding created owning
  owner-enqueue_owned {other} taken q = elim (Option-cases (find_level o.price (ladder s b))) [
    | inl h ↦ rw (enqueue-created h) (owner-own_present q o.price s other b.level_storage taken)
    | inr (l, h) ↦ rw (enqueue-present h)
  ]
