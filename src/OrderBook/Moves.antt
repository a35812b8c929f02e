-- ===== src/OrderBook/Moves.antt =====
-- What the steps on one level of a book do to every later lookup of a level.
pub mod Dequeue
pub mod Enqueue
use trader_two.Prelude.{
  ℕ, ◌==◌, ℤ, Bool, true, false, ◌≡◌, refl, if◌then◌else◌, Option, none, some, arith, ◌∙◌, sym, ap,
  List, ◌&&◌, Bool-cases, inl, inr, eq_ℤ, eq_ℤ_iff, eq_ℤ_refl, subst,
}
use trader_two.Order.{Order}
use trader_two.Level.{Level, remove, append, empty_level}
use trader_two.OrderBook.{
  OrderBook, ladder, with_ladder, update_level, destroy_level, dequeue, enqueue,
  get_or_create_level,
}
use trader_two.OrderBook.Ladder.{find_level, write_level, erase_level, emplace_level, owner}
use trader_two.OrderBook.Ladder.Laws.{
  Sorted, find_level-price, find_level-write_level, find_level-erase_level,
  find_level-emplace_level, write_level-Sorted, erase_level-Sorted, emplace_level-Sorted, owner-own,
  owner-own_present, owner-disown,
}
use trader_two.OrderBook.Coherent.{Levels, Elsewhere, levels_of, index_of, owners_of, place-cases}

-- The level at one place becomes `here`, and all others stay.
pub record Moves (at at' : Levels) (s : Bool) (p : ℤ) (result : Option Level) : Type 0 where
  pub here : at' s p ≡ result
  pub others : (t : Bool) (q : ℤ) → Elsewhere s p t q → at' t q ≡ at t q

pub Moves-trans :
    {at at' at'' : Levels} {s : Bool} {p : ℤ} {m n : Option Level}
    → Moves at at' s p m
    → Moves at' at'' s p n
    → Moves at at'' s p n
Moves-trans v w = record { here = w.here; others = λ t q far. w.others t q far ∙ v.others t q far }

pub ladder-with_ladder :
    (s : Bool) (ls : List Level) (b : OrderBook) → ladder s (with_ladder s ls b) ≡ ls
ladder-with_ladder true ls b = refl
ladder-with_ladder false ls b = refl

with_ladder-Sorted :
    (s : Bool) (ls : List Level) (b : OrderBook)
    → ((t : Bool) → Sorted t (ladder t b))
    → Sorted s ls
    → (t : Bool) → Sorted t (ladder t (with_ladder s ls b))
with_ladder-Sorted true ls b h i true = i
with_ladder-Sorted true ls b h i false = h false
with_ladder-Sorted false ls b h i true = h true
with_ladder-Sorted false ls b h i false = i

-- A ladder that changes at one price changes the book at one place.
with_ladder-Moves :
    (s : Bool) (p : ℤ) (ls : List Level) (b : OrderBook) (m : Option Level)
    → ((q : ℤ) → find_level q ls ≡ (if eq_ℤ p q then m else find_level q (ladder s b)))
    → Moves (levels_of b) (levels_of (with_ladder s ls b)) s p m
with_ladder-Moves s p ls b m h = record {
  here = rw (ladder-with_ladder s ls b) (h p ∙ rw (eq_ℤ_refl p));
  others = elsewhere s h;
}
  where
    stays : (q : ℤ) (x : Option Level) → ¬ (q ≡ p) → (if eq_ℤ p q then m else x) ≡ x
    stays q x far = elim (Bool-cases (eq_ℤ p q)) [
      | inl e ↦ absurd (far (sym ((eq_ℤ_iff p q).0 e)))
      | inr e ↦ rw e
    ]

    elsewhere :
        (s : Bool)
        → ((q : ℤ) → find_level q ls ≡ (if eq_ℤ p q then m else find_level q (ladder s b)))
        → (t : Bool) (q : ℤ) → Elsewhere s p t q
        → levels_of (with_ladder s ls b) t q ≡ levels_of b t q
    elsewhere true h true q far = h q ∙ stays q _ (λ e. far (refl, e))
    elsewhere true h false q far = refl
    elsewhere false h true q far = refl
    elsewhere false h false q far = h q ∙ stays q _ (λ e. far (refl, e))

pub update_level-Moves :
    (s : Bool) (l m : Level) (b : OrderBook)
    → find_level l.price (ladder s b) ≡ some m
    → Moves (levels_of b) (levels_of (update_level s l b)) s l.price (some l)
update_level-Moves s l m b h =
    with_ladder-Moves s l.price _ b (some l)
      (λ q. find_level-write_level q l (ladder s b) {m = m} h)

pub update_level-Sorted :
    (s : Bool) (l : Level) (b : OrderBook)
    → ((t : Bool) → Sorted t (ladder t b))
    → (t : Bool) → Sorted t (ladder t (update_level s l b))
update_level-Sorted s l b h = with_ladder-Sorted s _ b h (write_level-Sorted s l (ladder s b) (h s))

pub destroy_level-Moves :
    (s : Bool) (p : ℤ) (b : OrderBook)
    → Sorted s (ladder s b)
    → Moves (levels_of b) (levels_of (destroy_level p s b)) s p none
unfolding destroy_level
destroy_level-Moves s p b h =
    with_ladder-Moves s p (erase_level p (ladder s b)) b none
      (λ q. find_level-erase_level s q p (ladder s b) h)

pub destroy_level-Sorted :
    (s : Bool) (p : ℤ) (b : OrderBook)
    → ((t : Bool) → Sorted t (ladder t b))
    → (t : Bool) → Sorted t (ladder t (destroy_level p s b))
unfolding destroy_level
destroy_level-Sorted s p b h =
    with_ladder-Sorted s _ b h (erase_level-Sorted s p (ladder s b) (h s))

pub owner-destroy_level :
    (s : Bool) (p q : ℤ) (b : OrderBook)
    → owners_of (destroy_level p s b) q ≡ (if eq_ℤ p q then none else owners_of b q)
unfolding destroy_level
owner-destroy_level s p q b = owner-disown q p b.level_storage
