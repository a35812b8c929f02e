-- ===== src/OrderBook/Ladder/Laws.antt =====
-- Lookups after the operations of the ladders and of the storage, and the order of a ladder.
use trader_two.Prelude.{
  ℤ, eq_ℤ, Bool, true, false, ◌≡◌, refl, if◌then◌else◌, List, [], ◌∷◌, none, some, arith, eq_ℤ_iff,
}
use trader_two.Level.{Level}
use trader_two.OrderBook.Ladder.{
  comes_before, find_level, emplace_level, write_level, erase_level, Storage, owner, own, disown,
}

-- Every level of a ladder comes after a price.
abbrev pub After : Bool → ℤ → List Level → Type 0
After is_bid p [] = Unit {0}
After is_bid p (l ∷ ls) = (comes_before is_bid p l.price ≡ true) × After is_bid p ls

-- Best price first, and no price twice.
abbrev pub Sorted : Bool → List Level → Type 0
Sorted is_bid [] = Unit {0}
Sorted is_bid (l ∷ ls) = After is_bid l.price ls × Sorted is_bid ls

pub find_level-price :
    (p : ℤ) (ls : List Level) {l : Level} → find_level p ls ≡ some l → l.price ≡ p
unfolding find_level
find_level-price p [] h = absurd (ground arith)
find_level-price p (m ∷ ls) {l} h =
    ground (arith, eq_ℤ_iff m.price p, find_level-price p ls {l = l})

pub find_level-write_level :
    (q : ℤ) (l : Level) (ls : List Level) {m : Level}
    → find_level l.price ls ≡ some m
    → find_level q (write_level l ls) ≡ (if eq_ℤ l.price q then some l else find_level q ls)
unfolding find_level write_level
find_level-write_level q l [] h = absurd (ground arith)
find_level-write_level q l (x ∷ ls) {m} h = ground (arith, find_level-write_level q l ls {m = m})

After-find_level :
    (is_bid : Bool) (p q : ℤ) (ls : List Level)
    → After is_bid p ls
    → eq_ℤ p q ≡ true
    → find_level q ls ≡ none
unfolding find_level
After-find_level is_bid p q [] a e = refl
After-find_level true p q (l ∷ ls) a e = ground (arith, After-find_level true p q ls a.1)
After-find_level false p q (l ∷ ls) a e = ground (arith, After-find_level false p q ls a.1)

pub find_level-erase_level :
    (is_bid : Bool) (q p : ℤ) (ls : List Level)
    → Sorted is_bid ls
    → find_level q (erase_level p ls) ≡ (if eq_ℤ p q then none else find_level q ls)
unfolding find_level erase_level
find_level-erase_level is_bid q p [] s = ground arith
find_level-erase_level is_bid q p (l ∷ ls) s =
    ground (arith, find_level-erase_level is_bid q p ls s.1, After-find_level is_bid l.price q ls)

pub find_level-emplace_level :
    (is_bid : Bool) (q : ℤ) (l : Level) (ls : List Level)
    → find_level l.price ls ≡ none
    → find_level q (emplace_level is_bid l ls)
      ≡ (if eq_ℤ l.price q then some l else find_level q ls)
unfolding find_level emplace_level
find_level-emplace_level is_bid q l [] h = refl
find_level-emplace_level true q l (m ∷ ls) h = ground (arith, find_level-emplace_level true q l ls)
find_level-emplace_level false q l (m ∷ ls) h =
    ground (arith, find_level-emplace_level false q l ls)

After-write_level :
    (is_bid : Bool) (p : ℤ) (l : Level) (ls : List Level)
    → After is_bid p ls
    → After is_bid p (write_level l ls)
unfolding write_level
After-write_level is_bid p l [] a = a
After-write_level true p l (m ∷ ls) a = ground (arith, After-write_level true p l ls a.1)
After-write_level false p l (m ∷ ls) a = ground (arith, After-write_level false p l ls a.1)

After-same :
    (is_bid : Bool) (p q : ℤ) (ls : List Level)
    → eq_ℤ p q ≡ true
    → After is_bid p ls
    → After is_bid q ls
After-same is_bid p q [] e a = tt
After-same true p q (m ∷ ls) e a = ground (arith, After-same true p q ls e a.1)
After-same false p q (m ∷ ls) e a = ground (arith, After-same false p q ls e a.1)

After-trans :
    (is_bid : Bool) (p q : ℤ) (ls : List Level)
    → comes_before is_bid p q ≡ true
    → After is_bid q ls
    → After is_bid p ls
After-trans is_bid p q [] e a = tt
After-trans true p q (m ∷ ls) e a = ground (arith, After-trans true p q ls e a.1)
After-trans false p q (m ∷ ls) e a = ground (arith, After-trans false p q ls e a.1)

pub write_level-Sorted :
    (is_bid : Bool) (l : Level) (ls : List Level)
    → Sorted is_bid ls
    → Sorted is_bid (write_level l ls)
unfolding write_level
write_level-Sorted is_bid l [] s = s
write_level-Sorted is_bid l (m ∷ ls) s = ground (
  arith,
  write_level-Sorted is_bid l ls s.1,
  After-write_level is_bid m.price l ls s.0,
  After-same is_bid m.price l.price ls,
)

After-erase_level :
    (is_bid : Bool) (p q : ℤ) (ls : List Level)
    → After is_bid p ls
    → After is_bid p (erase_level q ls)
unfolding erase_level
After-erase_level is_bid p q [] a = a
After-erase_level is_bid p q (m ∷ ls) a = ground (arith, After-erase_level is_bid p q ls a.1)

pub erase_level-Sorted :
    (is_bid : Bool) (p : ℤ) (ls : List Level) → Sorted is_bid ls → Sorted is_bid (erase_level p ls)
unfolding erase_level
erase_level-Sorted is_bid p [] s = s
erase_level-Sorted is_bid p (m ∷ ls) s =
    ground (arith, erase_level-Sorted is_bid p ls s.1, After-erase_level is_bid m.price p ls s.0)

After-emplace_level :
    (is_bid : Bool) (p : ℤ) (l : Level) (ls : List Level)
    → comes_before is_bid p l.price ≡ true
    → After is_bid p ls
    → After is_bid p (emplace_level is_bid l ls)
unfolding emplace_level
After-emplace_level is_bid p l [] h a = ground arith
After-emplace_level is_bid p l (m ∷ ls) h a =
    ground (arith, After-emplace_level is_bid p l ls h a.1)

pub emplace_level-Sorted :
    (is_bid : Bool) (l : Level) (ls : List Level)
    → Sorted is_bid ls
    → Sorted is_bid (emplace_level is_bid l ls)
unfolding emplace_level
emplace_level-Sorted is_bid l [] s = ground arith
emplace_level-Sorted true l (m ∷ ls) s = ground (
  arith,
  emplace_level-Sorted true l ls s.1,
  After-emplace_level true m.price l ls,
  After-trans true l.price m.price ls,
)
emplace_level-Sorted false l (m ∷ ls) s = ground (
  arith,
  emplace_level-Sorted false l ls s.1,
  After-emplace_level false m.price l ls,
  After-trans false l.price m.price ls,
)

pub owner-own :
    (q p : ℤ) (is_bid : Bool) (s : Storage)
    → owner p s ≡ none
    → owner q (own p is_bid s) ≡ (if eq_ℤ p q then some is_bid else owner q s)
unfolding owner own
owner-own q p is_bid s h = ground arith

-- An owner stays.
pub owner-own_present :
    (q p : ℤ) (is_bid other : Bool) (s : Storage)
    → owner p s ≡ some other
    → owner q (own p is_bid s) ≡ owner q s
unfolding own
owner-own_present q p is_bid other s h = ground arith

pub owner-disown :
    (q p : ℤ) (s : Storage) → owner q (disown p s) ≡ (if eq_ℤ p q then none else owner q s)
unfolding owner disown
owner-disown q p [] = ground arith
owner-disown q p ((r, b) ∷ s) = ground (arith, owner-disown q p s)
