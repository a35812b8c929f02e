-- ===== src/OrderBook/Coherent.antt =====
-- The invariant of an order book, over what its two ladders, its index and its level storage answer
-- to a lookup, and the lemma on a change at one place and one id.
use trader_two.Prelude.{
  ℕ, ◌<◌, ℤ, Bool, true, false, ◌≡◌, ◌≢◌, refl, Option, some, arith, elem, ◌∙◌, sym, ◌⊎◌, inl, inr,
  subst, ◌==◌, ==_iff, Bool-cases, eq_ℤ, eq_ℤ_iff,
}
use mathlib.Core.Path.{subst₂}
use trader_two.Prelude.Map.{find}
use trader_two.Order.{Order, is_buy}
use trader_two.Level.{Level}
use trader_two.Level.Sums.{Index}
use trader_two.Level.Keeps.{Consistent, AgreesOff, away-Consistent}
use trader_two.OrderBook.{OrderBook, ladder}
use trader_two.OrderBook.Ladder.{find_level, owner}
use trader_two.OrderBook.Ladder.Laws.{Sorted}

-- The level of a side at a price.
abbrev pub Levels : Type 0
Levels = Bool → ℤ → Option Level

abbrev pub Owners : Type 0
Owners = ℤ → Option Bool

-- An order that is in the queue of the level of its side and price.
pub record Queued (at : Levels) (k : ℕ) (o : Order) : Type 0 where
  pub level : Level
  pub found : at (is_buy o) o.price ≡ some level
  pub inside : elem k level.queue ≡ true

pub record Coherent (at : Levels) (idx : Index) (own : Owners) : Type 0 where
  pub levels :
      (s : Bool) (p : ℤ) (l : Level) → at s p ≡ some l → Consistent idx s p l × (0 < l.order_count)
  pub queued : (k : ℕ) (o : Order) → idx k ≡ some o → Queued at k o
  pub live : (s : Bool) (p : ℤ) (l : Level) → at s p ≡ some l → own p ≡ some s
  pub tight : (s : Bool) (p : ℤ) → own p ≡ some s → (l : Level) × (at s p ≡ some l)

abbrev pub levels_of : OrderBook → Levels
levels_of b s p = find_level p (ladder s b)

abbrev pub index_of : OrderBook → Index
index_of b k = find k b.id_index

abbrev pub owners_of : OrderBook → Owners
owners_of b p = owner p b.level_storage

-- Both ladders are in the order of their maps; every level's counters fit its queue, which is not
-- empty and holds working orders of the index; every order of the index is in one queue; and the
-- storage owns the levels that the ladders point at, and no others.
pub record IsValid (b : OrderBook) : Type 0 where
  pub sorted : (s : Bool) → Sorted s (ladder s b)
  pub coherent : Coherent (levels_of b) (index_of b) (owners_of b)

abbrev pub Elsewhere : Bool → ℤ → Bool → ℤ → Type 0
Elsewhere s p s' p' = ¬ ((s' ≡ s) × (p' ≡ p))

price-cases : (p p' : ℤ) → (p' ≡ p) ⊎ (p' ≢ p)
price-cases p p' = elim (Bool-cases (eq_ℤ p' p)) [
  | inl e ↦ inl ((eq_ℤ_iff p' p).0 e)
  | inr e ↦ inr (λ h. ground (arith, (eq_ℤ_iff p' p).1 h, e))
]

pub place-cases : (s s' : Bool) (p p' : ℤ) → ((s' ≡ s) × (p' ≡ p)) ⊎ Elsewhere s p s' p'
place-cases true false p p' = inr (λ h. ground arith)
place-cases false true p p' = inr (λ h. ground arith)
place-cases s s' p p' = elim (price-cases p p') [
  | inl e ↦ inl (refl, e)
  | inr ne ↦ inr (λ h. ne h.1)
]

-- A book that changes at one id and at one place.
pub record Edit (at at' : Levels) (idx idx' : Index) (own' : Owners) (s : Bool) (p : ℤ) (k : ℕ)
    : Type 0 where
  pub others : (t : Bool) (q : ℤ) → Elsewhere s p t q → at' t q ≡ at t q
  pub agree : AgreesOff k idx idx'
  pub away :
      (t : Bool) (q : ℤ) (l : Level) → Elsewhere s p t q → at t q ≡ some l → elem k l.queue ≡ false
  pub here : (l : Level) → at' s p ≡ some l → Consistent idx' s p l × (0 < l.order_count)
  pub keeps :
      (j : ℕ) (l : Level)
      → j ≢ k
      → at s p ≡ some l
      → elem j l.queue ≡ true
      → (l' : Level) × (at' s p ≡ some l') × (elem j l'.queue ≡ true)
  pub fresh : (o : Order) → idx' k ≡ some o → Queued at' k o
  pub owned : (t : Bool) (q : ℤ) (l : Level) → at' t q ≡ some l → own' q ≡ some t
  pub held : (t : Bool) (q : ℤ) → own' q ≡ some t → (l : Level) × (at' t q ≡ some l)

module _ {at at' : Levels} {idx idx' : Index} {own own' : Owners} {s : Bool} {p : ℤ} {k : ℕ}
    (c : Coherent at idx own) (e : Edit at at' idx idx' own' s p k) where
  edit-levels :
      (t : Bool) (q : ℤ) (l : Level)
      → at' t q ≡ some l
      → Consistent idx' t q l × (0 < l.order_count)
  edit-levels t q l h = elim (place-cases s t p q) [
    | inl (a, b) ↦
        subst₂ (λ t' q'. Consistent idx' t' q' l × (0 < l.order_count)) (sym a) (sym b)
          (e.here l (rw (a, b) at h))
    | inr far ↦
        let old = sym (e.others t q far) ∙ h in
        (
          away-Consistent k e.agree (e.away t q l far old) (c.levels t q l old).0,
          (c.levels t q l old).1,
        )
  ]

  edit-queued_old : (j : ℕ) (o : Order) → j ≢ k → Queued at j o → Queued at' j o
  edit-queued_old j o ne w = elim (place-cases s (is_buy o) p o.price) [
    | inl (a, b) ↦
        let (l', found, inside) = e.keeps j w.level ne (rw (a, b) at w.found) w.inside in
        record { level = l'; found = rw (a, b) found; inside = inside }
    | inr far ↦ record {
      level = w.level;
      found = e.others (is_buy o) o.price far ∙ w.found;
      inside = w.inside;
    }
  ]

  pub edit-Coherent : Coherent at' idx' own'
  edit-Coherent = record {
    levels = edit-levels;
    queued = λ j o h. elim (Bool-cases (j == k)) [
      | inl hit ↦
          let same = (==_iff j k).0 hit in
          subst (λ i. Queued at' i o) (sym same) (e.fresh o (rw same at h))
      | inr miss ↦
          let ne : j ≢ k = ground (arith, miss) in
          edit-queued_old j o ne (c.queued j o (sym (e.agree j ne) ∙ h))
    ];
    live = e.owned;
    tight = e.held;
  }
