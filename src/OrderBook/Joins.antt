-- ===== src/OrderBook/Joins.antt =====
-- The invariant of a book where an order joins the level at its price and the index.
use mathlib.Core.Bool.{false≢true}
use trader_two.Prelude.{
  ℕ, ◌<◌, ℤ, Bool, true, false, not, ◌≡◌, ◌≢◌, refl, if◌then◌else◌, Option, none, some, arith, ◌∙◌,
  sym, ap, Bool-cases, Option-cases, inl, inr, ◌⊎◌, eq_ℤ, eq_ℤ_iff, eq_ℤ_refl, subst, elem,
  elem-append_one, some_inj, none_ne_some,
}
use trader_two.Types.{price_is_valid}
use trader_two.Order.{Order, is_buy}
use trader_two.Level.{Level, append, empty_level}
use trader_two.Level.Sums.{Index, sum_remaining}
use trader_two.Level.Keeps.{Consistent, Rests, AgreesOff, append-Consistent}
use trader_two.OrderBook.{OrderBook, enqueue}
use trader_two.OrderBook.Coherent.{
  Elsewhere, levels_of, owners_of, place-cases, Coherent, edit-Coherent, Queued,
}
use trader_two.OrderBook.Moves.{Moves}
use trader_two.OrderBook.Moves.Enqueue.{
  joined, enqueue-Moves, owner-enqueue_new, owner-enqueue_owned,
}

pub empty_level-Consistent :
    (idx : Index) (s : Bool) (p : ℤ) → price_is_valid p ≡ true → Consistent idx s p (empty_level p)
unfolding empty_level sum_remaining elem
empty_level-Consistent idx s p h = record {
  priced = refl;
  valid_price = h;
  counted = refl;
  totalled = refl;
  distinct = tt;
  members = λ k m. absurd (ground (arith, m));
}

side-cases : (t s : Bool) → (t ≡ s) ⊎ (t ≡ not s)
side-cases true true = inl refl
side-cases true false = inr refl
side-cases false true = inr refl
side-cases false false = inl refl

-- A side has no level at a price.
abbrev pub IsFree : OrderBook → Bool → ℤ → Type 0
IsFree b s p = levels_of b s p ≡ none

module _ (b : OrderBook) (k : ℕ) (o : Order) {idx : Index} (idx' : Index)
    (c : Coherent (levels_of b) idx (owners_of b)) (agree : AgreesOff k idx idx')
    (missing : idx k ≡ none) (there : idx' k ≡ some o) (rests : Rests (is_buy o) o.price k o)
    (valid : price_is_valid o.price ≡ true) (free : IsFree b (not (is_buy o)) o.price) where
  not_inside : (t : Bool) (q : ℤ) (l : Level) → levels_of b t q ≡ some l → elem k l.queue ≡ false
  not_inside t q l h = elim (Bool-cases (elem k l.queue)) [
    | inr out ↦ out
    | inl inside ↦
        let (u, found, r) = (c.levels t q l h).0.members k inside in
        absurd (none_ne_some (sym missing ∙ found))
  ]

  joined-Consistent :
      (m : Option Level)
      → levels_of b (is_buy o) o.price ≡ m
      → Consistent idx (is_buy o) o.price (joined o.price m)
        × (elem k (joined o.price m).queue ≡ false)
  unfolding empty_level elem
  joined-Consistent none h = (empty_level-Consistent idx (is_buy o) o.price valid, refl)
  joined-Consistent (some l) h =
      ((c.levels (is_buy o) o.price l h).0, not_inside (is_buy o) o.price l h)

  -- A price with an owner has a level on the side of the order, since the other side is free.
  owner-side :
      (t : Bool)
      → owners_of b o.price ≡ some t
      → (l : Level) × levels_of b (is_buy o) o.price ≡ some l
  owner-side t h =
      let (l, at) = c.tight t o.price h in
      elim (side-cases t (is_buy o)) [
        | inl same ↦ (l, rw same at at)
        | inr other ↦ absurd (none_ne_some (sym free ∙ (rw other at at)))
      ]

  owner-joined :
      (m : Option Level)
      → levels_of b (is_buy o) o.price ≡ m
      → (q : ℤ)
      → owners_of (enqueue o (is_buy o) b) q
        ≡ (if eq_ℤ o.price q then some (is_buy o) else owners_of b q)
  owner-joined none h q = elim (Option-cases (owners_of b o.price)) [
    | inl unowned ↦ owner-enqueue_new o (is_buy o) b h unowned q
    | inr (t, owned) ↦ absurd (none_ne_some (sym h ∙ (owner-side t owned).1))
  ]
  owner-joined (some l) h q =
      let owned = c.live (is_buy o) o.price l h in
      owner-enqueue_owned o (is_buy o) b owned q ∙ elim (Bool-cases (eq_ℤ o.price q)) [
        | inl e ↦ rw (e, ← (eq_ℤ_iff o.price q).0 e) owned
        | inr ne ↦ rw ne
      ]

  Elsewhere-owned :
      (t : Bool) (q : ℤ) (l : Level)
      → Elsewhere (is_buy o) o.price t q
      → levels_of b t q ≡ some l
      → (if eq_ℤ o.price q then some (is_buy o) else owners_of b q) ≡ some t
  Elsewhere-owned t q l far h = elim (Bool-cases (eq_ℤ o.price q)) [
    | inr ne ↦ rw ne (c.live t q l h)
    | inl e ↦
        let same : q ≡ o.price = sym ((eq_ℤ_iff o.price q).0 e) in
        elim (side-cases t (is_buy o)) [
          | inl side ↦ absurd (far (side, same))
          | inr other ↦ absurd (none_ne_some (sym free ∙ (rw (other, same) at h)))
        ]
  ]

  module _ (m : Option Level) (found : levels_of b (is_buy o) o.price ≡ m) where
    moved :
        Moves
          (levels_of b)
          (levels_of (enqueue o (is_buy o) b))
          (is_buy o)
          o.price
          (some (append o (joined o.price m)))
    moved = enqueue-Moves o (is_buy o) b m found

    appended : Consistent idx' (is_buy o) o.price (append o (joined o.price m))
    appended =
        let (base, out) = joined-Consistent m found in
        append-Consistent o agree out there rests base

    join-here :
        (l : Level)
        → levels_of (enqueue o (is_buy o) b) (is_buy o) o.price ≡ some l
        → Consistent idx' (is_buy o) o.price l × (0 < l.order_count)
    unfolding append
    join-here l h =
        subst (λ x. Consistent idx' (is_buy o) o.price x × (0 < x.order_count))
          (some_inj (sym moved.here ∙ h)) (appended, omega arith)

    join-keeps :
        (j : ℕ) (l : Level)
        → j ≢ k
        → levels_of b (is_buy o) o.price ≡ some l
        → elem j l.queue ≡ true
        → (l' : Level) × (levels_of (enqueue o (is_buy o) b) (is_buy o) o.price ≡ some l')
          × (elem j l'.queue ≡ true)
    unfolding append
    join-keeps j l ne h inside =
        let same : joined o.price m ≡ l = ap (joined o.price) (sym found ∙ h) in
        let inside' = subst (λ x. elem j x.queue ≡ true) (sym same) inside in
        (
          append o (joined o.price m),
          moved.here,
          ground (arith, inside', elem-append_one j o.id (joined o.price m).queue),
        )

    join-fresh : (u : Order) → idx' k ≡ some u → Queued (levels_of (enqueue o (is_buy o) b)) k u
    unfolding append
    join-fresh u h =
        subst (Queued (levels_of (enqueue o (is_buy o) b)) k) (some_inj (sym there ∙ h)) (record {
          level = append o (joined o.price m);
          found = moved.here;
          inside = ground (arith, rests.named, elem-append_one k o.id (joined o.price m).queue);
        })

    join-owned :
        (t : Bool) (q : ℤ) (l : Level)
        → levels_of (enqueue o (is_buy o) b) t q ≡ some l
        → owners_of (enqueue o (is_buy o) b) q ≡ some t
    join-owned t q l h = rw (owner-joined m found q) (elim (place-cases (is_buy o) t o.price q) [
      | inl (a, e) ↦ rw (a, e, eq_ℤ_refl o.price)
      | inr far ↦ Elsewhere-owned t q l far (sym (moved.others t q far) ∙ h)
    ])

    join-held :
        (t : Bool) (q : ℤ)
        → owners_of (enqueue o (is_buy o) b) q ≡ some t
        → (l : Level) × (levels_of (enqueue o (is_buy o) b) t q ≡ some l)
    join-held t q h =
        let owned = sym (owner-joined m found q) ∙ h in
        elim (Bool-cases (eq_ℤ o.price q)) [
          | inl e ↦
              let side : is_buy o ≡ t = some_inj (rw e at owned) in
              let price = (eq_ℤ_iff o.price q).0 e in
              (append o (joined o.price m), rw (← side, ← price) moved.here)
          | inr ne ↦
              let (l, old) = c.tight t q (rw ne at owned) in
              (
                l,
                moved.others t q (λ x. false≢true (sym ne ∙ (eq_ℤ_iff o.price q).1 (sym x.1)))
                    ∙ old,
              )
        ]

    join : Coherent (levels_of (enqueue o (is_buy o) b)) idx' (owners_of (enqueue o (is_buy o) b))
    join = edit-Coherent c (record {
      others = moved.others;
      agree = agree;
      away = λ t q l far h. not_inside t q l h;
      here = join-here;
      keeps = join-keeps;
      fresh = join-fresh;
      owned = join-owned;
      held = join-held;
    })

  pub join-Coherent :
      Coherent (levels_of (enqueue o (is_buy o) b)) idx' (owners_of (enqueue o (is_buy o) b))
  join-Coherent = join (levels_of b (is_buy o) o.price) refl
