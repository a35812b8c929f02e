-- ===== src/OrderBook/Leaves.antt =====
-- The invariant of a book where an order leaves its level and the index.
use trader_two.Prelude.{
  ℕ, ◌==◌, ◌<◌, ℤ, Bool, true, false, ◌≡◌, ◌≢◌, if◌then◌else◌, none, some, arith, ◌∙◌, sym, ap,
  ◌&&◌, Bool-cases, inl, inr, ◌⊎◌, ==_iff, eq_ℤ, eq_ℤ_iff, subst, elem, elem-unlink_ne,
  length-of_elem, some_inj, none_ne_some,
}
use trader_two.Prelude.Map.{find}
use trader_two.Order.{Order, is_buy}
use trader_two.Level.{Level, remove}
use trader_two.Level.Sums.{Index}
use trader_two.Level.Keeps.{Consistent, Rests, AgreesOff, remove-Consistent}
use trader_two.OrderBook.{OrderBook, dequeue}
use trader_two.OrderBook.Coherent.{
  Elsewhere, levels_of, index_of, owners_of, place-cases, IsValid, Coherent, edit-Coherent, Queued,
}
use trader_two.OrderBook.Moves.{Moves}
use trader_two.OrderBook.Moves.Dequeue.{left_by, dequeue-Moves, owner-dequeue}

-- An order of the index rests on its own side at its own price.
pub known-Rests :
    (b : OrderBook) (k : ℕ) (o : Order)
    → IsValid b
    → find k b.id_index ≡ some o
    → Rests (is_buy o) o.price k o
known-Rests b k o v e =
    let q = v.coherent.queued k o e in
    let (u, found, r) =
      (v.coherent.levels (is_buy o) o.price q.level q.found).0.members k q.inside in
    subst (λ x. Rests (is_buy o) o.price k x) (some_inj (sym found ∙ e)) r

-- No other level holds it.
pub known-away :
    (b : OrderBook) (k : ℕ) (o : Order)
    → IsValid b
    → find k b.id_index ≡ some o
    → (t : Bool) (q : ℤ) (l : Level) → Elsewhere (is_buy o) o.price t q
    → levels_of b t q ≡ some l
    → elem k l.queue ≡ false
known-away b k o v e t q l far h = elim (Bool-cases (elem k l.queue)) [
  | inr out ↦ out
  | inl inside ↦
      let (u, found, r) = (v.coherent.levels t q l h).0.members k inside in
      let same = some_inj (sym found ∙ e) in
      absurd
        (far (sym r.on_side ∙ ap (λ x. is_buy x) same, sym r.at_price ∙ ap (λ x. x.price) same))
]

module _ (b : OrderBook) (k : ℕ) (o : Order) (v : IsValid b) (e : find k b.id_index ≡ some o) where
  home : Queued (levels_of b) k o
  home = v.coherent.queued k o e

  consistent : Consistent (index_of b) (is_buy o) o.price home.level
  consistent = (v.coherent.levels (is_buy o) o.price home.level home.found).0

  moved :
      Moves
        (levels_of b)
        (levels_of (dequeue o (is_buy o) b))
        (is_buy o)
        o.price
        (left_by o home.level)
  moved = dequeue-Moves o (is_buy o) b home.level home.found v.sorted

  -- Another order of the level stays in it.
  others_stay :
      (j : ℕ) → j ≢ k → elem j home.level.queue ≡ true → elem j (remove o home.level).queue ≡ true
  unfolding remove
  others_stay j ne m = rw (known-Rests b k o v e).named (elem-unlink_ne j k home.level.queue ne ∙ m)

  module _ (idx' : Index) (agree : AgreesOff k (index_of b) idx') (gone : idx' k ≡ none) where
    removed : Consistent idx' (is_buy o) o.price (remove o home.level)
    removed = remove-Consistent o agree home.inside e (known-Rests b k o v e).named consistent

    -- The level goes with its last order.
    left-cases :
        ((left_by o home.level ≡ none) × ((remove o home.level).order_count == 0 ≡ true))
        ⊎ ((left_by o home.level ≡ some (remove o home.level))
            × ((remove o home.level).order_count == 0 ≡ false))
    left-cases = elim (Bool-cases ((remove o home.level).order_count == 0)) [
      | inl z ↦ inl (rw z, z)
      | inr nz ↦ inr (rw nz, nz)
    ]

    leave-here :
        (l : Level)
        → levels_of (dequeue o (is_buy o) b) (is_buy o) o.price ≡ some l
        → Consistent idx' (is_buy o) o.price l × (0 < l.order_count)
    leave-here l h = elim left-cases [
      | inl (out, _) ↦ absurd (none_ne_some (sym out ∙ sym moved.here ∙ h))
      | inr (stay, nz) ↦
          subst (λ x. Consistent idx' (is_buy o) o.price x × (0 < x.order_count))
            (some_inj (sym stay ∙ sym moved.here ∙ h)) (removed, ground (arith, nz))
    ]

    leave-keeps :
        (j : ℕ) (l : Level)
        → j ≢ k
        → levels_of b (is_buy o) o.price ≡ some l
        → elem j l.queue ≡ true
        → (l' : Level) × (levels_of (dequeue o (is_buy o) b) (is_buy o) o.price ≡ some l')
          × (elem j l'.queue ≡ true)
    leave-keeps j l ne h m =
        let same = some_inj (sym h ∙ home.found) in
        let m' = others_stay j ne (subst (λ x. elem j x.queue ≡ true) same m) in
        elim left-cases [
          | inl (_, z) ↦
              absurd (omega (arith, removed.counted, length-of_elem j _ m', (==_iff _ 0).0 z))
          | inr (stay, _) ↦ (remove o home.level, moved.here ∙ stay, m')
        ]

    owned_before :
        (t : Bool) (q : ℤ) (l : Level)
        → levels_of (dequeue o (is_buy o) b) t q ≡ some l
        → owners_of b q ≡ some t
    owned_before t q l h = elim (place-cases (is_buy o) t o.price q) [
      | inl (a, c) ↦ rw (a, c) (v.coherent.live (is_buy o) o.price home.level home.found)
      | inr far ↦ v.coherent.live t q l (sym (moved.others t q far) ∙ h)
    ]

    -- The other side has no level at the price of the one that goes: the storage has one owner.
    owned-Elsewhere :
        (t : Bool) (q : ℤ) (l : Level)
        → Elsewhere (is_buy o) o.price t q
        → levels_of b t q ≡ some l
        → (if eq_ℤ o.price q then none else owners_of b q) ≡ some t
    owned-Elsewhere t q l far h = elim (Bool-cases (eq_ℤ o.price q)) [
      | inr ne ↦ rw ne (v.coherent.live t q l h)
      | inl e ↦
          let same : q ≡ o.price = sym ((eq_ℤ_iff o.price q).0 e) in
          let here = v.coherent.live (is_buy o) o.price home.level home.found in
          let there : owners_of b o.price ≡ some t =
            subst (λ r. owners_of b r ≡ some t) same (v.coherent.live t q l h) in
          absurd (far (some_inj (sym there ∙ here), same))
    ]

    leave-owned :
        (t : Bool) (q : ℤ) (l : Level)
        → levels_of (dequeue o (is_buy o) b) t q ≡ some l
        → owners_of (dequeue o (is_buy o) b) q ≡ some t
    leave-owned t q l h =
        rw (owner-dequeue o (is_buy o) b home.level home.found q) (elim left-cases [
          | inl (out, z) ↦ elim (place-cases (is_buy o) t o.price q) [
            | inl (a, c) ↦ absurd (none_ne_some (sym out ∙ sym moved.here ∙ rw (a, c) at h))
            | inr far ↦ rw z (owned-Elsewhere t q l far (sym (moved.others t q far) ∙ h))
          ]
          | inr (stay, nz) ↦ rw nz (owned_before t q l h)
        ])

    still_owned :
        (z : Bool) (t : Bool) (q : ℤ)
        → (if z && eq_ℤ o.price q then none else owners_of b q) ≡ some t
        → (owners_of b q ≡ some t) × (z && eq_ℤ o.price q ≡ false)
    still_owned z t q h = elim (Bool-cases (z && eq_ℤ o.price q)) [
      | inl e ↦ absurd (none_ne_some (rw e at h))
      | inr e ↦ (rw e at h, e)
    ]

    leave-held :
        (t : Bool) (q : ℤ)
        → owners_of (dequeue o (is_buy o) b) q ≡ some t
        → (l : Level) × (levels_of (dequeue o (is_buy o) b) t q ≡ some l)
    leave-held t q h =
        let (owned, kept) =
          still_owned ((remove o home.level).order_count == 0) t q
            (sym (owner-dequeue o (is_buy o) b home.level home.found q) ∙ h) in
        let (l, old) = v.coherent.tight t q owned in
        elim (place-cases (is_buy o) t o.price q) [
          | inr far ↦ (l, moved.others t q far ∙ old)
          | inl (a, c) ↦ elim left-cases [
            | inr (stay, _) ↦ (remove o home.level, rw (a, c) (moved.here ∙ stay))
            | inl (_, z) ↦ absurd (ground (arith, z, kept, c))
          ]
        ]

    pub leave-Coherent :
        Coherent (levels_of (dequeue o (is_buy o) b)) idx' (owners_of (dequeue o (is_buy o) b))
    leave-Coherent = edit-Coherent v.coherent (record {
      others = moved.others;
      agree = agree;
      away = known-away b k o v e;
      here = leave-here;
      keeps = leave-keeps;
      fresh = λ o' h. absurd (none_ne_some (sym gone ∙ h));
      owned = leave-owned;
      held = leave-held;
    })
