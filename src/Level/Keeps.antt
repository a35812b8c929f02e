-- ===== src/Level/Keeps.antt =====
-- The consistency of a level with the index of its orders, under `append`, `remove` and `sub_from_total`.
use trader_two.Prelude.{
  ℕ, ℤ, pos, ◌+ℤ◌, ◌-ℤ◌, ◌<ℤ◌, ◌==◌, Bool, true, false, ◌≡◌, ◌≢◌, List, [], ◌∷◌, ◌++◌, some, arith,
  elem, unlink, length, Distinct, ap, ◌∙◌, sym, Bool-cases, ==_iff, inl, inr, ap₂, length-append,
  elem-append_one, append_one-Distinct, elem-unlink_ne, elem-unlink_self, unlink-Distinct,
  length-unlink, +ℤ_cancel, +ℤ_sub,
}
use trader_two.Types.{price_is_valid}
use trader_two.Order.{Order, is_buy, is_limit, status_is_gone}
use trader_two.Level.{Level, append, remove, sub_from_total}
use trader_two.Level.Sums.{
  Index, sum_remaining, remaining_of, sum_remaining-agree, sum_remaining-append_one,
  sum_remaining-unlink,
}

-- An order that works on one side at one price.
pub record Rests (is_bid : Bool) (p : ℤ) (k : ℕ) (o : Order) : Type 0 where
  pub named : o.id ≡ k
  pub on_side : is_buy o ≡ is_bid
  pub at_price : o.price ≡ p
  pub some_left : pos 0 <ℤ o.remaining
  pub not_gone : status_is_gone o.status ≡ false
  pub limited : is_limit o ≡ true

-- The counters of a level are those of its queue, and its queue holds orders of the index.
pub record Consistent (idx : Index) (is_bid : Bool) (p : ℤ) (l : Level) : Type 0 where
  pub priced : l.price ≡ p
  pub valid_price : price_is_valid p ≡ true
  pub counted : l.order_count ≡ length l.queue
  pub totalled : l.total_quantity ≡ sum_remaining idx l.queue
  pub distinct : Distinct l.queue
  pub members :
      (k : ℕ) → elem k l.queue ≡ true → (o : Order) × (idx k ≡ some o) × Rests is_bid p k o

-- Two indexes that differ at one id at most.
abbrev pub AgreesOff : ℕ → Index → Index → Type 0
AgreesOff k idx idx' = (j : ℕ) → j ≢ k → idx' j ≡ idx j

pub ne_of_elem : (j k : ℕ) (ks : List ℕ) → elem k ks ≡ false → elem j ks ≡ true → j ≢ k
ne_of_elem j k ks h m e = ground arith

module _ {idx idx' : Index} {is_bid : Bool} {p : ℤ} {l : Level} (k : ℕ) where
  -- A level that does not hold the id that changes.
  pub away-Consistent :
      AgreesOff k idx idx'
      → elem k l.queue ≡ false
      → Consistent idx is_bid p l
      → Consistent idx' is_bid p l
  away-Consistent agree h c = record {
    priced = c.priced;
    valid_price = c.valid_price;
    counted = c.counted;
    totalled =
        c.totalled
        ∙ sym (sum_remaining-agree idx idx' l.queue (λ j m. agree j (ne_of_elem j k l.queue h m)));
    distinct = c.distinct;
    members =
        λ j m. let (o, e, r) = c.members j m in (o, agree j (ne_of_elem j k l.queue h m) ∙ e, r);
  }

-- A new order at the back of the queue.
module _ {idx idx' : Index} {is_bid : Bool} {p : ℤ} {l : Level} {k : ℕ} (o : Order) where
  appended_total :
      AgreesOff k idx idx'
      → elem k l.queue ≡ false
      → idx' k ≡ some o
      → Consistent idx is_bid p l
      → l.total_quantity +ℤ o.remaining ≡ sum_remaining idx' (l.queue ++ (k ∷ []))
  appended_total agree h e c = rw (
    sum_remaining-append_one idx' l.queue k,
    sum_remaining-agree idx idx' l.queue (λ j m. agree j (ne_of_elem j k l.queue h m)),
    e,
    c.totalled,
  )

  appended_member :
      AgreesOff k idx idx'
      → elem k l.queue ≡ false
      → idx' k ≡ some o
      → Rests is_bid p k o
      → Consistent idx is_bid p l
      → (j : ℕ) → elem j (l.queue ++ (k ∷ [])) ≡ true
      → (u : Order) × (idx' j ≡ some u) × Rests is_bid p j u
  appended_member agree h e r c j m = elim (Bool-cases (k == j)) [
    | inl hit ↦ rw (← (==_iff k j).0 hit) (o, e, r)
    | inr miss ↦
        let m' : elem j l.queue ≡ true = ground (arith, elem-append_one j k l.queue, miss, m) in
        let (u, found, rests) = c.members j m' in
        (u, agree j (ne_of_elem j k l.queue h m') ∙ found, rests)
  ]

  pub append-Consistent :
      AgreesOff k idx idx'
      → elem k l.queue ≡ false
      → idx' k ≡ some o
      → Rests is_bid p k o
      → Consistent idx is_bid p l
      → Consistent idx' is_bid p (append o l)
  unfolding append
  append-Consistent agree h e r c = rw r.named (record {
    priced = c.priced;
    valid_price = c.valid_price;
    counted = omega (arith, c.counted, length-append l.queue (k ∷ []));
    totalled = appended_total agree h e c;
    distinct = append_one-Distinct k l.queue c.distinct h;
    members = appended_member agree h e r c;
  })

-- The sum over the rest of the queue is the same for both indexes.
rest_total :
    (idx idx' : Index) (k : ℕ) (ks : List ℕ)
    → AgreesOff k idx idx'
    → Distinct ks
    → sum_remaining idx' (unlink k ks) ≡ sum_remaining idx (unlink k ks)
rest_total idx idx' k ks agree d =
    sum_remaining-agree idx idx' (unlink k ks)
      (λ j m. agree j (ne_of_elem j k (unlink k ks) (elem-unlink_self k ks d) m))

-- Taking an order out of the queue.
module _ {idx idx' : Index} {is_bid : Bool} {p : ℤ} {l : Level} {k : ℕ} (o : Order) where
  removed_total :
      AgreesOff k idx idx'
      → elem k l.queue ≡ true
      → idx k ≡ some o
      → Consistent idx is_bid p l
      → l.total_quantity -ℤ o.remaining ≡ sum_remaining idx' (unlink k l.queue)
  removed_total agree h e c = rw (rest_total idx idx' k l.queue agree c.distinct) (
      ap (λ t. t -ℤ o.remaining)
        (c.totalled
          ∙ sym (sum_remaining-unlink idx l.queue k h)
          ∙ ap (λ t. sum_remaining idx (unlink k l.queue) +ℤ remaining_of t) e)
      ∙ +ℤ_cancel _ _)

  removed_member :
      AgreesOff k idx idx'
      → Consistent idx is_bid p l
      → (j : ℕ) → elem j (unlink k l.queue) ≡ true
      → (u : Order) × (idx' j ≡ some u) × Rests is_bid p j u
  removed_member agree c j m =
      let ne = ne_of_elem j k _ (elem-unlink_self k l.queue c.distinct) m in
      let (u, found, rests) = c.members j (sym (elem-unlink_ne j k l.queue ne) ∙ m) in
      (u, agree j ne ∙ found, rests)

  pub remove-Consistent :
      AgreesOff k idx idx'
      → elem k l.queue ≡ true
      → idx k ≡ some o
      → o.id ≡ k
      → Consistent idx is_bid p l
      → Consistent idx' is_bid p (remove o l)
  unfolding remove
  remove-Consistent agree h e named c = rw named (record {
    priced = c.priced;
    valid_price = c.valid_price;
    counted = omega (arith, c.counted, length-unlink k l.queue h);
    totalled = removed_total agree h e c;
    distinct = unlink-Distinct k l.queue c.distinct;
    members = removed_member agree c;
  })

-- An order of the queue that has less left.
module _ {idx idx' : Index} {is_bid : Bool} {p : ℤ} {l : Level} {k : ℕ} (o o' : Order) (d : ℤ) where
  shrunk_total :
      AgreesOff k idx idx'
      → elem k l.queue ≡ true
      → idx k ≡ some o
      → idx' k ≡ some o'
      → o'.remaining ≡ o.remaining -ℤ d
      → Consistent idx is_bid p l
      → l.total_quantity -ℤ d ≡ sum_remaining idx' l.queue
  shrunk_total agree h e e' s c =
      ap (λ t. t -ℤ d)
        (c.totalled
          ∙ sym (sum_remaining-unlink idx l.queue k h)
          ∙ ap (λ t. sum_remaining idx (unlink k l.queue) +ℤ remaining_of t) e)
      ∙ +ℤ_sub _ _ _
      ∙ sym (
          sym (sum_remaining-unlink idx' l.queue k h)
          ∙ ap₂ ◌+ℤ◌ (rest_total idx idx' k l.queue agree c.distinct) (ap remaining_of e' ∙ s))

  shrunk_member :
      AgreesOff k idx idx'
      → idx' k ≡ some o'
      → Rests is_bid p k o'
      → Consistent idx is_bid p l
      → (j : ℕ) → elem j l.queue ≡ true
      → (u : Order) × (idx' j ≡ some u) × Rests is_bid p j u
  shrunk_member agree e' r c j m = elim (Bool-cases (k == j)) [
    | inl hit ↦ rw (← (==_iff k j).0 hit) (o', e', r)
    | inr miss ↦
        let (u, found, rests) = c.members j m in (u, agree j (ground (arith, miss)) ∙ found, rests)
  ]

  pub sub_from_total-Consistent :
      AgreesOff k idx idx'
      → elem k l.queue ≡ true
      → idx k ≡ some o
      → idx' k ≡ some o'
      → o'.remaining ≡ o.remaining -ℤ d
      → Rests is_bid p k o'
      → Consistent idx is_bid p l
      → Consistent idx' is_bid p (sub_from_total d l)
  unfolding sub_from_total
  sub_from_total-Consistent agree h e e' s r c = record {
    priced = c.priced;
    valid_price = c.valid_price;
    counted = c.counted;
    totalled = shrunk_total agree h e e' s c;
    distinct = c.distinct;
    members = shrunk_member agree e' r c;
  }
