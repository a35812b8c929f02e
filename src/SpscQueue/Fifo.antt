-- ===== src/SpscQueue/Fifo.antt =====
-- `SPSCQueue` of include/tt/concurrency/spsc_queue.hpp beside the bounded list that it stands for.
use trader_two.Prelude.{
  ℕ, ◌+◌, ◌%◌, ◌^◌, ◌≤◌, ◌<◌, ◌==◌, ==_iff, ◌≡◌, refl, Bool, true, false, List, [], ◌∷◌, ◌++◌,
  Option, none, some, length, length-append, if◌then◌else◌, arith, ap, ap₂, sym, ◌∙◌, Bool-cases,
  inl, inr,
}
use trader_two.SpscQueue.{SpscQueue, new_queue, push, pop, size_approx, cursor_gap, store_slot}
use trader_two.Types.{next_u64}
use trader_two.SpscQueue.Slots.{
  IsCapacity, InSlots, InSlots-store, InSlots-append, store_slot_self, slot_of_cursor, next_cursor,
  cursor_gap-eq,
}

module _ {ℓ} {A : Type ℓ} where
  -- The queue holds `xs`, oldest first, from place `place` of the row on.
  pub record Holds (n : ℕ) (q : SpscQueue A) (xs : List A) : Type ℓ where
    pub place : ℕ
    pub head_at : q.head ≡ place % 2 ^ 64
    pub tail_at : q.tail ≡ (place + length xs) % 2 ^ 64
    pub bounded : length xs ≤ n
    pub held : InSlots q.buffer n place xs

  -- A first-in first-out list of at most `n` elements.
  unfoldable pub fifo_push : ℕ → A → List A → List A × Bool
  fifo_push n v xs = if length xs == n then (xs, false) else (xs ++ (v ∷ []), true)

  unfoldable pub fifo_pop : List A → List A × Option A
  fifo_pop [] = ([], none)
  fifo_pop (x ∷ xs) = (xs, some x)

  pub new_queue-Holds : (n : ℕ) (blank : A) → Holds n (new_queue blank) []
  unfolding new_queue
  new_queue-Holds n blank = record {
    place = 0;
    head_at = omega arith;
    tail_at = omega arith;
    bounded = omega arith;
    held = tt;
  }

  gap_of_held :
      {n : ℕ} {q : SpscQueue A} {xs : List A}
      → IsCapacity n
      → Holds n q xs
      → cursor_gap q.tail q.head ≡ length xs
  gap_of_held {n} {q} {xs} c h =
      ap₂ cursor_gap h.tail_at h.head_at ∙ cursor_gap-eq h.place (length xs) (omega arith)

  pub size_approx-length :
      {n : ℕ} {q : SpscQueue A} {xs : List A}
      → IsCapacity n
      → Holds n q xs
      → size_approx q ≡ length xs
  unfolding size_approx
  size_approx-length c h = gap_of_held c h

  -- The queue after a store to its tail's slot.
  stored-Holds :
      {n : ℕ} (v : A) (q : SpscQueue A) (xs : List A)
      → IsCapacity n
      → Holds n q xs
      → length xs < n
      → Holds n
          (record q { buffer = store_slot (q.tail % n) v q.buffer; tail = next_u64 q.tail })
          (xs ++ (v ∷ []))
  stored-Holds {n} v q xs c h room = record {
    place = h.place;
    head_at = h.head_at;
    tail_at =
        ap next_u64 h.tail_at
        ∙ next_cursor (h.place + length xs)
        ∙ ap (λ (k : ℕ). k % 2 ^ 64) (omega (arith, length-append xs (v ∷ [])));
    bounded = omega (arith, length-append xs (v ∷ []));
    held = rw slot (
        InSlots-append (store_slot ((h.place + length xs) % n) v q.buffer) n h.place
          (h.place + length xs) v xs
          (InSlots-store q.buffer n h.place (h.place + length xs) v xs h.held (omega arith)
            (omega arith))
          refl (store_slot_self ((h.place + length xs) % n) v q.buffer));
  }
    where
      slot : q.tail % n ≡ (h.place + length xs) % n
      slot = ap (λ (k : ℕ). k % n) h.tail_at ∙ slot_of_cursor (h.place + length xs) c

  pub push-refines :
      {n : ℕ} (v : A) (q : SpscQueue A) (xs : List A)
      → IsCapacity n
      → Holds n q xs
      → Holds n (push n v q).0 (fifo_push n v xs).0 × ((push n v q).1 ≡ (fifo_push n v xs).1)
  unfolding push fifo_push
  push-refines {n} v q xs c h = rw (gap_of_held c h) (elim (Bool-cases (length xs == n)) [
    | inl full ↦ rw full (h, refl)
    | inr room ↦ rw room (stored-Holds v q xs c h (ground arith), refl)
  ])

  -- A push that is refused leaves the queue.
  pub push_refused : (n : ℕ) (v : A) (q : SpscQueue A) → (push n v q).1 ≡ false → (push n v q).0 ≡ q
  unfolding push
  push_refused n v q h = elim (Bool-cases (cursor_gap q.tail q.head == n)) [
    | inl full ↦ rw full refl
    | inr room ↦ let wrong : true ≡ false = rw room at h in cc
  ]

  cursors_apart :
      {n : ℕ} (q : SpscQueue A) (x : A) (xs : List A)
      → IsCapacity n
      → Holds n q (x ∷ xs)
      → (q.head == q.tail) ≡ false
  cursors_apart q x xs c h = ground (arith, h.head_at, h.tail_at, h.bounded, c.fits)

  taken-Holds :
      {n : ℕ} (q : SpscQueue A) (x : A) (xs : List A)
      → IsCapacity n
      → Holds n q (x ∷ xs)
      → Holds n (record q { head = next_u64 q.head }) xs × (q.buffer (q.head % n) ≡ x)
  taken-Holds {n} q x xs c h = (
    record {
      place = h.place + 1;
      head_at = ap next_u64 h.head_at ∙ next_cursor h.place;
      tail_at = h.tail_at ∙ ap (λ (k : ℕ). k % 2 ^ 64) (omega arith);
      bounded = omega arith;
      held = h.held.1;
    },
    ap (λ (k : ℕ). q.buffer (k % n)) h.head_at ∙ ap q.buffer (slot_of_cursor h.place c) ∙ h.held.0,
  )

  pub pop-refines :
      {n : ℕ} (q : SpscQueue A) (xs : List A)
      → IsCapacity n
      → Holds n q xs
      → Holds n (pop n q).0 (fifo_pop xs).0 × ((pop n q).1 ≡ (fifo_pop xs).1)
  unfolding pop fifo_pop
  pop-refines q [] c h =
      let same : q.head ≡ q.tail =
        h.head_at ∙ ap (λ (k : ℕ). k % 2 ^ 64) (omega arith) ∙ sym h.tail_at in
      rw ((==_iff q.head q.tail).1 same) (h, refl)
  pop-refines q (x ∷ xs) c h =
      let (h', e) = taken-Holds q x xs c h in rw (cursors_apart q x xs c h) (h', ap some e)

-- The calls of the two sides, and what they return.
pub data QueueCall {ℓ} (A : Type ℓ) : Type ℓ where
  put : A → QueueCall A
  get : QueueCall A

pub data QueueReply {ℓ} (A : Type ℓ) : Type ℓ where
  pushed : Bool → QueueReply A
  popped : Option A → QueueReply A

module _ {ℓ} {A : Type ℓ} (n : ℕ) where
  -- A sequence of calls on the ring, each before the next.
  unfoldable pub run_queue : List (QueueCall A) → SpscQueue A → List (QueueReply A)
  run_queue [] q = []
  run_queue (put v ∷ calls) q = pushed (push n v q).1 ∷ run_queue calls (push n v q).0
  run_queue (get ∷ calls) q = popped (pop n q).1 ∷ run_queue calls (pop n q).0

  -- The same calls on a bounded list.
  unfoldable pub run_fifo : List (QueueCall A) → List A → List (QueueReply A)
  run_fifo [] xs = []
  run_fifo (put v ∷ calls) xs = pushed (fifo_push n v xs).1 ∷ run_fifo calls (fifo_push n v xs).0
  run_fifo (get ∷ calls) xs = popped (fifo_pop xs).1 ∷ run_fifo calls (fifo_pop xs).0

module _ {ℓ} {A : Type ℓ} {n : ℕ} (c : IsCapacity n) where
  run_held :
      (calls : List (QueueCall A)) (q : SpscQueue A) (xs : List A)
      → Holds n q xs
      → run_queue n calls q ≡ run_fifo n calls xs
  unfolding run_queue run_fifo
  run_held [] q xs h = refl
  run_held (put v ∷ calls) q xs h =
      let (h', e) = push-refines v q xs c h in ap₂ ◌∷◌ (ap pushed e) (run_held calls _ _ h')
  run_held (get ∷ calls) q xs h =
      let (h', e) = pop-refines q xs c h in ap₂ ◌∷◌ (ap popped e) (run_held calls _ _ h')

-- Any sequence of pushes and pops on a new ring answers as on a list of at most its capacity, first
-- in first out, also when the cursors wrap around, where the capacity is what the class asserts.
pub run_queue-eq-run_fifo {ℓ} :
    {A : Type ℓ} {n : ℕ} (blank : A) (calls : List (QueueCall A))
    → IsCapacity n
    → run_queue n calls (new_queue blank) ≡ run_fifo n calls []
run_queue-eq-run_fifo {n} blank calls c =
    run_held c calls (new_queue blank) [] (new_queue-Holds n blank)
