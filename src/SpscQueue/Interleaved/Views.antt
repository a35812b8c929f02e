-- ===== src/SpscQueue/Interleaved/Views.antt =====
-- What the two threads of include/tt/concurrency/spsc_queue.hpp have seen of each other's cursors,
-- while the queue holds what waits.
use trader_two.Prelude.{
  ℕ, ◌+◌, ◌-◌, ◌%◌, ◌^◌, ◌≤◌, ◌<◌, ◌≡◌, ◌≢◌, refl, sym, ap, ap₂, ◌∙◌, List, [], ◌∷◌, ◌++◌, length,
  length-append, arith,
}
use trader_two.SpscQueue.{cursor_gap}
use trader_two.SpscQueue.Slots.{IsCapacity, cursor_gap-eq}
use trader_two.SpscQueue.Fifo.{Holds, new_queue-Holds}
use trader_two.SpscQueue.Interleaved.{
  Producer, producer_idle, tail_loaded, room_loaded, value_stored, Consumer, consumer_idle,
  head_loaded, fill_loaded, value_read, Shared, at_rest,
}

-- A load of the head that may be behind it: at place `b`, with room for the `k` elements from `place`.
pub record OldHead (n place k h : ℕ) : Type 0 where
  pub seen : ℕ
  pub behind : seen ≤ place
  pub round : place + k ≤ seen + n
  pub loaded : h ≡ seen % 2 ^ 64

-- A load of the tail that may be behind it.
pub record OldTail (place k t : ℕ) : Type 0 where
  pub filled : ℕ
  pub behind : filled ≤ k
  pub loaded : t ≡ (place + filled) % 2 ^ 64

pub room_left :
    {n : ℕ} (place k t h : ℕ)
    → IsCapacity n
    → t ≡ (place + k) % 2 ^ 64
    → OldHead n place k h
    → cursor_gap t h ≢ n
    → k < n
room_left {n} place k t h c e old ne =
    let gap : cursor_gap t h ≡ place + k - old.seen =
      ap₂ cursor_gap (e ∙ ap (λ (j : ℕ). j % 2 ^ 64) (omega (arith, old.behind))) old.loaded
      ∙ cursor_gap-eq old.seen (place + k - old.seen) (omega (arith, c.fits, old.round)) in
    let apart : place + k - old.seen ≢ n = λ q. ne (gap ∙ q) in omega (arith, old.behind, old.round)

module _ {A : Type 0} where
  -- What the producer has loaded and stored, while the row runs from `place` over `k` elements.
  abbrev pub Produces : ℕ → (ℕ → A) → ℕ → ℕ → Producer A → Type 0
  Produces n b place k producer_idle = Unit {0}
  Produces n b place k (tail_loaded v t) = t ≡ (place + k) % 2 ^ 64
  Produces n b place k (room_loaded v t h) = (t ≡ (place + k) % 2 ^ 64) × OldHead n place k h
  Produces n b place k (value_stored v t) =
      (t ≡ (place + k) % 2 ^ 64) × (k < n) × (b ((place + k) % n) ≡ v)

  -- What the consumer has loaded, while the row from `place` holds `xs`.
  abbrev pub Consumes : ℕ → List A → Consumer A → Type 0
  Consumes place xs consumer_idle = Unit {0}
  Consumes place xs (head_loaded h) = h ≡ place % 2 ^ 64
  Consumes place xs (fill_loaded h t) = (h ≡ place % 2 ^ 64) × OldTail place (length xs) t
  Consumes place xs (value_read h v) = (h ≡ place % 2 ^ 64) × ((rest : List A) × (xs ≡ v ∷ rest))

  -- The queue holds `waiting`: what was sent and is not taken.
  pub record Coherent (n : ℕ) (s : Shared A) : Type 0 where
    pub waiting : List A
    pub holds : Holds n s.queue waiting
    pub history : s.sent ≡ s.taken ++ waiting
    pub produces : Produces n s.queue.buffer holds.place (length waiting) s.producer
    pub consumes : Consumes holds.place waiting s.consumer

  -- The consumer moves the row on and leaves its end.
  pub Produces-shift :
      (n : ℕ) (b : ℕ → A) (place k place' k' : ℕ) (p : Producer A)
      → place + k ≡ place' + k'
      → k' ≤ k
      → Produces n b place k p
      → Produces n b place' k' p
  Produces-shift n b place k place' k' producer_idle e le h = tt
  Produces-shift n b place k place' k' (tail_loaded v t) e le h = rw (← e) h
  Produces-shift n b place k place' k' (room_loaded v t u) e le (h, old) = (
    rw (← e) h,
    record {
      seen = old.seen;
      behind = omega (arith, old.behind);
      round = omega (arith, old.round);
      loaded = old.loaded;
    },
  )
  Produces-shift n b place k place' k' (value_stored v t) e le (h, lt, at) =
      (rw (← e) h, omega arith, rw (← e) at)

  -- The producer adds to the end of the row.
  pub Consumes-append :
      (place : ℕ) (xs : List A) (v : A) (p : Consumer A)
      → Consumes place xs p
      → Consumes place (xs ++ (v ∷ [])) p
  Consumes-append place xs v consumer_idle h = tt
  Consumes-append place xs v (head_loaded u) h = h
  Consumes-append place xs v (fill_loaded u t) (h, old) = (
    h,
    record {
      filled = old.filled;
      behind = omega (arith, old.behind, length-append xs (v ∷ []));
      loaded = old.loaded;
    },
  )
  Consumes-append place xs v (value_read u w) (h, (rest, e)) = (h, (rest ++ (v ∷ []), rw e))

  pub first_of :
      {place : ℕ} (xs : List A) {h t : ℕ}
      → h ≡ place % 2 ^ 64
      → OldTail place (length xs) t
      → h ≢ t
      → (v : A) × (rest : List A) × (xs ≡ v ∷ rest)
  first_of [] e old ne =
      absurd (ne (e ∙ ap (λ (k : ℕ). k % 2 ^ 64) (omega (arith, old.behind)) ∙ sym old.loaded))
  first_of (v ∷ rest) e old ne = (v, rest, refl)

  pub at_rest-Coherent : (n : ℕ) (blank : A) → Coherent n (at_rest blank)
  unfolding at_rest
  at_rest-Coherent n blank = record {
    waiting = [];
    holds = new_queue-Holds n blank;
    history = refl;
    produces = tt;
    consumes = tt;
  }
