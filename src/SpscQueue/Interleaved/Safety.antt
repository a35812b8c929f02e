-- ===== src/SpscQueue/Interleaved/Safety.antt =====
-- The interleaved steps of `push` and `pop` of include/tt/concurrency/spsc_queue.hpp.
use mathlib.Core.List.{append_assoc}
use trader_two.Prelude.{
  ℕ, ◌+◌, ◌%◌, ◌^◌, ◌≤◌, ◌≡◌, ◌≢◌, refl, sym, ap, subst, ◌∙◌, List, [], ◌∷◌, ◌++◌, length,
  length-append, arith,
}
use trader_two.Types.{next_u64}
use trader_two.SpscQueue.{cursor_gap, store_slot}
use trader_two.SpscQueue.Slots.{
  IsCapacity, InSlots, InSlots-store, InSlots-append, store_slot_self, slot_of_cursor, next_cursor,
}
use trader_two.SpscQueue.Fifo.{Holds}
use trader_two.SpscQueue.Interleaved.{
  producer_idle, room_loaded, value_stored, consumer_idle, fill_loaded, value_read, Shared, Step,
  load_tail, check_head, find_full, store_value, publish_tail, load_head, check_tail, find_empty,
  read_value, publish_head, Reach, start, next,
}
use trader_two.SpscQueue.Interleaved.Views.{
  Produces, Consumes, Coherent, room_left, Produces-shift, Consumes-append, first_of,
  at_rest-Coherent,
}

module _ {A : Type 0} where
  value_stored-Coherent :
      {n : ℕ} {v : A} {t h : ℕ} (s : Shared A)
      → IsCapacity n
      → s.producer ≡ room_loaded v t h
      → cursor_gap t h ≢ n
      → Coherent n s
      → Coherent n (record s {
        producer = value_stored v t;
        queue = record (s.queue) { buffer = store_slot (t % n) v s.queue.buffer };
      })
  value_stored-Coherent {n} {v} {t} {h} s c e room i =
      let (at, old) =
        subst (Produces n s.queue.buffer i.holds.place (length i.waiting)) e i.produces in
      let lt = room_left i.holds.place (length i.waiting) t h c at old room in
      let slot : t % n ≡ (i.holds.place + length i.waiting) % n =
        ap (λ (k : ℕ). k % n) at ∙ slot_of_cursor (i.holds.place + length i.waiting) c in
      record {
        waiting = i.waiting;
        holds = record {
          place = i.holds.place;
          head_at = i.holds.head_at;
          tail_at = i.holds.tail_at;
          bounded = i.holds.bounded;
          held = rw slot (
              InSlots-store s.queue.buffer n i.holds.place (i.holds.place + length i.waiting) v
                i.waiting i.holds.held (omega arith) (omega arith));
        };
        history = i.history;
        produces = (
          at,
          lt,
          rw slot (store_slot_self ((i.holds.place + length i.waiting) % n) v s.queue.buffer),
        );
        consumes = i.consumes;
      }

  tail_published-Coherent :
      {n : ℕ} {v : A} {t : ℕ} (s : Shared A)
      → s.producer ≡ value_stored v t
      → Coherent n s
      → Coherent n (record s {
        producer = producer_idle;
        queue = record (s.queue) { tail = next_u64 t };
        sent = s.sent ++ (v ∷ []);
      })
  tail_published-Coherent {n} {v} {t} s e i =
      let (at, lt, written) =
        subst (Produces n s.queue.buffer i.holds.place (length i.waiting)) e i.produces in
      record {
        waiting = i.waiting ++ (v ∷ []);
        holds = record {
          place = i.holds.place;
          head_at = i.holds.head_at;
          tail_at =
              ap next_u64 at
              ∙ next_cursor (i.holds.place + length i.waiting)
              ∙ ap (λ (k : ℕ). k % 2 ^ 64) (omega (arith, length-append i.waiting (v ∷ [])));
          bounded = omega (arith, length-append i.waiting (v ∷ []));
          held =
              InSlots-append s.queue.buffer n i.holds.place (i.holds.place + length i.waiting) v
                i.waiting i.holds.held refl written;
        };
        history =
            ap (λ (l : List A). l ++ (v ∷ [])) i.history ∙ append_assoc s.taken i.waiting (v ∷ []);
        produces = tt;
        consumes = Consumes-append i.holds.place i.waiting v s.consumer i.consumes;
      }

  value_read-Coherent :
      {n h t : ℕ} (s : Shared A)
      → IsCapacity n
      → s.consumer ≡ fill_loaded h t
      → h ≢ t
      → Coherent n s
      → Coherent n (record s { consumer = value_read h (s.queue.buffer (h % n)) })
  value_read-Coherent {n} {h} {t} s c e ne i =
      let (at, old) = subst (Consumes i.holds.place i.waiting) e i.consumes in
      let (v, rest, front) = first_of i.waiting at old ne in
      record {
        waiting = i.waiting;
        holds = i.holds;
        history = i.history;
        produces = i.produces;
        consumes = (
          at,
          (
            rest,
            front
                ∙ ap (λ (w : A). w ∷ rest)
                    (sym (
                      ap (λ (k : ℕ). s.queue.buffer (k % n)) at
                      ∙ ap s.queue.buffer (slot_of_cursor i.holds.place c)
                      ∙ (subst (InSlots s.queue.buffer n i.holds.place) front i.holds.held).0)),
          ),
        );
      }

  head_published-Coherent :
      {n : ℕ} {v : A} {h : ℕ} (s : Shared A)
      → s.consumer ≡ value_read h v
      → Coherent n s
      → Coherent n (record s {
        consumer = consumer_idle;
        queue = record (s.queue) { head = next_u64 h };
        taken = s.taken ++ (v ∷ []);
      })
  head_published-Coherent {n} {v} {h} s e i =
      let (at, first) = subst (Consumes i.holds.place i.waiting) e i.consumes in
      let (rest, front) = first in
      let longer : length i.waiting ≡ length rest + 1 = omega (arith, ap length front) in
      record {
        waiting = rest;
        holds = record {
          place = i.holds.place + 1;
          head_at = ap next_u64 at ∙ next_cursor i.holds.place;
          tail_at = i.holds.tail_at ∙ ap (λ (k : ℕ). k % 2 ^ 64) (omega arith);
          bounded = omega arith;
          held = (subst (InSlots s.queue.buffer n i.holds.place) front i.holds.held).1;
        };
        history = i.history ∙ ap (◌++◌ s.taken) front ∙ sym (append_assoc s.taken (v ∷ []) rest);
        produces =
            Produces-shift n s.queue.buffer i.holds.place (length i.waiting) (i.holds.place + 1)
              (length rest) s.producer (omega arith) (omega arith) i.produces;
        consumes = tt;
      }

  Step-Coherent : {n : ℕ} {s t : Shared A} → IsCapacity n → Step n s t → Coherent n s → Coherent n t
  Step-Coherent c (load_tail s v e) i = record {
    waiting = i.waiting;
    holds = i.holds;
    history = i.history;
    produces = i.holds.tail_at;
    consumes = i.consumes;
  }
  Step-Coherent {n} c (check_head s {v} {t} e) i =
      let p = subst (Produces n s.queue.buffer i.holds.place (length i.waiting)) e i.produces in
      record {
        waiting = i.waiting;
        holds = i.holds;
        history = i.history;
        produces = (
          p,
          record {
            seen = i.holds.place;
            behind = omega arith;
            round = omega (arith, i.holds.bounded);
            loaded = i.holds.head_at;
          },
        );
        consumes = i.consumes;
      }
  Step-Coherent c (find_full s e full) i = record {
    waiting = i.waiting;
    holds = i.holds;
    history = i.history;
    produces = tt;
    consumes = i.consumes;
  }
  Step-Coherent c (store_value s e room) i = value_stored-Coherent s c e room i
  Step-Coherent c (publish_tail s e) i = tail_published-Coherent s e i
  Step-Coherent c (load_head s e) i = record {
    waiting = i.waiting;
    holds = i.holds;
    history = i.history;
    produces = i.produces;
    consumes = i.holds.head_at;
  }
  Step-Coherent c (check_tail s e) i =
      let p = subst (Consumes i.holds.place i.waiting) e i.consumes in
      record {
        waiting = i.waiting;
        holds = i.holds;
        history = i.history;
        produces = i.produces;
        consumes = (
          p,
          record { filled = length i.waiting; behind = omega arith; loaded = i.holds.tail_at },
        );
      }
  Step-Coherent c (find_empty s e same) i = record {
    waiting = i.waiting;
    holds = i.holds;
    history = i.history;
    produces = i.produces;
    consumes = tt;
  }
  Step-Coherent c (read_value s e ne) i = value_read-Coherent s c e ne i
  Step-Coherent c (publish_head s e) i = head_published-Coherent s e i

  Reach-Coherent :
      {n : ℕ} {blank : A} {s : Shared A} → IsCapacity n → Reach n blank s → Coherent n s
  Reach-Coherent {n} {blank} c start = at_rest-Coherent n blank
  Reach-Coherent c (next r st) = Step-Coherent c st (Reach-Coherent c r)

  -- However the loads and stores of one thread that pushes and one that pops are interleaved, what
  -- was sent is what was taken followed by what waits in the slots, in the same order, and no more
  -- waits than the capacity: no element is lost, repeated, overtaken or overwritten, also when the
  -- cursors wrap around. The capacity is what the class asserts, and a load sees the last store.
  pub Reach-InOrder :
      {n : ℕ} {blank : A} {s : Shared A}
      → IsCapacity n
      → Reach n blank s
      → (waiting : List A) × (s.sent ≡ s.taken ++ waiting)
        × (length waiting ≤ n)
        × Holds n s.queue waiting
  Reach-InOrder c r = let i = Reach-Coherent c r in (i.waiting, i.history, i.holds.bounded, i.holds)
