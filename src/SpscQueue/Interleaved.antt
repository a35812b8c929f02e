-- ===== src/SpscQueue/Interleaved.antt =====
-- `push` and `pop` of include/tt/concurrency/spsc_queue.hpp as two threads run them: each load and
-- each store is a step of its own, and the steps of the two threads come in any order. What the
-- release and acquire orders give is that a thread sees the stores of the other in their order; here a
-- load sees the last store.
pub mod Views
pub mod Safety
use trader_two.Prelude.{ℕ, ◌%◌, ◌≡◌, ◌≢◌, List, [], ◌∷◌, ◌++◌}
use trader_two.Types.{next_u64}
use trader_two.SpscQueue.{SpscQueue, new_queue, cursor_gap, store_slot}

-- Where the thread that pushes stands, with what it has loaded.
pub data Producer {ℓ} (A : Type ℓ) : Type ℓ where
  producer_idle : Producer A
  tail_loaded : A → ℕ → Producer A
  room_loaded : A → ℕ → ℕ → Producer A
  value_stored : A → ℕ → Producer A

-- Where the thread that pops stands.
pub data Consumer {ℓ} (A : Type ℓ) : Type ℓ where
  consumer_idle : Consumer A
  head_loaded : ℕ → Consumer A
  fill_loaded : ℕ → ℕ → Consumer A
  value_read : ℕ → A → Consumer A

-- The queue, the two threads, and what has been published and taken so far.
pub record Shared {ℓ} (A : Type ℓ) : Type ℓ where
  pub queue : SpscQueue A
  pub producer : Producer A
  pub consumer : Consumer A
  pub sent : List A
  pub taken : List A

unfoldable pub at_rest {ℓ} : {A : Type ℓ} → A → Shared A
at_rest blank = record {
  queue = new_queue blank;
  producer = producer_idle;
  consumer = consumer_idle;
  sent = [];
  taken = [];
}

pub data Step {ℓ} {A : Type ℓ} (n : ℕ) : Shared A → Shared A → Type ℓ where
  load_tail :
      (s : Shared A) (v : A)
      → s.producer ≡ producer_idle
      → Step n s (record s { producer = tail_loaded v s.queue.tail })
  check_head :
      (s : Shared A) {v : A} {t : ℕ}
      → s.producer ≡ tail_loaded v t
      → Step n s (record s { producer = room_loaded v t s.queue.head })
  find_full :
      (s : Shared A) {v : A} {t h : ℕ}
      → s.producer ≡ room_loaded v t h
      → cursor_gap t h ≡ n
      → Step n s (record s { producer = producer_idle })
  store_value :
      (s : Shared A) {v : A} {t h : ℕ}
      → s.producer ≡ room_loaded v t h
      → cursor_gap t h ≢ n
      → Step n s (record s {
        producer = value_stored v t;
        queue = record (s.queue) { buffer = store_slot (t % n) v s.queue.buffer };
      })
  publish_tail :
      (s : Shared A) {v : A} {t : ℕ}
      → s.producer ≡ value_stored v t
      → Step n s (record s {
        producer = producer_idle;
        queue = record (s.queue) { tail = next_u64 t };
        sent = s.sent ++ (v ∷ []);
      })
  load_head :
      (s : Shared A)
      → s.consumer ≡ consumer_idle
      → Step n s (record s { consumer = head_loaded s.queue.head })
  check_tail :
      (s : Shared A) {h : ℕ}
      → s.consumer ≡ head_loaded h
      → Step n s (record s { consumer = fill_loaded h s.queue.tail })
  find_empty :
      (s : Shared A) {h t : ℕ}
      → s.consumer ≡ fill_loaded h t
      → h ≡ t
      → Step n s (record s { consumer = consumer_idle })
  read_value :
      (s : Shared A) {h t : ℕ}
      → s.consumer ≡ fill_loaded h t
      → h ≢ t
      → Step n s (record s { consumer = value_read h (s.queue.buffer (h % n)) })
  publish_head :
      (s : Shared A) {h : ℕ} {v : A}
      → s.consumer ≡ value_read h v
      → Step n s (record s {
        consumer = consumer_idle;
        queue = record (s.queue) { head = next_u64 h };
        taken = s.taken ++ (v ∷ []);
      })

pub data Reach {ℓ} {A : Type ℓ} (n : ℕ) (blank : A) : Shared A → Type ℓ where
  start : Reach n blank (at_rest blank)
  next : {s t : Shared A} → Reach n blank s → Step n s t → Reach n blank t
