-- ===== src/SpscQueue.antt =====
-- include/tt/concurrency/spsc_queue.hpp: `SPSCQueue<T, N>`, where a call runs with no other between
-- its steps. `buffer_` is the function from its slots, and what is in a slot before the first write is
-- given by `blank`. `tail & MASK` is `tail % n`, since `n` is a power of two.
pub mod Slots
pub mod Fifo
pub mod Interleaved
use trader_two.Prelude.{
  ℕ, ◌+◌, ◌-◌, ◌%◌, ◌^◌, ◌==◌, Bool, true, false, if◌then◌else◌, Option, none, some,
}
use trader_two.Types.{next_u64}

pub record SpscQueue {ℓ} (A : Type ℓ) : Type ℓ where
  pub buffer : ℕ → A
  pub head : ℕ
  pub tail : ℕ

-- `tail - head` of two `uint64_t`
unfoldable pub cursor_gap : ℕ → ℕ → ℕ
cursor_gap tail head = (tail + 2 ^ 64 - head) % 2 ^ 64

module _ {ℓ} {A : Type ℓ} where
  -- A store to one slot.
  unfoldable pub store_slot : ℕ → A → (ℕ → A) → ℕ → A
  store_slot k v buffer = λ i. if i == k then v else buffer i

  -- `SPSCQueue()`
  unfoldable pub new_queue : A → SpscQueue A
  new_queue blank = record { buffer = λ i. blank; head = 0; tail = 0 }

  -- `push`; the result is false for a full queue.
  unfoldable pub push : ℕ → A → SpscQueue A → SpscQueue A × Bool
  push n v q =
      if cursor_gap q.tail q.head == n
      then (q, false)
      else (record q { buffer = store_slot (q.tail % n) v q.buffer; tail = next_u64 q.tail }, true)

  -- `pop`; `none` is its result false, and `some` holds what it writes to its argument.
  unfoldable pub pop : ℕ → SpscQueue A → SpscQueue A × Option A
  pop n q =
      if q.head == q.tail
      then (q, none)
      else (record q { head = next_u64 q.head }, some (q.buffer (q.head % n)))

  unfoldable pub queue_is_empty : SpscQueue A → Bool
  queue_is_empty q = q.head == q.tail

  unfoldable pub size_approx : SpscQueue A → ℕ
  size_approx q = cursor_gap q.tail q.head
