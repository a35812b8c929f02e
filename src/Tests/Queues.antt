-- ===== src/Tests/Queues.antt =====
-- Queues and worker pools that the theorems are applied to.
use trader_two.Prelude.{
  ℕ, ◌≤◌, ℤ, pos, ◌≡◌, refl, List, [], ◌∷◌, ◌++◌, Option, none, some, length, arith, subst,
  some_inj,
}
use trader_two.Order.{Order}
use trader_two.Registry.{MatchingEngine}
use trader_two.Engine.Validity.{AllValid}
use trader_two.SpscQueue.{SpscQueue, new_queue, push, store_slot, cursor_gap}
use trader_two.Types.{next_u64}
use trader_two.Prelude.Map.{find}
use trader_two.SpscQueue.Slots.{IsCapacity}
use trader_two.SpscQueue.Fifo.{
  QueueCall, put, get, run_queue, run_fifo, run_queue-eq-run_fifo, Holds, new_queue-Holds,
  push-refines, fifo_push,
}
use trader_two.SpscQueue.Interleaved.{
  Shared, at_rest, Reach, start, next, load_tail, check_head, store_value, publish_tail,
  tail_loaded, room_loaded, value_stored, producer_idle,
}
use trader_two.SpscQueue.Interleaved.Safety.{Reach-InOrder}
use trader_two.WorkerPool.Outbound.{MpscRingQueue, OutboundEvent, push_each}
use trader_two.WorkerPool.Rounds.{
  inbox-IsCapacity, at_work, run_rounds, submit_all, run_rounds-drains,
}
use trader_two.WorkerPool.Stops.{Stopped, worker_stop-Stopped}
use trader_two.WorkerPool.Pools.{Posts, pool_submit-Posts}
use trader_two.WorkerPool.{Worker, WorkerPool, inbox_capacity, pool_submit, worker_stop}
use trader_two.Tests.Books.{offer}
use trader_two.Tests.Matches.{machine, machine-ReadsFreed, bid}
use trader_two.Tests.Engines.{listed, listed-AllValid}

four-IsCapacity : IsCapacity 4
four-IsCapacity = record { several = omega arith; fits = omega arith; divides = omega arith }

abbrev calls : List (QueueCall ℕ)
calls = put 7 ∷ get ∷ get ∷ put 1 ∷ put 2 ∷ put 3 ∷ put 4 ∷ put 5 ∷ get ∷ []

run_queue-eq-run_fifo_example : run_queue 4 calls (new_queue 0) ≡ run_fifo 4 calls []
run_queue-eq-run_fifo_example = run_queue-eq-run_fifo 0 calls four-IsCapacity

-- A push of 9 by steps, up to its store, and a pop that has begun.
abbrev resting : Shared ℕ
resting = at_rest 0

abbrev tail_seen : Shared ℕ
tail_seen = record resting { producer = tail_loaded 9 0 }

abbrev head_seen : Shared ℕ
head_seen = record tail_seen { producer = room_loaded 9 0 0 }

abbrev stored : Shared ℕ
stored = record head_seen {
  producer = value_stored 9 0;
  queue = record (resting.queue) { buffer = store_slot 0 9 (resting.queue.buffer) };
}

abbrev published : Shared ℕ
published = record stored {
  producer = producer_idle;
  queue = record (stored.queue) { tail = 1 };
  sent = 9 ∷ [];
}

published-Reach : Reach 4 0 published
unfolding at_rest new_queue cursor_gap next_u64
published-Reach =
    next
      (next (next (next start (load_tail resting 9 refl)) (check_head tail_seen refl))
        (store_value head_seen refl (omega arith)))
      (publish_tail stored refl)

Reach-InOrder_example :
    (waiting : List ℕ) × (published.sent ≡ published.taken ++ waiting)
    × (length waiting ≤ 4)
    × Holds 4 published.queue waiting
Reach-InOrder_example = Reach-InOrder four-IsCapacity published-Reach

-- An inbox with two orders.
abbrev jobs : List (ℤ × Order)
jobs = (pos 1, offer) ∷ (pos 2, bid) ∷ []

abbrev first_sent : SpscQueue (Option Order)
first_sent = (push inbox_capacity (some offer) (new_queue none)).0

abbrev both_sent : SpscQueue (Option Order)
both_sent = (push inbox_capacity (some bid) first_sent).0

first_sent-Holds : Holds inbox_capacity first_sent (some offer ∷ [])
unfolding fifo_push
first_sent-Holds =
    (push-refines (some offer) (new_queue none) [] inbox-IsCapacity
      (new_queue-Holds inbox_capacity none)).0

both_sent-Holds : Holds inbox_capacity both_sent (some offer ∷ some bid ∷ [])
unfolding fifo_push
both_sent-Holds =
    (push-refines (some bid) first_sent (some offer ∷ []) inbox-IsCapacity first_sent-Holds).0

abbrev empty_outbound : MpscRingQueue
empty_outbound = record { buffer = [] }

run_rounds-drains_example :
    (e' : MatchingEngine) × (events : List OutboundEvent) × (q' : SpscQueue (Option Order))
    × (submit_all machine jobs listed ≡ some (e', events))
    × (run_rounds machine (pos 1 ∷ pos 2 ∷ []) (at_work 1 listed none both_sent) empty_outbound
        ≡ some (at_work 1 e' none q', push_each events empty_outbound))
    × Holds inbox_capacity q' []
    × AllValid e'
run_rounds-drains_example =
    run_rounds-drains machine 1 none jobs listed both_sent empty_outbound machine-ReadsFreed
      listed-AllValid (refl, (refl, tt)) both_sent-Holds

worker_stop-Stopped_example :
    (w' : Worker) × (out' : MpscRingQueue) × (worker_stop machine
        (pos 1)
        (at_work 1 listed none both_sent)
        empty_outbound
      ≡ some (w', out'))
    × Stopped w'
worker_stop-Stopped_example =
    worker_stop-Stopped machine (pos 1) (at_work 1 listed none both_sent) listed empty_outbound
      machine-ReadsFreed refl refl listed-AllValid (λ e. cc)

-- A pool whose one worker holds two orders.
abbrev busy_pool : WorkerPool
busy_pool = record {
  outbound = empty_outbound;
  workers = (1, at_work 1 listed none both_sent) ∷ [];
}

busy_pool-held :
    (w : Worker)
    → find 1 busy_pool.workers ≡ some w
    → (waiting : List (Option Order)) × Holds inbox_capacity w.inbox waiting
unfolding find
busy_pool-held w e = (
  some offer ∷ some bid ∷ [],
  subst (λ (v : Worker). Holds inbox_capacity v.inbox (some offer ∷ some bid ∷ [])) (some_inj e)
      both_sent-Holds,
)

pool_submit-Posts_example : Posts 1 (some bid) busy_pool (pool_submit 1 (some bid) busy_pool)
pool_submit-Posts_example = pool_submit-Posts 1 (some bid) busy_pool busy_pool-held
