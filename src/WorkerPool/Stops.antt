-- ===== src/WorkerPool/Stops.antt =====
-- `Worker::stop` of src/concurrency/worker_pool.cpp, from any stage of the worker's thread.
use trader_two.Prelude.{
  ℕ, ◌<◌, ◌==◌, ℤ, Bool, true, false, ◌≡◌, ◌≢◌, refl, suc, zero, ap, ◌∙◌, ◌⊎◌, inl, inr, List, [],
  ◌∷◌, ◌++◌, Option, none, some, length, arith, if◌then◌else◌,
}
use trader_two.Order.{Order}
use trader_two.Registry.{MatchingEngine}
use trader_two.Engine.Matching.{Machine}
use trader_two.Engine.Matching.Rounds.{ReadsFreed}
use trader_two.Engine.Validity.{AllValid}
use trader_two.Engine.Submits.{submit-Submits}
use trader_two.SpscQueue.{pop}
use trader_two.SpscQueue.Fifo.{Holds, fifo_push, push-refines}
use trader_two.WorkerPool.Outbound.{MpscRingQueue, report}
use trader_two.WorkerPool.{
  Worker, ThreadStage, not_started, checking, popping, finished, inbox_capacity, run_order, handle,
  step_from, thread_step, join, ask_to_stop, worker_stop, if_ended,
}
use trader_two.WorkerPool.Rounds.{inbox-IsCapacity}

stage_cases :
    (t : ThreadStage) → (t ≡ not_started) ⊎ (t ≡ checking) ⊎ (t ≡ popping) ⊎ (t ≡ finished)
stage_cases not_started = inl refl
stage_cases checking = inr (inl refl)
stage_cases popping = inr (inr (inl refl))
stage_cases finished = inr (inr (inr refl))

-- What `stop` leaves of a worker's engine and thread.
pub record Stopped (w : Worker) : Type 0 where
  pub thread_ended : w.thread ≡ finished
  pub not_running : w.running ≡ false
  pub no_engine : w.engine ≡ none
  pub no_publisher : w.publisher ≡ none

module _ (machine : Machine) (now : ℤ) where
  join_finished :
      (fuel : ℕ) (w : Worker) (out : MpscRingQueue)
      → w.thread ≡ finished
      → join fuel machine now w out ≡ some (w, out)
  unfolding join thread_step step_from
  join_finished zero w out at = ap (λ (t : ThreadStage). if_ended t (w, out)) at
  join_finished (suc fuel) w out at =
      let step : thread_step machine now w out ≡ some (w, out) =
        ap (λ (t : ThreadStage). step_from t machine now w out) at in
      rw (step, join) (join_finished fuel w out at)

  -- Without `running_`, a thread at its check ends at once.
  step_at_check :
      (w : Worker) (out : MpscRingQueue)
      → w.running ≡ false
      → w.thread ≡ checking
      → thread_step machine now w out ≡ some (record w { thread = finished }, out)
  unfolding thread_step step_from
  step_at_check w out off at =
      ap (λ (t : ThreadStage). step_from t machine now w out) at
      ∙ ap (λ (b : Bool). some (record w { thread = if b then popping else finished }, out)) off

  join_step :
      (fuel : ℕ) (w : Worker) (out : MpscRingQueue) {w' : Worker} {out' : MpscRingQueue}
      → thread_step machine now w out ≡ some (w', out')
      → join (suc fuel) machine now w out ≡ join fuel machine now w' out'
  unfolding join
  join_step fuel w out step = rw (step, join) refl

  join_at_check :
      (fuel : ℕ) (w : Worker) (out : MpscRingQueue)
      → w.running ≡ false
      → w.thread ≡ checking
      → join (suc fuel) machine now w out ≡ some (record w { thread = finished }, out)
  join_at_check fuel w out off at =
      join_step fuel w out (step_at_check w out off at)
      ∙ join_finished fuel (record w { thread = finished }) out refl

  -- What is popped is handled, and leaves the thread ended or at its check.
  handled :
      (popped : Option (Option Order)) (w : Worker) (e : MatchingEngine) (out : MpscRingQueue)
      → ReadsFreed machine
      → w.engine ≡ some e
      → AllValid e
      → (w' : Worker) × (out' : MpscRingQueue) × (handle machine now popped w out ≡ some (w', out'))
        × (w'.running ≡ w.running)
        × ((w'.thread ≡ checking) ⊎ (w'.thread ≡ finished))
  unfolding handle run_order
  handled none w e out reads has all = (record w { thread = checking }, out, refl, refl, inl refl)
  handled (some none) w e out reads has all =
      (record w { thread = finished }, out, refl, refl, inr refl)
  handled (some (some o)) w e out reads has all =
      let (x, done, _) = submit-Submits machine now o e reads all in
      (
        record w { engine = some x.engine; thread = checking },
        report x out,
        rw (has, done) refl,
        refl,
        inl refl,
      )

  last_step :
      (w : Worker) (out : MpscRingQueue)
      → w.running ≡ false
      → (w.thread ≡ checking) ⊎ (w.thread ≡ finished)
      → join 1 machine now w out ≡ some (record w { thread = finished }, out)
  last_step w out off (inl at) = join_at_check 0 w out off at
  last_step w out off (inr at) =
      join_finished 1 w out at ∙ ap (λ (t : ThreadStage). some (record w { thread = t }, out)) at

  -- From any stage, the thread of a worker that is to stop ends.
  join_ends :
      (w : Worker) (e : MatchingEngine) (out : MpscRingQueue)
      → ReadsFreed machine
      → w.engine ≡ some e
      → AllValid e
      → w.running ≡ false
      → w.thread ≢ not_started
      → (w' : Worker) × (out' : MpscRingQueue) × (join 2 machine now w out ≡ some (w', out'))
        × (w'.running ≡ false)
        × (w'.thread ≡ finished)
  unfolding thread_step step_from
  join_ends w e out reads has all off begun = elim (stage_cases w.thread) [
    | inl at ↦ absurd (begun at)
    | inr (inl at) ↦ (record w { thread = finished }, out, join_at_check 1 w out off at, off, refl)
    | inr (inr (inl at)) ↦
        let q = (pop inbox_capacity w.inbox).0 in
        let (w', out', step, kept, next) =
          handled (pop inbox_capacity w.inbox).1 (record w { inbox = q }) e out reads has all in
        let step' : thread_step machine now w out ≡ some (w', out') =
          ap (λ (t : ThreadStage). step_from t machine now w out) at ∙ step in
        (
          record w' { thread = finished },
          out',
          join_step 1 w out step' ∙ last_step w' out' (kept ∙ off) next,
          kept ∙ off,
          refl,
        )
    | inr (inr (inr at)) ↦ (w, out, join_finished 2 w out at, off, at)
  ]

  -- Stopping a running worker returns, from any stage of its thread, on an engine of valid books
  -- where a destroyed order reads as it was: the thread has ended, and the engine and the publisher
  -- are gone.
  pub worker_stop-Stopped :
      (w : Worker) (e : MatchingEngine) (out : MpscRingQueue)
      → ReadsFreed machine
      → w.running ≡ true
      → w.engine ≡ some e
      → AllValid e
      → w.thread ≢ not_started
      → (w' : Worker) × (out' : MpscRingQueue) × (worker_stop machine now w out ≡ some (w', out'))
        × Stopped w'
  unfolding worker_stop ask_to_stop
  worker_stop-Stopped w e out reads on has all begun =
      let (w', out', joined, off, ended) =
        join_ends (ask_to_stop w) e out reads has all refl begun in
      (
        record w' { engine = none; publisher = none },
        out',
        rw (on, joined) refl,
        record { thread_ended = ended; not_running = off; no_engine = refl; no_publisher = refl },
      )

  -- A worker that is stopped between two rounds submits nothing of what waits.
  pub worker_stop-abandons :
      (w : Worker) (out : MpscRingQueue) (waiting : List (Option Order))
      → w.running ≡ true
      → w.thread ≡ checking
      → Holds inbox_capacity w.inbox waiting
      → length waiting < inbox_capacity
      → (w' : Worker) × (worker_stop machine now w out ≡ some (w', out))
        × Holds inbox_capacity w'.inbox (waiting ++ (none ∷ []))
  unfolding worker_stop ask_to_stop fifo_push
  worker_stop-abandons w out waiting on at held room =
      let (held', _) = push-refines none w.inbox waiting inbox-IsCapacity held in
      (
        record (ask_to_stop w) { thread = finished; engine = none; publisher = none },
        rw (on, join_at_check 1 (ask_to_stop w) out refl at) refl,
        rw (fits) at held',
      )
    where
      fits : (length waiting == inbox_capacity) ≡ false
      fits = ground arith
