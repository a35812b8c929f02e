-- ===== src/WorkerPool/Rounds.antt =====
-- The rounds of `Worker::run` of src/concurrency/worker_pool.cpp over what waits in the inbox.
use mathlib.Core.Option
use trader_two.Prelude.{
  ℕ, ℤ, true, false, ◌≡◌, refl, sym, ap, ◌∙◌, List, [], ◌∷◌, ◌++◌, map, Option, none, some, All,
  arith,
}
use trader_two.Order.{Order, status_is_gone}
use trader_two.Registry.{MatchingEngine}
use trader_two.Engine.Matching.{Machine}
use trader_two.Engine.Matching.Rounds.{ReadsFreed}
use trader_two.Engine.Validity.{AllValid}
use trader_two.Engine.Submits.{submit-AllValid}
use trader_two.Engine.{Outcome}
use trader_two.Engine
use trader_two.MarketData.{MarketDataPublisher}
use trader_two.SpscQueue.{SpscQueue, pop}
use trader_two.SpscQueue.Slots.{IsCapacity}
use trader_two.SpscQueue.Fifo.{Holds, pop-refines, fifo_pop}
use trader_two.WorkerPool.Outbound.{MpscRingQueue, OutboundEvent, push_each, events_of, report}
use trader_two.WorkerPool.Delivery.{push_each-append}
use trader_two.WorkerPool.{Worker, checking, inbox_capacity, run_order, handle, thread_step}

pub inbox-IsCapacity : IsCapacity inbox_capacity
inbox-IsCapacity = record { several = omega arith; fits = omega arith; divides = omega arith }

-- A worker between two rounds, with its engine.
abbrev pub at_work :
    ℕ → MatchingEngine → Option MarketDataPublisher → SpscQueue (Option Order) → Worker
at_work instrument e publisher q = record {
  instrument = instrument;
  engine = some e;
  publisher = publisher;
  inbox = q;
  running = true;
  thread = checking;
}

-- A round of the loop in `Worker::run`, whose engine reads the clock as `now`.
unfoldable pub thread_round : Machine → ℤ → Worker → MpscRingQueue → Option (Worker × MpscRingQueue)
thread_round machine now w out = elim (thread_step machine now w out) [
  | none ↦ none
  | some (w', out') ↦ thread_step machine now w' out'
]

unfoldable pub run_rounds :
    Machine → List ℤ → Worker → MpscRingQueue → Option (Worker × MpscRingQueue)
run_rounds machine [] w out = some (w, out)
run_rounds machine (now ∷ rest) w out = elim (thread_round machine now w out) [
  | none ↦ none
  | some (w', out') ↦ run_rounds machine rest w' out'
]

-- The orders submitted to an engine one after the other, and the events of all.
unfoldable pub submit_all :
    Machine → List (ℤ × Order) → MatchingEngine → Option (MatchingEngine × List OutboundEvent)
submit_all machine [] e = some (e, [])
submit_all machine ((now, o) ∷ rest) e = elim (Engine.submit machine now (some o) e) [
  | none ↦ none
  | some x ↦
      Option.map (λ (p : MatchingEngine × List OutboundEvent). (p.0, events_of x ++ p.1))
        (submit_all machine rest x.engine)
]

submit_all_step :
    (machine : Machine) (now : ℤ) (o : Order) (jobs : List (ℤ × Order)) (e : MatchingEngine)
    (x : Outcome) {p : MatchingEngine × List OutboundEvent}
    → Engine.submit machine now (some o) e ≡ some x
    → submit_all machine jobs x.engine ≡ some p
    → submit_all machine ((now, o) ∷ jobs) e ≡ some (p.0, events_of x ++ p.1)
unfolding submit_all
submit_all_step machine now o jobs e x done rest = rw (done, submit_all) (rw rest refl)

run_rounds_step :
    (machine : Machine) (now : ℤ) (nows : List ℤ) (w : Worker) (out : MpscRingQueue) {w' : Worker}
    {out' : MpscRingQueue}
    → thread_round machine now w out ≡ some (w', out')
    → run_rounds machine (now ∷ nows) w out ≡ run_rounds machine nows w' out'
unfolding run_rounds
run_rounds_step machine now nows w out done = rw (done, run_rounds) refl

module _ (machine : Machine) (instrument : ℕ) (publisher : Option MarketDataPublisher) where
  round_of_order :
      (now : ℤ) (o : Order) (e : MatchingEngine) (x : Outcome) (q q' : SpscQueue (Option Order))
      (out : MpscRingQueue)
      → (pop inbox_capacity q).0 ≡ q'
      → (pop inbox_capacity q).1 ≡ some (some o)
      → Engine.submit machine now (some o) e ≡ some x
      → thread_round machine now (at_work instrument e publisher q) out
        ≡ some (at_work instrument x.engine publisher q', push_each (events_of x) out)
  unfolding thread_round thread_step handle run_order report
  round_of_order now o e x q q' out left first done = rw (first, left, done) refl

  -- A worker between two rounds, on an engine of valid books and with orders in its inbox, has
  -- submitted them all to its engine after one round for each, in the order in which they were
  -- sent: its engine is the one that these submissions leave, with valid books, its inbox is empty,
  -- and its sink has pushed the trades and the result of each. None of the orders is a filled or
  -- cancelled one, and a destroyed order reads as it was.
  pub run_rounds-drains :
      (jobs : List (ℤ × Order)) (e : MatchingEngine) (q : SpscQueue (Option Order))
      (out : MpscRingQueue)
      → ReadsFreed machine
      → AllValid e
      → All (λ (j : ℤ × Order). status_is_gone j.1.status ≡ false) jobs
      → Holds inbox_capacity q (map (λ (j : ℤ × Order). some j.1) jobs)
      → (e' : MatchingEngine) × (events : List OutboundEvent) × (q' : SpscQueue (Option Order))
        × (submit_all machine jobs e ≡ some (e', events))
        × (run_rounds machine
              (map (λ (j : ℤ × Order). j.0) jobs)
              (at_work instrument e publisher q)
              out
            ≡ some (at_work instrument e' publisher q', push_each events out))
        × Holds inbox_capacity q' []
        × AllValid e'
  unfolding run_rounds submit_all push_each fifo_pop
  run_rounds-drains [] e q out reads all working held = (e, [], q, refl, refl, held, all)
  run_rounds-drains ((now, o) ∷ jobs) e q out reads all working held =
      let (x, done, all') = submit-AllValid machine now o e reads all working.0 in
      let (held', first) = pop-refines q _ inbox-IsCapacity held in
      let (e', events, q', submitted, ran, drained, valid) =
        run_rounds-drains jobs x.engine (pop inbox_capacity q).0 (push_each (events_of x) out) reads
          all' working.1 held' in
      (
        e',
        events_of x ++ events,
        q',
        submit_all_step machine now o jobs e x done submitted,
        run_rounds_step machine now _ _ out
              (round_of_order now o e x q (pop inbox_capacity q).0 out refl first done)
            ∙ ran
            ∙ ap (λ (r : MpscRingQueue). some (at_work instrument e' publisher q', r))
                (sym (push_each-append (events_of x) events out)),
        drained,
        valid,
      )
