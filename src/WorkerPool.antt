-- ===== src/WorkerPool.antt =====
-- include/tt/concurrency/worker_pool.hpp and src/concurrency/worker_pool.cpp: what a worker tells the
-- consumer, `MPSCRingQueue`, the steps of `Worker` and its thread, and `WorkerPool`. A null pointer to
-- an order is `none`. Memory that is freed or leaked is left out.
pub mod Outbound
pub mod Delivery
pub mod Rounds
pub mod Stops
pub mod Pools
use mathlib.Core.Option
use trader_two.Prelude.{
  ℕ, zero, suc, ℤ, Bool, true, false, not, if◌then◌else◌, List, [], ◌∷◌, Option, none, some,
}
use trader_two.Prelude.Map.{Map, find, assign, emplace}
use trader_two.Order.{Order}
use trader_two.Registry.{MatchingEngine, new_engine, register_id}
use trader_two.Engine.Matching.{Machine}
use trader_two.Engine.{Outcome}
use trader_two.Engine
use trader_two.MarketData.{MarketDataPublisher, new_publisher}
use trader_two.SpscQueue.{SpscQueue, new_queue, push, pop}
use Outbound.{MpscRingQueue, report}

-- How far the thread of a worker is: about to read `running_`, or about to take from the inbox.
pub data ThreadStage : Type 0 where
  not_started checking popping finished : ThreadStage

-- `inbox_`'s capacity
abbrev pub inbox_capacity : ℕ
inbox_capacity = 4096

pub record Worker : Type 0 where
  pub instrument : ℕ
  pub engine : Option MatchingEngine
  pub publisher : Option MarketDataPublisher
  pub inbox : SpscQueue (Option Order)
  pub running : Bool
  pub thread : ThreadStage

-- `Worker(InstrumentId, MPSCRingQueue*)`
unfoldable pub new_worker : ℕ → Worker
new_worker instrument = record {
  instrument = instrument;
  engine = none;
  publisher = none;
  inbox = new_queue none;
  running = false;
  thread = not_started;
}

-- `Worker::start`
unfoldable pub worker_start : Worker → Worker
worker_start w = if w.running then w else record w {
  running = true;
  engine = some (register_id w.instrument new_engine);
  publisher = some new_publisher;
  thread = checking;
}

-- `Worker::submit`
unfoldable pub worker_submit : Option Order → Worker → Worker × Bool
worker_submit o w =
    let (inbox, pushed) = push inbox_capacity o w.inbox in (record w { inbox = inbox }, pushed)

-- An order for the engine, and what its sink pushes. With no engine it is a null pointer's use.
unfoldable pub run_order :
    Machine → ℤ → Order → Worker → MpscRingQueue → Option (Worker × MpscRingQueue)
run_order machine now o w out = elim w.engine [
  | none ↦ none
  | some e ↦
      Option.map
        (λ (x : Outcome). (record w { engine = some x.engine; thread = checking }, report x out))
        (Engine.submit machine now (some o) e)
]

-- What a round of `Worker::run` does with what it popped.
unfoldable pub handle :
    Machine → ℤ → Option (Option Order) → Worker → MpscRingQueue → Option (Worker × MpscRingQueue)
handle machine now none w out = some (record w { thread = checking }, out)
handle machine now (some none) w out = some (record w { thread = finished }, out)
handle machine now (some (some o)) w out = run_order machine now o w out

-- One step of the thread in `Worker::run`. `none` is a match loop out of fuel, or no engine.
unfoldable pub step_from :
    ThreadStage → Machine → ℤ → Worker → MpscRingQueue → Option (Worker × MpscRingQueue)
step_from not_started machine now w out = some (w, out)
step_from checking machine now w out =
    some (record w { thread = if w.running then popping else finished }, out)
step_from popping machine now w out =
    let (inbox, popped) = pop inbox_capacity w.inbox in
    handle machine now popped (record w { inbox = inbox }) out
step_from finished machine now w out = some (w, out)

unfoldable pub thread_step : Machine → ℤ → Worker → MpscRingQueue → Option (Worker × MpscRingQueue)
unfolding step_from
thread_step machine now w out = step_from w.thread machine now w out

abbrev pub if_ended {ℓ} : {A : Type ℓ} → ThreadStage → A → Option A
if_ended not_started a = some a
if_ended checking a = none
if_ended popping a = none
if_ended finished a = some a

-- `thread_.join()`: the thread goes on until it has ended. Two steps are enough once `running_` is
-- false.
unfoldable pub join : ℕ → Machine → ℤ → Worker → MpscRingQueue → Option (Worker × MpscRingQueue)
join zero machine now w out = if_ended w.thread (w, out)
join (suc fuel) machine now w out = elim (thread_step machine now w out) [
  | none ↦ none
  | some (w', out') ↦ join fuel machine now w' out'
]

-- `running_ = false` and the null order that is pushed behind what waits.
unfoldable pub ask_to_stop : Worker → Worker
ask_to_stop w = record w { running = false; inbox = (push inbox_capacity none w.inbox).0 }

-- `Worker::stop`
unfoldable pub worker_stop : Machine → ℤ → Worker → MpscRingQueue → Option (Worker × MpscRingQueue)
worker_stop machine now w out =
    if not w.running
    then some (w, out)
    else Option.map
        (λ (p : Worker × MpscRingQueue). (record (p.0) { engine = none; publisher = none }, p.1))
        (join 2 machine now (ask_to_stop w) out)

pub record WorkerPool : Type 0 where
  pub outbound : MpscRingQueue
  pub workers : Map Worker

-- `WorkerPool(MPSCRingQueue*)`
unfoldable pub new_pool : MpscRingQueue → WorkerPool
new_pool out = record { outbound = out; workers = [] }

-- `WorkerPool::get_or_create`
unfoldable pub get_or_create : ℕ → WorkerPool → WorkerPool × Worker
get_or_create instrument p = elim (find instrument p.workers) [
  | some w ↦ (p, w)
  | none ↦
      let w = worker_start (new_worker instrument) in
      (record p { workers = emplace instrument w p.workers }, w)
]

-- `WorkerPool::submit`
unfoldable pub pool_submit : ℕ → Option Order → WorkerPool → WorkerPool × Bool
pool_submit instrument o p = elim (find instrument p.workers) [
  | none ↦ (p, false)
  | some w ↦
      let (w', pushed) = worker_submit o w in
      (record p { workers = assign instrument w' p.workers }, pushed)
]

-- The loop of `WorkerPool::shutdown` over the workers.
unfoldable pub stop_all : Machine → ℤ → Map Worker → MpscRingQueue → Option MpscRingQueue
stop_all machine now [] out = some out
stop_all machine now ((id, w) ∷ rest) out = elim (worker_stop machine now w out) [
  | none ↦ none
  | some (w', out') ↦ stop_all machine now rest out'
]

-- `WorkerPool::shutdown`
unfoldable pub shutdown : Machine → ℤ → WorkerPool → Option WorkerPool
shutdown machine now p =
    Option.map (λ (out : MpscRingQueue). record { outbound = out; workers = [] })
      (stop_all machine now p.workers p.outbound)
