-- ===== src/WorkerPool/Pools.antt =====
-- `WorkerPool::submit` and `WorkerPool::get_or_create` of src/concurrency/worker_pool.cpp.
use trader_two.Prelude.{
  ℕ, ◌==◌, ==_iff, ◌<◌, ◌≤◌, subst, Bool, true, false, ◌≡◌, refl, sym, ap, ◌∙◌, inl, inr, List, [],
  ◌∷◌, ◌++◌, Option, none, some, length, arith, Bool-cases, Option-cases, none_ne_some,
  if◌then◌else◌,
}
use trader_two.Prelude.Map.{Map, find, assign, find-assign, find-emplace_new}
use trader_two.Order.{Order}
use trader_two.SpscQueue.{SpscQueue, push}
use trader_two.SpscQueue.Fifo.{Holds, push-refines, push_refused, fifo_push}
use trader_two.WorkerPool.Rounds.{inbox-IsCapacity}
use trader_two.WorkerPool.{
  Worker, WorkerPool, inbox_capacity, worker_submit, new_worker, worker_start, get_or_create,
  pool_submit,
}

-- What `WorkerPool::submit` does with an order: it goes to the end of the inbox of the instrument's
-- worker alone, or no inbox changes.
pub data Posts (instrument : ℕ) (o : Option Order) (p : WorkerPool)
    : WorkerPool × Bool → Type 0 where
  no_worker : find instrument p.workers ≡ none → Posts instrument o p (p, false)
  inbox_full :
      (w : Worker) (waiting : List (Option Order)) (p' : WorkerPool)
      → find instrument p.workers ≡ some w
      → Holds inbox_capacity w.inbox waiting
      → length waiting ≡ inbox_capacity
      → ((j : ℕ) → find j p'.workers ≡ find j p.workers)
      → Posts instrument o p (p', false)
  queued :
      (w w' : Worker) (waiting : List (Option Order)) (p' : WorkerPool)
      → find instrument p.workers ≡ some w
      → Holds inbox_capacity w.inbox waiting
      → length waiting < inbox_capacity
      → Holds inbox_capacity w'.inbox (waiting ++ (o ∷ []))
      → w' ≡ record w { inbox = w'.inbox }
      → ((j : ℕ) → find j p'.workers ≡ (if instrument == j then some w' else find j p.workers))
      → p'.outbound ≡ p.outbound
      → Posts instrument o p (p', true)

shorter :
    (waiting : List (Option Order))
    → length waiting ≤ inbox_capacity
    → (length waiting == inbox_capacity) ≡ false
    → length waiting < inbox_capacity
shorter waiting le ne = ground arith

module _ (instrument : ℕ) (o : Option Order) (p : WorkerPool) where
  assigned_same :
      (w : Worker)
      → find instrument p.workers ≡ some w
      → (j : ℕ) → find j (assign instrument w p.workers) ≡ find j p.workers
  assigned_same w found j = elim (Bool-cases (instrument == j)) [
    | inl hit ↦
        find-assign j instrument w p.workers
        ∙ rw hit (sym found ∙ ap (λ (k : ℕ). find k p.workers) ((==_iff instrument j).0 hit))
    | inr miss ↦ find-assign j instrument w p.workers ∙ rw miss refl
  ]

  posted :
      (w : Worker) (waiting : List (Option Order))
      → find instrument p.workers ≡ some w
      → Holds inbox_capacity w.inbox waiting
      → Posts instrument o p (pool_submit instrument o p)
  unfolding pool_submit worker_submit fifo_push
  posted w waiting found held =
      let (held', answer) = push-refines o w.inbox waiting inbox-IsCapacity held in
      let w' = record w { inbox = (push inbox_capacity o w.inbox).0 } in
      let p' = record p { workers = assign instrument w' p.workers } in
      rw (found, pool_submit)
        (elim (Bool-cases (length waiting == inbox_capacity)) [
          | inl full ↦
              let refused : (push inbox_capacity o w.inbox).1 ≡ false = answer ∙ rw full refl in
              let same : find instrument p.workers ≡ some w' =
                found
                ∙ ap (λ (q : SpscQueue (Option Order)). some (record w { inbox = q }))
                    (sym (push_refused inbox_capacity o w.inbox refused)) in
              subst (λ (b : Bool). Posts instrument o p (p', b)) (sym refused)
                (inbox_full w waiting p' found held (ground arith) (assigned_same w' same))
          | inr room ↦
              subst (λ (b : Bool). Posts instrument o p (p', b)) (sym (answer ∙ rw room refl))
                (queued w w' waiting p' found held (shorter waiting held.bounded room)
                  (rw room at held') refl (λ j. find-assign j instrument w' p.workers) refl)
        ])

  -- A submission to the pool fails where the instrument has no worker, and leaves the pool; it
  -- fails where the inbox of the worker is full, and leaves every worker; and otherwise it puts the
  -- order at the end of that inbox and changes nothing else of that worker and no other worker. The
  -- inbox holds what was sent to it.
  pub pool_submit-Posts :
      ((w : Worker)
        → find instrument p.workers ≡ some w
        → (waiting : List (Option Order)) × Holds inbox_capacity w.inbox waiting)
      → Posts instrument o p (pool_submit instrument o p)
  unfolding pool_submit
  pool_submit-Posts held = elim (Option-cases (find instrument p.workers)) [
    | inl missing ↦ rw (missing, pool_submit) (no_worker missing)
    | inr (w, found) ↦ let (waiting, h) = held w found in posted w waiting found h
  ]

kept :
    (instrument j : ℕ) (w : Worker) {v : Worker} (m : Map Worker)
    → find instrument m ≡ none
    → find j m ≡ some v
    → (if instrument == j then some w else find j m) ≡ some v
kept instrument j w m missing h = elim (Bool-cases (instrument == j)) [
  | inl hit ↦
      let same : find instrument m ≡ find j m =
        ap (λ (k : ℕ). find k m) ((==_iff instrument j).0 hit) in
      absurd (none_ne_some (sym missing ∙ same ∙ h))
  | inr miss ↦ rw miss h
]

-- The worker that a call hands out is the one of the pool, started if it is new; others stay.
pub get_or_create-Finds :
    (instrument : ℕ) (p : WorkerPool)
    → (find instrument (get_or_create instrument p).0.workers ≡ some (get_or_create instrument p).1)
      × ((j : ℕ) (w : Worker)
          → find j p.workers ≡ some w
          → find j (get_or_create instrument p).0.workers ≡ some w)
unfolding get_or_create
get_or_create-Finds instrument p = elim (Option-cases (find instrument p.workers)) [
  | inr (w, found) ↦ rw (found, get_or_create) (found, λ j v h. h)
  | inl missing ↦
      let w = worker_start (new_worker instrument) in
      rw (missing, get_or_create)
        (
          find-emplace_new instrument instrument w p.workers missing
              ∙ rw ((==_iff instrument instrument).1 refl) refl,
          λ j v h.
              find-emplace_new j instrument w p.workers missing
              ∙ kept instrument j w p.workers missing h,
        )
]
