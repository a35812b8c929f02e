-- ===== src/WorkerPool/Delivery.antt =====
-- What `MPSCRingQueue` of include/tt/concurrency/worker_pool.hpp keeps of the events that a worker's
-- sink pushes.
use trader_two.Prelude.{
  ◌≤◌, ◌<◌, leb, true, ◌≡◌, refl, sym, ap, ◌∙◌, ◌⊎◌, inl, inr, List, [], ◌∷◌, ◌++◌, length,
  length-append, arith, Bool-cases,
}
use mathlib.Core.List.{append_assoc, append-nil}
use trader_two.WorkerPool.Outbound.{
  MpscRingQueue, OutboundEvent, outbound_capacity, outbound_push, push_each,
}

-- The queue keeps a first part of the events, all of them unless it ends full.
pub record Delivers (events : List OutboundEvent) (q q' : MpscRingQueue) : Type 0 where
  pub kept : List OutboundEvent
  pub dropped : List OutboundEvent
  pub parts : events ≡ kept ++ dropped
  pub delivered : q'.buffer ≡ q.buffer ++ kept
  pub full : (dropped ≡ []) ⊎ (length q'.buffer ≡ outbound_capacity)

push_full :
    (events : List OutboundEvent) (q : MpscRingQueue)
    → leb outbound_capacity (length q.buffer) ≡ true
    → push_each events q ≡ q
unfolding push_each outbound_push
push_full [] q full = refl
push_full (v ∷ rest) q full = rw full (push_full rest q full)

pub push_each-Delivers :
    (events : List OutboundEvent) (q : MpscRingQueue)
    → length q.buffer ≤ outbound_capacity
    → Delivers events q (push_each events q)
unfolding push_each outbound_push
push_each-Delivers [] q le = record {
  kept = [];
  dropped = [];
  parts = refl;
  delivered = rw append-nil refl;
  full = inl refl;
}
push_each-Delivers (v ∷ rest) q le = elim (Bool-cases (leb outbound_capacity (length q.buffer))) [
  | inl full ↦ record {
    kept = [];
    dropped = v ∷ rest;
    parts = refl;
    delivered =
        ap (λ (x : MpscRingQueue). x.buffer) (push_full (v ∷ rest) q full)
        ∙ sym (append-nil q.buffer);
    full =
        inr (
          ap (λ (x : MpscRingQueue). length x.buffer) (push_full (v ∷ rest) q full) ∙ ground arith);
  }
  | inr room ↦
      let longer : length (q.buffer ++ (v ∷ [])) ≤ outbound_capacity =
        let lt : length q.buffer < outbound_capacity = ground arith in
        omega (arith, length-append q.buffer (v ∷ [])) in
      let d = push_each-Delivers rest (record q { buffer = q.buffer ++ (v ∷ []) }) longer in
      let step : push_each (v ∷ rest) q
          ≡ push_each rest (record q { buffer = q.buffer ++ (v ∷ []) }) =
        rw room refl in
      record {
        kept = v ∷ d.kept;
        dropped = d.dropped;
        parts = ap (◌∷◌ v) d.parts;
        delivered =
            ap (λ (x : MpscRingQueue). x.buffer) step
            ∙ d.delivered
            ∙ append_assoc q.buffer (v ∷ []) d.kept;
        full = rw step d.full;
      }
]

pub push_each-append :
    (xs ys : List OutboundEvent) (q : MpscRingQueue)
    → push_each (xs ++ ys) q ≡ push_each ys (push_each xs q)
unfolding push_each
push_each-append [] ys q = refl
push_each-append (v ∷ xs) ys q = push_each-append xs ys (outbound_push v q).0
