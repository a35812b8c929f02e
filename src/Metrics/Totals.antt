-- ===== src/Metrics/Totals.antt =====
-- What the counters of src/observability/metrics.cpp are after any calls of the sink.
use mathlib.Core.List.{append_assoc, append-nil}
use trader_two.Prelude.{
  ℕ, ◌+◌, ◌%◌, ◌^◌, ◌<◌, ◌==◌, ◌≡◌, refl, ap, ◌∙◌, Bool, true, false, if◌then◌else◌, List, [], ◌∷◌,
  ◌++◌, arith,
}
use trader_two.Engine.{SubmitStatus, accepted, fully_filled, partially_filled, cancelled, rejected}
use trader_two.Sink.{SinkCall, told_trade, told_result}
use trader_two.Metrics.{
  CounterBundle, reset_bundle, unsigned_of, notional, count_call, MetricsSink, metrics_call,
  metrics_calls,
}

-- The sum of what each call weighs.
abbrev pub total : (SinkCall → ℕ) → List SinkCall → ℕ
total w [] = 0
total w (c ∷ cs) = w c + total w cs

abbrev pub status_number : SubmitStatus → ℕ
status_number accepted = 0
status_number fully_filled = 1
status_number partially_filled = 2
status_number cancelled = 3
status_number rejected = 4

-- One for each result of a status.
abbrev pub results : SubmitStatus → SinkCall → ℕ
results st (told_trade t) = 0
results st (told_result r) = if status_number r.status == status_number st then 1 else 0

abbrev pub trades : SinkCall → ℕ
trades (told_trade t) = 1
trades (told_result r) = 0

abbrev pub quantities : SinkCall → ℕ
quantities (told_trade t) = unsigned_of t.quantity
quantities (told_result r) = 0

abbrev pub notionals : SinkCall → ℕ
notionals (told_trade t) = notional t
notionals (told_result r) = 0

abbrev pub sequence_of : SinkCall → ℕ
sequence_of (told_trade t) = t.sequence
sequence_of (told_result r) = r.sequence

-- The sequence number of the last call, if any.
abbrev pub last_sequence_of : ℕ → List SinkCall → ℕ
last_sequence_of n [] = n
last_sequence_of n (c ∷ cs) = last_sequence_of (sequence_of c) cs

-- The counters as sums over the calls.
abbrev pub summary : List SinkCall → CounterBundle
summary cs = record reset_bundle {
  submits_accepted = total (results accepted) cs % 2 ^ 64;
  submits_filled = total (results fully_filled) cs % 2 ^ 64;
  submits_partial = total (results partially_filled) cs % 2 ^ 64;
  submits_cancelled = total (results cancelled) cs % 2 ^ 64;
  submits_rejected = total (results rejected) cs % 2 ^ 64;
  trades_total = total trades cs % 2 ^ 64;
  trade_qty_total = total quantities cs % 2 ^ 64;
  trade_notional_total = total notionals cs % 2 ^ 64;
  last_sequence = last_sequence_of 0 cs;
}

abbrev counted : List SinkCall → CounterBundle → CounterBundle
counted [] b = b
counted (c ∷ cs) b = counted cs (count_call c b)

-- A counter that each call adds its weight to.
counted-total :
    (f : CounterBundle → ℕ) (w : SinkCall → ℕ)
    → ((c : SinkCall) (b : CounterBundle)
        → f b < 2 ^ 64
        → f (count_call c b) ≡ (f b + w c) % 2 ^ 64)
    → (cs : List SinkCall) (b : CounterBundle) → f b < 2 ^ 64
    → f (counted cs b) ≡ (f b + total w cs) % 2 ^ 64
counted-total f w step [] b lt = omega arith
counted-total f w step (c ∷ cs) b lt =
    let e = step c b lt in
    omega (arith, e, counted-total f w step cs (count_call c b) (omega (arith, e)))

-- A counter that no call changes.
counted_same {ℓ} :
    {A : Type ℓ} (f : CounterBundle → A)
    → ((c : SinkCall) (b : CounterBundle) → f (count_call c b) ≡ f b)
    → (cs : List SinkCall) (b : CounterBundle) → f (counted cs b) ≡ f b
counted_same f step [] b = refl
counted_same f step (c ∷ cs) b = counted_same f step cs (count_call c b) ∙ step c b

counted-last :
    (cs : List SinkCall) (b : CounterBundle)
    → (counted cs b).last_sequence ≡ last_sequence_of b.last_sequence cs
unfolding count_call
counted-last [] b = refl
counted-last (told_trade t ∷ cs) b = counted-last cs _
counted-last (told_result r ∷ cs) b = counted-last cs _

accepted_step :
    (c : SinkCall) (b : CounterBundle)
    → b.submits_accepted < 2 ^ 64
    → (count_call c b).submits_accepted ≡ (b.submits_accepted + results accepted c) % 2 ^ 64
unfolding count_call
accepted_step (told_trade t) b lt = omega arith
accepted_step (told_result r) b lt = ground arith

filled_step :
    (c : SinkCall) (b : CounterBundle)
    → b.submits_filled < 2 ^ 64
    → (count_call c b).submits_filled ≡ (b.submits_filled + results fully_filled c) % 2 ^ 64
unfolding count_call
filled_step (told_trade t) b lt = omega arith
filled_step (told_result r) b lt = ground arith

partial_step :
    (c : SinkCall) (b : CounterBundle)
    → b.submits_partial < 2 ^ 64
    → (count_call c b).submits_partial ≡ (b.submits_partial + results partially_filled c) % 2 ^ 64
unfolding count_call
partial_step (told_trade t) b lt = omega arith
partial_step (told_result r) b lt = ground arith

cancelled_step :
    (c : SinkCall) (b : CounterBundle)
    → b.submits_cancelled < 2 ^ 64
    → (count_call c b).submits_cancelled ≡ (b.submits_cancelled + results cancelled c) % 2 ^ 64
unfolding count_call
cancelled_step (told_trade t) b lt = omega arith
cancelled_step (told_result r) b lt = ground arith

rejected_step :
    (c : SinkCall) (b : CounterBundle)
    → b.submits_rejected < 2 ^ 64
    → (count_call c b).submits_rejected ≡ (b.submits_rejected + results rejected c) % 2 ^ 64
unfolding count_call
rejected_step (told_trade t) b lt = omega arith
rejected_step (told_result r) b lt = ground arith

trades_step :
    (c : SinkCall) (b : CounterBundle)
    → b.trades_total < 2 ^ 64
    → (count_call c b).trades_total ≡ (b.trades_total + trades c) % 2 ^ 64
unfolding count_call
trades_step (told_trade t) b lt = omega arith
trades_step (told_result r) b lt = ground arith

quantity_step :
    (c : SinkCall) (b : CounterBundle)
    → b.trade_qty_total < 2 ^ 64
    → (count_call c b).trade_qty_total ≡ (b.trade_qty_total + quantities c) % 2 ^ 64
unfolding count_call
quantity_step (told_trade t) b lt = omega arith
quantity_step (told_result r) b lt = ground arith

notional_step :
    (c : SinkCall) (b : CounterBundle)
    → b.trade_notional_total < 2 ^ 64
    → (count_call c b).trade_notional_total ≡ (b.trade_notional_total + notionals c) % 2 ^ 64
unfolding count_call
notional_step (told_trade t) b lt = omega arith
notional_step (told_result r) b lt = ground arith

counted-summary : (cs : List SinkCall) → counted cs reset_bundle ≡ summary cs
unfolding count_call
counted-summary cs = λ i. record {
  submits_accepted = accepted_total i;
  submits_filled = filled_total i;
  submits_partial = partial_total i;
  submits_cancelled = cancelled_total i;
  submits_rejected = rejected_total i;
  trades_total = trades_all i;
  trade_qty_total = quantity_all i;
  trade_notional_total = notional_all i;
  cancels_attempted = untouched_1 i;
  cancels_succeeded = untouched_2 i;
  modifies_attempted = untouched_3 i;
  modifies_succeeded = untouched_4 i;
  last_sequence = counted-last cs reset_bundle i;
}
  where
    accepted_total :
        (counted cs reset_bundle).submits_accepted ≡ total (results accepted) cs % 2 ^ 64
    accepted_total =
        counted-total (λ b. b.submits_accepted) (results accepted) accepted_step cs reset_bundle
          (omega arith)
        ∙ ap (λ (k : ℕ). k % 2 ^ 64) (omega arith)

    filled_total :
        (counted cs reset_bundle).submits_filled ≡ total (results fully_filled) cs % 2 ^ 64
    filled_total =
        counted-total (λ b. b.submits_filled) (results fully_filled) filled_step cs reset_bundle
          (omega arith)
        ∙ ap (λ (k : ℕ). k % 2 ^ 64) (omega arith)

    partial_total :
        (counted cs reset_bundle).submits_partial ≡ total (results partially_filled) cs % 2 ^ 64
    partial_total =
        counted-total (λ b. b.submits_partial) (results partially_filled) partial_step cs
          reset_bundle (omega arith)
        ∙ ap (λ (k : ℕ). k % 2 ^ 64) (omega arith)

    cancelled_total :
        (counted cs reset_bundle).submits_cancelled ≡ total (results cancelled) cs % 2 ^ 64
    cancelled_total =
        counted-total (λ b. b.submits_cancelled) (results cancelled) cancelled_step cs reset_bundle
          (omega arith)
        ∙ ap (λ (k : ℕ). k % 2 ^ 64) (omega arith)

    rejected_total :
        (counted cs reset_bundle).submits_rejected ≡ total (results rejected) cs % 2 ^ 64
    rejected_total =
        counted-total (λ b. b.submits_rejected) (results rejected) rejected_step cs reset_bundle
          (omega arith)
        ∙ ap (λ (k : ℕ). k % 2 ^ 64) (omega arith)

    trades_all : (counted cs reset_bundle).trades_total ≡ total trades cs % 2 ^ 64
    trades_all =
        counted-total (λ b. b.trades_total) trades trades_step cs reset_bundle (omega arith)
        ∙ ap (λ (k : ℕ). k % 2 ^ 64) (omega arith)

    quantity_all : (counted cs reset_bundle).trade_qty_total ≡ total quantities cs % 2 ^ 64
    quantity_all =
        counted-total (λ b. b.trade_qty_total) quantities quantity_step cs reset_bundle
          (omega arith)
        ∙ ap (λ (k : ℕ). k % 2 ^ 64) (omega arith)

    notional_all : (counted cs reset_bundle).trade_notional_total ≡ total notionals cs % 2 ^ 64
    notional_all =
        counted-total (λ b. b.trade_notional_total) notionals notional_step cs reset_bundle
          (omega arith)
        ∙ ap (λ (k : ℕ). k % 2 ^ 64) (omega arith)

    untouched_1 : (counted cs reset_bundle).cancels_attempted ≡ 0
    untouched_1 = counted_same (λ b. b.cancels_attempted) (λ c b. keeps c b) cs reset_bundle
      where
        keeps :
            (c : SinkCall) (b : CounterBundle)
            → (count_call c b).cancels_attempted ≡ b.cancels_attempted
        keeps (told_trade t) b = refl
        keeps (told_result r) b = ground arith

    untouched_2 : (counted cs reset_bundle).cancels_succeeded ≡ 0
    untouched_2 = counted_same (λ b. b.cancels_succeeded) (λ c b. keeps c b) cs reset_bundle
      where
        keeps :
            (c : SinkCall) (b : CounterBundle)
            → (count_call c b).cancels_succeeded ≡ b.cancels_succeeded
        keeps (told_trade t) b = refl
        keeps (told_result r) b = ground arith

    untouched_3 : (counted cs reset_bundle).modifies_attempted ≡ 0
    untouched_3 = counted_same (λ b. b.modifies_attempted) (λ c b. keeps c b) cs reset_bundle
      where
        keeps :
            (c : SinkCall) (b : CounterBundle)
            → (count_call c b).modifies_attempted ≡ b.modifies_attempted
        keeps (told_trade t) b = refl
        keeps (told_result r) b = ground arith

    untouched_4 : (counted cs reset_bundle).modifies_succeeded ≡ 0
    untouched_4 = counted_same (λ b. b.modifies_succeeded) (λ c b. keeps c b) cs reset_bundle
      where
        keeps :
            (c : SinkCall) (b : CounterBundle)
            → (count_call c b).modifies_succeeded ≡ b.modifies_succeeded
        keeps (told_trade t) b = refl
        keeps (told_result r) b = ground arith

abbrev sink_of : Bool → CounterBundle → List SinkCall → MetricsSink
sink_of d b passed = record { bundle = b; has_downstream = d; passed_on = passed }

calls_passed :
    (d : Bool) (cs : List SinkCall) (b : CounterBundle) (passed : List SinkCall)
    → metrics_calls cs (sink_of d b passed)
      ≡ sink_of d (counted cs b) (if d then passed ++ cs else passed)
unfolding metrics_calls metrics_call
calls_passed true [] b passed = rw append-nil refl
calls_passed false [] b passed = refl
calls_passed true (c ∷ cs) b passed =
    calls_passed true cs (count_call c b) (passed ++ (c ∷ []))
    ∙ ap (λ (l : List SinkCall). sink_of true (counted cs (count_call c b)) l)
        (append_assoc passed (c ∷ []) cs)
calls_passed false (c ∷ cs) b passed = calls_passed false cs (count_call c b) passed

-- After any trades and results, a metrics sink that started from zero holds their summary: how many
-- results had each status, how many trades there were, the sums of their quantities and of their
-- notionals, each modulo 2 ^ 64, and the sequence number of the last call, which may be lower than
-- one before it; the counters of cancellations and modifications are still zero, and a sink
-- downstream, if there is one, was told the same calls in the same order.
pub metrics_calls-summary :
    (d : Bool) (cs : List SinkCall)
    → metrics_calls cs (record { bundle = reset_bundle; has_downstream = d; passed_on = [] })
      ≡ record { bundle = summary cs; has_downstream = d; passed_on = if d then cs else [] }
metrics_calls-summary d cs =
    calls_passed d cs reset_bundle []
    ∙ ap (λ (b : CounterBundle). sink_of d b (if d then cs else [])) (counted-summary cs)
