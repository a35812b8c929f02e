-- ===== src/EventLog/Replays.antt =====
-- Replays of src/persistence/event_log.cpp (`Replayer::replay`).
use trader_two.Prelude.{
  ℕ, suc, ◌+◌, ℤ, pos, ltb_ℤ, ◌≡◌, refl, ap, ◌∙◌, List, [], ◌∷◌, arith, Option, some, ◌⊎◌, inl, inr,
  if◌then◌else◌,
}
use trader_two.Order.{Order, limit, market, gtc, new}
use trader_two.MarketData.{
  EventKind, order_accepted, order_rested, order_rejected, order_cancelled, order_filled,
  order_partially_filled, order_modified, trade, top_of_book_changed,
}
use trader_two.Engine.Matching.{Machine}
use trader_two.Engine.Matching.Rounds.{ReadsFreed}
use trader_two.Registry.{MatchingEngine}
use trader_two.Engine.{Outcome, submit}
use trader_two.Engine.Validity.{AllValid}
use trader_two.Engine.Submits.{submit-AllValid}
use trader_two.EventLog.{PersistedEvent}
use trader_two.EventLog.Files.{skip, resubmit, unsupported, replay_step, replayed_order, replay}

-- Records of orders that came to the book or to trades.
abbrev pub IsOrder : EventKind → Type 0
IsOrder k = (k ≡ order_rested) ⊎ ((k ≡ order_filled) ⊎ (k ≡ order_partially_filled))

-- Records that change nothing by themselves.
abbrev pub IsPassive : EventKind → Type 0
IsPassive k = (k ≡ trade) ⊎ (k ≡ order_rejected)

abbrev pub IsOther : EventKind → Type 0
IsOther k =
    (k ≡ order_accepted)
    ⊎ ((k ≡ order_cancelled) ⊎ ((k ≡ order_modified) ⊎ (k ≡ top_of_book_changed)))

-- The order of a record, new, good till cancelled and of an unknown trader.
abbrev pub order_again : PersistedEvent → Order
order_again e = record {
  id = e.order.order_id;
  trader_id = 0;
  instrument_id = e.order.instrument;
  side = e.order.side;
  type = if ltb_ℤ (pos 0) e.order.qty then limit else market;
  tif = gtc;
  price = e.order.price;
  quantity = e.order.qty;
  remaining = e.order.qty;
  sequence = 0;
  timestamp = 0;
  status = new;
}

-- What records make of an engine, and how many of them are taken: the orders are submitted again, one
-- after the other, up to the first record of another kind.
pub data Rebuilds (machine : Machine) (now : ℤ)
    : MatchingEngine → List PersistedEvent → ℕ → MatchingEngine → Type 0 where
  over : {engine : MatchingEngine} → Rebuilds machine now engine [] 0 engine
  stopped :
      {engine : MatchingEngine} (e : PersistedEvent) (es : List PersistedEvent)
      → IsOther e.kind
      → Rebuilds machine now engine (e ∷ es) 0 engine
  passed :
      {engine end : MatchingEngine} {n : ℕ} (e : PersistedEvent) {es : List PersistedEvent}
      → IsPassive e.kind
      → Rebuilds machine now engine es n end
      → Rebuilds machine now engine (e ∷ es) (suc n) end
  submitted :
      {engine end : MatchingEngine} {n : ℕ} (e : PersistedEvent) {es : List PersistedEvent}
      (out : Outcome)
      → IsOrder e.kind
      → submit machine now (some (order_again e)) engine ≡ some out
      → Rebuilds machine now out.engine es n end
      → Rebuilds machine now engine (e ∷ es) (suc n) end

abbrev pub Rebuilt :
    Machine → ℤ → MatchingEngine → List PersistedEvent → ℕ → Option (ℕ × MatchingEngine) → Type 0
Rebuilt machine now engine es applied result =
    (n : ℕ) × (end : MatchingEngine) × (result ≡ some (applied + n, end))
    × Rebuilds machine now engine es n end
    × AllValid end

step-cases :
    (k : EventKind)
    → ((replay_step k ≡ skip) × IsPassive k)
      ⊎ (((replay_step k ≡ resubmit) × IsOrder k) ⊎ ((replay_step k ≡ unsupported) × IsOther k))
unfolding replay_step
step-cases trade = inl (refl, inl refl)
step-cases order_rejected = inl (refl, inr refl)
step-cases order_rested = inr (inl (refl, inl refl))
step-cases order_filled = inr (inl (refl, inr (inl refl)))
step-cases order_partially_filled = inr (inl (refl, inr (inr refl)))
step-cases order_accepted = inr (inr (refl, inl refl))
step-cases order_cancelled = inr (inr (refl, inr (inl refl)))
step-cases order_modified = inr (inr (refl, inr (inr (inl refl))))
step-cases top_of_book_changed = inr (inr (refl, inr (inr (inr refl))))

one_more : (applied n : ℕ) → suc applied + n ≡ applied + suc n
one_more applied n = omega arith

nothing_more : (applied : ℕ) → applied ≡ applied + 0
nothing_more applied = omega arith

counted :
    {r : Option (ℕ × MatchingEngine)} {k n : ℕ} (end : MatchingEngine)
    → k ≡ n
    → r ≡ some (k, end)
    → r ≡ some (n, end)
counted end same h = h ∙ ap (λ (i : ℕ). some (i, end)) same

replayed_order-again : (e : PersistedEvent) → replayed_order e ≡ order_again e
unfolding replayed_order
replayed_order-again e = refl

-- A replay on an engine of valid books, where a destroyed order reads as it was, ends with an
-- engine of valid books and a count that grew by the records taken. The records are taken in order
-- up to the first that is neither a trade nor a rejected, rested, filled or partly filled order;
-- each order that rested or was filled, in part or wholly, is submitted again, new, good till
-- cancelled and of trader zero, and a trade or a rejected order changes nothing.
pub replay-Rebuilt :
    (machine : Machine) (now : ℤ) (es : List PersistedEvent) (applied : ℕ) (engine : MatchingEngine)
    → ReadsFreed machine
    → AllValid engine
    → Rebuilt machine now engine es applied (replay machine now es applied engine)
unfolding replay
replay-Rebuilt machine now [] applied engine reads all =
    (0, engine, counted engine (nothing_more applied) refl, over, all)
replay-Rebuilt machine now (e ∷ es) applied engine reads all = elim (step-cases e.kind) [
  | inl (h, passive) ↦
      let (n, end, done, run, all') =
        replay-Rebuilt machine now es (suc applied) engine reads all in
      rw (h, replay) (suc n, end, counted end (one_more applied n) done, passed e passive run, all')
  | inr (inr (h, other)) ↦
      rw (h, replay)
        (0, engine, counted engine (nothing_more applied) refl, stopped e es other, all)
  | inr (inl (h, order)) ↦
      let (out, done, all') = submit-AllValid machine now (order_again e) engine reads all refl in
      let (n, end, rest, run, all'') =
        replay-Rebuilt machine now es (suc applied) out.engine reads all' in
      rw (h, replay, replayed_order-again e, done)
        (suc n, end, counted end (one_more applied n) rest, submitted e out order done run, all'')
]
