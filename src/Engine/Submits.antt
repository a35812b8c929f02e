-- ===== src/Engine/Submits.antt =====
-- The outcomes of `submit` of src/matching/matching_engine.cpp.
use trader_two.Prelude.{
  ℕ, ◌==◌, ℤ, pos, ◌<ℤ◌, true, false, not, ◌&&◌, ◌||◌, ◌≡◌, refl, some, arith, ◌∙◌, sym, ap, inl,
  inr, Bool-cases, leb_ℤ, Option-cases, String,
}
use trader_two.Prelude.Map.{find}
use trader_two.Types.{quantity_is_valid, price_is_valid, invalid_instrument_id}
use trader_two.Order.{Order, is_limit, status_is_gone}
use trader_two.Risk.{decision_ok}
use trader_two.OrderBook.{OrderBook}
use trader_two.Engine.Matching.{Machine}
use trader_two.Engine.Matching.Rounds.{ReadsFreed}
use trader_two.Registry.{MatchingEngine, book}
use trader_two.Engine.{
  Outcome, SubmitResult, gated, submit_order, submit, with_id, ask_gate, rejection, blank_result,
}
use Prim.Native.String.{◌++◌ as str_append}
use trader_two.Engine.Validity.{AllValid, Executed, execute-Executed, Executed-AllValid}

-- A submission is refused with no trade and the books as they were, or executed on its book.
pub data Submits (machine : Machine) (o : Order) (e : MatchingEngine) : Outcome → Type 0 where
  refused :
      (e' : MatchingEngine) (r : SubmitResult) (reason : String)
      → e'.books ≡ e.books
      → r.filled_quantity ≡ pos 0
      → r.resting_quantity ≡ pos 0
      → Submits machine o e (rejection e' r reason)
  executed :
      (b : OrderBook) (r : SubmitResult) (e' : MatchingEngine) {out : Outcome}
      → find o.instrument_id e.books ≡ some b
      → e'.books ≡ e.books
      → quantity_is_valid o.quantity ≡ true
      → pos 0 <ℤ o.remaining
      → Executed machine o b r e' out
      → Submits machine o e out

ask_gate-books : (now : ℤ) (o : Order) (e : MatchingEngine) → (ask_gate now o e).0.books ≡ e.books
unfolding ask_gate
ask_gate-books now o e = elim (Option-cases e.risk_gate) [
  | inl h ↦ rw (h, ask_gate)
  | inr (gate, h) ↦ rw (h, ask_gate)
]

module _ (machine : Machine) (now : ℤ) (o : Order) (e : MatchingEngine) (reads : ReadsFreed machine)
    (all : AllValid e) where
  gated-Submits :
      (b : OrderBook) (r : SubmitResult)
      → find o.instrument_id e.books ≡ some b
      → quantity_is_valid o.quantity ≡ true
      → pos 0 <ℤ o.remaining
      → r.filled_quantity ≡ pos 0
      → r.resting_quantity ≡ pos 0
      → (out : Outcome) × (gated machine now o b r e ≡ some out) × Submits machine o e out
  unfolding gated
  gated-Submits b r found sized left f g = elim (Bool-cases (decision_ok (ask_gate now o e).1)) [
    | inr stopped ↦
        let reason = str_append "risk: " (ask_gate now o e).1.reason in
        (
          rejection (ask_gate now o e).0 r reason,
          rw stopped,
          refused (ask_gate now o e).0 r reason (ask_gate-books now o e) f g,
        )
    | inl passed ↦
        let (out, done, x) =
          execute-Executed machine o b r (ask_gate now o e).0 reads (all o.instrument_id b found) in
        (
          out,
          rw passed done,
          executed b r (ask_gate now o e).0 found (ask_gate-books now o e) sized left x,
        )
  ]

  submit_order-Submits :
      (out : Outcome) × (submit_order machine now o e ≡ some out) × Submits machine o e out
  unfolding submit_order book
  submit_order-Submits =
      let r : SubmitResult = record blank_result {
        order_id = o.id;
        instrument_id = o.instrument_id;
      } in
      elim (Bool-cases (o.instrument_id == invalid_instrument_id)) [
        | inl h ↦ (
          rejection e r "invalid instrument",
          rw h,
          refused e r "invalid instrument" refl refl refl,
        )
        | inr known ↦
            elim (Bool-cases (not (quantity_is_valid o.quantity) || leb_ℤ o.remaining (pos 0))) [
              | inl h ↦ (
                rejection e r "invalid quantity",
                rw (known, h),
                refused e r "invalid quantity" refl refl refl,
              )
              | inr sized ↦ elim (Bool-cases (is_limit o && not (price_is_valid o.price))) [
                | inl h ↦ (
                  rejection e r "invalid price",
                  rw (known, sized, h),
                  refused e r "invalid price" refl refl refl,
                )
                | inr priced ↦ elim (Option-cases (find o.instrument_id e.books)) [
                  | inl h ↦ (
                    rejection e r "instrument not registered",
                    rw (known, sized, priced, h),
                    refused e r "instrument not registered" refl refl refl,
                  )
                  | inr (b, h) ↦
                      let (out, done, s) =
                        gated-Submits b r h (ground (arith, sized)) (ground (arith, sized)) refl
                          refl in
                      (out, rw (known, sized, priced, h) done, s)
                ]
              ]
            ]
      ]

-- On valid books, where a destroyed order reads as it was, every submission of an order ends. It is
-- refused, with no trade, nothing reported as filled or resting and the books as they were; or the
-- order is executed on the book of its instrument: it has a valid quantity and some of it left, the
-- match loop runs from the order and that book, and the outcome is what is made of the end of that
-- run.
pub submit-Submits :
    (machine : Machine) (now : ℤ) (o : Order) (e : MatchingEngine)
    → ReadsFreed machine
    → AllValid e
    → (out : Outcome) × (submit machine now (some o) e ≡ some out)
      × Submits machine (with_id e.next_sequence o) e out
unfolding submit
submit-Submits machine now o e reads all =
    submit_order-Submits machine now (with_id e.next_sequence o) e reads all

Submits-AllValid :
    (machine : Machine) (o : Order) (e : MatchingEngine) {out : Outcome}
    → ReadsFreed machine
    → AllValid e
    → status_is_gone o.status ≡ false
    → Submits machine o e out
    → AllValid out.engine
Submits-AllValid machine o e reads all working (refused e' r reason same f g) =
    λ id b h. all id b (sym (ap (find id) same) ∙ h)
Submits-AllValid machine o e reads all working (executed b r e' found same sized left x) =
    Executed-AllValid machine o b r e' reads (λ id c h. all id c (sym (ap (find id) same) ∙ h))
      (all o.instrument_id b found) working x

with_id-status : (n : ℕ) (o : Order) → (with_id n o).status ≡ o.status
with_id-status n o = ground arith

-- A submission on valid books ends, and leaves every book valid.
pub submit-AllValid :
    (machine : Machine) (now : ℤ) (o : Order) (e : MatchingEngine)
    → ReadsFreed machine
    → AllValid e
    → status_is_gone o.status ≡ false
    → (out : Outcome) × (submit machine now (some o) e ≡ some out) × AllValid out.engine
submit-AllValid machine now o e reads all working =
    let (out, done, s) = submit-Submits machine now o e reads all in
    (
      out,
      done,
      Submits-AllValid machine (with_id e.next_sequence o) e reads all
          (ap (λ x. status_is_gone x) (with_id-status e.next_sequence o) ∙ working) s,
    )
