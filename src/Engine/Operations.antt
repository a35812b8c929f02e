-- ===== src/Engine/Operations.antt =====
-- The engines that the operations of src/matching/matching_engine.cpp reach.
use trader_two.Prelude.{
  ℕ, ◌==◌, ℤ, false, not, ◌≡◌, refl, Option, some, ◌∙◌, sym, subst, inl, inr, Bool-cases,
  Option-cases, some_inj, none_ne_some,
}
use trader_two.Prelude.Map.{find, assign, emplace, find-erase}
use trader_two.Order.{Order, is_buy, status_is_gone}
use trader_two.Instrument.{InstrumentDescriptor}
use trader_two.Risk.{RiskGate}
use trader_two.OrderBook.{OrderBook, new_book}
use trader_two.OrderBook
use trader_two.OrderBook.Coherent.{IsValid}
use trader_two.OrderBook.Joins.{IsFree}
use trader_two.OrderBook.Validity.{new_book-IsValid, cancel-IsValid}
use trader_two.OrderBook.Validity.Reduce.{reduce-IsValid}
use trader_two.OrderBook.Validity.Modify.{modify-IsValid}
use trader_two.Engine.Matching.{Machine}
use trader_two.Engine.Matching.Rounds.{ReadsFreed}
use trader_two.Registry.{
  MatchingEngine, new_engine, register_id, register_instrument, unregister_instrument, clear,
  set_risk_gate,
}
use trader_two.Engine.{Outcome, submit, cancel, reduce, modify, on_book}
use trader_two.Engine.Validity.{AllValid, assign-AllValid}
use trader_two.Engine.Submits.{submit-AllValid}

-- The side opposite to the order has no level at the new price.
abbrev pub MovesFreely : ℕ → ℕ → ℤ → MatchingEngine → Type 0
MovesFreely instrument id new_price e =
    (b : OrderBook) (o : Order)
    → find instrument e.books ≡ some b
    → find id b.id_index ≡ some o
    → IsFree b (not (is_buy o)) new_price

-- What a new engine becomes by its operations: orders come in working, and a modification moves an
-- order to a price where the other side has no level.
pub data Reachable (machine : Machine) : MatchingEngine → Type 0 where
  started : Reachable machine new_engine
  registered_id :
      {e : MatchingEngine} (id : ℕ) → Reachable machine e → Reachable machine (register_id id e)
  registered :
      {e : MatchingEngine} (desc : InstrumentDescriptor)
      → Reachable machine e
      → Reachable machine (register_instrument desc e)
  unregistered :
      {e : MatchingEngine} (id : ℕ)
      → Reachable machine e
      → Reachable machine (unregister_instrument id e).0
  cleared : {e : MatchingEngine} → Reachable machine e → Reachable machine (clear e)
  guarded :
      {e : MatchingEngine} (gate : Option RiskGate)
      → Reachable machine e
      → Reachable machine (set_risk_gate gate e)
  submitted :
      {e : MatchingEngine} (now : ℤ) (o : Order) (out : Outcome)
      → status_is_gone o.status ≡ false
      → submit machine now (some o) e ≡ some out
      → Reachable machine e
      → Reachable machine out.engine
  cancelled :
      {e : MatchingEngine} (instrument id : ℕ)
      → Reachable machine e
      → Reachable machine (cancel instrument id e).0
  reduced :
      {e : MatchingEngine} (instrument id : ℕ) (new_qty : ℤ)
      → Reachable machine e
      → Reachable machine (reduce instrument id new_qty e).0
  modified :
      {e : MatchingEngine} (instrument id : ℕ) (new_qty new_price : ℤ)
      → MovesFreely instrument id new_price e
      → Reachable machine e
      → Reachable machine (modify instrument id new_qty new_price e).0

register_id-AllValid : (id : ℕ) (e : MatchingEngine) → AllValid e → AllValid (register_id id e)
unfolding register_id emplace
register_id-AllValid id e all = elim (Option-cases (find id e.books)) [
  | inl h ↦
      assign-AllValid e id (new_book id) (register_id id e) (rw (h, emplace) refl) all
        (new_book-IsValid id)
  | inr (b, h) ↦ λ j c k. all j c (rw (h, emplace) at k)
]

unregister_instrument-AllValid :
    (id : ℕ) (e : MatchingEngine) → AllValid e → AllValid (unregister_instrument id e).0
unfolding unregister_instrument
unregister_instrument-AllValid id e all = elim (Option-cases (find id e.books)) [
  | inl h ↦ rw (h, unregister_instrument) all
  | inr (b, h) ↦
      rw (h, unregister_instrument)
        (λ j c k. elim (Bool-cases (id == j)) [
          | inl hit ↦ absurd (none_ne_some (rw hit at (sym (find-erase j id e.books) ∙ k)))
          | inr miss ↦ all j c (rw miss at (sym (find-erase j id e.books) ∙ k))
        ])
]

-- An operation that keeps the book of its instrument valid keeps all books valid.
on_book-AllValid {ℓ} :
    {A : Type ℓ} (id : ℕ) (f : OrderBook → OrderBook × A) (missing : A) (e : MatchingEngine)
    → AllValid e
    → ((b : OrderBook) → find id e.books ≡ some b → IsValid b → IsValid (f b).0)
    → AllValid (on_book id f missing e).0
on_book-AllValid id f missing e all keeps = elim (Option-cases (find id e.books)) [
  | inl h ↦ rw (h, on_book) all
  | inr (b, h) ↦
      rw (h, on_book)
        (assign-AllValid e id (f b).0 (record e { books = assign id (f b).0 e.books }) refl all
          (keeps b h (all id b h)))
]

-- From a new engine, whatever operations follow in whatever order, every book stays valid: its
-- ladders are sorted by price, each level lists exactly the orders at its price on its side, with
-- the count and the total of what they have left, no level is empty, each order of the index waits
-- in one level, and the storage owns exactly the levels of the ladders. The orders that come in are
-- not filled or cancelled ones, a modification moves no order to a price where the other side has a
-- level, and a destroyed order reads as it was.
pub Reachable-AllValid :
    (machine : Machine) (e : MatchingEngine) → ReadsFreed machine → Reachable machine e → AllValid e
unfolding new_engine find register_instrument clear set_risk_gate cancel reduce modify
Reachable-AllValid machine _ reads started = λ id b h. absurd (none_ne_some h)
Reachable-AllValid machine _ reads (registered_id {e} id r) =
    register_id-AllValid id e (Reachable-AllValid machine e reads r)
Reachable-AllValid machine _ reads (registered {e} desc r) =
    register_id-AllValid desc.id e (Reachable-AllValid machine e reads r)
Reachable-AllValid machine _ reads (unregistered {e} id r) =
    unregister_instrument-AllValid id e (Reachable-AllValid machine e reads r)
Reachable-AllValid machine _ reads (cleared r) = λ id b h. absurd (none_ne_some h)
Reachable-AllValid machine _ reads (guarded {e} gate r) = Reachable-AllValid machine e reads r
Reachable-AllValid machine _ reads (submitted {e} now o out working done r) =
    let (out', done', all) =
      submit-AllValid machine now o e reads (Reachable-AllValid machine e reads r) working in
    subst (λ x. AllValid x.engine) (some_inj (sym done' ∙ done)) all
Reachable-AllValid machine _ reads (cancelled {e} instrument id r) =
    on_book-AllValid instrument (OrderBook.cancel id) false e (Reachable-AllValid machine e reads r)
      (λ b h v. cancel-IsValid b id v)
Reachable-AllValid machine _ reads (reduced {e} instrument id q r) =
    on_book-AllValid instrument (OrderBook.reduce id q) false e
      (Reachable-AllValid machine e reads r) (λ b h v. reduce-IsValid b id q v)
Reachable-AllValid machine _ reads (modified {e} instrument id q p free r) =
    on_book-AllValid instrument (OrderBook.modify id q p) OrderBook.not_found e
      (Reachable-AllValid machine e reads r) (λ b h v. modify-IsValid b id q p v (λ o. free b o h))
