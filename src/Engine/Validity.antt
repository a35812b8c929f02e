-- ===== src/Engine/Validity.antt =====
-- What a submission that enters the match loop does to the engine's books (Engine.antt, execute and finish).
use trader_two.Prelude.{
  ℕ, ◌==◌, pos, ◌<ℤ◌, false, not, ◌≡◌, refl, List, Option, some, none, arith, ◌∙◌, sym, ap, subst,
  inl, inr, ◌⊎◌, if◌then◌else◌, Bool-cases, none_ne_some, some_inj,
}
use trader_two.Prelude.Map.{find, assign, find-assign}
use trader_two.Types.{next_u64}
use trader_two.Order.{Order, Trade, is_buy, buy, sell, Side, side_is_buy, status_is_gone}
use trader_two.OrderBook.{OrderBook, insert}
use trader_two.OrderBook.Queries.{opposite_is_bid}
use trader_two.OrderBook.Coherent.{IsValid}
use trader_two.OrderBook.Joins.{IsFree}
use trader_two.OrderBook.Validity.{insert-IsValid}
use trader_two.Engine.Matching.{Machine, MatchState}
use trader_two.Engine.Matching.Rounds.{ReadsFreed, Ended}
use trader_two.Engine.Matching.Runs.{Runs, match_against-RunsTo}
use trader_two.Engine.Matching.Laws.{Runs-IsValid, Runs-Ended, Runs-taker, Ended-IsFree}
use trader_two.Registry.{MatchingEngine}
use trader_two.Engine.{Outcome, SubmitResult, settle, rest_order, finish, execute}

-- Every book of the engine is valid.
abbrev pub AllValid : MatchingEngine → Type 0
AllValid e = (id : ℕ) (b : OrderBook) → find id e.books ≡ some b → IsValid b

pub assign-AllValid :
    (e : MatchingEngine) (id : ℕ) (b : OrderBook) (e' : MatchingEngine)
    → e'.books ≡ assign id b e.books
    → AllValid e
    → IsValid b
    → AllValid e'
assign-AllValid e id b e' same v w j c h =
    let found : (if id == j then some b else find j e.books) ≡ some c =
      sym (ap (find j) same ∙ find-assign j id b e.books) ∙ h in
    elim (Bool-cases (id == j)) [
      | inl hit ↦ subst IsValid (some_inj (rw hit at found)) w
      | inr miss ↦ v j c (rw miss at found)
    ]

-- The order as it enters the match loop, and the state of the loop.
abbrev pub taker_of : Order → MatchingEngine → Order
taker_of o e = record o { sequence = e.next_sequence }

abbrev pub start_of : Order → OrderBook → MatchingEngine → MatchState
start_of o b e = record { taker = taker_of o e; book = b; next_sequence = next_u64 e.next_sequence }

abbrev pub result_of : SubmitResult → Order → MatchingEngine → SubmitResult
result_of r o e = record r {
  sequence = e.next_sequence;
  side = o.side;
  type = o.type;
  price = o.price;
}

-- An execution is a run of the match loop, and what `finish` makes of its end.
pub record Executed (machine : Machine) (o : Order) (b : OrderBook) (r : SubmitResult)
    (e : MatchingEngine) (out : Outcome) : Type 0 where
  pub end : MatchState
  pub trades : List Trade
  pub runs : Runs machine (start_of o b e) end trades
  pub finished : out ≡ finish (result_of r o e) e (record { state = end; trades = trades })

pub execute-Executed :
    (machine : Machine) (o : Order) (b : OrderBook) (r : SubmitResult) (e : MatchingEngine)
    → ReadsFreed machine
    → IsValid b
    → (out : Outcome) × (execute machine o b r e ≡ some out) × Executed machine o b r e out
unfolding execute
execute-Executed machine o b r e reads v =
    let (end, trades, result, runs) = match_against-RunsTo machine (start_of o b e) reads v in
    (
      finish (result_of r o e) e (record { state = end; trades = trades }),
      rw result,
      record { end = end; trades = trades; runs = runs; finished = refl },
    )

settle-cases :
    (r : SubmitResult) (taker : Order)
    → ((settle r taker).1 ≡ none) ⊎ (((settle r taker).1 ≡ some taker) × (pos 0 <ℤ taker.remaining))
unfolding settle
settle-cases r taker = ground arith

rest_order-book :
    (r : SubmitResult) (o : Order) (b : OrderBook)
    → (rest_order r (some o) b).0 ≡ (insert (some o) b).0
unfolding rest_order
rest_order-book r o b = elim (Bool-cases (insert (some o) b).1) [ inl e ↦ rw e | inr e ↦ rw e ]

opposite-not : (s : Side) → opposite_is_bid s ≡ not (side_is_buy s)
opposite-not buy = refl
opposite-not sell = refl

-- The book after `finish` is the one after the match loop, with the taker in it if it rests.
abbrev finished_book : SubmitResult → MatchState → OrderBook
finished_book r end = (rest_order (settle r end.taker).0 (settle r end.taker).1 end.book).0

rest_order-IsValid :
    (r : SubmitResult) (resting : Option Order) (taker : Order) (b : OrderBook)
    → IsValid b
    → status_is_gone taker.status ≡ false
    → (resting ≡ none) ⊎ ((resting ≡ some taker) × IsFree b (not (is_buy taker)) taker.price)
    → IsValid (rest_order r resting b).0
unfolding rest_order
rest_order-IsValid r none taker b v working h = v
rest_order-IsValid r (some o) taker b v working (inl e) = absurd (none_ne_some (sym e))
rest_order-IsValid r (some o) taker b v working (inr (e, free)) =
    rw (some_inj e, rest_order-book r taker b) (insert-IsValid b taker v working free)

finished_book-IsValid :
    (r : SubmitResult) (end : MatchState)
    → IsValid end.book
    → Ended end
    → status_is_gone end.taker.status ≡ false
    → IsValid (finished_book r end)
finished_book-IsValid r end v ended working =
    rest_order-IsValid _ _ end.taker end.book v working (elim (settle-cases r end.taker) [
      | inl e ↦ inl e
      | inr (e, left) ↦ inr (e, rw (← opposite-not end.taker.side) (Ended-IsFree end v ended left))
    ])

pub Executed-AllValid :
    (machine : Machine) (o : Order) (b : OrderBook) (r : SubmitResult) (e : MatchingEngine)
    {out : Outcome}
    → ReadsFreed machine
    → AllValid e
    → IsValid b
    → status_is_gone o.status ≡ false
    → Executed machine o b r e out
    → AllValid out.engine
unfolding finish
Executed-AllValid machine o b r e {out} reads all v working x =
    assign-AllValid e _ (finished_book (result_of r o e) x.end) out.engine
      (ap (λ y. y.engine.books) x.finished) all
      (finished_book-IsValid (result_of r o e) x.end (Runs-IsValid reads x.runs v)
        (Runs-Ended x.runs) (ap (λ t. status_is_gone t.status) (Runs-taker x.runs) ∙ working))
