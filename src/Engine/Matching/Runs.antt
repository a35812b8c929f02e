-- ===== src/Engine/Matching/Runs.antt =====
-- The match loop of src/matching/matching_engine.cpp as a relation, and its fuel.
use trader_two.Prelude.{
  ℕ, zero, suc, ◌+◌, ◌≤◌, pos, ◌≤ℤ◌, ◌≡◌, List, [], ◌∷◌, Option, some, arith, inl, inr, ◌⊎◌,
}
use trader_two.Order.{Order, Trade}
use trader_two.OrderBook.Queries.{total_order_count}
use trader_two.OrderBook.Coherent.{IsValid}
use trader_two.Engine.Matching.{Machine, MatchState, Matched, match_loop, match_against, trade_with}
use trader_two.Engine.Matching.Rounds.{ReadsFreed, Trades, Ended, match_round-cases}
use trader_two.Engine.Matching.Effect.{round-IsValid, round-shrinks}

-- The loop goes from one state to another, and makes these trades on its way.
pub data Runs (machine : Machine) : MatchState → MatchState → List Trade → Type 0 where
  stop : {m : MatchState} → Ended m → Runs machine m m []
  round :
      {m end : MatchState} {ts : List Trade} (resting : Order)
      → Trades m resting
      → Runs machine (trade_with machine m resting.price resting).0 end ts
      → Runs machine m end ((trade_with machine m resting.price resting).1 ∷ ts)

-- How much fuel a state needs.
abbrev Fuelled : ℕ → MatchState → Type 0
Fuelled fuel m = (total_order_count m.book + 2 ≤ fuel) ⊎ ((1 ≤ fuel) × (m.taker.remaining ≤ℤ pos 0))

abbrev pub RunsTo : Machine → MatchState → Option Matched → Type 0
RunsTo machine m result =
    (end : MatchState) × (ts : List Trade) × (result ≡ some (record { state = end; trades = ts }))
    × Runs machine m end ts

fuel_left :
    (machine : Machine) (fuel : ℕ) (m : MatchState) (resting : Order)
    → ReadsFreed machine
    → IsValid m.book
    → Trades m resting
    → Fuelled (suc fuel) m
    → Fuelled fuel (trade_with machine m resting.price resting).0
fuel_left machine fuel m resting reads v t (inr (_, nothing)) =
    absurd (omega (arith, nothing, t.wanting))
fuel_left machine fuel m resting reads v t (inl enough) =
    elim (round-shrinks machine m resting reads v t) [
      | inl fewer ↦ inl (omega (arith, fewer, enough))
      | inr nothing ↦ inr (omega (arith, enough), nothing)
    ]

match_loop-RunsTo :
    (machine : Machine) (fuel : ℕ) (m : MatchState)
    → ReadsFreed machine
    → IsValid m.book
    → Fuelled fuel m
    → RunsTo machine m (match_loop machine fuel m)
unfolding match_loop
match_loop-RunsTo machine zero m reads v f = absurd (ground arith)
match_loop-RunsTo machine (suc fuel) m reads v f = elim (match_round-cases machine m v) [
  | inl (ended, e) ↦ (m, [], rw (e, match_loop), stop ended)
  | inr (resting, t, e) ↦
      let (end, ts, result, runs) =
        match_loop-RunsTo machine fuel (trade_with machine m resting.price resting).0 reads
          (round-IsValid machine m resting reads v t)
          (fuel_left machine fuel m resting reads v t f) in
      (
        end,
        (trade_with machine m resting.price resting).1 ∷ ts,
        rw (e, match_loop, result),
        round resting t runs,
      )
]

-- On a valid book, where a destroyed order reads as it was, the match loop ends within its fuel,
-- and its result is the end and the trades of a run of rounds that stops only where the loop is
-- over.
pub match_against-RunsTo :
    (machine : Machine) (m : MatchState)
    → ReadsFreed machine
    → IsValid m.book
    → RunsTo machine m (match_against machine m)
unfolding match_against
match_against-RunsTo machine m reads v =
    match_loop-RunsTo machine (suc (suc (total_order_count m.book))) m reads v (inl (omega arith))
