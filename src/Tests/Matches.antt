-- ===== src/Tests/Matches.antt =====
-- The match loop on the book with one offer, against a bid that takes part of it.
use trader_two.Prelude.{pos, ◌-ℤ◌, false, ◌≡◌, refl, some, none, ◌⊎◌, arith, All}
use trader_two.Types.{price_is_valid, quantity_is_valid}
use trader_two.Order.{Order, buy}
use trader_two.OrderBook.{new_book, insert, enqueue, get_or_create_level}
use trader_two.OrderBook.Queries.{best_opposite_price, best_price, first_level}
use trader_two.OrderBook.Ladder.{find_level, emplace_level, write_level, own}
use trader_two.Level.{append, empty_level}
use trader_two.Prelude.Map.{find, assign, emplace}
use trader_two.OrderBook.Joins.{IsFree}
use trader_two.Engine.Matching.{
  Machine, MatchState, Matched, match_against, match_round, trade_with, crosses,
}
use trader_two.Engine.Matching.Rounds.{ReadsFreed, Trades, Ended, price_refused, match_round-cases}
use trader_two.Engine.Matching.Runs.{RunsTo, match_against-RunsTo}
use trader_two.Engine.Matching.Laws.{IsFair, traded, match_against-IsFair, Runs-taker, Ended-IsFree}
use trader_two.Tests.Books.{offer, one_offer, one_offer-IsValid}

-- Destroyed orders read as they were, and the clock reads the trade's id.
abbrev pub machine : Machine
machine = record { freed = λ o. o; now_ns = λ n. n }

pub machine-ReadsFreed : ReadsFreed machine
machine-ReadsFreed = record { same_price = λ o. refl; same_trader = λ o. refl }

-- A bid for eight at 101.
abbrev pub bid : Order
bid = record offer {
  id = 2;
  trader_id = 8;
  side = buy;
  price = pos 101;
  quantity = pos 8;
  remaining = pos 8;
}

abbrev start : MatchState
start = record { taker = bid; book = one_offer; next_sequence = 3 }

match_against-RunsTo_example : RunsTo machine start (match_against machine start)
match_against-RunsTo_example =
    match_against-RunsTo machine start machine-ReadsFreed one_offer-IsValid

-- The run, for the other examples.
run : RunsTo machine start (match_against machine start)
run = match_against-RunsTo machine start machine-ReadsFreed one_offer-IsValid

match_against-IsFair_example :
    (out : Matched) × (match_against machine start ≡ some out) × All (IsFair bid) out.trades
match_against-IsFair_example =
    match_against-IsFair machine start machine-ReadsFreed one_offer-IsValid

Runs-taker_example : run.0.taker ≡ record bid { remaining = pos 8 -ℤ traded run.1 }
Runs-taker_example = Runs-taker {machine = machine} {m = start} {end = run.0} {ts = run.1} run.3

match_round-cases_example :
    (Ended start × (match_round machine start ≡ none))
    ⊎ ((resting : Order) × Trades start resting
        × (match_round machine start ≡ some (trade_with machine start resting.price resting)))
match_round-cases_example = match_round-cases machine start one_offer-IsValid

-- A bid below the offer.
abbrev low_bid : Order
low_bid = record bid { price = pos 99 }

abbrev waiting : MatchState
waiting = record { taker = low_bid; book = one_offer; next_sequence = 3 }

offer-refused : crosses buy (pos 99) (best_opposite_price buy one_offer) ≡ false
unfolding new_book insert enqueue get_or_create_level append find assign emplace find_level
    emplace_level write_level own price_is_valid quantity_is_valid best_opposite_price best_price
    first_level empty_level crosses
offer-refused = refl

Ended-IsFree_example : IsFree one_offer false (pos 99)
Ended-IsFree_example =
    Ended-IsFree waiting one_offer-IsValid (price_refused refl offer-refused) (ground arith)
