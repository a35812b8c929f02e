-- ===== src/Engine/Matching/Laws.antt =====
-- The runs of `match_against` of src/matching/matching_engine.cpp.
use mathlib.Core.Bool.{false≢true}
use trader_two.Prelude.{
  ℕ, ℤ, pos, ◌+ℤ◌, ◌-ℤ◌, ◌<ℤ◌, Bool, true, false, not, ◌&&◌, ◌≡◌, refl, some, List, [], ◌∷◌, arith,
  ◌∙◌, sym, ap, inl, inr, All, int_laws, if◌then◌else◌, Option-cases,
}
use trader_two.Order.{Order, Trade, Side, buy, sell, is_limit, is_buy}
use trader_two.OrderBook.Ladder.{comes_before}
use trader_two.OrderBook.Queries.{best_opposite_price, opposite_is_bid}
use trader_two.OrderBook.Coherent.{IsValid, levels_of}
use trader_two.OrderBook.Best.{best_price-best, first-none}
use trader_two.OrderBook.Joins.{IsFree}
use trader_two.Engine.Matching.{
  Machine, MatchState, Matched, match_against, trade_with, crosses, make_trade, fill_quantity,
}
use trader_two.Engine.Matching.Rounds.{ReadsFreed, Ended, exhausted, no_level, price_refused}
use trader_two.Engine.Matching.Effect.{fill_quantity_bounds, round-IsValid}
use trader_two.Engine.Matching.Runs.{match_against-RunsTo, Runs, stop, round}

-- The quantity that changes hands.
abbrev pub traded : List Trade → ℤ
traded [] = pos 0
traded (t ∷ ts) = t.quantity +ℤ traded ts

pub Runs-IsValid :
    {machine : Machine} {m end : MatchState} {ts : List Trade}
    → ReadsFreed machine
    → Runs machine m end ts
    → IsValid m.book
    → IsValid end.book
Runs-IsValid reads (stop e) v = v
Runs-IsValid {machine} {m} reads (round resting t runs) v =
    Runs-IsValid reads runs (round-IsValid machine m resting reads v t)

pub Runs-Ended :
    {machine : Machine} {m end : MatchState} {ts : List Trade} → Runs machine m end ts → Ended end
Runs-Ended (stop e) = e
Runs-Ended (round resting t runs) = Runs-Ended runs

minus_zero : (r : ℤ) → r ≡ r -ℤ pos 0
minus_zero r = omega int_laws

minus_minus : (r q t : ℤ) → r -ℤ q -ℤ t ≡ r -ℤ (q +ℤ t)
minus_minus r q t = omega int_laws

-- The order with another quantity left is the same order.
abbrev with_remaining : Order → ℤ → Order
with_remaining o r = record o { remaining = r }

-- A run of the match loop changes nothing of the taker but what it has left, and that by the sum of
-- the quantities traded.
pub Runs-taker :
    {machine : Machine} {m end : MatchState} {ts : List Trade}
    → Runs machine m end ts
    → end.taker ≡ record (m.taker) { remaining = m.taker.remaining -ℤ traded ts }
unfolding trade_with make_trade
Runs-taker {m = m} (stop e) = ap (with_remaining m.taker) (minus_zero m.taker.remaining)
Runs-taker {m = m} (round {ts = ts} resting t runs) =
    Runs-taker runs
    ∙ ap (with_remaining m.taker)
        (minus_minus m.taker.remaining (fill_quantity m.taker resting) (traded ts))

if_same : (b : Bool) (x y z : ℕ) → (if b then (if b then x else y) else (if b then z else x)) ≡ x
if_same true x y z = refl
if_same false x y z = refl

-- A trade of a positive quantity for the taker, at a price that the taker takes.
abbrev pub IsFair : Order → Trade → Type 0
IsFair taker t =
    (pos 0 <ℤ t.quantity)
    × ((is_limit taker && not (crosses taker.side taker.price t.price)) ≡ false)
    × ((if is_buy taker then t.buy_order_id else t.sell_order_id) ≡ taker.id)
    × (t.sequence ≡ taker.sequence)

-- Every trade of a run of the match loop that starts on a valid book is fair, where a destroyed
-- order reads as it was: its quantity is positive, its price is one that a limit taker takes, the
-- taker's side of it is the taker, and it carries the taker's sequence number.
pub Runs-IsFair :
    {machine : Machine} {m end : MatchState} {ts : List Trade}
    → ReadsFreed machine
    → Runs machine m end ts
    → IsValid m.book
    → All (IsFair m.taker) ts
unfolding trade_with make_trade
Runs-IsFair reads (stop e) v = tt
Runs-IsFair {machine} {m} reads (round resting t runs) v = (
  (
    (fill_quantity_bounds machine m resting reads v t).0,
    t.agreed,
    if_same (is_buy m.taker) m.taker.id _ _,
    refl,
  ),
  Runs-IsFair reads runs (round-IsValid machine m resting reads v t),
)

-- The match loop returns on a valid book, where a destroyed order reads as it was, and every trade
-- that it made is fair: its quantity is positive, its price is one that a limit taker takes, the
-- taker's side of it is the taker, and it carries the taker's sequence number.
pub match_against-IsFair :
    (machine : Machine) (m : MatchState)
    → ReadsFreed machine
    → IsValid m.book
    → (out : Matched) × (match_against machine m ≡ some out) × All (IsFair m.taker) out.trades
match_against-IsFair machine m reads v =
    let (end, ts, result, runs) = match_against-RunsTo machine m reads v in
    (record { state = end; trades = ts }, result, Runs-IsFair reads runs v)

crossed-best :
    (side : Side) (p : ℤ) (best : ℤ)
    → crosses side p best ≡ false
    → comes_before (opposite_is_bid side) p best ≡ true
unfolding crosses
crossed-best buy p best h = ground arith
crossed-best sell p best h = ground arith

-- Where the match loop is over on a valid book and the taker has some left, the other side has no
-- level at the taker's price.
pub Ended-IsFree :
    (m : MatchState)
    → IsValid m.book
    → Ended m
    → pos 0 <ℤ m.taker.remaining
    → IsFree m.book (opposite_is_bid m.taker.side) m.taker.price
unfolding best_opposite_price
Ended-IsFree m v (exhausted h) left = absurd (omega (arith, h, left))
Ended-IsFree m v (no_level e) left = first-none _ m.taker.price e
Ended-IsFree m v (price_refused limited refused) left =
    elim (Option-cases (levels_of m.book (opposite_is_bid m.taker.side) m.taker.price)) [
      | inl e ↦ e
      | inr (l, e) ↦ absurd (
          false≢true (
            sym (best_price-best m.book (opposite_is_bid m.taker.side) m.taker.price {l = l} v e)
            ∙ crossed-best m.taker.side m.taker.price _ refused))
    ]
