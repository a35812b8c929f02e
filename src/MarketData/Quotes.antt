-- ===== src/MarketData/Quotes.antt =====
-- The top of book of src/market_data/publisher.cpp (`snapshot_of`, `notify_tob`, `top_of_book`).
use trader_two.Prelude.{
  sym, ap, ◌∙◌, subst, ==_iff, arith, ℕ, ℤ, pos, ◌==◌, Bool, true, false, ◌≡◌, refl, some, none,
  Bool-cases, Option-cases, inl, inr, ◌⊎◌, if◌then◌else◌,
}
use trader_two.Prelude.Map.{find-assign}
use trader_two.Level.{Level}
use trader_two.OrderBook.Ladder.{comes_before}
use trader_two.OrderBook.Coherent.{levels_of, IsValid}
use trader_two.OrderBook.Best.{first_level-found, first-none, first-best}
use trader_two.OrderBook.{OrderBook, ladder}
use trader_two.OrderBook.Queries.{first_level, top}
use trader_two.Registry.{MatchingEngine, book}
use trader_two.MarketData.{MarketDataPublisher, snapshot_of, notify_tob, top_of_book}

-- What is quoted of one side of a book: nothing, with zeros, where the side has no level; otherwise the
-- price of a level and the total there, where no level of the side comes before it.
abbrev pub Quotes : OrderBook → Bool → Bool → ℤ → ℤ → Type 0
Quotes b s has price qty =
    ((has ≡ false) × (price ≡ pos 0) × (qty ≡ pos 0) × ((q : ℤ) → levels_of b s q ≡ none))
    ⊎ ((has ≡ true)
        × ((l : Level) × (levels_of b s price ≡ some l) × (qty ≡ l.total_quantity))
        × ((q : ℤ) (m : Level) → levels_of b s q ≡ some m → comes_before s q price ≡ false))

top-Quotes :
    (s : Bool) (b : OrderBook)
    → IsValid b
    → Quotes b s
        (top s b).valid
        (if (top s b).valid then (top s b).price else pos 0)
        (if (top s b).valid then (top s b).quantity else pos 0)
unfolding top
top-Quotes s b v = elim (Option-cases (first_level (ladder s b))) [
  | inl e ↦ rw (e, top) (inl (refl, refl, refl, λ q. first-none (ladder s b) q e))
  | inr (l, e) ↦
      rw (e, top)
        (inr (
          refl,
          (l, first_level-found (ladder s b) e, refl),
          λ q m h. first-best s (ladder s b) q {l = m} {m = l} (v.sorted s) e h,
        ))
]

-- After the publisher tells the top of the book of an instrument that the engine has, the top of
-- book that it reads for this instrument is the snapshot of that book, and that of every other
-- instrument is the one it read before.
notify_tob-read :
    (id j : ℕ) (engine : MatchingEngine) (p : MarketDataPublisher) {b : OrderBook}
    → book id engine ≡ some b
    → top_of_book j engine (notify_tob id engine p).0
      ≡ (if id == j then snapshot_of (some b) else top_of_book j engine p)
unfolding notify_tob top_of_book
notify_tob-read id j engine p {b} h = elim (Bool-cases (id == j)) [
  | inl same ↦
      rw (h, notify_tob, top_of_book, find-assign j id (snapshot_of (some b)) p.snapshots, same)
        refl
  | inr apart ↦
      rw (h, notify_tob, top_of_book, find-assign j id (snapshot_of (some b)) p.snapshots, apart)
        refl
]

other : (id j : ℕ) → ¬ (j ≡ id) → (id == j) ≡ false
other id j apart = ground (arith, apart)

-- After the publisher tells the top of the book of an instrument that the engine has, on a valid
-- book, the top of book that it reads for this instrument says of the bids and of the asks that
-- there are none, with zeros, where the side has no level, and otherwise gives the price of a level
-- that no level of the side comes before and the total quantity there; for every other instrument
-- it reads what it read before.
pub notify_tob-Quotes :
    (id : ℕ) (engine : MatchingEngine) (p : MarketDataPublisher) (b : OrderBook)
    → book id engine ≡ some b
    → IsValid b
    → let t = top_of_book id engine (notify_tob id engine p).0 in
      Quotes b true t.has_bid t.bid_price t.bid_qty
      × Quotes b false t.has_ask t.ask_price t.ask_qty
      × ((j : ℕ)
          → ¬ (j ≡ id)
          → top_of_book j engine (notify_tob id engine p).0 ≡ top_of_book j engine p)
unfolding snapshot_of
notify_tob-Quotes id engine p b h v =
    let told : top_of_book id engine (notify_tob id engine p).0 ≡ snapshot_of (some b) =
      notify_tob-read id id engine p h
      ∙ ap (λ (t : Bool). if t then snapshot_of (some b) else top_of_book id engine p)
          ((==_iff id id).1 refl) in
    (
      subst (λ t. Quotes b true t.has_bid t.bid_price t.bid_qty) (sym told) (top-Quotes true b v),
      subst (λ t. Quotes b false t.has_ask t.ask_price t.ask_qty) (sym told) (top-Quotes false b v),
      λ j apart. notify_tob-read id j engine p h ∙ rw (other id j apart) refl,
    )
