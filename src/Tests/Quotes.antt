-- ===== src/Tests/Quotes.antt =====
-- The market data of an engine with one offer.
use trader_two.Prelude.{ℕ, true, false, ◌≡◌, refl, some, none, [], ◌∷◌, take, elem}
use trader_two.Prelude.Map.{find}
use trader_two.Registry.{MatchingEngine, book}
use trader_two.MarketData.{
  MarketDataPublisher, notify_tob, top_of_book, recent_events, blank_event, event_ring_capacity,
  Event,
}
use trader_two.MarketData.Recent.{told, recent_events-last}
use trader_two.MarketData.Subscribers.{IsOnce}
use trader_two.MarketData.Quotes.{Quotes, notify_tob-Quotes}
use trader_two.Tests.Books.{one_offer, one_offer-IsValid}

-- An engine whose only book has the offer.
abbrev quoted : MatchingEngine
quoted = record {
  books = (1, one_offer) ∷ [];
  descriptors = [];
  risk_gate = none;
  next_sequence = 2;
}

-- Two listeners.
abbrev heard : MarketDataPublisher
heard = record {
  snapshots = [];
  ring = record { slots = λ i. blank_event; head = 0; count = 0 };
  listeners = 3 ∷ 5 ∷ [];
}

heard-IsOnce : IsOnce heard
unfolding elem
heard-IsOnce = (refl, (refl, tt))

abbrev second : Event
second = record blank_event { sequence = 2 }

recent_events-last_example :
    recent_events 1 (told (second ∷ blank_event ∷ []))
    ≡ take 1 (take event_ring_capacity (second ∷ blank_event ∷ []))
recent_events-last_example = recent_events-last 1 (second ∷ blank_event ∷ [])

quoted-book : book 1 quoted ≡ some one_offer
unfolding book find
quoted-book = refl

notify_tob-Quotes_example :
    let t = top_of_book 1 quoted (notify_tob 1 quoted heard).0 in
    Quotes one_offer true t.has_bid t.bid_price t.bid_qty
    × Quotes one_offer false t.has_ask t.ask_price t.ask_qty
    × ((j : ℕ)
        → ¬ (j ≡ 1)
        → top_of_book j quoted (notify_tob 1 quoted heard).0 ≡ top_of_book j quoted heard)
notify_tob-Quotes_example = notify_tob-Quotes 1 quoted heard one_offer quoted-book one_offer-IsValid
