-- ===== src/MarketData/Subscribers.antt =====
-- The listeners of src/market_data/publisher.cpp (`subscribe`, `unsubscribe`).
use trader_two.Prelude.{
  ℕ, ◌==◌, true, not, ◌||◌, ◌&&◌, ◌≡◌, refl, arith, sym, ap, ◌∙◌, Bool-cases, inl, inr, elem,
  unlink, Distinct, append_one-Distinct, unlink-Distinct, elem-append_one, elem-unlink_ne,
  elem-unlink_self, ==_iff,
}
use trader_two.MarketData.{MarketDataPublisher, subscribe, unsubscribe}

-- No listener is registered twice.
abbrev pub IsOnce : MarketDataPublisher → Type 0
IsOnce p = Distinct p.listeners

-- Subscribing, where every listener is registered no more than once, keeps that so, and registers
-- the one that subscribes and nobody else.
pub subscribe-IsOnce :
    (l : ℕ) (p : MarketDataPublisher)
    → IsOnce p
    → IsOnce (subscribe l p)
      × ((j : ℕ) → elem j (subscribe l p).listeners ≡ ((l == j) || elem j p.listeners))
unfolding subscribe
subscribe-IsOnce l p once = elim (Bool-cases (elem l p.listeners)) [
  | inl there ↦ rw there (once, λ j. already j there)
  | inr new ↦
      rw new (append_one-Distinct l p.listeners once new, λ j. elem-append_one j l p.listeners)
]
  where
    already :
        (j : ℕ) → elem l p.listeners ≡ true → elem j p.listeners ≡ ((l == j) || elem j p.listeners)
    already j there = elim (Bool-cases (l == j)) [
      | inl same ↦ rw same (ap (λ k. elem k p.listeners) (sym ((==_iff l j).0 same)) ∙ there)
      | inr apart ↦ rw apart refl
    ]

-- Unsubscribing, where every listener is registered no more than once, keeps that so, and removes
-- the one that unsubscribes and nobody else.
pub unsubscribe-IsOnce :
    (l : ℕ) (p : MarketDataPublisher)
    → IsOnce p
    → IsOnce (unsubscribe l p)
      × ((j : ℕ) → elem j (unsubscribe l p).listeners ≡ (not (l == j) && elem j p.listeners))
unfolding unsubscribe
unsubscribe-IsOnce l p once = (
  unlink-Distinct l p.listeners once,
  λ j. elim (Bool-cases (l == j)) [
    | inl same ↦ rw same (
        ap (λ k. elem k (unlink l p.listeners)) (sym ((==_iff l j).0 same))
        ∙ elem-unlink_self l p.listeners once)
    | inr apart ↦ rw apart (elem-unlink_ne j l p.listeners (ground (arith, apart)))
  ],
)
