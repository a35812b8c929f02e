-- ===== src/MarketData/Recent.antt =====
-- The ring of recent events of src/market_data/publisher.cpp (`notify_event`, `recent_events`).
use trader_two.Prelude.{
  ℕ, zero, suc, ◌+◌, ◌-◌, ◌%◌, ◌<◌, ◌≤◌, ◌==◌, ltb, ◌≡◌, ◌≢◌, refl, List, [], ◌∷◌, length, take,
  arith, sym, ap, ap₂, ◌∙◌, if◌then◌else◌, Bool-cases, inl, inr, ◌⊎◌, ==_iff,
}
use trader_two.MarketData.{
  Event, EventRing, MarketDataPublisher, event_ring_capacity, new_publisher, push_event,
  notify_event, walk_back, recent_events,
}

-- Where the event stands that came `i` events before the last.
abbrev back : EventRing → ℕ → ℕ
back r i = (r.head + event_ring_capacity - 1 - i) % event_ring_capacity

-- The ring holds these events, the newest first, as the ones from the `i`th before the last.
abbrev Holds : EventRing → ℕ → List Event → Type 0
Holds r i [] = Unit {0}
Holds r i (e ∷ h) = (i < event_ring_capacity → r.slots (back r i) ≡ e) × Holds r (suc i) h

-- The ring after all these events.
record Recorded (r : EventRing) (h : List Event) : Type 0 where
  head_small : r.head < event_ring_capacity
  counted : r.count ≡ (if ltb (length h) event_ring_capacity then length h else event_ring_capacity)
  held : Holds r 0 h

moved :
    (head i : ℕ)
    → head < 4096
    → suc i < 4096
    → ((head + 1) % 4096 + 4096 - 1 - suc i) % 4096 ≡ (head + 4096 - 1 - i) % 4096
moved head i small less = omega arith

not_head : (head i : ℕ) → head < 4096 → suc i < 4096 → (head + 4096 - 1 - i) % 4096 ≢ head
not_head head i small less e = omega arith

newest : (head : ℕ) → head < 4096 → ((head + 1) % 4096 + 4096 - 1 - 0) % 4096 ≡ head
newest head small = omega arith

-- A write elsewhere keeps a slot.
kept_slot :
    (slots : ℕ → Event) (e : Event) (head j k : ℕ)
    → j ≡ k
    → k ≢ head
    → (if j == head then e else slots j) ≡ slots k
kept_slot slots e head j k same apart = elim (Bool-cases (j == head)) [
  | inl hit ↦ absurd (apart (sym same ∙ (==_iff j head).0 hit))
  | inr miss ↦ rw miss (ap slots same)
]

Holds-push :
    (e : Event) (r : EventRing) (i : ℕ) (h : List Event)
    → r.head < event_ring_capacity
    → Holds r i h
    → Holds (push_event e r) (suc i) h
unfolding push_event
Holds-push e r i [] small held = tt
Holds-push e r i (x ∷ h) small held = (
  λ less.
      kept_slot r.slots e r.head _ _ (moved r.head i small less) (not_head r.head i small less)
      ∙ held.0 (omega (arith, less)),
  Holds-push e r (suc i) h small held.1,
)

push_event-Recorded :
    (e : Event) (r : EventRing) (h : List Event) → Recorded r h → Recorded (push_event e r) (e ∷ h)
unfolding push_event
push_event-Recorded e r h c = record {
  head_small = omega arith;
  counted = ground (arith, c.counted);
  held = (λ less. written (newest r.head c.head_small), Holds-push e r 0 h c.head_small c.held);
}
  where
    written : {j : ℕ} → j ≡ r.head → (if j == r.head then e else r.slots j) ≡ e
    written {j} same = rw ((==_iff j r.head).1 same) refl

walk_back-take :
    (r : EventRing) (i k : ℕ) (h : List Event)
    → Holds r i h
    → k ≤ length h
    → i + k ≤ event_ring_capacity
    → walk_back i k r ≡ take k h
unfolding walk_back
walk_back-take r i zero h held long within = refl
walk_back-take r i (suc k) [] held long within = absurd (omega (arith, long))
walk_back-take r i (suc k) (e ∷ h) held long within =
    ap₂ ◌∷◌ (held.0 (omega (arith, within)))
      (walk_back-take r (suc i) k h held.1 (omega (arith, long)) (omega (arith, within)))

take-all : (k : ℕ) (h : List Event) → length h ≤ k → take k h ≡ h
take-all zero [] long = refl
take-all (suc k) [] long = refl
take-all zero (e ∷ h) long = absurd (omega (arith, long))
take-all (suc k) (e ∷ h) long = ap (λ t. e ∷ t) (take-all k h (omega (arith, long)))

take-same :
    (j k : ℕ) (h : List Event) → (j ≡ k) ⊎ ((length h ≤ j) × (length h ≤ k)) → take j h ≡ take k h
take-same j k h (inl e) = ap (λ n. take n h) e
take-same j k h (inr (a, b)) = take-all j h a ∙ sym (take-all k h b)

abbrev least : ℕ → ℕ → ℕ
least n m = if ltb n m then n else m

least-zero : (m : ℕ) → least 0 m ≡ 0
least-zero m = ground arith

least-zero_right : (n : ℕ) → least n 0 ≡ 0
least-zero_right n = ground arith

least-suc : (n m : ℕ) → least (suc n) (suc m) ≡ suc (least n m)
least-suc n m = ground arith

take-take : (n m : ℕ) (h : List Event) → take n (take m h) ≡ take (least n m) h
take-take zero m h = ap (λ k. take k h) (sym (least-zero m))
take-take (suc n) zero h = ap (λ k. take k h) (sym (least-zero_right (suc n)))
take-take (suc n) (suc m) [] = sym (ap (λ k. take {A = Event} k []) (least-suc n m))
take-take (suc n) (suc m) (e ∷ h) =
    ap (λ t. e ∷ t) (take-take n m h) ∙ ap (λ k. take k (e ∷ h)) (sym (least-suc n m))

-- The publisher that was told of these events, the newest first.
abbrev pub told : List Event → MarketDataPublisher
told [] = new_publisher
told (e ∷ h) = (notify_event e (told h)).0

told-Recorded : (h : List Event) → Recorded (told h).ring h
unfolding new_publisher notify_event
told-Recorded [] = record { head_small = omega arith; counted = refl; held = tt }
told-Recorded (e ∷ h) = push_event-Recorded e (told h).ring h (told-Recorded h)

-- The recent events of a publisher that was told of events, of whatever instruments, are the last
-- of them, newest first: as many as are asked for, and no more than the capacity of the one ring
-- that all instruments share.
pub recent_events-last :
    (max_n : ℕ) (h : List Event)
    → recent_events max_n (told h) ≡ take max_n (take event_ring_capacity h)
unfolding recent_events
recent_events-last max_n h =
    let c = told-Recorded h in
    let n = if ltb max_n (told h).ring.count then max_n else (told h).ring.count in
    walk_back-take (told h).ring 0 n h c.held (ground (arith, c.counted))
      (ground (arith, c.counted))
    ∙ take-same n (if ltb max_n event_ring_capacity then max_n else event_ring_capacity) h
        (ground (arith, c.counted))
    ∙ sym (take-take max_n event_ring_capacity h)
