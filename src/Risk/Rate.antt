-- ===== src/Risk/Rate.antt =====
-- The token bucket of src/risk/risk.cpp (`RateLimitCheck`) and the orders that pass it.
use trader_two.Prelude.{
  ℕ, zero, suc, ◌*◌, ◌^◌, ◌<◌, ==_iff, ltb, ℤ, pos, ◌-ℤ◌, ◌<ℤ◌, ◌≤ℤ◌, ltb_ℤ, eq_ℤ, true, false, not,
  ◌≡◌, refl, List, [], ◌∷◌, length, arith, ◌∙◌, sym, ap, subst, inl, inr, Bool-cases, All, int_laws,
  if◌then◌else◌,
}
use trader_two.Prelude.Map.{assign, find-assign}
use trader_two.Order.{Order}
use trader_two.Double.{one, subtract, double_of-whole, subtract-whole, one_positive}
use trader_two.Risk.{RateLimit, Bucket, bucket_of, refill, check_rate, decision_ok}

-- How many of the requests of an order at these times pass.
abbrev pub admissions : List ℤ → Order → RateLimit → ℕ
admissions [] o r = 0
admissions (now ∷ times) o r =
    let (r', d) = check_rate now o r in
    let rest = admissions times o r' in if decision_ok d then suc rest else rest

-- The lesser of two numbers.
abbrev pub lesser : ℕ → ℕ → ℕ
lesser a b = if ltb a b then a else b

-- The bucket after a request, and the state that holds it.
spent : Bucket → Bucket
spent s = if ltb s.tokens one then s else record s { tokens = subtract s.tokens one }

abbrev asked_at : ℤ → Order → RateLimit → Bucket
asked_at now o r = refill now r (bucket_of o.trader_id r)

abbrev requested : ℤ → Order → RateLimit → RateLimit
requested now o r = record r { states = assign o.trader_id (spent (asked_at now o r)) r.states }

check_rate-cases :
    (now : ℤ) (o : Order) (r : RateLimit)
    → ((check_rate now o r).0 ≡ requested now o r)
      × (decision_ok (check_rate now o r).1 ≡ not (ltb (asked_at now o r).tokens one))
unfolding check_rate spent
check_rate-cases now o r = elim (Bool-cases (ltb (asked_at now o r).tokens one)) [
  | inl e ↦ rw e (refl, refl)
  | inr e ↦ rw e (refl, refl)
]

requested-bucket :
    (now : ℤ) (o : Order) (r : RateLimit)
    → bucket_of o.trader_id (requested now o r) ≡ spent (asked_at now o r)
unfolding bucket_of
requested-bucket now o r =
    rw
      (
        bucket_of,
        find-assign o.trader_id o.trader_id (spent (asked_at now o r)) r.states,
        (==_iff o.trader_id o.trader_id).1 refl,
      )
      refl

-- A bucket at a time, with so many whole tokens.
record Holds (s : Bucket) (t : ℤ) (k : ℕ) : Type 0 where
  tokens : s.tokens ≡ k * one
  last : s.last_ns ≡ t

none_left : (p : ℕ) → 0 < p → ltb (0 * p) p ≡ true
none_left p positive = ground arith

some_left : (k p : ℕ) → ltb (suc k * p) p ≡ false
some_left k p = ground arith

spent-none : (s : Bucket) (t : ℤ) → Holds s t 0 → Holds (spent s) t 0
unfolding spent
spent-none s t h = rw (ap (λ (n : ℕ). ltb n one) h.tokens ∙ none_left one one_positive) h

spent-some : (s : Bucket) (t : ℤ) (k : ℕ) → suc k < 2 ^ 53 → Holds s t (suc k) → Holds (spent s) t k
unfolding spent
spent-some s t k small h = rw (ap (λ (n : ℕ). ltb n one) h.tokens ∙ some_left k one) (record {
  tokens = ap (λ (n : ℕ). subtract n one) h.tokens ∙ subtract-whole k (omega (arith, small));
  last = h.last;
})

no_more : (a b : ℤ) → a ≤ℤ b → ¬ (pos 0 <ℤ a -ℤ b)
no_more a b h later = omega (arith, int_laws, h, later)

not_later : (a b : ℤ) → a ≤ℤ b → ltb_ℤ (pos 0) (a -ℤ b) ≡ false
not_later a b h = elim (Bool-cases (ltb_ℤ (pos 0) (a -ℤ b))) [
  | inr e ↦ e
  | inl e ↦ absurd (no_more a b h (ground (arith, e)))
]

-- No time has passed: nothing is added.
refill-early :
    (now t : ℤ) (r : RateLimit) (s : Bucket)
    → pos 0 <ℤ t
    → now ≤ℤ t
    → s.last_ns ≡ t
    → refill now r s ≡ s
unfolding refill
refill-early now t r s started early last =
    let used : eq_ℤ s.last_ns (pos 0) ≡ false =
      ap (λ z. eq_ℤ z (pos 0)) last ∙ ground (arith, started) in
    let no_time : ltb_ℤ (pos 0) (now -ℤ s.last_ns) ≡ false =
      ap (λ z. ltb_ℤ (pos 0) (now -ℤ z)) last ∙ not_later now t early in
    rw (used, no_time) refl

-- A bucket not used before is filled.
refill-new :
    (now : ℤ) (r : RateLimit) (s : Bucket)
    → s.last_ns ≡ pos 0
    → r.burst < 2 ^ 53
    → Holds (refill now r s) now r.burst
unfolding refill
refill-new now r s unused small =
    rw (ap (λ z. eq_ℤ z (pos 0)) unused)
      (record { tokens = double_of-whole r.burst small; last = refl })

pass_counted : (n k : ℕ) → suc (lesser n k) ≡ lesser (suc n) (suc k)
pass_counted n k = ground arith

none_counted : (n : ℕ) → lesser n 0 ≡ lesser (suc n) 0
none_counted n = ground arith

-- One request, where those after it are known.
admissions-step :
    (now : ℤ) (times : List ℤ) (o : Order) (r : RateLimit) (t : ℤ) (k : ℕ)
    → k < 2 ^ 53
    → Holds (asked_at now o r) t k
    → ((j : ℕ)
        → j < 2 ^ 53
        → Holds (bucket_of o.trader_id (requested now o r)) t j
        → admissions times o (requested now o r) ≡ lesser (length times) j)
    → admissions (now ∷ times) o r ≡ lesser (suc (length times)) k
admissions-step now times o r t zero small h rest =
    let (state, decision) = check_rate-cases now o r in
    let refused : ltb (asked_at now o r).tokens one ≡ true =
      ap (λ (n : ℕ). ltb n one) h.tokens ∙ none_left one one_positive in
    let held =
      subst (λ s. Holds s t 0) (sym (requested-bucket now o r))
        (spent-none (asked_at now o r) t h) in
    rw (decision, state, refused) (rest 0 small held ∙ none_counted (length times))
admissions-step now times o r t (suc k) small h rest =
    let (state, decision) = check_rate-cases now o r in
    let passed : ltb (asked_at now o r).tokens one ≡ false =
      ap (λ (n : ℕ). ltb n one) h.tokens ∙ some_left k one in
    let less : k < 2 ^ 53 = omega (arith, small) in
    let held =
      subst (λ s. Holds s t k) (sym (requested-bucket now o r))
        (spent-some (asked_at now o r) t k small h) in
    rw (decision, state, passed) (ap suc (rest k less held) ∙ pass_counted (length times) k)

admissions-Holds :
    (times : List ℤ) (o : Order) (r : RateLimit) (t : ℤ) (k : ℕ)
    → pos 0 <ℤ t
    → All (λ now. now ≤ℤ t) times
    → k < 2 ^ 53
    → Holds (bucket_of o.trader_id r) t k
    → admissions times o r ≡ lesser (length times) k
admissions-Holds [] o r t k started early small h = ground arith
admissions-Holds (now ∷ times) o r t k started early small h =
    admissions-step now times o r t k small
      (subst (λ s. Holds s t k)
        (sym (refill-early now t r (bucket_of o.trader_id r) started early.0 h.last)) h)
      (λ j less held. admissions-Holds times o (requested now o r) t j started early.1 less held)

-- Of a burst of requests of a trader who has not asked before, at a time above zero and then at
-- times no later, exactly as many pass the rate limit as the burst allows, or all of them if they
-- are fewer, where the burst is below 2 ^ 53: the tokens, a double, are then counted without
-- rounding.
pub admissions-burst :
    (t : ℤ) (times : List ℤ) (o : Order) (r : RateLimit)
    → pos 0 <ℤ t
    → All (λ now. now ≤ℤ t) times
    → (bucket_of o.trader_id r).last_ns ≡ pos 0
    → r.burst < 2 ^ 53
    → admissions (t ∷ times) o r ≡ lesser (suc (length times)) r.burst
admissions-burst t times o r started early unused small =
    admissions-step t times o r t r.burst small
      (refill-new t r (bucket_of o.trader_id r) unused small)
      (λ j less held. admissions-Holds times o (requested t o r) t j started early less held)
