-- ===== src/Registry/Validation.antt =====
-- What `validate_order` of src/matching/matching_engine.cpp accepts.
use mathlib.Core.Bool.{false≢true}
use text.Mathlib.Text.{◌==◌ as str_eq}
use trader_two.Prelude.{
  ℕ, ℤ, pos, ◌<ℤ◌, ltb_ℤ, eq_ℤ, eq_ℤ_iff, true, false, ◌≡◌, ◌↔◌, refl, some, String, arith, sym, ap,
  ◌∙◌, Bool-cases, Option-cases, inl, inr, ◌⊎◌, if◌then◌else◌, some_inj, none_ne_some, subst,
}
use trader_two.Prelude.Map.{find}
use trader_two.Types.{price_is_valid, quantity_is_valid}
use trader_two.Instrument.{InstrumentDescriptor, is_valid_tick, is_valid_lot, ◌%ℤ◌}
use trader_two.Registry.{MatchingEngine, descriptor, validate_order, price_problem, lot_problem}

-- A price that stands on the tick, and a quantity that stands on the lot.
pub record OnTick (desc : InstrumentDescriptor) (price : ℤ) : Type 0 where
  pub tick : is_valid_tick desc.tick_size ≡ true
  pub valid : price_is_valid price ≡ true
  pub multiple : price %ℤ desc.tick_size ≡ pos 0

pub record OnLot (desc : InstrumentDescriptor) (qty : ℤ) : Type 0 where
  pub lot : is_valid_lot desc.lot_size ≡ true
  pub multiple : qty %ℤ desc.lot_size ≡ pos 0

-- A text is not empty.
wrong : (s : String) → str_eq s "" ≡ false → ¬ (s ≡ "")
wrong s h e = false≢true (sym h ∙ ap (λ t. str_eq t "") e)

price_problem-cases :
    (desc : InstrumentDescriptor) (price : ℤ)
    → ((price_problem desc price ≡ "") × OnTick desc price)
      ⊎ ((str_eq (price_problem desc price) "" ≡ false) × ¬ OnTick desc price)
unfolding price_problem
price_problem-cases desc price = elim (Bool-cases (is_valid_tick desc.tick_size)) [
  | inr e ↦ inr (rw e refl, λ k. false≢true (sym e ∙ k.tick))
  | inl tick ↦ elim (Bool-cases (price_is_valid price)) [
    | inr e ↦ inr (rw (tick, e) refl, λ k. false≢true (sym e ∙ k.valid))
    | inl valid ↦ elim (Bool-cases (eq_ℤ (price %ℤ desc.tick_size) (pos 0))) [
      | inr e ↦
          inr (rw (tick, valid, e) refl, λ k. false≢true (sym e ∙ (eq_ℤ_iff _ _).1 k.multiple))
      | inl on ↦ inl (
        rw (tick, valid, on) refl,
        record { tick = tick; valid = valid; multiple = (eq_ℤ_iff _ _).0 on },
      )
    ]
  ]
]

-- Only a price above zero is checked.
abbrev problem : InstrumentDescriptor → ℤ → String
problem desc price = if ltb_ℤ (pos 0) price then price_problem desc price else ""

problem-cases :
    (desc : InstrumentDescriptor) (price : ℤ)
    → ((problem desc price ≡ "") × (pos 0 <ℤ price → OnTick desc price))
      ⊎ ((str_eq (problem desc price) "" ≡ false) × ¬ (pos 0 <ℤ price → OnTick desc price))
problem-cases desc price = elim (Bool-cases (ltb_ℤ (pos 0) price)) [
  | inr e ↦ inl (rw e refl, λ k. absurd (ground (arith, e, k)))
  | inl above ↦ elim (price_problem-cases desc price) [
    | inl (e, on) ↦ inl (rw above e, λ k. on)
    | inr (e, off) ↦ inr (rw above e, λ k. off (k (ground (arith, above))))
  ]
]

lot_problem-OnLot :
    (desc : InstrumentDescriptor) (qty : ℤ) → (lot_problem desc qty ≡ "") ↔ OnLot desc qty
unfolding lot_problem
lot_problem-OnLot desc qty = elim (Bool-cases (is_valid_lot desc.lot_size)) [
  | inr e ↦ (λ h. absurd (wrong _ refl (rw e at h)), λ k. absurd (false≢true (sym e ∙ k.lot)))
  | inl lot ↦ elim (Bool-cases (eq_ℤ (qty %ℤ desc.lot_size) (pos 0))) [
    | inr e ↦ (
      λ h. absurd (wrong _ refl (rw (lot, e) at h)),
      λ k. absurd (false≢true (sym e ∙ (eq_ℤ_iff _ _).1 k.multiple)),
    )
    | inl on ↦ (λ h. record { lot = lot; multiple = (eq_ℤ_iff _ _).0 on }, λ k. rw (lot, on) refl)
  ]
]

-- What `validate_order` asks of an order.
pub record Acceptable (e : MatchingEngine) (id : ℕ) (price qty : ℤ) : Type 0 where
  pub sized : quantity_is_valid qty ≡ true
  pub desc : InstrumentDescriptor
  pub registered : find id e.descriptors ≡ some desc
  pub enabled : desc.enabled ≡ true
  pub on_tick : pos 0 <ℤ price → OnTick desc price
  pub on_lot : OnLot desc qty

module _ (e : MatchingEngine) (id : ℕ) (price qty : ℤ) where
  Valid : Type 0
  Valid = (validate_order id price qty e ≡ "") ↔ Acceptable e id price qty

  of_known :
      (desc : InstrumentDescriptor)
      → quantity_is_valid qty ≡ true
      → find id e.descriptors ≡ some desc
      → desc.enabled ≡ true
      → Valid
  unfolding validate_order descriptor Valid price_problem lot_problem
  of_known desc sized found enabled = elim (problem-cases desc price) [
    | inr (bad, off) ↦ (
      λ h. absurd (wrong (problem desc price) bad (rw (sized, found, enabled, bad) at h)),
      λ k.
          let same : k.desc ≡ desc = some_inj (sym k.registered ∙ found) in
          absurd (off (λ above. subst (λ d. OnTick d price) same (k.on_tick above))),
    )
    | inl (good, on) ↦ (
      λ h. record {
        sized = sized;
        desc = desc;
        registered = found;
        enabled = enabled;
        on_tick = on;
        on_lot = (lot_problem-OnLot desc qty).0 (rw (sized, found, enabled, good) at h);
      },
      λ k.
          let same : k.desc ≡ desc = some_inj (sym k.registered ∙ found) in
          rw (sized, found, enabled, good)
            ((lot_problem-OnLot desc qty).1 (subst (λ d. OnLot d qty) same k.on_lot)),
    )
  ]

  -- The validation of an order gives no reason against it exactly if the quantity is valid, the
  -- instrument is registered and enabled, its lot size is valid and divides the quantity, and, for
  -- a price above zero, its tick size and the price are valid and the tick size divides the price.
  pub validate_order-Acceptable : (validate_order id price qty e ≡ "") ↔ Acceptable e id price qty
  unfolding validate_order descriptor Valid
  validate_order-Acceptable = elim (Bool-cases (quantity_is_valid qty)) [
    | inr z ↦ (λ h. absurd (wrong _ refl (rw z at h)), λ k. absurd (false≢true (sym z ∙ k.sized)))
    | inl sized ↦ elim (Option-cases (find id e.descriptors)) [
      | inl z ↦ (
        λ h. absurd (wrong "instrument not registered" refl (rw (sized, z) at h)),
        λ k. absurd (none_ne_some (sym z ∙ k.registered)),
      )
      | inr (desc, found) ↦ elim (Bool-cases desc.enabled) [
        | inl enabled ↦ of_known desc sized found enabled
        | inr z ↦ (
          λ h. absurd (wrong "instrument disabled" refl (rw (sized, found, z) at h)),
          λ k.
              let same : k.desc ≡ desc = some_inj (sym k.registered ∙ found) in
              absurd (false≢true (sym z ∙ ap (λ d. d.enabled) (sym same) ∙ k.enabled)),
        )
      ]
    ]
  ]
