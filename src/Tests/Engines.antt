-- ===== src/Tests/Engines.antt =====
-- An engine that two orders reach.
use trader_two.Prelude.{pos, ◌≡◌, refl, some, ◌↔◌}
use trader_two.Registry.{MatchingEngine, new_engine, register_id, validate_order}
use trader_two.Registry.Validation.{Acceptable, validate_order-Acceptable}
use trader_two.Engine.{Outcome, submit, cancel, with_id}
use trader_two.Engine.Validity.{AllValid}
use trader_two.Engine.Submits.{Submits, submit-Submits}
use trader_two.Engine.Accounts.{Accounted, submit-Accounted}
use trader_two.Engine.Operations.{
  Reachable, started, registered_id, submitted, cancelled, Reachable-AllValid,
}
use trader_two.Tests.Books.{offer}
use trader_two.Tests.Matches.{machine, machine-ReadsFreed, bid}

abbrev pub listed : MatchingEngine
listed = register_id 1 new_engine

pub listed-Reachable : Reachable machine listed
listed-Reachable = registered_id 1 started

pub listed-AllValid : AllValid listed
listed-AllValid = Reachable-AllValid machine listed machine-ReadsFreed listed-Reachable

-- What the offer leaves.
offered :
    (out : Outcome) × (submit machine (pos 1) (some offer) listed ≡ some out)
    × Submits machine (with_id listed.next_sequence offer) listed out
offered = submit-Submits machine (pos 1) offer listed machine-ReadsFreed listed-AllValid

offered-Reachable : Reachable machine offered.0.engine
offered-Reachable = submitted {e = listed} (pos 1) offer offered.0 refl offered.1 listed-Reachable

offered-AllValid : AllValid offered.0.engine
offered-AllValid = Reachable-AllValid machine offered.0.engine machine-ReadsFreed offered-Reachable

Reachable-AllValid_example : AllValid (cancel 1 1 offered.0.engine).0
Reachable-AllValid_example =
    Reachable-AllValid machine (cancel 1 1 offered.0.engine).0 machine-ReadsFreed
      (cancelled 1 1 offered-Reachable)

submit-Submits_example :
    (out : Outcome) × (submit machine (pos 2) (some bid) offered.0.engine ≡ some out)
    × Submits machine (with_id offered.0.engine.next_sequence bid) offered.0.engine out
submit-Submits_example =
    submit-Submits machine (pos 2) bid offered.0.engine machine-ReadsFreed offered-AllValid

submit-Accounted_example :
    (out : Outcome) × (submit machine (pos 2) (some bid) offered.0.engine ≡ some out)
    × Accounted (with_id offered.0.engine.next_sequence bid) out
submit-Accounted_example =
    submit-Accounted machine (pos 2) bid offered.0.engine machine-ReadsFreed offered-AllValid refl

validate_order-Acceptable_example :
    (validate_order 1 (pos 100) (pos 5) listed ≡ "") ↔ Acceptable listed 1 (pos 100) (pos 5)
validate_order-Acceptable_example = validate_order-Acceptable listed 1 (pos 100) (pos 5)
