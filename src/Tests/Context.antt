-- ===== src/Tests/Context.antt =====
-- A context pack of eight sections over its token budget.
use ayran.Prelude.{String, ◌≡◌, refl, List, [], ◌∷◌}
use ayran.Context.Budget.{
  trim_to_budget, Classification, Section, Omitted, historical_reference, another_class,
}
use ayran.Context.Budget.Trimmed.{trim_to_budget-IsTrimmed, IsTrimmed}

abbrev as_it_is : String → String
as_it_is s = s

abbrev section : Classification → String → Section
section c title = record { classification = c; title = title; content = "some words of content" }

abbrev pack : List Section
pack =
    section another_class "Active hypothesis"
    ∷ section another_class "scope"
    ∷ section another_class "Lens: coverage"
    ∷ section historical_reference "Mechanism cards"
    ∷ section another_class "Result so far"
    ∷ section another_class "Money map"
    ∷ section another_class "Next action"
    ∷ section another_class "Dead approaches"
    ∷ []

abbrev trimmed : List Section × Omitted
unfolding trim_to_budget
trimmed = trim_to_budget as_it_is ("Lens: coverage" ∷ []) 20 pack

two_dropped : trimmed.1 ≡ record { target = 1; global = 1; learning = 0 }
unfolding trimmed trim_to_budget
two_dropped = refl

trim_to_budget-IsTrimmed_example :
    IsTrimmed as_it_is ("Lens: coverage" ∷ []) 20 pack 0 trimmed.0 trimmed.1
unfolding trimmed
trim_to_budget-IsTrimmed_example = trim_to_budget-IsTrimmed as_it_is ("Lens: coverage" ∷ []) 20 pack
