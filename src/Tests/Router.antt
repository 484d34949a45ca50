-- ===== src/Tests/Router.antt =====
-- The budget and the strike book of skills/ayran/src/ayran/router on a few calls.
use ayran.Prelude.{String, ◌≡◌, Bool, true, List, [], ◌∷◌, leb}
use ayran.Prelude.Text.{elem}
use ayran.Router.Lens.{first_principles, precedent, coverage, specialist}
use ayran.Router.Budget.{new, remaining_for, calls, Call, spending, releasing}
use ayran.Router.Budget.Reserve.{new-IsSolvent, calls-IsSolvent, IsSolvent}
use ayran.Router.Budget.Views.{remaining_from_view, remaining_from_view-eq}
use ayran.Router.Strikes.{book, flags}
use ayran.Router.Strikes.Quarantine.{quarantined_iff}
use ayran.Prelude.Int.{pos, negsuc}

abbrev spending_calls : List Call
spending_calls =
    spending specialist (pos 20)
    ∷ spending precedent (pos 90)
    ∷ spending first_principles (pos 3)
    ∷ spending coverage (negsuc 0)
    ∷ []

abbrev half_released : List Call
half_released = releasing true ∷ spending specialist (pos 20) ∷ []

calls-IsSolvent_example : IsSolvent (calls new half_released)
calls-IsSolvent_example = calls-IsSolvent new half_released new-IsSolvent

remaining_from_view-eq_example :
    remaining_from_view
      (calls new half_released).spent
      (calls new half_released).reserve_released
      specialist
    ≡ remaining_for (calls new half_released) specialist
remaining_from_view-eq_example = remaining_from_view-eq half_released specialist

abbrev four_notes : List (String × Bool)
four_notes = ("a.md", true) ∷ ("b.md", true) ∷ ("a.md", true) ∷ ("a.md", true) ∷ []

quarantined_iff_example :
    elem "a.md" (book four_notes).quarantined ≡ leb 3 (flags "a.md" four_notes)
quarantined_iff_example = quarantined_iff "a.md" four_notes
