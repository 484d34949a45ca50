-- ===== src/Router/Lens.antt =====
-- The six lenses of skills/ayran/src/ayran/context/lenses.py, lines 16-47, and their budgets.
use ayran.Prelude.{ℕ, ◌+◌, Bool, true, false, List, [], ◌∷◌}

pub data Lens : Type 0 where
  first_principles precedent contradiction tool_signal coverage specialist : Lens

-- `LENS_NAMES`.
abbrev pub lens_names : List Lens
lens_names = first_principles ∷ precedent ∷ contradiction ∷ tool_signal ∷ coverage ∷ specialist ∷ []

-- `LENS_BUDGETS`.
abbrev pub lens_budget : Lens → ℕ
lens_budget first_principles = 25
lens_budget precedent = 15
lens_budget contradiction = 15
lens_budget tool_signal = 10
lens_budget coverage = 15
lens_budget specialist = 20

-- `ALWAYS_ON_LENSES`.
abbrev pub always_on : Lens → Bool
always_on contradiction = true
always_on coverage = true
always_on _ = false

abbrev pub is_first_principles : Lens → Bool
is_first_principles first_principles = true
is_first_principles _ = false

-- Units by lens, for the dictionaries from lens names to numbers; a missing name is 0.
pub record Units : Type 0 where
  pub principles : ℕ
  pub precedents : ℕ
  pub contradictions : ℕ
  pub signals : ℕ
  pub covered : ℕ
  pub specialists : ℕ

-- `spent.get(lens, 0)`.
abbrev pub units_of : Units → Lens → ℕ
units_of u first_principles = u.principles
units_of u precedent = u.precedents
units_of u contradiction = u.contradictions
units_of u tool_signal = u.signals
units_of u coverage = u.covered
units_of u specialist = u.specialists

-- `spent[lens] = n`.
abbrev pub set_units : Units → Lens → ℕ → Units
set_units u first_principles n = record u { principles = n }
set_units u precedent n = record u { precedents = n }
set_units u contradiction n = record u { contradictions = n }
set_units u tool_signal n = record u { signals = n }
set_units u coverage n = record u { covered = n }
set_units u specialist n = record u { specialists = n }

-- `sum(spent.values())`.
abbrev pub total : Units → ℕ
total u = u.principles + u.precedents + u.contradictions + u.signals + u.covered + u.specialists

abbrev pub no_units : Units
no_units = record {
  principles = 0;
  precedents = 0;
  contradictions = 0;
  signals = 0;
  covered = 0;
  specialists = 0;
}
