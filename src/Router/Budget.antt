-- ===== src/Router/Budget.antt =====
-- skills/ayran/src/ayran/router/budget.py: `BudgetManager`. Amounts that the code keeps above 0 by
-- `max(0, ...)` are differences of natural numbers, which stop at 0 too.
pub mod Reserve
pub mod Views
use ayran.Prelude.{
  ℕ, zero, suc, ◌+◌, ◌-◌, min, Bool, true, false, not, ◌&&◌, Option, none, some, List, [], ◌∷◌, leb,
  ◌==◌, if◌then◌else◌,
}
use ayran.Prelude.Int.{ℤ, pos, negsuc}
use ayran.Router.Lens.{
  lens_budget, is_first_principles, units_of, set_units, total, no_units, Lens, Units,
  first_principles,
}

abbrev pub tranche_units : ℕ
tranche_units = 100

pub record BudgetManager : Type 0 where
  pub tranche : ℕ
  pub spent_total : ℕ
  pub spent : Units
  pub reserved_first_principles : ℕ
  pub reserve_released : Bool

-- `BudgetManager()`.
unfoldable pub new : BudgetManager
new = record {
  tranche = tranche_units;
  spent_total = 0;
  spent = no_units;
  reserved_first_principles = lens_budget first_principles;
  reserve_released = false;
}

unfoldable pub remaining : BudgetManager → ℕ
remaining b = b.tranche - b.spent_total

unfoldable pub remaining_for : BudgetManager → Lens → ℕ
unfolding remaining
remaining_for b lens =
    let leftover = lens_budget lens - units_of b.spent lens in
    if not (is_first_principles lens) && not b.reserve_released
    then min leftover
        (remaining b - (b.reserved_first_principles - units_of b.spent first_principles))
    else min leftover (remaining b)

unfoldable pub can_spend : BudgetManager → Lens → ℤ → Bool
unfolding remaining_for
can_spend b lens (pos zero) = true
can_spend b lens (pos (suc n)) = leb (suc n) (remaining_for b lens)
can_spend b lens (negsuc n) = false

unfoldable pub spend : BudgetManager → Lens → ℤ → BudgetManager × Bool
unfolding can_spend
spend b lens (negsuc n) = (b, false)
spend b lens (pos zero) = (b, true)
spend b lens (pos (suc n)) = if not (can_spend b lens (pos (suc n))) then (b, false) else (
  record b {
    spent = set_units b.spent lens (units_of b.spent lens + suc n);
    spent_total = b.spent_total + suc n;
  },
  true,
)

unfoldable pub release_reserve : BudgetManager → Bool → BudgetManager
release_reserve b recorded =
    if recorded then record b { reserve_released = true; reserved_first_principles = 0 } else b

-- `from_view`, first on the persisted budget node: `none` is an empty or missing node; a missing number is 0.
pub record BudgetState : Type 0 where
  pub spent : ℕ
  pub tranche : ℕ
  pub reserve_released : Bool

restored : Option BudgetState → BudgetManager
unfolding new
restored none = new
restored (some s) = record new {
  spent_total = s.spent;
  tranche = if s.tranche == 0 then tranche_units else s.tranche;
  reserve_released = s.reserve_released;
  reserved_first_principles = if s.reserve_released then 0 else lens_budget first_principles;
}

-- The drivers' spends by lens come from the persisted `DriverState` nodes.
unfoldable pub from_view : Option BudgetState → Units → BudgetManager
unfolding restored
from_view state drivers =
    let b = restored state in
    record b {
      spent = drivers;
      spent_total = if b.spent_total == 0 then total drivers else b.spent_total;
    }

-- A call that the router makes on the budget.
pub data Call : Type 0 where
  spending : Lens → ℤ → Call
  releasing : Bool → Call

unfoldable pub call : BudgetManager → Call → BudgetManager
call b (spending lens units) = (spend b lens units).0
call b (releasing recorded) = release_reserve b recorded

unfoldable pub calls : BudgetManager → List Call → BudgetManager
calls b [] = b
calls b (c ∷ cs) = calls (call b c) cs
