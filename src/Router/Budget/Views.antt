-- ===== src/Router/Budget/Views.antt =====
-- The budget as it is stored and read again: `from_view` of budget.py, and `remaining_from_view` of
-- skills/ayran/src/ayran/context/lenses.py, which recomputes the remaining units from the stored
-- spends.
use ayran.Prelude.{ℕ, ◌-◌, min, ◌≡◌, Bool, not, ◌&&◌, some, List, arith, if◌then◌else◌}
use ayran.Router.Lens.{
  lens_budget, is_first_principles, units_of, total, Lens, Units, first_principles,
}
use ayran.Router.Budget.{new, remaining_for, from_view, calls, BudgetManager, BudgetState, Call}
use ayran.Router.Budget.Reserve.{new-IsSolvent, calls-IsSolvent, IsSolvent}

-- `remaining_from_view`, at one lens; the stored flag is `budget_state["reserve_released"]`.
unfoldable pub remaining_from_view : Units → Bool → Lens → ℕ
remaining_from_view spent released lens =
    let leftover_tranche = 100 - total spent in
    let reserved : ℕ =
      if released then 0 else lens_budget first_principles - units_of spent first_principles in
    let cap_left = lens_budget lens - units_of spent lens in
    if not (is_first_principles lens) && not released
    then min cap_left (leftover_tranche - reserved)
    else min cap_left leftover_tranche

-- The budget node that `persist_router_runtime` of router/persist.py stores for a manager.
abbrev pub stored : BudgetManager → BudgetState
stored b = record {
  spent = total b.spent;
  tranche = b.tranche;
  reserve_released = b.reserve_released;
}

read_back : (b : BudgetManager) → IsSolvent b → from_view (some (stored b)) b.spent ≡ b
unfolding from_view
read_back b h = ground arith

-- A manager that a fresh one became by any calls is read back whole from its stored spends, total,
-- tranche and flag.
pub from_view-stored :
    (cs : List Call) → let b = calls new cs in from_view (some (stored b)) b.spent ≡ b
from_view-stored cs = let h = calls-IsSolvent new cs new-IsSolvent in read_back (calls new cs) h

-- The two implementations agree: what `remaining_from_view` computes from the stored spends is what
-- the manager itself says, for every lens.
pub remaining_from_view-eq :
    (cs : List Call) (lens : Lens)
    → let b = calls new cs in
      remaining_from_view b.spent b.reserve_released lens ≡ remaining_for b lens
unfolding remaining_from_view remaining_for
remaining_from_view-eq cs lens = ground (arith, calls-IsSolvent new cs new-IsSolvent)
