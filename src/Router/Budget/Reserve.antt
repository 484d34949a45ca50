-- ===== src/Router/Budget/Reserve.antt =====
-- The units of first_principles are safe from the other lenses of budget.py until the reserve is
-- released.
use ayran.Prelude.{zero, suc, ◌+◌, ◌-◌, ◌≤◌, ◌≡◌, true, false, List, [], ◌∷◌, arith}
use ayran.Prelude.Int.{ℤ, pos, negsuc}
use ayran.Router.Lens.{total, Lens, first_principles}
use ayran.Router.Budget.{
  tranche_units, new, remaining_for, spend, release_reserve, spending, releasing, call, calls,
  BudgetManager, Call,
}

-- The books balance, no lens is above its ceiling, and the protected units are still there.
pub record IsSolvent (b : BudgetManager) : Type 0 where
  pub tranche : b.tranche ≡ tranche_units
  pub balanced : b.spent_total ≡ total b.spent
  pub within : b.spent_total ≤ b.tranche
  pub principles : b.spent.principles ≤ 25
  pub precedents : b.spent.precedents ≤ 15
  pub contradictions : b.spent.contradictions ≤ 15
  pub signals : b.spent.signals ≤ 10
  pub covered : b.spent.covered ≤ 15
  pub specialists : b.spent.specialists ≤ 20
  pub reserved : b.reserve_released ≡ false → b.reserved_first_principles ≡ 25
  pub dropped : b.reserve_released ≡ true → b.reserved_first_principles ≡ 0
  pub protected : b.reserve_released ≡ false → b.spent_total + (25 - b.spent.principles) ≤ b.tranche

pub new-IsSolvent : IsSolvent new
unfolding new
new-IsSolvent = ground arith

spend-IsSolvent :
    (b : BudgetManager) (lens : Lens) (u : ℤ) → IsSolvent b → IsSolvent (spend b lens u).0
unfolding spend
spend-IsSolvent b lens (negsuc n) h = h
spend-IsSolvent b lens (pos zero) h = h
spend-IsSolvent b first_principles (pos (suc n)) h = ground arith
spend-IsSolvent b _ (pos (suc n)) h = ground arith

call-IsSolvent : (b : BudgetManager) (c : Call) → IsSolvent b → IsSolvent (call b c)
unfolding call release_reserve
call-IsSolvent b (spending lens u) h = spend-IsSolvent b lens u h
call-IsSolvent b (releasing r) h = ground arith

-- Whatever the router spends or releases, a solvent manager stays solvent: the total is the sum over
-- the lenses and within the tranche, no lens passes its ceiling, and the reserve of first_principles
-- stands until it is released.
pub calls-IsSolvent : (b : BudgetManager) (cs : List Call) → IsSolvent b → IsSolvent (calls b cs)
unfolding calls
calls-IsSolvent b [] h = h
calls-IsSolvent b (c ∷ cs) h = calls-IsSolvent (call b c) cs (call-IsSolvent b c h)

-- As long as no reserve is released, first_principles can still spend all that it has left of its
-- 25 units, whatever was asked for the other lenses.
pub reserve_protected :
    (cs : List Call)
    → (calls new cs).reserve_released ≡ false
    → remaining_for (calls new cs) first_principles ≡ 25 - (calls new cs).spent.principles
unfolding remaining_for
reserve_protected cs h = ground (arith, calls-IsSolvent new cs new-IsSolvent)
