-- ===== src/Evidence/Types.antt =====
-- skills/ayran/src/ayran/evidence/types.py: the states of a hypothesis, the evidence ladder, the
-- grades, and the decisions and obligations of the gates.
use ayran.Prelude.{◌≡◌, true, refl, ℕ, Bool, Option, none, some, List, [], ◌∷◌, any, ◌==◌}
use ayran.Prelude.{String}

-- `STATES`.
pub data State : Type 0 where
  lead supported poc_worthy observed defect_pinned validated : State
  falsified needs_missing_fact needs_reformulation parked duplicate_known_issue reported : State

-- The text of a status or a grade: a member of `STATES`, or another text.
pub data Status : Type 0 where
  known : State → Status
  unknown : String → Status

-- The position of a state in `STATES`, by which two states are compared.
abbrev pub position : State → ℕ
position lead = 0
position supported = 1
position poc_worthy = 2
position observed = 3
position defect_pinned = 4
position validated = 5
position falsified = 6
position needs_missing_fact = 7
position needs_reformulation = 8
position parked = 9
position duplicate_known_issue = 10
position reported = 11

unfoldable pub same : State → State → Bool
same a b = position a == position b

-- `state in states`.
unfoldable pub member : State → List State → Bool
unfolding same
member s states = any (same s) states

abbrev pub ladder : List State
ladder = lead ∷ supported ∷ poc_worthy ∷ observed ∷ defect_pinned ∷ validated ∷ reported ∷ []

abbrev pub terminal : List State
terminal = falsified ∷ parked ∷ duplicate_known_issue ∷ reported ∷ []

unfoldable pub status_to_grade : State → Option State
status_to_grade lead = some lead
status_to_grade supported = some supported
status_to_grade poc_worthy = some supported
status_to_grade observed = some observed
status_to_grade defect_pinned = some defect_pinned
status_to_grade validated = some validated
status_to_grade reported = some validated
status_to_grade _ = none

abbrev pub ceiling_blocked_targets : List State
ceiling_blocked_targets = poc_worthy ∷ observed ∷ defect_pinned ∷ validated ∷ reported ∷ []

pub same_refl : (s : State) → same s s ≡ true
unfolding same
same_refl lead = refl
same_refl _ = refl
