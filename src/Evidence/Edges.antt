-- ===== src/Evidence/Edges.antt =====
-- skills/ayran/src/ayran/evidence/state_machine.py, lines 27-108: the legal edges, the ladder, and
-- the fields that an edge requires.
pub mod Required
use ayran.Prelude.{
  ℕ, suc, Bool, true, false, not, ◌&&◌, ◌||◌, Option, none, some, List, [], ◌∷◌, ◌++◌, keep,
  is_empty, ltb, if◌then◌else◌, String,
}
use ayran.Prelude.Text.{is_blank, elem}
use ayran.Evidence.Types.{
  State, lead, supported, poc_worthy, observed, defect_pinned, validated, falsified,
  needs_missing_fact, needs_reformulation, parked, duplicate_known_issue, reported, Status, known,
  unknown, same, member, ladder,
}
use ayran.Evidence.Payload.{
  null, bool, num, str, arr, obj, nil, cons, end, field, Payload, get, is_true, as_str_list,
}

unfoldable pub legal : State → List State
legal lead =
    supported ∷ falsified ∷ needs_missing_fact ∷ needs_reformulation ∷ parked
    ∷ duplicate_known_issue ∷ []
legal supported = poc_worthy ∷ falsified ∷ needs_missing_fact ∷ needs_reformulation ∷ []
legal poc_worthy = observed ∷ needs_reformulation ∷ parked ∷ []
legal observed = defect_pinned ∷ needs_reformulation ∷ falsified ∷ []
legal defect_pinned = validated ∷ duplicate_known_issue ∷ []
legal validated = reported ∷ []
legal _ = []

unfoldable pub required_fields : State → State → List String
required_fields lead supported = "path" ∷ "invariant" ∷ "source_span" ∷ []
required_fields supported poc_worthy = "gate_a_verdict_id" ∷ "experiment" ∷ []
required_fields poc_worthy observed = "reproduction_id" ∷ []
required_fields observed defect_pinned = "negative_control_ids" ∷ "fix_evidence_ids" ∷ []
required_fields defect_pinned validated =
    "skeptic_id" ∷ "scope_id" ∷ "impact_id" ∷ "dedup_id" ∷ "severity_id" ∷ []
required_fields validated reported = "report_id" ∷ "linter_pass" ∷ []
required_fields lead falsified = "killed_dimension" ∷ "counterevidence" ∷ []
required_fields supported falsified = "killed_dimension" ∷ "counterevidence" ∷ []
required_fields observed falsified = "killed_dimension" ∷ "counterevidence" ∷ []
required_fields lead needs_missing_fact = "named_fact" ∷ "why_decisive" ∷ []
required_fields supported needs_missing_fact = "named_fact" ∷ "why_decisive" ∷ []
required_fields lead needs_reformulation = "failed_premise" ∷ []
required_fields supported needs_reformulation = "failed_premise" ∷ []
required_fields poc_worthy needs_reformulation = "failed_premise" ∷ []
required_fields observed needs_reformulation = "failed_premise" ∷ []
required_fields lead parked = "reason" ∷ "wake_condition" ∷ []
required_fields poc_worthy parked = "reason" ∷ "wake_condition" ∷ []
required_fields lead duplicate_known_issue = "duplicate_of" ∷ "comparison" ∷ []
required_fields defect_pinned duplicate_known_issue = "duplicate_of" ∷ "comparison" ∷ []
required_fields _ _ = []

abbrev pub index_of : State → List State → Option ℕ
index_of s [] = none
index_of s (t ∷ ts) =
    let rest = index_of s ts in
    if same s t then some 0 else elim rest [ none ↦ none | some i ↦ some (suc i) ]

-- The code's -1 is `none`.
unfoldable pub ladder_index : Status → Option ℕ
unfolding same
ladder_index (known s) = index_of s ladder
ladder_index (unknown s) = none

-- `target in TERMINAL - {"reported"}`.
abbrev buried : Status → Bool
buried (known s) = member s (falsified ∷ parked ∷ duplicate_known_issue ∷ [])
buried (unknown s) = false

-- The two positions on the ladder decide, and else the burial of a state on the ladder.
abbrev compare_rungs : Option ℕ → Option ℕ → Bool → Bool
compare_rungs (some c) (some t) dead = ltb t c
compare_rungs (some c) none dead = dead
compare_rungs none t dead = false

unfoldable pub is_demotion : Status → Status → Bool
unfolding ladder_index member
is_demotion current target =
    compare_rungs (ladder_index current) (ladder_index target) (buried target)

-- `target in LEGAL.get(current, frozenset())`.
unfoldable pub is_listed : Status → Status → Bool
unfolding legal member
is_listed (known current) (known target) = member target (legal current)
is_listed _ _ = false

unfoldable pub is_legal_edge : Status → Status → Bool
unfolding is_listed is_demotion
is_legal_edge (known current) (known target) =
    if same current target
    then false
    else (is_listed (known current) (known target) || is_demotion (known current) (known target))
is_legal_edge _ _ = false

unfoldable pub present : Payload → String → Bool
unfolding get is_blank
present p name = elim (get p name) [
  | null ↦ false
  | bool b ↦ b
  | num n ↦ true
  | str s ↦ not (is_blank s)
  | arr vs ↦ elim vs [ nil ↦ false | cons v ws ↦ true ]
  | obj fs ↦ elim fs [ end ↦ false | field k v gs ↦ true ]
]

unfoldable pub absent : Payload → List String → List String
unfolding present
absent p names = keep (λ name. not (present p name)) names

-- The lines on `preconditions_reachable` and on `linter_pass`.
abbrev also_missing : Payload → State → List String → List String
also_missing p supported missing =
    if not (is_true (get p "preconditions_reachable"))
      && is_empty (as_str_list (get p "reachable_preconditions"))
    then missing ++ "reachable_preconditions" ∷ []
    else missing
also_missing p reported missing =
    if not (is_true (get p "linter_pass")) && not (elem "linter_pass" missing)
    then missing ++ "linter_pass" ∷ []
    else missing
also_missing p _ missing = missing

unfoldable pub missing_fields : State → State → Payload → List String
unfolding absent
missing_fields current target p = also_missing p target (absent p (required_fields current target))
