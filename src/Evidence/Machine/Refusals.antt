-- ===== src/Evidence/Machine/Refusals.antt =====
-- Which error `require` of state_machine.py raises.
use ayran.Prelude.{
  String, ◌≡◌, inl, inr, Bool, true, false, not, ◌&&◌, ◌||◌, Option, none, some, arith,
  if◌then◌else◌, Bool-cases, Option-cases, is_empty,
}
use ayran.Evidence.Types.{same, member, terminal, ceiling_blocked_targets, State, lead, known}
use ayran.Evidence.Payload.{Payload}
use ayran.Evidence.Actors.{actor_is_authorized}
use ayran.Evidence.Edges.{is_demotion, is_legal_edge, missing_fields}
use ayran.Evidence.Machine.{
  or_lead, ceiling_blocked, evaluate_known, evaluate, says_actor_kind, says_ceiling, refusal_code,
  granted, raised, require, Hypothesis, Reason, Code, Outcome, missing_evidence, unauthorized_actor,
  evidence_ceiling,
}
use ayran.Evidence.Machine.Accepts.{terminal_moves_down, edge-same}

-- The code that a refused move along a legal edge deserves: the actor is asked first, then the
-- ceiling, then the fields.
abbrev pub deserved : Bool → Option Reason → Bool → Option Code
deserved false ceiling full = some unauthorized_actor
deserved true (some r) full = some evidence_ceiling
deserved true none false = some missing_evidence
deserved true none true = none

abbrev pub code_of : Outcome → Option Code
code_of (granted d) = none
code_of (raised c d) = some c

ceiling_reason :
    (g c t : State) (r : Reason)
    → ceiling_blocked (known g) (known c) t ≡ some r
    → (says_actor_kind r ≡ false) × (says_ceiling r ≡ true)
unfolding ceiling_blocked says_actor_kind says_ceiling
ceiling_reason g c t r h =
    elim (Bool-cases (member t ceiling_blocked_targets && (same g lead || same c lead))) [
      | inl low ↦ ground arith
      | inr high ↦ ground arith
    ]

known_codes :
    (g c t : State) (actor : String) (p : Payload) (cause : Option String)
    → same c t ≡ false
    → member c terminal && not (is_demotion (known c) (known t)) ≡ false
    → is_legal_edge (known c) (known t) ≡ true
    → is_demotion (known c) (known t) ≡ false
    → let d = evaluate_known (known g) c t actor p cause in
      code_of (if d.accepted then granted d else raised (refusal_code d) d)
      ≡ deserved
          (actor_is_authorized actor (known t))
          (ceiling_blocked (known g) (known c) t)
          (is_empty (missing_fields c t p))
unfolding evaluate_known refusal_code
known_codes g c t actor p cause s m e d = elim (Bool-cases (actor_is_authorized actor (known t))) [
  | inl may ↦ elim (Option-cases (ceiling_blocked (known g) (known c) t)) [
    | inl below ↦ ground arith
    | inr (r, over) ↦ ground (arith, ceiling_reason g c t r over)
  ]
  | inr may_not ↦ ground arith
]

-- For a promotion along a legal edge, with a grade that is the name of a state, `require` grants the
-- move exactly when the actor is authorized, the ceiling passes and no field is missing; otherwise
-- its error names the first of the three that fails.
pub require_codes :
    (h : Hypothesis) (g c t : State) (actor : String) (p : Payload) (cause : Option String)
    → or_lead h.status ≡ known c
    → or_lead h.evidence_grade ≡ known g
    → is_legal_edge (known c) (known t) ≡ true
    → is_demotion (known c) (known t) ≡ false
    → code_of (require h (known t) actor p cause)
      ≡ deserved
          (actor_is_authorized actor (known t))
          (ceiling_blocked (known g) (known c) t)
          (is_empty (missing_fields c t p))
unfolding require evaluate
require_codes h g c t actor p cause es eg edge up =
    rw (es, eg)
      (known_codes g c t actor p cause (edge-same c t edge) (terminal_moves_down c t edge) edge up)
