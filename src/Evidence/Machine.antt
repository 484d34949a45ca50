-- ===== src/Evidence/Machine.antt =====
-- skills/ayran/src/ayran/evidence/state_machine.py: `HypothesisStateMachine` over the edges of
-- `Evidence.Edges`. A reason is kept as the values that its text is made of.
pub mod Accepts
pub mod Climb
pub mod Refusals
use ayran.Prelude.{
  String, Bool, true, false, not, ◌&&◌, ◌||◌, Option, none, some, List, [], ◌∷◌, if◌then◌else◌,
  is_empty,
}
use ayran.Prelude.Text.{has_text, str_eq}
use ayran.Evidence.Types.{
  same, member, terminal, status_to_grade, ceiling_blocked_targets, State, Status, lead, observed,
  defect_pinned, validated, reported, known, unknown,
}
use ayran.Evidence.Payload.{Payload, get, truthy, Value}
use ayran.Evidence.Actors.{actor_is_authorized}
use ayran.Evidence.Edges.{is_demotion, is_listed, is_legal_edge, missing_fields}

-- The fields of a hypothesis that the machine reads; `none` is a missing status or grade.
pub record Hypothesis : Type 0 where
  pub status : Option Status
  pub evidence_grade : Option Status

-- `str(hypothesis.get(...) or "lead")`.
unfoldable pub or_lead : Option Status → Status
or_lead none = known lead
or_lead (some (known s)) = known s
or_lead (some (unknown s)) = if str_eq s "" then known lead else unknown s

pub data Reason : Type 0 where
  unknown_state : String → Reason
  unknown_current : String → Reason
  already_there : Reason
  is_terminal : State → Reason
  illegal_transition : Status → Status → Reason
  cause_required : Reason
  cannot_authorize : String → Reason
  lead_ceiling : State → Reason
  grade_ceiling : Status → Reason
  insufficient : List String → Reason
  given_cause : String → Reason
  given_value : Value → Reason
  legal_transition : Reason

pub data Kind : Type 0 where
  snapshot retraction : Kind

-- `TransitionDecision`.
pub record Decision : Type 0 where
  pub accepted : Bool
  pub current : Status
  pub target : Status
  pub demotion : Bool
  pub missing : List String
  pub reason : Reason
  pub next_grade : Status
  pub kind : Kind

-- `_ceiling_blocked`, on the two texts that it reads.
is_lead : Status → Bool
is_lead (known s) = same s lead
is_lead (unknown s) = false

abbrev evidence_grades : List State
evidence_grades = observed ∷ defect_pinned ∷ validated ∷ []

observed_grade : Status → Bool
observed_grade (known s) = member s evidence_grades
observed_grade (unknown s) = false

unfoldable pub ceiling_blocked : Status → Status → State → Option Reason
unfolding is_lead observed_grade
ceiling_blocked grade status target =
    if member target ceiling_blocked_targets && (is_lead grade || is_lead status)
    then some (lead_ceiling target)
    else if member target (defect_pinned ∷ validated ∷ reported ∷ []) && not (observed_grade grade)
    then some (grade_ceiling grade)
    else none

-- An optional cause counts if it is a text other than the empty one.
abbrev truthy_cause : Option String → Bool
truthy_cause none = false
truthy_cause (some c) = not (str_eq c "")

unfoldable pub has_cause : Option String → Payload → Bool
unfolding truthy get
has_cause cause p = truthy_cause cause || truthy (get p "cause") || truthy (get p "reason")

abbrev or_legal : Value → Value → Reason
or_legal a b =
    if truthy a then given_value a else if truthy b then given_value b else legal_transition

abbrev cause_reason : Option String → Reason → Reason
cause_reason none r = r
cause_reason (some c) r = if str_eq c "" then r else given_cause c

unfoldable pub accepted_reason : Option String → Payload → Reason
unfolding truthy get
accepted_reason cause p = cause_reason cause (or_legal (get p "cause") (get p "reason"))

abbrev pub next_grade_of : Status → Option State → Status
next_grade_of grade none = grade
next_grade_of grade (some g) = known g

abbrev kind_of : Bool → Kind
kind_of demotion = if demotion then retraction else snapshot

-- `TransitionDecision(False, ...)`.
abbrev refuse : Status → Status → Status → Bool → List String → Reason → Kind → Decision
refuse grade c t demotion missing reason kind = record {
  accepted = false;
  current = c;
  target = t;
  demotion = demotion;
  missing = missing;
  reason = reason;
  next_grade = grade;
  kind = kind;
}

-- The last test of `evaluate`: the fields of the evidence.
unfoldable pub finish : Status → State → State → Payload → Option String → Decision
finish grade c t p cause =
    let demotion = is_demotion (known c) (known t) in
    let missing = missing_fields c t p in
    if is_empty missing
    then (record {
      accepted = true;
      current = known c;
      target = known t;
      demotion = demotion;
      missing = [];
      reason = accepted_reason cause p;
      next_grade = next_grade_of grade (status_to_grade t);
      kind = kind_of demotion;
    })
    else refuse grade (known c) (known t) demotion missing (insufficient missing) (kind_of demotion)

-- The ceiling binds only a promotion.
abbrev under_ceiling : Status → State → State → Option Reason → Decision → Decision
under_ceiling grade c t none d = d
under_ceiling grade c t (some r) d =
    if is_demotion (known c) (known t)
    then d
    else refuse grade (known c) (known t) false [] r snapshot

-- The tests of `evaluate` on two known states, in the order of the code.
unfoldable pub evaluate_known : Status → State → State → String → Payload → Option String → Decision
unfolding finish
evaluate_known grade c t actor p cause =
    let demotion = is_demotion (known c) (known t) in
    if same c t
    then refuse grade (known c) (known t) false [] already_there snapshot
    else if member c terminal && not demotion
    then refuse grade (known c) (known t) false [] (is_terminal c) snapshot
    else if not (is_legal_edge (known c) (known t))
    then refuse grade (known c) (known t) demotion [] (illegal_transition (known c) (known t))
        snapshot
    else if demotion && not (is_listed (known c) (known t)) && not (has_cause cause p)
    then refuse grade (known c) (known t) true ("cause" ∷ []) cause_required retraction
    else if not (actor_is_authorized actor (known t))
    then refuse grade (known c) (known t) demotion [] (cannot_authorize actor) (kind_of demotion)
    else under_ceiling grade c t (ceiling_blocked grade (known c) t) (finish grade c t p cause)

-- The two tests against `STATES`, the target first.
abbrev evaluate_states : Status → Status → Status → String → Payload → Option String → Decision
evaluate_states grade c (unknown t) actor p cause =
    refuse grade c (unknown t) (is_demotion c (unknown t)) [] (unknown_state t) snapshot
evaluate_states grade (unknown c) (known t) actor p cause =
    refuse grade (unknown c) (known t) (is_demotion (unknown c) (known t)) [] (unknown_current c)
      snapshot
evaluate_states grade (known c) (known t) actor p cause = evaluate_known grade c t actor p cause

-- `HypothesisStateMachine.evaluate`.
unfoldable pub evaluate : Hypothesis → Status → String → Payload → Option String → Decision
unfolding evaluate_known
evaluate h target actor p cause =
    evaluate_states (or_lead h.evidence_grade) (or_lead h.status) target actor p cause

pub data Code : Type 0 where
  transition_rejected missing_evidence unauthorized_actor evidence_ceiling : Code

-- Whether a status that a reason quotes holds a text.
abbrev quotes : Status → String → Bool
quotes (known s) word = false
quotes (unknown s) word = has_text s word

-- `"actor kind" in decision.reason`.
says_actor_kind : Reason → Bool
says_actor_kind (unknown_state s) = has_text s "actor kind"
says_actor_kind (unknown_current s) = has_text s "actor kind"
says_actor_kind (cannot_authorize k) = true
says_actor_kind (grade_ceiling g) = quotes g "actor kind"
says_actor_kind _ = false

-- `"ceiling" in decision.reason`, where the reason quotes a text as it is; `repr` escapes some characters.
says_ceiling : Reason → Bool
says_ceiling (unknown_state s) = has_text s "ceiling"
says_ceiling (unknown_current s) = has_text s "ceiling"
says_ceiling (lead_ceiling t) = true
says_ceiling (grade_ceiling g) = true
says_ceiling _ = false

unfoldable pub refusal_code : Decision → Code
unfolding says_actor_kind says_ceiling
refusal_code d =
    if not (is_empty d.missing)
    then missing_evidence
    else if says_actor_kind d.reason
    then unauthorized_actor
    else if says_ceiling d.reason
    then evidence_ceiling
    else transition_rejected

pub data Outcome : Type 0 where
  granted : Decision → Outcome
  raised : Code → Decision → Outcome

-- `HypothesisStateMachine.require`.
unfoldable pub require : Hypothesis → Status → String → Payload → Option String → Outcome
require h target actor p cause =
    let d = evaluate h target actor p cause in
    if d.accepted then granted d else raised (refusal_code d) d
