-- ===== src/Tests/Evidence.antt =====
-- The hypothesis machine of skills/ayran/src/ayran/evidence on two moves of one hypothesis.
use ayran.Prelude.{String, ◌≡◌, refl, ◌↔◌, true, none, List, [], ◌∷◌, arith, any, is_empty}
use ayran.Prelude.Text.{is_blank, lookup}
use ayran.Evidence.Payload.{Payload, get, truthy, is_true, Value, bool, str}
use ayran.Evidence.Types.{
  same, member, status_to_grade, State, Status, lead, supported, poc_worthy, observed, reported,
  known,
}
use ayran.Evidence.Actors.{authorized_kinds, actor_is_authorized}
use ayran.Evidence.Edges.{
  legal, required_fields, ladder_index, is_demotion, is_listed, is_legal_edge, present, absent,
  missing_fields,
}
use ayran.Evidence.Edges.Required.{missing_fields-Complete, Complete}
use ayran.Evidence.Machine.{
  or_lead, ceiling_blocked, finish, evaluate_known, evaluate, require, Hypothesis, Reason,
}
use ayran.Evidence.Machine.Accepts.{accepted_iff, Admissible}
use ayran.Evidence.Machine.Refusals.{deserved, code_of, require_codes}
use ayran.Evidence.Trail.{take, clip, apply_local, transition, run, Dossier, Request}
use ayran.Evidence.Trail.Moves.{state_of, grade_of}
use ayran.Evidence.Trail.Ladder.{takes_to, steps, climbed_every_rung}
use ayran.Evidence.Trail.Ceiling.{run-Matches, ceiling_never_binds, Matches}

abbrev new_lead : Hypothesis
new_lead = record { status = none; evidence_grade = none }

abbrev support_evidence : Payload
support_evidence =
    ("path", str "withdraw re-enters")
    ∷ ("invariant", str "shares match assets")
    ∷ ("source_span", str "Vault.sol:40")
    ∷ ("preconditions_reachable", bool true)
    ∷ []

abbrev gate_evidence : Payload
gate_evidence = ("gate_a_verdict_id", str "ver_1") ∷ ("experiment", str "replay") ∷ []

accepted_iff_example :
    ((evaluate new_lead (known supported) "service" support_evidence none).accepted ≡ true) ↔ (
      (c : State) × (t : State) × (or_lead new_lead.status ≡ known c)
      × (known supported ≡ known t)
      × Admissible (or_lead new_lead.evidence_grade) c t "service" support_evidence none)
accepted_iff_example = accepted_iff new_lead (known supported) "service" support_evidence none

missing_fields-Complete_example : Complete lead supported support_evidence
unfolding missing_fields absent required_fields present get lookup is_blank is_true
missing_fields-Complete_example = missing_fields-Complete lead supported support_evidence refl

require_codes_example :
    code_of (require new_lead (known supported) "model" support_evidence none)
    ≡ deserved
        (actor_is_authorized "model" (known supported))
        (ceiling_blocked (known lead) (known lead) supported)
        (is_empty (missing_fields lead supported support_evidence))
unfolding or_lead is_legal_edge is_listed legal member same is_demotion ladder_index
require_codes_example =
    require_codes new_lead lead lead supported "model" support_evidence none refl refl refl refl

abbrev dossier_one : Dossier
dossier_one = record {
  hypothesis = new_lead;
  hypothesis_id = "hyp_1";
  created_at = "2026-08-12T12:00:00Z";
  history = [];
  invariant_ids = [];
  attack_path = [];
  target_entities = [];
  duplicate_candidate_ids = [];
}

abbrev three_requests : List Request
three_requests =
    record {
      target = known supported;
      actor = "service";
      evidence = support_evidence;
      cause = none;
    }
    ∷ record { target = known reported; actor = "service"; evidence = []; cause = none }
    ∷ record { target = known poc_worthy; actor = "gate"; evidence = gate_evidence; cause = none }
    ∷ []

abbrev name_id : String → List String → String
name_id prefix parts = prefix

abbrev value_text : Value → String
value_text (str s) = s
value_text _ = ""

abbrev no_reason : Reason → String
no_reason r = ""

abbrev no_state : Status → String
no_state s = ""

climbed_every_rung_example :
    any
      (takes_to supported)
      (steps name_id value_text no_reason no_state dossier_one three_requests)
    ≡ true
unfolding run transition require evaluate evaluate_known or_lead is_legal_edge is_listed legal
    member same is_demotion ladder_index actor_is_authorized authorized_kinds ceiling_blocked
    status_to_grade missing_fields absent required_fields present get lookup is_blank is_true finish
    truthy apply_local take clip state_of
climbed_every_rung_example =
    climbed_every_rung name_id value_text no_reason no_state dossier_one three_requests refl
      supported 2 1 refl refl (omega arith) (omega arith)

run-Matches_example :
    Matches
      (state_of (run name_id value_text no_reason no_state dossier_one three_requests))
      (grade_of (run name_id value_text no_reason no_state dossier_one three_requests))
unfolding state_of grade_of or_lead
run-Matches_example =
    run-Matches name_id value_text no_reason no_state dossier_one three_requests refl refl

ceiling_never_binds_example :
    ceiling_blocked
      (grade_of (run name_id value_text no_reason no_state dossier_one three_requests))
      (known poc_worthy)
      observed
    ≡ none
unfolding run transition require evaluate evaluate_known or_lead is_legal_edge is_listed legal
    member same is_demotion ladder_index actor_is_authorized authorized_kinds ceiling_blocked
    status_to_grade missing_fields absent required_fields present get lookup is_blank is_true finish
    truthy apply_local take clip state_of grade_of
ceiling_never_binds_example =
    ceiling_never_binds name_id value_text no_reason no_state dossier_one three_requests refl refl
      poc_worthy observed refl refl refl
