-- ===== src/Gates/GateA.antt =====
-- skills/ayran/src/ayran/gates/gate_a.py: `validate_submission` and the guards of `run_gate_a`. The sealed
-- record, which repeats the outcome, is left out. `str` of a value is a parameter.
pub mod Warranted
use ayran.Prelude.{
  String, Bool, true, false, not, ◌&&◌, ◌||◌, Option, none, some, List, [], ◌∷◌, map, ltb,
  if◌then◌else◌, length, any, is_empty,
}
use ayran.Prelude.Text.{codes, Text, eq_text, is_blank}
use ayran.Evidence.Payload.{
  Payload, get, truthy, Value, Fields, Items, null, bool, str, obj, arr, end, field, nil, cons,
}
use ayran.Evidence.Types.{
  State, Status, lead, supported, poc_worthy, falsified, needs_missing_fact, needs_reformulation,
}
use ayran.Evidence.Machine.{or_lead}
use ayran.Evidence.Trail.{take}
use ayran.Policy.Path.{strip}
use ayran.Gates.GateB.{has_key, is_state}

-- The errors; `type_error` is Python's own, raised outside any handler.
pub data Refusal : Type 0 where
  verdict_override gate_precondition evidence_ceiling submission_invalid type_error : Refusal

pub data Judged {ℓ} (A : Type ℓ) : Type ℓ where
  judged : A → Judged A
  refused : Refusal → Judged A

infixl 10 ◌>>=◌
abbrev pub ◌>>=◌ {ℓ κ} : {A : Type ℓ} {B : Type κ} → Judged A → (A → Judged B) → Judged B
judged a >>= f = f a
refused e >>= f = refused e

abbrev pub demand {ℓ} : {A : Type ℓ} → Bool → Refusal → Judged A → Judged A
demand true e next = next
demand false e next = refused e

pub record Precondition : Type 0 where
  pub dimension : Text
  pub present : Bool
  pub attacker_can_create : Option Bool
  pub detail : Text

pub record Experiment : Type 0 where
  pub inputs : List Text
  pub expected_positive : Text
  pub expected_negative : Text
  pub capability : Text

pub record Normalized : Type 0 where
  pub verdict : State
  pub violated_invariant : Text
  pub preconditions : List Precondition
  pub strongest_benign_explanation : Text
  pub cheapest_decisive_experiment : Experiment

unfoldable pub decision_of : Text → Option State
unfolding eq_text
decision_of t =
    if eq_text t (codes "falsified")
    then some falsified
    else if eq_text t (codes "needs_missing_fact")
    then some needs_missing_fact
    else if eq_text t (codes "needs_reformulation")
    then some needs_reformulation
    else if eq_text t (codes "poc_worthy")
    then some poc_worthy
    else none

abbrev pub entries : Fields → Payload
entries end = []
entries (field k v fs) = (k, v) ∷ entries fs

abbrev pub items_of : Items → List Value
items_of nil = []
items_of (cons v vs) = v ∷ items_of vs

abbrev pub as_object : Value → Option Payload
as_object (obj fs) = some (entries fs)
as_object _ = none

-- `isinstance(raw, list)` and not empty.
abbrev pub as_list : Value → List Value
as_list (arr vs) = items_of vs
as_list _ = []

abbrev pub as_bool : Value → Option Bool
as_bool (bool b) = some b
as_bool _ = none

-- `value is None`, a blank text, or an empty list or object.
unfoldable pub is_absent : Value → Bool
unfolding is_blank
is_absent null = true
is_absent (str s) = is_blank s
is_absent (arr nil) = true
is_absent (obj end) = true
is_absent _ = false

abbrev pub experiment_fields : List String
experiment_fields = "inputs" ∷ "expected_positive" ∷ "expected_negative" ∷ "capability" ∷ []

-- What a value may be that is either missing or a boolean.
abbrev pub optional_bool : Value → Judged (Option Bool)
optional_bool null = judged none
optional_bool (bool b) = judged (some b)
optional_bool _ = refused submission_invalid

module _ (text_of : Value → Text) where
  -- `str(value or "")`.
  abbrev pub text_or_blank : Value → Text
  text_or_blank v = if truthy v then text_of v else []

  abbrev pub stripped : Value → Text
  unfolding strip truthy
  stripped v = strip (text_or_blank v)

  -- One round of the loop over the preconditions, at an object.
  abbrev pub boolean_of : Option Bool → Judged Bool
  boolean_of none = refused submission_invalid
  boolean_of (some b) = judged b

  unfoldable pub precondition_in : Payload → Judged Precondition
  unfolding stripped take get
  precondition_in p =
      let dimension = stripped (get p "dimension") in
      let detail = stripped (get p "detail") in
      demand (not (is_empty dimension) && not (is_empty detail)) submission_invalid (
        boolean_of (as_bool (get p "present")) >>= λ present.
        optional_bool (get p "attacker_can_create") >>= λ can. judged (record {
          dimension = take 256 dimension;
          present = present;
          attacker_can_create = can;
          detail = take 1024 detail;
        }))

  unfoldable pub precondition_of : Value → Judged Precondition
  unfolding precondition_in
  precondition_of raw = elim (as_object raw) [
    | none ↦ refused submission_invalid
    | some p ↦ precondition_in p
  ]

  unfoldable pub preconditions_of : List Value → Judged (List Precondition)
  unfolding precondition_of
  preconditions_of [] = judged []
  preconditions_of (v ∷ vs) =
      precondition_of v >>= λ p. preconditions_of vs >>= λ ps. judged (p ∷ ps)

  -- `(experiment.get("inputs") or [])[:32]`, each as text: a text is sliced into its characters, and a
  -- number, a boolean or an object cannot be sliced.
  unfoldable pub inputs_of : Value → Judged (List Text)
  unfolding take
  inputs_of (arr vs) = judged (map (λ v. take 512 (text_of v)) (take 32 (items_of vs)))
  inputs_of (str s) = judged (map (λ c. c ∷ []) (take 32 (codes s)))
  inputs_of v = if truthy v then refused type_error else judged []

  abbrev pub or_unspecified : List Text → List Text
  or_unspecified [] = codes "unspecified input" ∷ []
  or_unspecified (t ∷ ts) = t ∷ ts

  unfoldable pub experiment_of : Payload → Judged Experiment
  unfolding inputs_of get
  experiment_of p = inputs_of (get p "inputs") >>= λ inputs. judged (record {
    inputs = or_unspecified inputs;
    expected_positive = take 2048 (text_of (get p "expected_positive"));
    expected_negative = take 2048 (text_of (get p "expected_negative"));
    capability = take 256 (text_of (get p "capability"));
  })

  -- The invariant specificity floor.
  abbrev pub floored : Text → State → State
  floored invariant verdict = if ltb (length invariant) 12 then needs_reformulation else verdict

  -- `validate_submission`, from the experiment on.
  unfoldable pub with_experiment : Payload → State → Payload → Judged Normalized
  unfolding experiment_of preconditions_of is_absent
  with_experiment p verdict e =
      demand (not (any (λ f. is_absent (get e f)) experiment_fields)) submission_invalid (
        demand (not (is_empty (as_list (get p "preconditions")))) submission_invalid (
          preconditions_of (take 64 (as_list (get p "preconditions"))) >>= λ preconditions.
          experiment_of e >>= λ experiment. judged (record {
            verdict = floored (stripped (get p "violated_invariant")) verdict;
            violated_invariant = take 2048 (stripped (get p "violated_invariant"));
            preconditions = preconditions;
            strongest_benign_explanation =
                take 2048 (stripped (get p "strongest_benign_explanation"));
            cheapest_decisive_experiment = experiment;
          })))

  -- The same, from the invariant on.
  unfoldable pub with_verdict : Payload → State → Judged Normalized
  unfolding with_experiment
  with_verdict p verdict =
      demand (not (is_empty (stripped (get p "violated_invariant")))) submission_invalid (
        demand (not (is_empty (stripped (get p "strongest_benign_explanation")))) submission_invalid
          (elim (as_object (get p "cheapest_decisive_experiment")) [
            | none ↦ refused submission_invalid
            | some e ↦ with_experiment p verdict e
          ]))

  unfoldable pub validate_object : Payload → Judged Normalized
  unfolding decision_of with_verdict
  validate_object p = elim (decision_of (text_or_blank (get p "verdict"))) [
    | none ↦ refused submission_invalid
    | some verdict ↦ with_verdict p verdict
  ]

  abbrev pub validate_submission : Value → Judged Normalized
  unfolding validate_object
  validate_submission v = elim (as_object v) [
    | none ↦ refused submission_invalid
    | some p ↦ validate_object p
  ]

  pub record Challenge : Type 0 where
    pub status : Option Status
    pub grade : Option Status
    pub analysis : Option Payload
    pub submission : Option Value
    pub reviewer : Option Payload

  abbrev pub has_override : Option Payload → Bool
  has_override none = false
  has_override (some a) = has_key "verdict" a || has_key "proposed_verdict" a

  abbrev pub allows_others : Option Payload → Bool
  allows_others none = false
  allows_others (some a) = truthy (get a "allow_non_supported")

  abbrev pub is_stamped : Option Payload → Bool
  is_stamped none = false
  is_stamped (some r) = not (is_empty (text_or_blank (get r "id")))

  -- `run_gate_a`, to the normalized submission that the record and the result are made of.
  unfoldable pub run_gate_a : Challenge → Judged Normalized
  unfolding validate_submission or_lead is_state
  run_gate_a r = demand (not (has_override r.analysis)) verdict_override (
      demand (is_state supported (or_lead r.status) || allows_others r.analysis) gate_precondition (
        demand (not (is_state lead (or_lead r.grade))) evidence_ceiling (elim r.submission [
          | none ↦ refused submission_invalid
          | some s ↦ demand (is_stamped r.reviewer) submission_invalid (validate_submission s)
        ])))
