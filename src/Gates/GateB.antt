-- ===== src/Gates/GateB.antt =====
-- skills/ayran/src/ayran/gates/gate_b.py: the gate on an observed hypothesis, in both profiles. The
-- texts of details and the sealed records, which repeat the outcome, are left out.
pub mod Warrant
pub mod Executed
use ayran.Prelude.{
  String, Bool, true, false, not, ◌&&◌, ◌||◌, Option, none, some, List, [], ◌∷◌, map, if◌then◌else◌,
  keep, is_empty,
}
use ayran.Prelude.Text.{Text, lookup, str_eq}
use ayran.Evidence.Payload.{Payload, get, is_true, Value, str}
use ayran.Evidence.Types.{
  same, State, Status, lead, observed, defect_pinned, needs_reformulation, known, unknown,
}
use ayran.Evidence.Machine.{or_lead}
use ayran.Gates.Mechanical.{
  Blocks, detect_forgery, slots, Runs, execute_runs, classify_runs, Obligation, Block, Slot,
  RunResult, Verdict, Stamp, Classification, clean_replay, numerical_assertions, negative_controls,
  defect_removal, fix_efficacy, defect_pinned, needs_reformulation,
}
use ayran.Gates.Patch.{patch_scope_violations, Violation}

-- The payload: each block under its name, if it is an object.
pub record Request : Type 0 where
  pub status : Option Status
  pub grade : Option Status
  pub profile : String
  pub blocks : String → Option Payload
  pub contest_policy_allows_proof : Bool
  pub allowed_source_files : List Text
  pub patch : Option (List (Option Text))
  pub match_test : String
  -- `str(poc.get("replay_hash") or "")`.
  pub poc_hash : String
  -- Whether it starts with "sha256:".
  pub poc_hashed : Bool

-- `EXECUTABLE_OBLIGATIONS`, by name.
unfoldable pub name_of : Obligation → String
name_of clean_replay = "clean_replay"
name_of numerical_assertions = "numerical_assertions"
name_of negative_controls = "negative_controls"
name_of defect_removal = "defect_removal"
name_of fix_efficacy = "fix_efficacy"

abbrev pub has_key : String → Payload → Bool
has_key k p = elim (lookup k p) [ none ↦ false | some v ↦ true ]

abbrev text_of : Value → Option String
text_of (str s) = some s
text_of _ = none

abbrev pub block_of : Payload → Block
block_of p = record {
  passed_true = is_true (get p "passed");
  has_command = has_key "command" p;
  has_exit_code = has_key "exit_code" p;
  expected_replay_hash = text_of (get p "expected_replay_hash");
}

abbrev read_block : Option Payload → Option Block
read_block none = none
read_block (some p) = some (block_of p)

unfoldable pub blocks_of : Request → Blocks
unfolding name_of
blocks_of r o = read_block (r.blocks (name_of o))

-- The result of an obligation under the governed profile.
pub record Result : Type 0 where
  pub passed : Bool
  pub unspecified : Bool
  pub wrong_reason : Bool
  pub feature_disabled : Bool
  pub exploit_persists : Bool

unfoldable pub evaluate_obligation : Option Payload → Result
evaluate_obligation none = record {
  passed = false;
  unspecified = true;
  wrong_reason = false;
  feature_disabled = false;
  exploit_persists = false;
}
evaluate_obligation (some p) =
    let wrong = is_true (get p "wrong_reason") in
    record {
      passed = is_true (get p "passed") && not wrong;
      unspecified = false;
      wrong_reason = wrong;
      feature_disabled = is_true (get p "feature_disabled");
      exploit_persists = is_true (get p "exploit_persists");
    }

abbrev pub gate_b_obligations : List String
gate_b_obligations =
    "clean_replay" ∷ "numerical_assertions" ∷ "negative_controls" ∷ "defect_removal"
    ∷ "fix_efficacy" ∷ "alternate_paths" ∷ "independent_skeptic" ∷ "deployment_identity"
    ∷ "feasibility_scope_severity" ∷ []

-- `evaluate_obligations`.
unfoldable pub evaluate_obligations : (String → Option Payload) → List (String × Result)
unfolding evaluate_obligation
evaluate_obligations blocks =
    map (λ name. (name, evaluate_obligation (blocks name))) gate_b_obligations

-- `_flag`.
abbrev flag : Option Result → Bool
flag none = false
flag (some r) = r.passed

abbrev pub required : List String
required =
    "numerical_assertions" ∷ "defect_removal" ∷ "fix_efficacy" ∷ "independent_skeptic"
    ∷ "feasibility_scope_severity" ∷ []

-- `decide_verdict` under the governed profile, the only one its caller passes.
unfoldable pub decide_verdict : List (String × Result) → Verdict
unfolding lookup
decide_verdict results =
    if is_empty (keep (λ name. not (flag (lookup name results))) required)
    then defect_pinned
    else needs_reformulation

-- `_expected_replay_hash`.
abbrev poc_fallback : Request → Option String
poc_fallback r = if r.poc_hashed then some r.poc_hash else none

abbrev expected_of : Option Block → Option String → Option String
expected_of none other = other
expected_of (some b) other = elim b.expected_replay_hash [ none ↦ other | some h ↦ some h ]

unfoldable pub expected_replay_hash : Request → Option String
unfolding blocks_of
expected_replay_hash r = expected_of (blocks_of r clean_replay) (poc_fallback r)

abbrev default_match_test : String
default_match_test = "test_exploit"

unfoldable pub match_test_of : Request → String
match_test_of r = if str_eq r.match_test "" then default_match_test else r.match_test

pub data Code : Type 0 where
  gate_precondition evidence_ceiling obligation_forgery_rejected : Code

pub record Report : Type 0 where
  pub verdict : Verdict
  pub pinned : Bool
  pub krait_stamp : Option Stamp
  -- The slots that were run.
  pub order : List Slot
  pub violations : List Violation

pub data Outcome : Type 0 where
  refused : Code → Outcome
  reported : Report → Outcome

abbrev pub unstamped : Verdict → Report
unstamped v = record {
  verdict = v;
  pinned = false;
  krait_stamp = none;
  order = [];
  violations = [];
}

unfoldable pub is_governed : String → Bool
is_governed profile = str_eq profile "governed_proof"

unfoldable pub governed_report : Request → Report
unfolding evaluate_obligations decide_verdict
governed_report r =
    if r.contest_policy_allows_proof
    then unstamped (decide_verdict (evaluate_obligations r.blocks))
    else unstamped needs_reformulation

unfoldable pub is_state : State → Status → Bool
unfolding same
is_state s (known t) = same s t
is_state s (unknown t) = false

abbrev pub given : Option Block → Bool
given none = false
given (some b) = true

-- `pinning_requested` of `patch_scope_violations`.
unfoldable pub pinning_requested : Blocks → Bool
pinning_requested blocks =
    given (blocks negative_controls) || given (blocks defect_removal) || given (blocks fix_efficacy)

abbrev ran : Option RunResult → Bool
ran none = false
ran (some x) = true

module _ (execute : Slot → Option Block → RunResult) where
  unfoldable pub runs_of : Request → Runs
  unfolding execute_runs
  runs_of r = execute_runs execute (blocks_of r)

  unfoldable pub classified : Request → Classification
  unfolding runs_of
  classified r = classify_runs (blocks_of r) (runs_of r) (match_test_of r) (expected_replay_hash r)

  unfoldable pub executed_report : Request → Report
  unfolding classified
  executed_report r =
      let c = classified r in
      record {
        verdict = c.verdict;
        pinned = c.pinned;
        krait_stamp = c.krait_stamp;
        order = keep (λ s. ran (runs_of r s)) slots;
        violations = [];
      }

module _ (lower : Text → Text) where
  unfoldable pub violations_of : Request → List Violation
  unfolding pinning_requested
  violations_of r =
      patch_scope_violations lower (pinning_requested (blocks_of r)) r.allowed_source_files r.patch

module _ (lower : Text → Text) (execute : Slot → Option Block → RunResult) where
  -- The executable profile: forgery first, then the patch, then the runs.
  unfoldable pub executable : Request → Outcome
  unfolding detect_forgery violations_of executed_report
  executable r =
      if not (is_empty (detect_forgery (blocks_of r)))
      then refused obligation_forgery_rejected
      else if not (is_empty (violations_of lower r))
      then reported (record (unstamped needs_reformulation) { violations = violations_of lower r })
      else reported (executed_report execute r)

  -- `run_gate_b`.
  unfoldable pub run_gate_b : Request → Outcome
  unfolding executable
  run_gate_b r =
      if not (is_state observed (or_lead r.status))
      then refused gate_precondition
      else if is_state lead (or_lead r.grade)
      then refused evidence_ceiling
      else if is_governed r.profile
      then reported (governed_report r)
      else executable r
