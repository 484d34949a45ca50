-- ===== src/Gates/Mechanical.antt =====
-- skills/ayran/src/ayran/gates/gate_b_mechanical.py: the checks before and after the executed runs of
-- Gate B. A run itself is an argument (`runner.execute`); coverage is counted in hundredths.
pub mod Pinning
use ayran.Prelude.{
  ℕ, String, Bool, true, false, not, ◌&&◌, ◌||◌, Option, none, some, List, [], ◌∷◌, ltb,
  if◌then◌else◌, keep, is_empty,
}
use ayran.Prelude.Text.{elem, str_eq}
use mathlib.Core.List.{reverse}

-- `EXECUTABLE_OBLIGATIONS`.
pub data Obligation : Type 0 where
  clean_replay numerical_assertions negative_controls defect_removal fix_efficacy : Obligation

abbrev pub obligations : List Obligation
obligations =
    clean_replay ∷ numerical_assertions ∷ negative_controls ∷ defect_removal ∷ fix_efficacy ∷ []

-- A block of the payload under an obligation's name, if it is an object: the fields that are read.
pub record Block : Type 0 where
  pub passed_true : Bool
  pub has_command : Bool
  pub has_exit_code : Bool
  pub expected_replay_hash : Option String

abbrev pub Blocks : Type 0
Blocks = Obligation → Option Block

-- A block that claims a pass with no executed run.
abbrev pub is_forged : Option Block → Bool
is_forged none = false
is_forged (some b) = b.passed_true && (not b.has_command || not b.has_exit_code)

-- `detect_forgery`.
unfoldable pub detect_forgery : Blocks → List Obligation
detect_forgery blocks = keep (λ o. is_forged (blocks o)) obligations

-- `RUN_SLOTS` and `SLOT_TO_OBLIGATIONS`.
pub data Slot : Type 0 where
  replay patched revert_mutation : Slot

abbrev pub slots : List Slot
slots = replay ∷ patched ∷ revert_mutation ∷ []

abbrev pub slot_obligations : Slot → List Obligation
slot_obligations replay = clean_replay ∷ numerical_assertions ∷ []
slot_obligations patched = negative_controls ∷ defect_removal ∷ []
slot_obligations revert_mutation = fix_efficacy ∷ []

-- `MechanicalRunResult`, without the fields that only the record repeats.
pub record RunResult : Type 0 where
  pub exit_zero : Bool
  pub stdout_sha256 : String
  pub compiled_ok : Bool
  pub coverage : Option ℕ
  pub passed_tests : List String
  pub assertion_failures : List String
  pub numeric_results : List ℕ

-- `ExecutedRuns.results`.
abbrev pub Runs : Type 0
Runs = Slot → Option RunResult

abbrev pub is_executed : Option Block → Bool
is_executed none = false
is_executed (some b) = b.has_command && b.has_exit_code

abbrev pub head : List Obligation → Option Obligation
head [] = none
head (o ∷ os) = some o

abbrev pub run_slot :
    (Slot → Option Block → RunResult) → Blocks → Slot → Option Obligation → Option RunResult
run_slot execute blocks slot none = none
run_slot execute blocks slot (some o) = some (execute slot (blocks o))

-- `execute_runs`: one run for each slot with an executed block, on the first of its blocks.
unfoldable pub execute_runs : (Slot → Option Block → RunResult) → Blocks → Runs
execute_runs execute blocks slot =
    run_slot execute blocks slot (head (keep (λ o. is_executed (blocks o)) (slot_obligations slot)))

-- `_matched_test_status`.
pub data TestStatus : Type 0 where
  pass fail missing : TestStatus

unfoldable pub matched_test_status : RunResult → String → TestStatus
matched_test_status run match_test =
    if elem match_test run.passed_tests
    then pass
    else if elem match_test run.assertion_failures
    then fail
    else missing

-- `MIN_FEATURE_COVERAGE`, in hundredths.
abbrev pub min_feature_coverage : ℕ
min_feature_coverage = 80

-- `coverage is None` and `coverage < MIN_FEATURE_COVERAGE`.
abbrev covered : Option ℕ → Bool
covered none = false
covered (some n) = not (ltb n min_feature_coverage)

-- `_feature_tests_green`.
unfoldable pub feature_tests_green : RunResult → String → Bool
feature_tests_green run match_test =
    is_empty (keep (λ name. not (str_eq name match_test)) run.assertion_failures)
    && covered run.coverage

-- The outcome of an obligation: the flags of its result.
pub record Finding : Type 0 where
  pub passed : Bool
  pub mismatch : Bool
  pub wrong_reason : Bool
  pub exploit_persists : Bool
  pub compile_flip : Bool
  pub feature_disabled : Bool

abbrev pub unspecified : Finding
unspecified = record {
  passed = false;
  mismatch = false;
  wrong_reason = false;
  exploit_persists = false;
  compile_flip = false;
  feature_disabled = false;
}

abbrev is_pass : TestStatus → Bool
is_pass pass = true
is_pass _ = false

abbrev is_fail : TestStatus → Bool
is_fail fail = true
is_fail _ = false

-- `expected_replay_hash and replay.stdout_sha256 != expected_replay_hash`.
abbrev hash_mismatch : RunResult → Option String → Bool
hash_mismatch run none = false
hash_mismatch run (some h) = not (str_eq h "") && not (str_eq run.stdout_sha256 h)

unfoldable pub judge_replay : Option RunResult → String → Option String → Finding
unfolding matched_test_status
judge_replay none match_test expected = unspecified
judge_replay (some run) match_test expected =
    let mismatch = hash_mismatch run expected in
    record unspecified {
      passed = run.exit_zero && is_pass (matched_test_status run match_test) && not mismatch;
      mismatch = mismatch;
    }

abbrev is_given : Option Block → Bool
is_given none = false
is_given (some b) = true

unfoldable pub judge_numbers : Option RunResult → Option Block → Finding
judge_numbers none block = unspecified
judge_numbers (some run) block = record unspecified {
  passed = is_given block && run.exit_zero && not (is_empty run.numeric_results);
}

unfoldable pub judge_controls : Option RunResult → Finding
judge_controls none = unspecified
judge_controls (some run) =
    let failed = not (is_empty run.assertion_failures) in
    record unspecified {
      passed = (run.compiled_ok && failed) && not run.exit_zero;
      wrong_reason = (not run.exit_zero && not failed) || not run.compiled_ok;
      exploit_persists = run.exit_zero;
    }

unfoldable pub judge_removal : Option RunResult → String → Finding
unfolding matched_test_status
judge_removal none match_test = unspecified
judge_removal (some run) match_test =
    let flip = is_fail (matched_test_status run match_test) in
    record unspecified {
      passed = (flip && elem match_test run.assertion_failures) && run.compiled_ok;
      compile_flip = flip && not run.compiled_ok;
    }

abbrev feature_ok : Option RunResult → String → Bool
feature_ok none match_test = false
feature_ok (some run) match_test = feature_tests_green run match_test

-- `pinning_ok`.
abbrev pinning_ok : Option RunResult → Bool
pinning_ok none = false
pinning_ok (some run) = run.compiled_ok && not (is_empty run.assertion_failures)

unfoldable pub judge_fix : Option RunResult → Option RunResult → String → Finding
unfolding feature_tests_green
judge_fix reverted patched_run match_test =
    let green = feature_ok patched_run match_test in
    record unspecified { passed = green && pinning_ok reverted; feature_disabled = not green }

unfoldable pub judge : Blocks → Runs → String → Option String → Obligation → Finding
unfolding judge_replay judge_numbers judge_controls judge_removal judge_fix
judge blocks runs match_test expected clean_replay = judge_replay (runs replay) match_test expected
judge blocks runs match_test expected numerical_assertions =
    judge_numbers (runs replay) (blocks numerical_assertions)
judge blocks runs match_test expected negative_controls = judge_controls (runs patched)
judge blocks runs match_test expected defect_removal = judge_removal (runs patched) match_test
judge blocks runs match_test expected fix_efficacy =
    judge_fix (runs revert_mutation) (runs patched) match_test

pub data Verdict : Type 0 where
  defect_pinned needs_reformulation falsified : Verdict

pub data Stamp : Type 0 where
  poc_pass poc_unpinned : Stamp

-- `Classification`.
pub record Classification : Type 0 where
  pub verdict : Verdict
  pub krait_stamp : Option Stamp
  pub pinned : Bool
  pub replay_reproduced : Bool
  pub results : Obligation → Finding

-- `classify_runs`.
unfoldable pub classify_runs : Blocks → Runs → String → Option String → Classification
classify_runs blocks runs match_test expected =
    let results = judge blocks runs match_test expected in
    let replay_ok = (results clean_replay).passed in
    let blocking =
      keep (λ o. not (results o).passed)
        (clean_replay ∷ numerical_assertions ∷ negative_controls ∷ defect_removal ∷ []) in
    if (results clean_replay).mismatch
    then record {
      verdict = falsified;
      krait_stamp = none;
      pinned = false;
      replay_reproduced = replay_ok;
      results = results;
    }
    else if not (is_empty blocking) || not (results fix_efficacy).passed
    then record {
      verdict = needs_reformulation;
      krait_stamp = if replay_ok then some poc_unpinned else none;
      pinned = false;
      replay_reproduced = replay_ok;
      results = results;
    }
    else record {
      verdict = defect_pinned;
      krait_stamp = some poc_pass;
      pinned = true;
      replay_reproduced = true;
      results = results;
    }
