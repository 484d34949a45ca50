-- ===== src/Tests/Gates.antt =====
-- Gate B of skills/ayran/src/ayran/gates on a payload with three executed runs.
use ayran.Prelude.{
  String, ◌≡◌, refl, ◌↔◌, true, false, Option, none, some, List, [], ◌∷◌, any, every,
}
use ayran.Prelude.Text.{codes, Text, lookup}
use ayran.Evidence.Payload.{Payload, get, is_true, bool, num, str}
use ayran.Evidence.Types.{same, lead, observed, defect_pinned, known}
use ayran.Gates.Mechanical.{
  Slot, detect_forgery, slot_obligations, is_executed, execute_runs, matched_test_status,
  feature_tests_green, judge_replay, judge_numbers, judge_controls, judge_removal, judge_fix, judge,
  classify_runs, Block, RunResult, replay, patched, revert_mutation, defect_pinned,
}
use ayran.Gates.Mechanical.Pinning.{pinned_iff, PinnedBy}
use ayran.Gates.Patch.{
  trim, is_harness, is_no_source, is_outside, entry_violations, patch_scope_violations,
}
use ayran.Gates.GateB.{
  name_of, blocks_of, required, expected_replay_hash, match_test_of, is_governed, is_state,
  pinning_requested, runs_of, classified, executed_report, violations_of, executable, run_gate_b,
  Request,
}
use ayran.Gates.GateB.Warrant.{pins, Warrant}
use ayran.Gates.GateB.Executed.{pinned_executed, attests, governed_pins_iff}
use ayran.Evidence.Machine.{or_lead}

abbrev small : Text → Text
small s = s

abbrev executed_block : Payload
executed_block = ("passed", bool true) ∷ ("command", str "forge test") ∷ ("exit_code", num 0) ∷ []

abbrev attested_block : Payload
attested_block = ("passed", bool true) ∷ []

abbrev executed_blocks : String → Option Payload
executed_blocks name = some executed_block

abbrev attested_blocks : String → Option Payload
attested_blocks name = some attested_block

abbrev good_runs : Slot → Option Block → RunResult
good_runs replay b = record {
  exit_zero = true;
  stdout_sha256 = "sha256:aa";
  compiled_ok = true;
  coverage = none;
  passed_tests = "test_exploit" ∷ [];
  assertion_failures = [];
  numeric_results = 7 ∷ [];
}
good_runs patched b = record {
  exit_zero = false;
  stdout_sha256 = "sha256:bb";
  compiled_ok = true;
  coverage = some 91;
  passed_tests = "test_deposit" ∷ [];
  assertion_failures = "test_exploit" ∷ [];
  numeric_results = [];
}
good_runs revert_mutation b = record {
  exit_zero = false;
  stdout_sha256 = "sha256:cc";
  compiled_ok = true;
  coverage = none;
  passed_tests = [];
  assertion_failures = "test_fix" ∷ [];
  numeric_results = [];
}

abbrev idle_runs : Slot → Option Block → RunResult
idle_runs slot b = record {
  exit_zero = false;
  stdout_sha256 = "";
  compiled_ok = false;
  coverage = none;
  passed_tests = [];
  assertion_failures = [];
  numeric_results = [];
}

abbrev source_patch : Option (List (Option Text))
source_patch = some (some (codes "src/Vault.sol") ∷ [])

abbrev script_patch : Option (List (Option Text))
script_patch = some (some (codes "script/Deploy.sol") ∷ [])

abbrev base_request : Request
base_request = record {
  status = some (known observed);
  grade = some (known observed);
  profile = "executable";
  blocks = executed_blocks;
  contest_policy_allows_proof = false;
  allowed_source_files = codes "src/Vault.sol" ∷ [];
  patch = source_patch;
  match_test = "";
  poc_hash = "sha256:aa";
  poc_hashed = true;
}

pinned_executed_example :
    any (λ o. is_executed (blocks_of base_request o)) (slot_obligations patched) ≡ true
unfolding run_gate_b executable executed_report classified runs_of execute_runs blocks_of name_of
    detect_forgery violations_of pinning_requested patch_scope_violations entry_violations trim
    is_harness is_no_source is_outside classify_runs judge judge_replay judge_numbers judge_controls
    judge_removal judge_fix matched_test_status feature_tests_green is_governed is_state same
    match_test_of expected_replay_hash get lookup is_true or_lead
pinned_executed_example = pinned_executed small good_runs base_request refl refl patched

abbrev proof_request : Request
proof_request = record base_request {
  profile = "governed_proof";
  blocks = attested_blocks;
  contest_policy_allows_proof = true;
}

governed_pins_iff_example : (pins (run_gate_b small idle_runs proof_request) ≡ true) ↔ (
    (is_state observed (or_lead (some (known observed))) ≡ true)
    × (is_state lead (or_lead (some (known observed))) ≡ false)
    × (true ≡ true)
    × (every (λ name. attests (attested_blocks name)) required ≡ true))
unfolding is_governed
governed_pins_iff_example = governed_pins_iff small idle_runs proof_request refl

pinned_iff_example :
    ((classify_runs
        (blocks_of base_request)
        (λ s. some (good_runs s none))
        "test_exploit"
        none).verdict
      ≡ defect_pinned)
    ↔ PinnedBy (blocks_of base_request) (λ s. some (good_runs s none)) "test_exploit" none
pinned_iff_example =
    pinned_iff (blocks_of base_request) (λ s. some (good_runs s none)) "test_exploit" none
