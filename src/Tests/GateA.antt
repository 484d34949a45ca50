-- ===== src/Tests/GateA.antt =====
-- Gate A on one submission of a challenger.
use ayran.Prelude.{refl, true, none, some, [], ◌∷◌}
use ayran.Prelude.Text.{codes, Text}
use ayran.Evidence.Payload.{Payload, Value, Fields, bool, str, obj, arr, end, field, nil, cons}
use ayran.Evidence.Types.{supported, poc_worthy, known}
use ayran.Gates.GateA.{run_gate_a, Normalized, Challenge}
use ayran.Gates.GateA.Warranted.{run_gate_a-IsWarranted, IsWarranted}

abbrev text_of : Value → Text
text_of (str s) = codes s
text_of _ = []

abbrev experiment : Fields
experiment = field "inputs" (arr (cons (str "two accounts") nil)) (
    field "expected_positive" (str "balance grows")
      (field "expected_negative" (str "balance stays") (field "capability" (str "none") end)))

abbrev precondition : Fields
precondition =
    field "dimension" (str "solvency")
      (field "present" (bool true) (field "detail" (str "pool is funded") end))

abbrev submission : Fields
submission = field "verdict" (str "poc_worthy") (
    field "violated_invariant" (str " shares never exceed assets ") (
      field "strongest_benign_explanation" (str "rounding") (
        field "cheapest_decisive_experiment" (obj experiment)
          (field "preconditions" (arr (cons (obj precondition) nil)) end))))

abbrev reviewer : Payload
reviewer = ("id", str "challenger-1") ∷ []

abbrev challenge : Challenge text_of
challenge = record {
  status = some (known supported);
  grade = some (known supported);
  analysis = none;
  submission = some (obj submission);
  reviewer = some reviewer;
}

abbrev normalized : Normalized
normalized = record {
  verdict = poc_worthy;
  violated_invariant = codes "shares never exceed assets";
  preconditions =
      record {
        dimension = codes "solvency";
        present = true;
        attacker_can_create = none;
        detail = codes "pool is funded";
      }
      ∷ [];
  strongest_benign_explanation = codes "rounding";
  cheapest_decisive_experiment = record {
    inputs = codes "two accounts" ∷ [];
    expected_positive = codes "balance grows";
    expected_negative = codes "balance stays";
    capability = codes "none";
  };
}

run_gate_a-IsWarranted_example : IsWarranted text_of challenge normalized
unfolding run_gate_a
run_gate_a-IsWarranted_example = run_gate_a-IsWarranted text_of challenge normalized refl
