-- ===== src/Gates/Mechanical/Pinning.antt =====
-- What a `defect_pinned` verdict of gate_b_mechanical.py rests on.
use ayran.Prelude.{
  String, ◌≡◌, refl, ◌↔◌, true, false, not, Option, none, some, List, [], ◌∷◌, arith, keep,
  is_empty,
}
use ayran.Prelude.Text.{elem, str_eq}
use ayran.Gates.Mechanical.{
  Blocks, Runs, matched_test_status, covered, feature_tests_green, hash_mismatch, judge_replay,
  is_given, judge_numbers, judge_controls, judge_removal, judge_fix, judge, classify_runs, Block,
  RunResult, clean_replay, numerical_assertions, negative_controls, defect_removal, fix_efficacy,
  replay, patched, revert_mutation, defect_pinned,
}
use mathlib.Core.Path.{subst}

-- The three runs of a pinned defect.
pub record Pins (match_test : String) (expected : Option String) (r p v : RunResult) : Type 0 where
  pub replay_exits : r.exit_zero ≡ true
  pub reproduced : elem match_test r.passed_tests ≡ true
  pub same_hash : hash_mismatch r expected ≡ false
  pub numbers : is_empty r.numeric_results ≡ false
  pub control_fails : p.exit_zero ≡ false
  pub control_compiles : p.compiled_ok ≡ true
  pub flipped : elem match_test p.assertion_failures ≡ true
  pub not_passed : elem match_test p.passed_tests ≡ false
  pub features_green :
      is_empty (keep (λ name. not (str_eq name match_test)) p.assertion_failures) ≡ true
  pub coverage : covered p.coverage ≡ true
  pub revert_compiles : v.compiled_ok ≡ true
  pub revert_fails : is_empty v.assertion_failures ≡ false

module _ (blocks : Blocks) (runs : Runs) (match_test : String) (expected : Option String) where
  all_passed :
      (classify_runs blocks runs match_test expected).verdict ≡ defect_pinned
      → ((judge blocks runs match_test expected clean_replay).passed ≡ true)
        × ((judge blocks runs match_test expected numerical_assertions).passed ≡ true)
        × ((judge blocks runs match_test expected negative_controls).passed ≡ true)
        × ((judge blocks runs match_test expected defect_removal).passed ≡ true)
        × ((judge blocks runs match_test expected fix_efficacy).passed ≡ true)
  unfolding classify_runs
  all_passed h = ground arith

  conclude :
      ((judge blocks runs match_test expected clean_replay).passed ≡ true)
      → ((judge blocks runs match_test expected clean_replay).mismatch ≡ false)
      → ((judge blocks runs match_test expected numerical_assertions).passed ≡ true)
      → ((judge blocks runs match_test expected negative_controls).passed ≡ true)
      → ((judge blocks runs match_test expected defect_removal).passed ≡ true)
      → ((judge blocks runs match_test expected fix_efficacy).passed ≡ true)
      → (classify_runs blocks runs match_test expected).verdict ≡ defect_pinned
  unfolding classify_runs
  conclude a m b c d e = ground arith

replay_run :
    (o : Option RunResult) (match_test : String) (expected : Option String)
    → (judge_replay o match_test expected).passed ≡ true
    → (r : RunResult) × (o ≡ some r)
      × (r.exit_zero ≡ true)
      × (elem match_test r.passed_tests ≡ true)
      × (hash_mismatch r expected ≡ false)
unfolding judge_replay
replay_run none match_test expected h = absurd (ground arith)
replay_run (some r) match_test expected h = (r, refl, ground arith, ground arith, ground arith)

removal_run :
    (o : Option RunResult) (match_test : String)
    → (judge_removal o match_test).passed ≡ true
    → (p : RunResult) × (o ≡ some p)
      × (p.compiled_ok ≡ true)
      × (elem match_test p.assertion_failures ≡ true)
      × (elem match_test p.passed_tests ≡ false)
unfolding judge_removal
removal_run none match_test h = absurd (ground arith)
removal_run (some p) match_test h = (p, refl, ground arith, ground arith, ground arith)

fix_run :
    (o : Option RunResult) (p : RunResult) (match_test : String)
    → (judge_fix o (some p) match_test).passed ≡ true
    → (v : RunResult) × (o ≡ some v)
      × (v.compiled_ok ≡ true)
      × (is_empty v.assertion_failures ≡ false)
      × (is_empty (keep (λ name. not (str_eq name match_test)) p.assertion_failures) ≡ true)
      × (covered p.coverage ≡ true)
unfolding judge_fix
fix_run none p match_test h = absurd (ground arith)
fix_run (some v) p match_test h = (v, refl, ground arith, ground arith, ground arith, ground arith)

controls_run :
    (o : Option RunResult) (p : RunResult)
    → o ≡ some p
    → (judge_controls o).passed ≡ true
    → p.exit_zero ≡ false
unfolding judge_controls
controls_run none p e h = cc
controls_run (some q) p e h = ground arith

numbers_run :
    (o : Option RunResult) (b : Option Block) (r : RunResult)
    → o ≡ some r
    → (judge_numbers o b).passed ≡ true
    → (is_empty r.numeric_results ≡ false) × (is_given b ≡ true)
unfolding judge_numbers
numbers_run none b r e h = cc
numbers_run (some q) b r e h = (ground arith, ground arith)

nonempty : (s : String) (xs : List String) → elem s xs ≡ true → is_empty xs ≡ false
nonempty s [] h = cc
nonempty s (x ∷ xs) h = refl

pub record PinnedBy (blocks : Blocks) (runs : Runs) (match_test : String) (expected : Option String)
    : Type 0 where
  pub replayed : RunResult
  pub controlled : RunResult
  pub reverted : RunResult
  pub at_replay : runs replay ≡ some replayed
  pub at_patched : runs patched ≡ some controlled
  pub at_revert : runs revert_mutation ≡ some reverted
  pub given : is_given (blocks numerical_assertions) ≡ true
  pub pins : Pins match_test expected replayed controlled reverted

module _ (blocks : Blocks) (runs : Runs) (match_test : String) (expected : Option String) where
  pinned-PinnedBy :
      (classify_runs blocks runs match_test expected).verdict ≡ defect_pinned
      → PinnedBy blocks runs match_test expected
  unfolding judge
  pinned-PinnedBy h =
      let (a, b, c, d, e) = all_passed blocks runs match_test expected h in
      let (r, at_r, exits, reproduced, same_hash) =
        replay_run (runs replay) match_test expected a in
      let (p, at_p, compiles, flipped, not_passed) = removal_run (runs patched) match_test d in
      let (v, at_v, again, fails, green, coverage) = fix_run (runs revert_mutation) p match_test (
        subst
          (λ (x : Option RunResult). (judge_fix (runs revert_mutation) x match_test).passed ≡ true)
          at_p e) in
      let (numbers, given) = numbers_run (runs replay) (blocks numerical_assertions) r at_r b in
      record {
        replayed = r;
        controlled = p;
        reverted = v;
        at_replay = at_r;
        at_patched = at_p;
        at_revert = at_v;
        given = given;
        pins = record {
          replay_exits = exits;
          reproduced = reproduced;
          same_hash = same_hash;
          numbers = numbers;
          control_fails = controls_run (runs patched) p at_p c;
          control_compiles = compiles;
          flipped = flipped;
          not_passed = not_passed;
          features_green = green;
          coverage = coverage;
          revert_compiles = again;
          revert_fails = fails;
        };
      }

  PinnedBy-pinned :
      PinnedBy blocks runs match_test expected
      → (classify_runs blocks runs match_test expected).verdict ≡ defect_pinned
  unfolding judge judge_replay judge_numbers judge_controls judge_removal judge_fix
      matched_test_status feature_tests_green
  PinnedBy-pinned x =
      let q = x.pins in
      let some_failure = nonempty match_test x.controlled.assertion_failures q.flipped in
      conclude blocks runs match_test expected (rw x.at_replay (ground arith))
        (rw x.at_replay q.same_hash) (rw x.at_replay (ground arith))
        (rw x.at_patched (ground arith)) (rw x.at_patched (ground arith))
        (rw (x.at_revert, x.at_patched) (ground arith))

-- A defect is pinned exactly when the three runs exist, a numerical block was given, whatever it
-- contains, and the runs show: the exploit passes on the vulnerable revision, with the expected hash if there is one and
-- with parsed numbers; on the patched revision, which compiles and fails, the exploit is the only
-- test that fails, by an assertion, and the measured coverage reaches the minimum; and the reverted
-- revision compiles and fails by an assertion again,
-- of whatever test.
pub pinned_iff :
    (blocks : Blocks) (runs : Runs) (match_test : String) (expected : Option String)
    → ((classify_runs blocks runs match_test expected).verdict ≡ defect_pinned)
      ↔ PinnedBy blocks runs match_test expected
pinned_iff blocks runs match_test expected = (
  pinned-PinnedBy blocks runs match_test expected,
  PinnedBy-pinned blocks runs match_test expected,
)
