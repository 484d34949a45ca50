-- ===== src/Learning/Promotion/Gates.antt =====
-- What a promotion of learning/promote.py has checked, and what a refused one leaves alone.
use ayran.Prelude.{
  String, ◌≡◌, refl, inl, inr, Bool, true, false, not, List, [], ◌∷◌, ◌++◌, arith, ltb, leb,
  if◌then◌else◌, Bool-cases, length, is_empty,
}
use ayran.Prelude.Text.{str_eq}
use ayran.Learning.Release.{
  Root, direct_mutation_denied, redaction_incomplete, fixtures_required, ablation_failed,
  promotion_denied, review_incomplete,
}
use ayran.Learning.Promotion.{
  reviews_for, independent_approvals, is_incomplete, is_clean, when, lacks_fixtures, gate_failures,
  metrics, ablation_passes, promoted, raised, with_fixtures, with_prior, at_stage, publish_with,
  judge, ablate, check_contamination, promote_candidate, Review, Stage, Candidate, Gate, Result,
  clean, fixtures_ready, contamination_checked, evaluated, rejected, two_independent_reviews,
  deterministic_generalization, positive_and_hard_negative_fixtures,
  no_sealed_holdout_contamination, provenance_rights, bounded_cost_gate,
}
use ayran.Learning.Promotion.Reviewers.{approvals-TwoApprove, TwoApprove}
use mathlib.Core.Path.{subst}

abbrev pub is_promoted : Result → Bool
is_promoted (promoted id s) = true
is_promoted (raised e gates s) = false

abbrev pub root_after : Result → Root
root_after (promoted id s) = s.root
root_after (raised e gates s) = s.root

-- What a promotion asks of the candidate and its reviews.
pub record Cleared (reviews : List Review) (c : Candidate) : Type 0 where
  pub redacted_fully : is_incomplete c.redaction ≡ false
  pub two_reviewers : TwoApprove (reviews_for c reviews)
  pub two_families : leb 2 (length c.project_families) ≡ true
  pub licensed : str_eq c.license_or_terms "" ≡ false
  pub bounded : c.bounded_cost ≡ true

is_empty-append :
    (xs ys : List Gate) → is_empty (xs ++ ys) ≡ true → (is_empty xs ≡ true) × (is_empty ys ≡ true)
is_empty-append [] ys h = (refl, h)
is_empty-append (x ∷ xs) ys h = absurd (ground arith)

not_given : (b : Bool) (g : Gate) → is_empty (when b g) ≡ true → b ≡ false
not_given true g h = absurd (ground arith)
not_given false g h = refl

no_failure :
    (few text fixtures tainted unlicensed costly : List Gate)
    → is_empty (few ++ text ++ fixtures ++ tainted ++ unlicensed ++ costly) ≡ true
    → (is_empty few ≡ true)
      × (is_empty text ≡ true)
      × (is_empty unlicensed ≡ true)
      × (is_empty costly ≡ true)
no_failure few text fixtures tainted unlicensed costly h =
    let (h5, f) = is_empty-append (few ++ text ++ fixtures ++ tainted ++ unlicensed) costly h in
    let (h4, e) = is_empty-append (few ++ text ++ fixtures ++ tainted) unlicensed h5 in
    let (h3, d) = is_empty-append (few ++ text ++ fixtures) tainted h4 in
    let (h2, c) = is_empty-append (few ++ text) fixtures h3 in
    let (a, b) = is_empty-append few text h2 in (a, b, e, f)

families : (c : Candidate) → ablation_passes c ≡ true → leb 2 (length c.project_families) ≡ true
unfolding ablation_passes metrics
families c a = ground arith

cleared :
    (c : Candidate) (reviews : List Review)
    → is_empty (gate_failures c reviews) ≡ true
    → ablation_passes c ≡ true
    → Cleared reviews c
unfolding gate_failures
cleared c reviews h a =
    let few_approvals = ltb (length (independent_approvals c reviews)) 2 in
    let unlicensed = str_eq c.license_or_terms "" in
    let (no_few, no_text, no_unlicensed, no_costly) =
      no_failure (when few_approvals two_independent_reviews)
        (when (is_incomplete c.redaction) deterministic_generalization)
        (when (lacks_fixtures c) positive_and_hard_negative_fixtures)
        (when (not (is_clean c.contamination)) no_sealed_holdout_contamination)
        (when unlicensed provenance_rights) (when (not c.bounded_cost) bounded_cost_gate) h in
    let few = not_given few_approvals two_independent_reviews no_few in
    let costly = not_given (not c.bounded_cost) bounded_cost_gate no_costly in
    record {
      redacted_fully = not_given (is_incomplete c.redaction) deterministic_generalization no_text;
      two_reviewers = approvals-TwoApprove c reviews (ground (arith, few));
      two_families = families c a;
      licensed = not_given unlicensed provenance_rights no_unlicensed;
      bounded = ground (arith, costly);
    }

judge_passed :
    (id : String) (reviews : List Review) (c : Candidate) (root : Root)
    → is_promoted (judge id reviews c root) ≡ true
    → is_empty (gate_failures c reviews) ≡ true
unfolding judge
judge_passed id reviews c root h =
    elim (is_empty (gate_failures c reviews))
        as (λ b.
          is_promoted (
              if not b
              then raised promotion_denied (gate_failures c reviews)
                  (record { candidate_now = at_stage rejected c; root = root })
              else if ltb (length (independent_approvals c reviews)) 2
              then raised review_incomplete [] (record { candidate_now = c; root = root })
              else publish_with id c root (with_prior root))
            ≡ true
          → b ≡ true) [ true ↦ λ g. refl | false ↦ λ g. absurd (ground arith) ]
      h

-- The last two steps look at a candidate whose stage they have set.
restaged :
    (reviews : List Review) (c : Candidate) (s : Stage)
    → Cleared reviews (at_stage s c)
    → Cleared reviews c
unfolding independent_approvals reviews_for
restaged reviews c s k = record {
  redacted_fully = k.redacted_fully;
  two_reviewers = k.two_reviewers;
  two_families = k.two_families;
  licensed = k.licensed;
  bounded = k.bounded;
}

ablate_passed :
    (id : String) (reviews : List Review) (c : Candidate) (root : Root)
    → is_promoted (ablate id reviews c root) ≡ true
    → Cleared reviews c
unfolding ablate ablation_passes metrics
ablate_passed id reviews c root h = elim (Bool-cases (ablation_passes c)) [
  | inl passes ↦ restaged reviews c evaluated (
      cleared (at_stage evaluated c) reviews
        (judge_passed id reviews (at_stage evaluated c) root (
          subst
            (λ b.
              is_promoted (
                if b
                then judge id reviews (at_stage evaluated c) root
                else raised ablation_failed []
                    (record { candidate_now = at_stage rejected c; root = root }))
              ≡ true)
            passes h))
        passes)
  | inr fails ↦ absurd (ground (arith, fails))
]

checked_passed :
    (id : String) (reviews : List Review) (overlaps : Bool) (c : Candidate) (root : Root)
    → is_promoted (check_contamination id reviews overlaps c root) ≡ true
    → (overlaps ≡ false) × Cleared reviews c
unfolding check_contamination independent_approvals reviews_for
checked_passed id reviews true c root h = absurd (ground arith)
checked_passed id reviews false c root h =
    let k =
      ablate_passed id reviews (record c { contamination = clean; stage = contamination_checked })
        root h in
    (
      refl,
      record {
        redacted_fully = k.redacted_fully;
        two_reviewers = k.two_reviewers;
        two_families = k.two_families;
        licensed = k.licensed;
        bounded = k.bounded;
      },
    )

readied :
    (lacking : Bool) (positive negative : String) (reviews : List Review) (c : Candidate)
    → Cleared reviews (
        if lacking
        then record c {
          positive_test_fixtures = positive ∷ [];
          hard_negatives = negative ∷ [];
          stage = fixtures_ready;
        }
        else c)
    → Cleared reviews c
unfolding independent_approvals reviews_for
readied true positive negative reviews c k = record {
  redacted_fully = k.redacted_fully;
  two_reviewers = k.two_reviewers;
  two_families = k.two_families;
  licensed = k.licensed;
  bounded = k.bounded;
}
readied false positive negative reviews c k = k

promoted_tests :
    (global text lacking : Bool) (a b d x : Result)
    → is_promoted a ≡ false
    → is_promoted b ≡ false
    → is_promoted d ≡ false
    → is_promoted (if global then a else if text then b else if lacking then d else x) ≡ true
    → (global ≡ false) × (is_promoted x ≡ true)
promoted_tests true text lacking a b d x p q r h = cc
promoted_tests false true lacking a b d x p q r h = cc
promoted_tests false false true a b d x p q r h = cc
promoted_tests false false false a b d x p q r h = (refl, h)

-- A candidate that is promoted comes from a store outside the Global namespace, overlaps no sealed
-- holdout, has its secrets redacted, approvals by two different reviewers among those whose reviews are loaded for
-- it, two project families, license terms and a bounded cost.
pub promoted_Cleared :
    (fixture_id : String → String → String) (release_id : String) (global : Bool)
    (reviews : List Review) (overlaps : Bool) (c : Candidate) (root : Root)
    → is_promoted (promote_candidate fixture_id release_id global reviews overlaps c root) ≡ true
    → (global ≡ false) × (overlaps ≡ false) × Cleared reviews c
unfolding promote_candidate with_fixtures
promoted_Cleared fixture_id release_id global reviews overlaps c root h =
    let ready = with_fixtures fixture_id c in
    let (local, through) =
      promoted_tests global (is_incomplete c.redaction) (lacks_fixtures ready)
        (raised direct_mutation_denied [] (record { candidate_now = c; root = root }))
        (raised redaction_incomplete [] (record { candidate_now = c; root = root }))
        (raised fixtures_required [] (record { candidate_now = ready; root = root }))
        (check_contamination release_id reviews overlaps ready root) refl refl refl h in
    let (apart, k) = checked_passed release_id reviews overlaps ready root through in
    (
      local,
      apart,
      readied (lacks_fixtures c) (fixture_id c.candidate_id "positive")
          (fixture_id c.candidate_id "hard_negative") reviews c k,
    )
