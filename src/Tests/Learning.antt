-- ===== src/Tests/Learning.antt =====
-- The promotion and rollback of skills/ayran/src/ayran/learning on one candidate.
use ayran.Prelude.{String, ◌≡◌, refl, true, false, none, some, List, [], ◌∷◌, ◌++◌}
use ayran.Prelude.Text.{lookup, insert}
use ayran.Learning.Release.{is_published, publish_release, rollback, Manifest, Root}
use ayran.Learning.Release.Rollback.{is_sound, rollback-is_sound}
use ayran.Learning.Promotion.{
  reviews_for, approvers, independent_approvals, gate_failures, metrics, ablation_passes,
  with_fixtures, judge, ablate, check_contamination, promote_candidate, Review, Candidate, human,
  independent_agent, approve, redacted, unknown, generalized,
}
use ayran.Learning.Promotion.Gates.{promoted_Cleared, Cleared}
use ayran.Learning.Release.Immutable.{publish_keeps}

abbrev fixture : String → String → String
fixture id kind = kind

abbrev rollback_name : String → String → String
rollback_name release target = "rollback-1"

abbrev reviews_two : List Review
reviews_two =
    record { candidate = "cand-1"; reviewer_id = "alice"; reviewer_type = human; verdict = approve }
    ∷ record {
      candidate = "cand-1";
      reviewer_id = "agent-7";
      reviewer_type = independent_agent;
      verdict = approve;
    }
    ∷ []

abbrev candidate_one : Candidate
candidate_one = record {
  candidate_id = "cand-1";
  outcome_ref = "out-1";
  positive_test_fixtures = [];
  hard_negatives = [];
  redaction = redacted;
  contamination = unknown;
  stage = generalized;
  adjudicated = false;
  project_families = "lending" ∷ "bridge" ∷ [];
  license_or_terms = "internal";
  bounded_cost = true;
}

abbrev bare_root : Root
bare_root = record { releases = []; current = none; routing = [] }

promoted_Cleared_example : (false ≡ false) × (false ≡ false) × Cleared reviews_two candidate_one
unfolding promote_candidate with_fixtures check_contamination ablate ablation_passes metrics judge
    gate_failures independent_approvals reviews_for approvers publish_release is_published lookup
    insert
promoted_Cleared_example =
    promoted_Cleared fixture "rel-1" false reviews_two false candidate_one bare_root refl

abbrev released_root : Root
released_root = record {
  releases =
      (
        "ayran-learning-baseline-v1",
        record {
          candidates = [];
          prior_pointer = "";
          rollback_pointer = "ayran-learning-baseline-v1";
        },
      )
      ∷ (
        "rel-1",
        record {
          candidates = "cand-1" ∷ [];
          prior_pointer = "ayran-learning-baseline-v1";
          rollback_pointer = "ayran-learning-baseline-v1";
        },
      )
      ∷ [];
  current =
      some (record { release_id = "rel-1"; previous_release_id = "ayran-learning-baseline-v1" });
  routing = "cand-1" ∷ [];
}

rollback-sound_example : is_sound (rollback rollback_name "rel-1" released_root).1 ≡ true
unfolding is_sound is_published lookup
rollback-sound_example = rollback-is_sound rollback_name "rel-1" released_root refl

abbrev second_manifest : Manifest
second_manifest = record {
  candidates = "cand-2" ∷ [];
  prior_pointer = "rel-1";
  rollback_pointer = "rel-1";
}

abbrev baseline_manifest : Manifest
baseline_manifest = record {
  candidates = [];
  prior_pointer = "";
  rollback_pointer = "ayran-learning-baseline-v1";
}

abbrev twice_released : Root
twice_released = record released_root {
  releases = released_root.releases ++ ("rel-2", second_manifest) ∷ [];
  current = some (record { release_id = "rel-2"; previous_release_id = "rel-1" });
}

publish_keeps_example :
    lookup "ayran-learning-baseline-v1" twice_released.releases ≡ some baseline_manifest
unfolding publish_release is_published lookup insert
publish_keeps_example =
    publish_keeps "rel-2" "ayran-learning-baseline-v1" second_manifest baseline_manifest true
      released_root twice_released refl refl
