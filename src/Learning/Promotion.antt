-- ===== src/Learning/Promotion.antt =====
-- `promote_candidate` of skills/ayran/src/ayran/learning/promote.py, with the fixtures, the
-- contamination status and the ablation that it runs first. Whether the candidate overlaps a sealed
-- holdout is an argument; the ablation's rates, which are constants, are written in hundredths.
pub mod Gates
pub mod Reviewers
use ayran.Prelude.{
  ℕ, ◌+◌, ◌*◌, ◌/◌, max, String, Bool, true, false, not, ◌&&◌, ◌||◌, Option, none, some, List, [],
  ◌∷◌, ◌++◌, map, ltb, leb, if◌then◌else◌, length, any, keep, is_empty,
}
use ayran.Prelude.Text.{insert, str_eq}
use ayran.Learning.Release.{
  id_of, publish_release, Root, Code, direct_mutation_denied, redaction_incomplete,
  fixtures_required, contamination_blocked, ablation_failed, promotion_denied, review_incomplete,
  release_unavailable,
}

pub data ReviewerType : Type 0 where
  human independent_agent : ReviewerType

pub data ReviewVerdict : Type 0 where
  approve reject needs_revision : ReviewVerdict

pub record Review : Type 0 where
  pub candidate : String
  pub reviewer_id : String
  pub reviewer_type : ReviewerType
  pub verdict : ReviewVerdict

pub data Redaction : Type 0 where
  clean_text redacted incomplete : Redaction

pub data Contamination : Type 0 where
  clean overlap unknown : Contamination

-- `PromotionStage`, the stages that a promotion sets.
pub data Stage : Type 0 where
  generalized fixtures_ready contamination_checked evaluated released rejected : Stage

-- The fields of `LearningCandidate` that a promotion reads or sets.
pub record Candidate : Type 0 where
  pub candidate_id : String
  pub outcome_ref : String
  pub positive_test_fixtures : List String
  pub hard_negatives : List String
  pub redaction : Redaction
  pub contamination : Contamination
  pub stage : Stage
  pub adjudicated : Bool
  pub project_families : List String
  pub license_or_terms : String
  pub bounded_cost : Bool

abbrev pub is_approval : ReviewVerdict → Bool
is_approval approve = true
is_approval _ = false

abbrev pub of_candidate : String → List Review → List Review
of_candidate id reviews = keep (λ r. str_eq r.candidate id) reviews

-- `load_reviews`: an empty identifier loads the reviews of every candidate.
abbrev pub load_reviews : String → List Review → List Review
load_reviews id reviews = if str_eq id "" then reviews else of_candidate id reviews

-- The reviews of the candidate, or of its outcome where there are none.
unfoldable pub reviews_for : Candidate → List Review → List Review
reviews_for c reviews =
    let own = load_reviews c.candidate_id reviews in
    if is_empty own then load_reviews c.outcome_ref reviews else own

-- The dict `unique`: the type that each approving reviewer gave last.
unfoldable pub approvers : List (String × ReviewerType) → List Review → List (String × ReviewerType)
unfolding insert
approvers known [] = known
approvers known (r ∷ rs) =
    approvers (if is_approval r.verdict then insert r.reviewer_id r.reviewer_type known else known)
      rs

abbrev pub reviewers : List (String × ReviewerType) → List String
reviewers unique = map (λ e. e.0) unique

abbrev pub is_human : ReviewerType → Bool
is_human human = true
is_human independent_agent = false

-- `_independent_approvals`.
unfoldable pub independent_approvals : Candidate → List Review → List String
unfolding reviews_for approvers
independent_approvals c reviews =
    let unique = approvers [] (reviews_for c reviews) in
    let has_human = any (λ e. is_human e.1) unique in
    let has_agent = any (λ e. not (is_human e.1)) unique in
    if ltb (length unique) 2
    then reviewers unique
    else if has_human && (has_agent || has_human)
    then reviewers unique
    else reviewers unique

pub data Gate : Type 0 where
  two_independent_reviews deterministic_generalization positive_and_hard_negative_fixtures : Gate
  no_sealed_holdout_contamination held_out_improvement provenance_rights bounded_cost_gate : Gate

abbrev pub is_incomplete : Redaction → Bool
is_incomplete incomplete = true
is_incomplete _ = false

abbrev pub is_clean : Contamination → Bool
is_clean clean = true
is_clean _ = false

abbrev pub when : Bool → Gate → List Gate
when b g = if b then g ∷ [] else []

abbrev pub lacks_fixtures : Candidate → Bool
lacks_fixtures c = is_empty c.positive_test_fixtures || is_empty c.hard_negatives

-- `_gate_failures`.
unfoldable pub gate_failures : Candidate → List Review → List Gate
unfolding independent_approvals
gate_failures c reviews =
    when (ltb (length (independent_approvals c reviews)) 2) two_independent_reviews
    ++ when (is_incomplete c.redaction) deterministic_generalization
    ++ when (lacks_fixtures c) positive_and_hard_negative_fixtures
    ++ when (not (is_clean c.contamination)) no_sealed_holdout_contamination
    ++ when (str_eq c.license_or_terms "") provenance_rights
    ++ when (not c.bounded_cost) bounded_cost_gate

-- `_metrics`: the retrieval rate and the precision, in hundredths.
unfoldable pub metrics : Candidate → Bool → ℕ × ℕ
metrics c enabled =
    if enabled && leb 2 (max 1 (length c.project_families)) && not (lacks_fixtures c)
    then (40 + 12, 70 + 2)
    else (40, 70)

-- `run_ablation`: a relative gain of a tenth with at most a twentieth of the precision lost, or any
-- gain at all where the candidate has a safety value.
unfoldable pub ablation_passes : Candidate → Bool
unfolding metrics
ablation_passes c =
    let (base, base_precision) = metrics c false in
    let (treated, precision) = metrics c true in
    let families = leb 2 (max 1 (length c.project_families)) in
    let safety = not (is_empty c.hard_negatives) && is_clean c.contamination in
    (families && leb (base + base / 10) treated && leb (base_precision * 95) (precision * 100))
    || (safety && families && ltb base treated)

-- The state that a promotion works on.
pub record State : Type 0 where
  pub candidate_now : Candidate
  pub root : Root

pub data Result : Type 0 where
  promoted : String → State → Result
  raised : Code → List Gate → State → Result

-- `generate_fixtures`, where the candidate lacks them; `fixture_id` is the `content_id` of a fixture.
unfoldable pub with_fixtures : (String → String → String) → Candidate → Candidate
with_fixtures fixture_id c =
    if lacks_fixtures c
    then record c {
      positive_test_fixtures = fixture_id c.candidate_id "positive" ∷ [];
      hard_negatives = fixture_id c.candidate_id "hard_negative" ∷ [];
      stage = fixtures_ready;
    }
    else c

abbrev pub baseline_id : String
baseline_id = "ayran-learning-baseline-v1"

-- The root with a current release, and that release: the baseline is published where there is none.
abbrev pub with_prior : Root → Option (String × Root)
with_prior root =
    let prior = id_of root.current in
    if str_eq prior ""
    then elim (publish_release baseline_id
        (record { candidates = []; prior_pointer = ""; rollback_pointer = baseline_id }) true
        root) [ none ↦ none | some root' ↦ some (baseline_id, root') ]
    else some (prior, root)

abbrev pub at_stage : Stage → Candidate → Candidate
at_stage s c = record c { stage = s }

-- What follows the gates: the routing policy is written, the release published and made current.
abbrev pub publish_with : String → Candidate → Root → Option (String × Root) → Result
publish_with release_id c before none =
    raised release_unavailable [] (record { candidate_now = c; root = before })
publish_with release_id c before (some (prior, root)) =
    let routed = record root { routing = c.candidate_id ∷ [] } in
    elim (publish_release release_id
      (record { candidates = c.candidate_id ∷ []; prior_pointer = prior; rollback_pointer = prior })
      true routed) [
        | none ↦ raised release_unavailable [] (record { candidate_now = c; root = routed })
        | some published ↦ promoted release_id (record {
          candidate_now = record c { stage = released; adjudicated = true };
          root = published;
        })
      ]

-- The gates of a candidate whose ablation has passed, then the publication.
unfoldable pub judge : String → List Review → Candidate → Root → Result
unfolding gate_failures publish_release
judge release_id reviews c root =
    let failures = gate_failures c reviews in
    if not (is_empty failures)
    then raised promotion_denied failures
        (record { candidate_now = at_stage rejected c; root = root })
    else if ltb (length (independent_approvals c reviews)) 2
    then raised review_incomplete [] (record { candidate_now = c; root = root })
    else publish_with release_id c root (with_prior root)

unfoldable pub ablate : String → List Review → Candidate → Root → Result
unfolding judge ablation_passes
ablate release_id reviews c root =
    if ablation_passes c
    then judge release_id reviews (at_stage evaluated c) root
    else raised ablation_failed [] (record { candidate_now = at_stage rejected c; root = root })

-- `contamination_check`, then the rest.
unfoldable pub check_contamination : String → List Review → Bool → Candidate → Root → Result
unfolding ablate
check_contamination release_id reviews overlaps c root =
    if overlaps
    then raised contamination_blocked [] (record {
      candidate_now = record c { contamination = overlap; stage = rejected };
      root = root;
    })
    else ablate release_id reviews
        (record c { contamination = clean; stage = contamination_checked }) root

-- `promote_candidate`; `release_id` is the `content_id` of the release, `global` whether the store
-- holds the Global namespace.
unfoldable pub promote_candidate :
    (String → String → String) → String → Bool → List Review → Bool → Candidate → Root → Result
unfolding with_fixtures check_contamination
promote_candidate fixture_id release_id global reviews overlaps c root =
    let ready = with_fixtures fixture_id c in
    if global
    then raised direct_mutation_denied [] (record { candidate_now = c; root = root })
    else if is_incomplete c.redaction
    then raised redaction_incomplete [] (record { candidate_now = c; root = root })
    else if lacks_fixtures ready
    then raised fixtures_required [] (record { candidate_now = ready; root = root })
    else check_contamination release_id reviews overlaps ready root
