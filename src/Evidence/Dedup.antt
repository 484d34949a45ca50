-- ===== src/Evidence/Dedup.antt =====
-- The duplicate check of skills/ayran/src/ayran/evidence/dedup.py. An item carries what `_span_key`,
-- `_known_issue`, `_root_key`, `_graph_key`, `_impact_key` and `_tokens` make of its texts; a
-- similarity is kept as its two sizes, before it is divided and rounded.
pub mod Reported
use ayran.Prelude.{
  ℕ, ◌*◌, String, Bool, false, not, ◌&&◌, ◌||◌, Option, none, some, List, [], ◌∷◌, ◌++◌, leb,
  if◌then◌else◌, length, keep, is_empty,
}
use ayran.Prelude.Text.{elem, str_eq}

pub record Item : Type 0 where
  pub hypothesis_id : Option String
  pub span_key : String
  pub known_issue : String
  pub root_key : String
  pub graph_key : String
  pub impact_key : String
  pub claim_tokens : List String

pub data Level : Type 0 where
  no_level exact root_cause attack_graph impact_deployment semantic : Level

pub data Disposition : Type 0 where
  duplicate_known_issue variant unique : Disposition

pub record Comparison : Type 0 where
  pub level : Level
  pub disposition : Disposition
  pub semantic_similarity : ℕ × ℕ
  pub same_span : Bool
  pub same_known_issue : Bool
  pub same_root_cause : Bool
  pub same_attack_graph : Bool
  pub same_impact_deployment : Bool
  pub left_id : String
  pub right_id : String

-- `str(item.get("hypothesis_id"))`.
abbrev str_id : Option String → String
str_id (some i) = i
str_id none = "None"

-- `str(item.get("hypothesis_id") or "")`.
abbrev pub id_or_empty : Option String → String
id_or_empty (some i) = i
id_or_empty none = ""

-- `jaccard`, as the numbers of shared and of all tokens.
unfoldable pub jaccard : List String → List String → ℕ × ℕ
jaccard [] [] = (1, 1)
jaccard [] b = (0, 1)
jaccard a [] = (0, 1)
jaccard a b = (length (keep (λ t. elem t b) a), length (a ++ keep (λ t. not (elem t a)) b))

-- `semantic >= 0.92`.
abbrev pub is_similar : ℕ × ℕ → Bool
is_similar (shared, all) = leb (92 * all) (100 * shared)

-- The chain of tests of `classify_pair`.
unfoldable pub classify : Bool → Bool → Bool → Bool → Bool → Level × Disposition
classify is_exact root graph impact similar =
    if is_exact
    then (exact, duplicate_known_issue)
    else if root && graph && impact
    then (root_cause, duplicate_known_issue)
    else if root && not graph
    then (root_cause, variant)
    else if graph
    then (attack_graph, variant)
    else if impact && root
    then (impact_deployment, variant)
    else if similar
    then (semantic, unique)
    else (no_level, unique)

abbrev pub exact_span : Item → Item → Bool
exact_span left right = str_eq left.span_key right.span_key && not (str_eq left.span_key "")

abbrev pub exact_issue : Item → Item → Bool
exact_issue left right =
    not (str_eq left.known_issue "") && str_eq left.known_issue right.known_issue

abbrev pub same_root : Item → Item → Bool
same_root left right = str_eq left.root_key right.root_key

abbrev pub same_graph : Item → Item → Bool
same_graph left right = str_eq left.graph_key right.graph_key && not (str_eq left.graph_key "")

abbrev pub same_impact : Item → Item → Bool
same_impact left right = str_eq left.impact_key right.impact_key

unfoldable pub classify_pair : Item → Item → Comparison
unfolding jaccard classify
classify_pair left right =
    let similarity = jaccard left.claim_tokens right.claim_tokens in
    let decided =
      classify (exact_span left right || exact_issue left right) (same_root left right)
        (same_graph left right) (same_impact left right) (is_similar similarity) in
    record {
      level = decided.0;
      disposition = decided.1;
      semantic_similarity = similarity;
      same_span = exact_span left right;
      same_known_issue = exact_issue left right;
      same_root_cause = same_root left right;
      same_attack_graph = same_graph left right;
      same_impact_deployment = same_impact left right;
      left_id = id_or_empty left.hypothesis_id;
      right_id = id_or_empty right.hypothesis_id;
    }

pub record Found : Type 0 where
  pub comparisons : List Comparison
  pub duplicate_of : Option String
  pub variants : List String

-- `duplicate_of` after a pair: the first one stays.
abbrev pub first_duplicate : Disposition → String → Option String → Option String
first_duplicate duplicate_known_issue i none = some i
first_duplicate _ i known = known

abbrev pub with_variant : Disposition → String → List String → List String
with_variant variant i is = is ++ i ∷ []
with_variant _ i is = is

abbrev pub noted : Comparison → Found → Found
noted pair found = record {
  comparisons = found.comparisons ++ pair ∷ [];
  duplicate_of = first_duplicate pair.disposition pair.right_id found.duplicate_of;
  variants = with_variant pair.disposition pair.right_id found.variants;
}

abbrev pub same_id : Item → Item → Bool
same_id other candidate = str_eq (str_id other.hypothesis_id) (str_id candidate.hypothesis_id)

-- A turn of the loop of `check_duplicates`, which skips the candidate itself.
unfoldable pub turn : Item → Found → Item → Found
unfolding classify_pair
turn candidate found other =
    if same_id other candidate then found else noted (classify_pair candidate other) found

unfoldable pub check_others : Item → Found → List Item → Found
unfolding turn
check_others candidate found [] = found
check_others candidate found (other ∷ others) =
    check_others candidate (turn candidate found other) others

-- `if duplicate_of`.
abbrev pub named : Option String → Bool
named none = false
named (some i) = not (str_eq i "")

unfoldable pub status_of : Option String → List String → Disposition
status_of duplicate variants =
    if named duplicate
    then duplicate_known_issue
    else if not (is_empty variants)
    then variant
    else unique

-- `check_duplicates`: the status, and what the loop found.
unfoldable pub check_duplicates : Item → List Item → Disposition × Found
unfolding check_others status_of
check_duplicates candidate others =
    let found =
      check_others candidate (record { comparisons = []; duplicate_of = none; variants = [] })
        others in
    (status_of found.duplicate_of found.variants, found)
