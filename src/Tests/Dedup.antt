-- ===== src/Tests/Dedup.antt =====
-- A candidate among three other items: itself, a variant, and a duplicate.
use ayran.Prelude.{String, ◌≡◌, refl, none, some, List, [], ◌∷◌, map, any, keep}
use ayran.Evidence.Dedup.{classify_pair, check_duplicates, Item, variant}
use ayran.Evidence.Dedup.Reported.{
  is_other, doubles, modifies, right_of, status_by, check_duplicates-Reported,
}

abbrev item : String → String → String → Item
item name root graph = record {
  hypothesis_id = some name;
  span_key = "";
  known_issue = "";
  root_key = root;
  graph_key = graph;
  impact_key = "theft|abc";
  claim_tokens = "rounding" ∷ name ∷ [];
}

abbrev candidate : Item
candidate = item "hyp_1" "rounding" "deposit|withdraw"

abbrev others : List Item
others =
    candidate ∷ item "hyp_2" "rounding" "donate" ∷ item "hyp_3" "rounding" "deposit|withdraw" ∷ []

-- An item without an identifier, met first, hides a duplicate behind it.
hidden :
    (check_duplicates candidate (
      record {
        hypothesis_id = none;
        span_key = "";
        known_issue = "";
        root_key = "rounding";
        graph_key = "deposit|withdraw";
        impact_key = "theft|abc";
        claim_tokens = [];
      }
      ∷ others)).0
    ≡ variant
unfolding check_duplicates
hidden = refl

check_duplicates-Reported_example :
    ((check_duplicates candidate others).0
      ≡ status_by (any (doubles candidate) others) (any (modifies candidate) others))
    × ((check_duplicates candidate others).1.variants
        ≡ map (right_of candidate) (keep (modifies candidate) others))
    × ((check_duplicates candidate others).1.comparisons
        ≡ map (classify_pair candidate) (keep (is_other candidate) others))
check_duplicates-Reported_example = check_duplicates-Reported candidate others refl
