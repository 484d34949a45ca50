-- ===== src/Tests/Policy.antt =====
-- The scope and permission checks of skills/ayran/src/ayran/policy on one manifest.
use ayran.Prelude.{◌≡◌, refl, ◌⊎◌, true, false, none, some, [], ◌∷◌}
use ayran.Prelude.Text.{codes, Text, le_text}
use ayran.Policy.Path.{normalize_rel, covers, Checked, scope_denied, ok, raised}
use ayran.Policy.Scope.{
  is_action, is_path_action, temporally_valid, under_roots, rule_covers, match_rules, evaluate,
  Rule, ScopeManifest, ScopeDecision, deny, allow, denied_by,
}
use ayran.Policy.Scope.DenyWins.{permitted, evaluate-permitted}
use ayran.Policy.Permissions.{
  classify, network_check, authorize, AuthorityDecision, forbidden, policy_controlled, autonomous,
  unknown_class,
}
use ayran.Policy.Permissions.FailClosed.{human_never_permitted, authorize_sound, Permission}

normalize_rel_tests :
    (normalize_rel (codes "src/./lib/../core") ≡ ok (codes "src/core"))
    × (normalize_rel (codes " src\\a ") ≡ ok (codes "src/a"))
    × (normalize_rel (codes ".") ≡ ok [])
    × (normalize_rel (codes "a/../../b") ≡ raised scope_denied)
    × (normalize_rel (codes "/etc") ≡ raised scope_denied)
unfolding normalize_rel
normalize_rel_tests = (refl, refl, refl, refl, refl)

abbrev rule_one : Rule
rule_one = record { rule_id = "r1"; action = "read_source"; resource = codes "src"; effect = allow }

abbrev rule_two : Rule
rule_two = record {
  rule_id = "r2";
  action = "read_source";
  resource = codes "src/secret";
  effect = deny;
}

abbrev manifest_one : ScopeManifest
manifest_one = record {
  document = record {
    deny_overrides = true;
    revision = 3;
    hash = "sha256:aa";
    included_roots = codes "src" ∷ [];
    excluded_roots = [];
    write_roots = [];
    allowed_hosts = [];
    allowed_endpoints = [];
    approval_rules = [];
    rules = rule_one ∷ rule_two ∷ [];
    valid_from = codes "2026-01-01";
    valid_until = codes "2027-01-01";
  };
  included = codes "src" ∷ [];
  excluded = [];
  writable = [];
}

abbrev today : Text
today = codes "2026-06-01"

abbrev scope_decision_one : ScopeDecision
scope_decision_one = record {
  action = "read_source";
  resource = codes "src/secret/key";
  allowed = false;
  reason = denied_by "r2";
  scope_hash = "sha256:aa";
  scope_revision = 3;
}

evaluate-permitted_example :
    false ≡ permitted manifest_one "read_source" (codes "src/secret/key") today
unfolding evaluate is_action temporally_valid match_rules rule_covers covers normalize_rel le_text
evaluate-permitted_example =
    evaluate-permitted manifest_one "read_source" (codes "src/secret/key") today scope_decision_one
      refl

abbrev rule_root : Rule
rule_root = record { rule_id = "r0"; action = "read_source"; resource = codes "."; effect = allow }

abbrev declaring : ScopeManifest
declaring = record manifest_one {
  document = record manifest_one.document {
    approval_rules = "submission" ∷ [];
    rules = record rule_one { action = "submission"; resource = [] } ∷ [];
  };
}

abbrev decided : Checked AuthorityDecision → AuthorityDecision
decided (ok d) = d
decided (raised e) = record {
  action = "";
  authority = forbidden;
  permitted = false;
  ground = unknown_class;
  scope_decision = none;
}

human_never_permitted_example :
    (decided (authorize (some declaring) false "submission" [] true today)).permitted ≡ false
unfolding authorize classify evaluate is_action
human_never_permitted_example =
    human_never_permitted (some declaring) false "submission" [] true today
      (decided (authorize (some declaring) false "submission" [] true today)) refl refl

abbrev reading : Checked AuthorityDecision
reading = authorize (some manifest_one) true "read_source" (codes "src/Vault.sol") false today

authorize_sound_example :
    (m : ScopeManifest) × (some manifest_one ≡ some m)
    × ((classify "read_source" ≡ some autonomous)
        ⊎ (classify "read_source" ≡ some policy_controlled))
    × Permission true m "read_source" (codes "src/Vault.sol") today
unfolding authorize classify evaluate is_action temporally_valid match_rules rule_covers covers
    normalize_rel le_text network_check is_path_action under_roots
authorize_sound_example =
    authorize_sound (some manifest_one) true "read_source" (codes "src/Vault.sol") false today
      (decided reading) refl refl
