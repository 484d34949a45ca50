-- ===== src/Policy/Scope.antt =====
-- skills/ayran/src/ayran/policy/scope.py: `ScopeManifest` and its deny-wins `evaluate`. The contract
-- validation (a JSON schema library) is a parameter, the canonical hash of the manifest is a field,
-- and a set of texts is the list of its members.
pub mod DenyWins
pub mod Spelling
use ayran.Prelude.{
  ℕ, String, Bool, true, false, not, ◌&&◌, ◌||◌, List, [], ◌∷◌, if◌then◌else◌, any, is_empty,
}
use ayran.Prelude.Text.{Text, le_text, elem, str_eq}
use ayran.Policy.Path.{◌>>=◌, normalize_rel, covers, Checked, contract_invalid, ok, raised}

-- `_ACTION_ENUM`.
abbrev pub action_enum : List String
action_enum =
    "read_source" ∷ "read_spec" ∷ "graph_read" ∷ "graph_write" ∷ "compile_local" ∷ "test_local"
    ∷ "fuzz_local" ∷ "read_only_rpc" ∷ "approved_api_query" ∷ "render_local_report" ∷ []

-- The actions whose resource is a path of the target.
abbrev pub path_actions : List String
path_actions =
    "read_source" ∷ "read_spec" ∷ "compile_local" ∷ "test_local" ∷ "fuzz_local"
    ∷ "render_local_report" ∷ []

unfoldable pub is_action : String → Bool
is_action action = elem action action_enum

unfoldable pub is_path_action : String → Bool
is_path_action action = elem action path_actions

pub data Effect : Type 0 where
  deny allow : Effect

pub record Rule : Type 0 where
  pub rule_id : String
  pub action : String
  pub resource : Text
  pub effect : Effect

-- The fields of the JSON manifest that the checks read.
pub record Document : Type 0 where
  pub deny_overrides : Bool
  pub revision : ℕ
  pub hash : String
  pub included_roots : List Text
  pub excluded_roots : List Text
  pub write_roots : List Text
  pub allowed_hosts : List Text
  pub allowed_endpoints : List Text
  pub approval_rules : List String
  pub rules : List Rule
  pub valid_from : Text
  pub valid_until : Text

pub record ScopeManifest : Type 0 where
  pub document : Document
  pub open document use {
    revision, hash, allowed_hosts, allowed_endpoints, approval_rules, rules, valid_from,
    valid_until,
  }
  pub included : List Text
  pub excluded : List Text
  pub writable : List Text

-- `{_normalize_rel(root) for root in roots}`.
normalize_all : List Text → Checked (List Text)
normalize_all [] = ok []
normalize_all (root ∷ roots) = do r ← normalize_rel root; rs ← normalize_all roots; ok (r ∷ rs)

-- `ScopeManifest.__init__`, where the contract check says whether the document is valid.
unfoldable pub load : (Document → Bool) → Document → Checked ScopeManifest
unfolding normalize_all
load is_contract d =
    if not (is_contract d)
    then raised contract_invalid
    else if not d.deny_overrides
    then raised contract_invalid
    else do
      i ← normalize_all d.included_roots
      e ← normalize_all d.excluded_roots
      w ← normalize_all d.write_roots
      ok (record { document = d; included = i; excluded = e; writable = w })

unfoldable pub temporally_valid : ScopeManifest → Text → Bool
unfolding le_text
temporally_valid m now = le_text m.valid_from now && le_text now m.valid_until

-- The roots of `_resource_under_roots` against a normal path; the empty root covers everything.
unfoldable pub under_roots : Text → List Text → Bool
unfolding covers
under_roots path roots = any (λ root. is_empty root || covers root path) roots

pub data Reason : Type 0 where
  unknown_action : Reason
  interval_elapsed : Reason
  denied_by : String → Reason
  no_allow_rule : Reason
  outside_included : Reason
  under_excluded : Reason
  allowed_reason : Reason
  host_not_allowed : Reason
  endpoint_not_allowed : Reason

-- `ScopeDecision`; the hash and the revision are those of the manifest.
pub record ScopeDecision : Type 0 where
  pub action : String
  pub resource : Text
  pub allowed : Bool
  pub reason : Reason
  pub scope_hash : String
  pub scope_revision : ℕ

-- What the loop over the rules leaves behind.
pub data Verdict : Type 0 where
  denied : String → Verdict
  tally : Bool → Verdict

-- `pattern and not (resource == pattern or resource.startswith(pattern + "/"))`, negated.
unfoldable pub rule_covers : Text → Text → Bool
unfolding covers
rule_covers pattern resource = is_empty pattern || covers pattern resource

-- The loop over the rules. A deny rule that matches ends it.
unfoldable pub match_rules : String → Text → List Rule → Bool → Checked Verdict
match_rules action resource [] allowed = ok (tally allowed)
match_rules action resource (r ∷ rs) allowed =
    let rest = match_rules action resource rs allowed in
    let rest_allowed = match_rules action resource rs true in
    if not (str_eq r.action action) then rest else (do
      pattern ← normalize_rel r.resource
      if not (rule_covers pattern resource)
          then rest
          else elim r.effect [ deny ↦ ok (denied r.rule_id) | allow ↦ rest_allowed ])

-- `evaluate`; a resource that is no relative path raises.
unfoldable pub evaluate : ScopeManifest → String → Text → Text → Checked ScopeDecision
evaluate m action resource now =
    let decide : Bool → Reason → Checked ScopeDecision = λ allowed reason. ok (record {
      action = action;
      resource = resource;
      allowed = allowed;
      reason = reason;
      scope_hash = m.hash;
      scope_revision = m.revision;
    }) in
    if not (is_action action)
    then decide false unknown_action
    else if not (temporally_valid m now)
    then decide false interval_elapsed
    else (match_rules action resource m.rules false >>= λ verdict. elim verdict [
      | denied rule_id ↦ decide false (denied_by rule_id)
      | tally allowed ↦
          if not allowed
          then decide false no_allow_rule
          else if not (is_path_action action)
          then decide true allowed_reason
          else (normalize_rel resource >>= λ path.
              if not (under_roots path m.included)
              then decide false outside_included
              else if under_roots path m.excluded
              then decide false under_excluded
              else decide true allowed_reason)
    ])
