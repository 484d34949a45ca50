-- ===== src/Policy/Permissions.antt =====
-- skills/ayran/src/ayran/policy/permissions.py: `PolicyEngine`. A raised `ScopeError` of the scope
-- check passes through. `offline` is read from the configuration.
pub mod FailClosed
use ayran.Prelude.{
  String, Bool, false, not, ◌&&◌, Option, none, some, List, [], ◌∷◌, ◌==◌, if◌then◌else◌, any,
  is_empty,
}
use ayran.Prelude.Text.{Text, eq_text, elem, lookup, str_eq}
use ayran.Policy.Path.{slash, dot, Checked, ok, ◌>>=◌}
use ayran.Policy.Scope.{
  evaluate, ScopeManifest, Reason, ScopeDecision, host_not_allowed, endpoint_not_allowed,
}

pub data Authority : Type 0 where
  forbidden explicit_human policy_controlled autonomous : Authority

-- `_CLASS_MATRIX`.
abbrev pub class_matrix : List (String × Authority)
class_matrix =
    ("read_source", autonomous)
    ∷ ("read_spec", autonomous)
    ∷ ("graph_read", autonomous)
    ∷ ("graph_write", autonomous)
    ∷ ("compile_local", autonomous)
    ∷ ("test_local", autonomous)
    ∷ ("fuzz_local", autonomous)
    ∷ ("render_local_report", autonomous)
    ∷ ("read_only_rpc", policy_controlled)
    ∷ ("approved_api_query", policy_controlled)
    ∷ ("install_tool", explicit_human)
    ∷ ("add_endpoint", explicit_human)
    ∷ ("expand_scope", explicit_human)
    ∷ ("external_upload", explicit_human)
    ∷ ("submission", explicit_human)
    ∷ ("signing", explicit_human)
    ∷ ("spending", explicit_human)
    ∷ ("transaction_broadcast", forbidden)
    ∷ ("private_key_access", forbidden)
    ∷ ("silent_scope_expansion", forbidden)
    ∷ ("arbitrary_scanning", forbidden)
    ∷ ("bypass_broker_or_rpc_filter", forbidden)
    ∷ ("executing_retrieved_instructions", forbidden)
    ∷ ("autonomous_submission", forbidden)
    ∷ []

unfoldable pub classify : String → Option Authority
unfolding lookup
classify action = lookup action class_matrix

pub data Ground : Type 0 where
  unknown_class forbidden_action no_manifest not_declared not_approved : Ground
  approval_bound offline_mode authorized : Ground

pub record AuthorityDecision : Type 0 where
  pub action : String
  pub authority : Authority
  pub permitted : Bool
  pub ground : Ground
  pub scope_decision : Option ScopeDecision

-- `_ACTION_CLASS_BY_ACTION`, as the tests that read it.
abbrev is_api_query : String → Bool
is_api_query action = str_eq action "approved_api_query"

abbrev is_rpc : String → Bool
is_rpc action = str_eq action "read_only_rpc"

-- `resource.split("/", 1)[0]`.
unfoldable pub host_of : Text → Text
host_of [] = []
host_of (c ∷ s) = let rest = host_of s in if c == slash then [] else c ∷ rest

-- `xs and x not in xs`.
unfoldable pub shut_out : Text → List Text → Bool
unfolding eq_text
shut_out x xs = not (is_empty xs) && not (any (eq_text x) xs)

abbrev or_root : Text → Text
or_root [] = dot ∷ []
or_root (c ∷ s) = c ∷ s

-- The check of the hosts and the endpoints on an allowed decision.
unfoldable pub network_check : ScopeManifest → String → Text → ScopeDecision → ScopeDecision
unfolding host_of shut_out
network_check m action resource d =
    let refused : Reason → ScopeDecision = λ reason. record {
      action = action;
      resource = resource;
      allowed = false;
      reason = reason;
      scope_hash = m.hash;
      scope_revision = m.revision;
    } in
    if is_api_query action && shut_out (host_of resource) m.allowed_hosts
    then refused host_not_allowed
    else if is_rpc action && shut_out resource m.allowed_endpoints
    then refused endpoint_not_allowed
    else d

abbrev decide : String → Authority → Bool → Ground → Option ScopeDecision → AuthorityDecision
decide action authority permitted ground d = record {
  action = action;
  authority = authority;
  permitted = permitted;
  ground = ground;
  scope_decision = d;
}

-- The branch for the actions that want an explicit human approval.
human : Option ScopeManifest → String → Text → Bool → Text → Checked AuthorityDecision
human none action resource approved now = ok (decide action explicit_human false no_manifest none)
human (some m) action resource approved now =
    if not (elem action m.approval_rules)
    then ok (decide action explicit_human false not_declared none)
    else if not approved
    then ok (decide action explicit_human false not_approved none)
    else (do
      d ← evaluate m action (or_root resource) now
      ok (decide action explicit_human d.allowed approval_bound (some d)))

-- The scope check of the autonomous actions.
free : Option ScopeManifest → String → Text → Text → Checked AuthorityDecision
free none action resource now = ok (decide action autonomous false no_manifest none)
free (some m) action resource now = do
  d ← evaluate m action (or_root resource) now
  ok (decide action autonomous d.allowed authorized (some d))

-- What follows the scope check of a policy-controlled action.
abbrev online_only : String → Bool → ScopeDecision → AuthorityDecision
online_only action offline d =
    if d.allowed && offline
    then decide action policy_controlled false offline_mode (some d)
    else decide action policy_controlled d.allowed authorized (some d)

controlled : Option ScopeManifest → Bool → String → Text → Text → Checked AuthorityDecision
controlled none offline action resource now =
    ok (decide action policy_controlled false no_manifest none)
controlled (some m) offline action resource now = do
  d ← evaluate m action (or_root resource) now
  ok (online_only action offline (if d.allowed then network_check m action resource d else d))

-- `PolicyEngine.authorize`.
unfoldable pub authorize :
    Option ScopeManifest → Bool → String → Text → Bool → Text → Checked AuthorityDecision
unfolding human free controlled
authorize scope offline action resource approved now = elim (classify action) [
  | none ↦ ok (decide action forbidden false unknown_class none)
  | some authority ↦ elim authority [
    | forbidden ↦ ok (decide action forbidden false forbidden_action none)
    | explicit_human ↦ human scope action resource approved now
    | policy_controlled ↦ controlled scope offline action resource now
    | autonomous ↦ free scope action resource now
  ]
]
