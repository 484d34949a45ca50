-- ===== src/Policy/Permissions/FailClosed.antt =====
-- What `authorize` of permissions.py can permit.
use ayran.Prelude.{
  String, ◌≡◌, refl, ◌⊎◌, inl, inr, Bool, true, false, not, Option, none, some, arith, Option-cases,
  every,
}
use ayran.Prelude.Text.{Text, lookup-every, eq_iff}
use ayran.Policy.Path.{ok}
use ayran.Policy.Scope.{is_action, evaluate, ScopeManifest, ScopeDecision}
use ayran.Policy.Scope.DenyWins.{permitted, Checked-cases, evaluate-permitted}
use ayran.Policy.Permissions.{
  class_matrix, classify, host_of, shut_out, or_root, network_check, decide, human, free,
  controlled, authorize, Authority, AuthorityDecision, forbidden, explicit_human, policy_controlled,
  autonomous, forbidden_action,
}

-- No action that wants an explicit human approval is one that the scope knows.
abbrev human_unknown : String → Authority → Bool
human_unknown action authority = elim authority [
  | explicit_human ↦ not (is_action action)
  | _ ↦ true
]

human-unknown : every (λ e. human_unknown e.0 e.1) class_matrix ≡ true
unfolding is_action
human-unknown = refl

classify-human :
    (action : String) → classify action ≡ some explicit_human → is_action action ≡ false
classify-human action h =
    let tested =
      lookup-every human_unknown action class_matrix {v = explicit_human} human-unknown
        (unfold classify in h) in
    not_true (is_action action) tested
  where
    not_true : (b : Bool) → not b ≡ true → b ≡ false
    not_true b e = ground arith

unknown-refused :
    (m : ScopeManifest) (action : String) (resource now : Text) {d : ScopeDecision}
    → is_action action ≡ false
    → evaluate m action resource now ≡ ok d
    → d.allowed ≡ false
unfolding evaluate
unknown-refused m action resource now u h = ground arith

human-refused :
    (scope : Option ScopeManifest) (action : String) (resource : Text) (approved : Bool)
    (now : Text) (d : AuthorityDecision)
    → is_action action ≡ false
    → human scope action resource approved now ≡ ok d
    → d.permitted ≡ false
unfolding human
human-refused none action resource approved now d u h = ground arith
human-refused (some m) action resource approved now d u h =
    elim (Checked-cases (evaluate m action (or_root resource) now)) [
      | inl (e, k) ↦ ground (arith, unknown-refused m action (or_root resource) now {d = e} u k)
      | inr (x, k) ↦ ground arith
    ]

-- An action of the classes for explicit human approval is never permitted: not with a manifest that
-- declares it and an approval at hand, since the scope check knows none of these actions.
pub human_never_permitted :
    (scope : Option ScopeManifest) (offline : Bool) (action : String) (resource : Text)
    (approved : Bool) (now : Text) (d : AuthorityDecision)
    → classify action ≡ some explicit_human
    → authorize scope offline action resource approved now ≡ ok d
    → d.permitted ≡ false
unfolding authorize
human_never_permitted scope offline action resource approved now d c h =
    human-refused scope action resource approved now d (classify-human action c)
      (rw (c, authorize) at h)

network_check-allowed :
    (m : ScopeManifest) (action : String) (resource : Text) (e : ScopeDecision)
    → (network_check m action resource e).allowed ≡ true
    → (e.allowed ≡ true)
      × ((action ≡ "approved_api_query") → shut_out (host_of resource) m.allowed_hosts ≡ false)
      × ((action ≡ "read_only_rpc") → shut_out resource m.allowed_endpoints ≡ false)
unfolding network_check
network_check-allowed m action resource e h = (
  ground arith,
  (λ q. ground (arith, eq_iff action "approved_api_query")),
  (λ q. ground (arith, eq_iff action "read_only_rpc")),
)

-- What a permission rests on: the scope permits the action on the resource, and a policy-controlled
-- action is online and on a host or an endpoint of the lists, where there are any.
pub record Permission (offline : Bool) (m : ScopeManifest) (action : String) (resource now : Text)
    : Type 0 where
  pub scoped : permitted m action (or_root resource) now ≡ true
  pub online : classify action ≡ some policy_controlled → offline ≡ false
  pub hosts :
      classify action ≡ some policy_controlled
      → action ≡ "approved_api_query"
      → shut_out (host_of resource) m.allowed_hosts ≡ false
  pub endpoints :
      classify action ≡ some policy_controlled
      → action ≡ "read_only_rpc"
      → shut_out resource m.allowed_endpoints ≡ false

module _ (offline : Bool) (action : String) (resource now : Text) (d : AuthorityDecision)
    (p : d.permitted ≡ true) where
  free-Permission :
      (m : ScopeManifest)
      → classify action ≡ some autonomous
      → free (some m) action resource now ≡ ok d
      → Permission offline m action resource now
  unfolding free
  free-Permission m c h = elim (Checked-cases (evaluate m action (or_root resource) now)) [
    | inl (e, k) ↦
        let as_permitted = evaluate-permitted m action (or_root resource) now e k in
        record {
          scoped = ground arith;
          online = λ q. absurd (ground arith);
          hosts = λ q. absurd (ground arith);
          endpoints = λ q. absurd (ground arith);
        }
    | inr (x, k) ↦ absurd (ground arith)
  ]

  controlled-parts :
      (m : ScopeManifest) (e : ScopeDecision)
      → evaluate m action (or_root resource) now ≡ ok e
      → controlled (some m) offline action resource now ≡ ok d
      → (e.allowed ≡ true)
        × (offline ≡ false)
        × ((network_check m action resource e).allowed ≡ true)
  unfolding controlled
  controlled-parts m e k h = ground arith

  controlled-Permission :
      (m : ScopeManifest)
      → controlled (some m) offline action resource now ≡ ok d
      → Permission offline m action resource now
  controlled-Permission m h = elim (Checked-cases (evaluate m action (or_root resource) now)) [
    | inl (e, k) ↦
        let as_permitted = evaluate-permitted m action (or_root resource) now e k in
        let (allowed, online, net) = controlled-parts m e k h in
        let (_, hosts, endpoints) = network_check-allowed m action resource e net in
        record {
          scoped = ground arith;
          online = λ q. online;
          hosts = λ q. hosts;
          endpoints = λ q. endpoints;
        }
    | inr (x, k) ↦ absurd (unfold controlled in ground arith)
  ]

by_class :
    (scope : Option ScopeManifest) (offline : Bool) (action : String) (resource : Text)
    (approved : Bool) (now : Text) (d : AuthorityDecision) (class : Authority)
    → classify action ≡ some class
    → authorize scope offline action resource approved now ≡ ok d
    → d.permitted ≡ true
    → (m : ScopeManifest) × (scope ≡ some m)
      × ((classify action ≡ some autonomous) ⊎ (classify action ≡ some policy_controlled))
      × Permission offline m action resource now
unfolding authorize
by_class scope offline action resource approved now d forbidden c h p =
    absurd (refused (rw (c, authorize) at h))
  where
    refused : ok (decide action forbidden false forbidden_action none) ≡ ok d → ⊥
    refused e = ground arith
by_class scope offline action resource approved now d explicit_human c h p =
    absurd
      (true_and_false p (human_never_permitted scope offline action resource approved now d c h))
  where
    true_and_false : {b : Bool} → b ≡ true → b ≡ false → ⊥
    true_and_false e f = cc
by_class none offline action resource approved now d autonomous c h p =
    absurd (unfold authorize free in ground arith)
by_class (some m) offline action resource approved now d autonomous c h p =
    (m, refl, inl c, free-Permission offline action resource now d p m c (rw (c, authorize) at h))
by_class none offline action resource approved now d policy_controlled c h p =
    absurd (unfold authorize controlled in ground arith)
by_class (some m) offline action resource approved now d policy_controlled c h p = (
  m,
  refl,
  inr c,
  controlled-Permission offline action resource now d p m (rw (c, authorize) at h),
)

-- A permission needs a loaded manifest and an action of the autonomous or the policy-controlled
-- class, and rests on what `Permission` lists: without all of these `authorize` fails closed.
pub authorize_sound :
    (scope : Option ScopeManifest) (offline : Bool) (action : String) (resource : Text)
    (approved : Bool) (now : Text) (d : AuthorityDecision)
    → authorize scope offline action resource approved now ≡ ok d
    → d.permitted ≡ true
    → (m : ScopeManifest) × (scope ≡ some m)
      × ((classify action ≡ some autonomous) ⊎ (classify action ≡ some policy_controlled))
      × Permission offline m action resource now
authorize_sound scope offline action resource approved now d h p =
    elim (Option-cases (classify action)) [
      | inl e ↦ absurd (unfold authorize in ground arith)
      | inr (class, e) ↦ by_class scope offline action resource approved now d class e h p
    ]
