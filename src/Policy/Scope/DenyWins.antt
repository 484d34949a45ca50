-- ===== src/Policy/Scope/DenyWins.antt =====
-- `evaluate` of scope.py against a description that has no order: the rules as a set.
use ayran.Prelude.{
  String, ◌≡◌, refl, ◌⊎◌, inl, inr, Bool, true, false, not, ◌&&◌, ◌||◌, List, [], ◌∷◌, arith,
  Bool-cases, any,
}
use ayran.Prelude.Text.{Text, str_eq}
use ayran.Policy.Path.{normalize_rel, Error, Checked, ok, raised}
use ayran.Policy.Scope.{
  is_action, is_path_action, temporally_valid, under_roots, denied, tally, rule_covers, match_rules,
  evaluate, Effect, Rule, ScopeManifest, ScopeDecision, Verdict, deny, allow,
}

-- A rule matches if it names the action and its normal path covers the resource.
abbrev pub rule_matches : String → Text → Rule → Bool
rule_matches action resource r = str_eq r.action action && elim (normalize_rel r.resource) [
  | ok pattern ↦ rule_covers pattern resource
  | raised e ↦ false
]

abbrev is_deny : Effect → Bool
is_deny deny = true
is_deny allow = false

pub denies : String → Text → Rule → Bool
denies action resource r = rule_matches action resource r && is_deny r.effect

pub allows : String → Text → Rule → Bool
allows action resource r = rule_matches action resource r && not (is_deny r.effect)

abbrev pub in_roots : ScopeManifest → Text → Bool
in_roots m resource = elim (normalize_rel resource) [
  | ok path ↦ under_roots path m.included && not (under_roots path m.excluded)
  | raised e ↦ false
]

-- The decision that the manifest describes.
pub permitted : ScopeManifest → String → Text → Text → Bool
permitted m action resource now =
    is_action action
    && temporally_valid m now
    && not (any (denies action resource) m.rules)
    && any (allows action resource) m.rules
    && (not (is_path_action action) || in_roots m resource)

abbrev passes : Verdict → Bool
passes (denied r) = false
passes (tally b) = b

pub Checked-cases :
    {A : Type 0} (c : Checked A) → ((a : A) × (c ≡ ok a)) ⊎ ((e : Error) × (c ≡ raised e))
Checked-cases (ok a) = inl (a, refl)
Checked-cases (raised e) = inr (e, refl)

match_rules-passes :
    (action : String) (resource : Text) (rs : List Rule) (allowed : Bool) (v : Verdict)
    → match_rules action resource rs allowed ≡ ok v
    → passes v
      ≡ (not (any (denies action resource) rs) && (allowed || any (allows action resource) rs))
unfolding match_rules denies allows
match_rules-passes action resource [] allowed v h = ground arith
match_rules-passes action resource (r ∷ rs) allowed v h = ground (
  arith,
  match_rules-passes action resource rs allowed v,
  match_rules-passes action resource rs true v,
)

-- When `evaluate` does not raise, it allows exactly what the manifest permits: a known action within
-- the validity interval that no deny rule matches and some allow rule matches, in whatever order the
-- rules stand, and, for a path action, a resource under an included root and under no excluded one.
pub evaluate-permitted :
    (m : ScopeManifest) (action : String) (resource now : Text) (d : ScopeDecision)
    → evaluate m action resource now ≡ ok d
    → d.allowed ≡ permitted m action resource now
unfolding evaluate permitted
evaluate-permitted m action resource now d h =
    elim (Bool-cases (is_action action && temporally_valid m now)) [
      | inl live ↦ elim (Checked-cases (match_rules action resource m.rules false)) [
        | inl (v, e) ↦ ground (arith, match_rules-passes action resource m.rules false v)
        | inr (x, e) ↦ ground arith
      ]
      | inr dead ↦ ground arith
    ]
