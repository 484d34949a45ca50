-- ===== src/Policy/Scope/Spelling.antt =====
-- The rules of scope.py are matched against the resource as it is spelled, the roots against its
-- normal path.
use ayran.Prelude.{ℕ, String, ◌≡◌, ◌≢◌, true, [], ◌∷◌}
use ayran.Prelude.Text.{Text, str_eq}
use ayran.Policy.Path.{dot, normalize_rel, ok}
use ayran.Policy.Scope.{Rule, allow}

-- The pattern of a rule is a path that begins with another character than a dot.
abbrev pub Names : Rule → Type 0
Names r = (c : ℕ) × (pattern : Text) × (normalize_rel r.resource ≡ ok (c ∷ pattern)) × (c ≢ dot)

-- A rule that allows the action on every resource.
pub record AllowsAll (action : String) (r : Rule) : Type 0 where
  pub for_action : str_eq r.action action ≡ true
  pub on_root : normalize_rel r.resource ≡ ok []
  pub effect_allow : r.effect ≡ allow
