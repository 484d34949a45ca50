-- ===== src/Evidence/Severity.antt =====
-- `assess_severity` of skills/ayran/src/ayran/evidence/severity.py. The comparison of a bound with
-- 1e18, which is Python's `Decimal`, is a parameter, with no answer where it raises `InvalidOperation`
-- (a bound that is not a number); a citation is the rule that it names.
pub mod Order
use ayran.Prelude.{
  String, Bool, true, false, not, ◌&&◌, ◌||◌, Option, none, some, List, [], ◌∷◌, ◌++◌, map,
  if◌then◌else◌, is_empty,
}
use ayran.Prelude.Text.{str_eq}
use ayran.Evidence.Payload.{truthy, Value, num}

pub data Label : Type 0 where
  critical high medium low informational : Label

-- The rule that the citation names.
pub data Citation : Type 0 where
  r1_critical_theft r2_high_theft r3_medium_lock r4_low_integrity r2_analog r5_info : Citation

pub data Note : Type 0 where
  given_note : String → Note
  unpinned_deployment : Note
  assumed_break : Note

-- The fields of the impact that are read, and those of its `finding_impact`, `profit_loss` and
-- `deployment_claims`.
pub record Impact : Type 0 where
  pub mapped_kind : String
  pub own_kind : String
  pub profit_bound : Value
  pub mapped_bound : Value
  pub claimed : Bool
  pub verified : Bool

pub record Assessment : Type 0 where
  pub label : Label
  pub citation : Citation
  pub ambiguities : List Note
  -- Whether the failed deployment identity is given as an alternative.
  pub has_alternative : Bool

abbrev or_else : String → String → String
or_else a b = if str_eq a "" then b else a

unfoldable pub kind_of_impact : Impact → String
kind_of_impact i = or_else (or_else i.mapped_kind i.own_kind) "integrity"

unfoldable pub upper_bound : Impact → Value
unfolding truthy
upper_bound i =
    if truthy i.profit_bound
    then i.profit_bound
    else if truthy i.mapped_bound
    then i.mapped_bound
    else num 0

unfoldable pub is_theft : String → Bool
is_theft kind = str_eq kind "theft" || str_eq kind "loss"

unfoldable pub is_lock : String → Bool
is_lock kind = str_eq kind "lock" || str_eq kind "availability"

unfoldable pub is_integrity : String → Bool
is_integrity kind = str_eq kind "integrity" || str_eq kind "governance"

-- The first rule, where the comparison with 1e18 has an answer.
abbrev theft_rule : Option Bool → List Note → Option (Label × Citation × List Note)
theft_rule none notes = none
theft_rule (some true) notes = some (critical, r1_critical_theft, notes)
theft_rule (some false) notes = some (high, r2_high_theft, notes)

-- The chain of rules: the label, its citation, and the notes with what the last rule adds. The bound is
-- compared only for a theft without privileges.
unfoldable pub rules :
    String → Bool → Option Bool → List Note → Option (Label × Citation × List Note)
unfolding is_theft is_lock is_integrity
rules kind unprivileged large notes =
    if is_theft kind && unprivileged
    then theft_rule large notes
    else if is_lock kind
    then some (medium, r3_medium_lock, notes)
    else if is_integrity kind && not unprivileged
    then some (low, r4_low_integrity, notes)
    else if is_integrity kind
    then some (medium, r2_analog, notes ++ assumed_break ∷ [])
    else some (informational, r5_info, notes)

-- The given ambiguities, and that of an unpinned deployment.
unfoldable pub notes_of : Impact → List String → List Note
notes_of i ambiguities =
    let given = map given_note ambiguities in
    if i.claimed && not i.verified then given ++ unpinned_deployment ∷ [] else given

abbrev pub assessment : Label × Citation × List Note → Assessment
assessment (label, citation, notes) = record {
  label = label;
  citation = citation;
  ambiguities = notes;
  has_alternative = not (is_empty notes);
}

abbrev pub assessed : Option (Label × Citation × List Note) → Option Assessment
assessed none = none
assessed (some ruled) = some (assessment ruled)

-- `assess_severity`; `reaches` says whether a bound is at least 1e18, and `none` is `InvalidOperation`.
unfoldable pub assess_severity :
    (Value → Option Bool) → Impact → Bool → List String → Option Assessment
unfolding kind_of_impact upper_bound rules notes_of
assess_severity reaches i unprivileged ambiguities =
    assessed
      (rules (kind_of_impact i) unprivileged (reaches (upper_bound i)) (notes_of i ambiguities))
