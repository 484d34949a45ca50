-- ===== src/Tests/Severity.antt =====
-- The severity rules of skills/ayran/src/ayran/evidence/severity.py on a theft and a break of
-- integrity.
use ayran.Prelude.{
  ◌≤◌, ◌<◌, ◌≡◌, refl, Bool, true, false, not, Option, none, some, [], ◌∷◌, ◌==◌, if◌then◌else◌,
}
use ayran.Evidence.Payload.{Value, null, num}
use ayran.Evidence.Severity.{
  assess_severity, Impact, Assessment, critical, informational, r1_critical_theft, r5_info,
  unpinned_deployment,
}
use ayran.Evidence.Severity.Order.{label_rank, severity_monotone, privileged_theft_lower}

-- Bounds are taken to be large when they are not zero.
abbrev reaches_one : Value → Option Bool
reaches_one (num n) = some (not (n == 0))
reaches_one _ = none

abbrev small_theft : Impact
small_theft = record {
  mapped_kind = "theft";
  own_kind = "";
  profit_bound = null;
  mapped_bound = num 0;
  claimed = true;
  verified = false;
}

abbrev large_theft : Impact
large_theft = record small_theft { profit_bound = num 5 }

abbrev governance_break : Impact
governance_break = record small_theft { mapped_kind = ""; own_kind = "governance" }

abbrev assessed_theft : Bool → Assessment
assessed_theft unprivileged = record {
  label = if unprivileged then critical else informational;
  citation = if unprivileged then r1_critical_theft else r5_info;
  ambiguities = unpinned_deployment ∷ [];
  has_alternative = true;
}

severity_monotone_example :
    label_rank (assessed_theft false).label ≤ label_rank (assessed_theft true).label
unfolding assess_severity
severity_monotone_example =
    severity_monotone reaches_one small_theft large_theft false true [] (assessed_theft false)
      (assessed_theft true) refl (λ e. refl) (λ e. refl) refl refl

privileged_theft_lower_example :
    (a : Assessment) × (b : Assessment) × (assess_severity reaches_one large_theft false []
      ≡ some a)
    × (assess_severity reaches_one governance_break false [] ≡ some b)
    × (label_rank a.label < label_rank b.label)
unfolding assess_severity
privileged_theft_lower_example =
    privileged_theft_lower reaches_one large_theft governance_break [] refl refl
