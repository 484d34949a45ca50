-- ===== src/Evidence/Actors.antt =====
-- skills/ayran/src/ayran/evidence/actors.py: which kinds of actor may move a hypothesis to a state.
-- An actor is read only through its `kind`, where a missing or empty kind is the empty text.
use ayran.Prelude.{Bool, false, List, [], ◌∷◌, String}
use ayran.Prelude.Text.{elem}
use ayran.Evidence.Types.{
  State, lead, supported, poc_worthy, observed, defect_pinned, validated, falsified,
  needs_missing_fact, needs_reformulation, parked, duplicate_known_issue, reported, Status, known,
  unknown,
}

unfoldable pub authorized_kinds : State → List String
authorized_kinds lead = "model" ∷ "specialist" ∷ "tool" ∷ "human" ∷ []
authorized_kinds supported = "service" ∷ []
authorized_kinds poc_worthy = "gate" ∷ []
authorized_kinds observed = "tool" ∷ "service" ∷ []
authorized_kinds defect_pinned = "gate" ∷ []
authorized_kinds validated = "service" ∷ []
authorized_kinds falsified = "gate" ∷ "service" ∷ []
authorized_kinds needs_missing_fact = "gate" ∷ "router" ∷ "service" ∷ []
authorized_kinds needs_reformulation = "gate" ∷ "router" ∷ "service" ∷ []
authorized_kinds parked = "router" ∷ "human" ∷ []
authorized_kinds duplicate_known_issue = "service" ∷ []
authorized_kinds reported = "service" ∷ []

unfoldable pub actor_is_authorized : String → Status → Bool
unfolding authorized_kinds
actor_is_authorized kind (known s) = elem kind (authorized_kinds s)
actor_is_authorized kind (unknown s) = false
