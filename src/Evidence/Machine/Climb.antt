-- ===== src/Evidence/Machine/Climb.antt =====
-- The shape of the moves that state_machine.py accepts: one rung up, down with a cause, or off the
-- ladder for good.
use ayran.Prelude.{
  ℕ, ◌-◌, ◌≤◌, ◌<◌, String, ◌≡◌, refl, sym, ap, ◌∙◌, inl, inr, true, false, Option, none, some,
  List, [], ◌∷◌, arith, Option-cases,
}
use ayran.Evidence.Types.{
  member, State, Status, lead, falsified, needs_missing_fact, needs_reformulation, parked,
  duplicate_known_issue, reported, known,
}
use ayran.Evidence.Payload.{Payload}
use ayran.Evidence.Edges.{ladder_index, is_demotion, is_legal_edge}
use ayran.Evidence.Machine.{or_lead, evaluate, Hypothesis}
use ayran.Evidence.Machine.Accepts.{accepted-Move}
use mathlib.Core.Path.{subst}

-- The states that no accepted move leaves.
abbrev pub dead : List State
dead = falsified ∷ needs_missing_fact ∷ needs_reformulation ∷ parked ∷ duplicate_known_issue ∷ []

edge-dead : (c t : State) → is_legal_edge (known c) (known t) ≡ true → member c dead ≡ false
unfolding is_legal_edge
edge-dead lead t h = refl
edge-dead reported t h = refl
edge-dead _ t h = ground arith

-- A move that is no demotion goes up one rung, or off the ladder.
pub edge_up :
    (c t : State)
    → is_legal_edge (known c) (known t) ≡ true
    → is_demotion (known c) (known t) ≡ false
    → {j : ℕ} → ladder_index (known t) ≡ some j
    → ladder_index (known c) ≡ some (j - 1) × (1 ≤ j)
unfolding is_legal_edge
edge_up lead lead h d k = ground arith
edge_up _ _ h d k = ground arith

module _ (h : Hypothesis) (target : Status) (actor : String) (p : Payload) (cause : Option String)
    (e : (evaluate h target actor p cause).accepted ≡ true) where
  -- No accepted move leaves a falsified, parked, duplicate or unresolved hypothesis, whatever the
  -- target, the actor, the evidence and the cause.
  pub accepted-dead : (c : State) → or_lead h.status ≡ known c → member c dead ≡ false
  accepted-dead c s =
      let m = accepted-Move h target actor p cause e in
      edge-dead c m.to (
        subst (λ (x : Status). is_legal_edge x (known m.to) ≡ true) (sym m.at_from ∙ s)
          m.admissible.edge)

  -- An accepted promotion to a rung of the ladder starts on the rung just below.
  pub accepted_climb :
      (evaluate h target actor p cause).demotion ≡ false
      → (j : ℕ) → ladder_index target ≡ some j
      → (ladder_index (or_lead h.status) ≡ some (j - 1)) × (1 ≤ j)
  accepted_climb d j k =
      let m = accepted-Move h target actor p cause e in
      let up =
        edge_up m.from m.to m.admissible.edge (sym m.demotion ∙ d)
          (sym (ap ladder_index m.at_to) ∙ k) in
      (ap ladder_index m.at_from ∙ up.0, up.1)

-- A demotion within the ladder goes to a lower rung.
pub demotion_down :
    (c t : State)
    → is_demotion (known c) (known t) ≡ true
    → {i : ℕ} → ladder_index (known t) ≡ some i
    → (k : ℕ) × (ladder_index (known c) ≡ some k) × (i < k)
demotion_down c t d {i} e = elim (Option-cases (ladder_index (known c))) [
  | inl off ↦ absurd (off_ladder d off)
  | inr (k, at) ↦ (k, at, below d at)
]
  where
    off_ladder : is_demotion (known c) (known t) ≡ true → ladder_index (known c) ≡ none → ⊥
    off_ladder h o = unfold is_demotion in ground arith

    below :
        {k : ℕ} → is_demotion (known c) (known t) ≡ true → ladder_index (known c) ≡ some k → i < k
    below h o = unfold is_demotion in ground arith
