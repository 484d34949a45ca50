-- ===== src/Evidence/Trail/Ladder.antt =====
-- Which moves a hypothesis has behind it when `transition` of evidence/service.py has brought it to a
-- rung of the ladder.
use ayran.Prelude.{
  ℕ, ◌-◌, ◌≤◌, String, ◌≡◌, refl, sym, ap, ◌∙◌, inl, inr, Bool, true, false, ◌&&◌, some, List, [],
  ◌∷◌, ◌++◌, arith, leb, Bool-cases, any, any-append,
}
use ayran.Evidence.Types.{same, same_refl, State, Status, lead, known, unknown}
use ayran.Evidence.Payload.{Value}
use ayran.Evidence.Actors.{actor_is_authorized}
use ayran.Evidence.Edges.{ladder_index, is_demotion, is_legal_edge}
use ayran.Evidence.Machine.{evaluate, Reason, Outcome, granted, raised}
use ayran.Evidence.Machine.Accepts.{accepted-Move}
use ayran.Evidence.Machine.Climb.{edge_up, demotion_down}
use ayran.Evidence.Trail.{transition, run, Dossier, Request}
use ayran.Evidence.Trail.Moves.{
  state_of, transition-granted, transition-raised, moved, state_of-moved,
}
use mathlib.Core.Path.{subst, subst₂}
use mathlib.Core.List.{append-nil, append_assoc}

-- An accepted move: the state that it reached, and the kind of its actor.
pub record Step : Type 0 where
  pub reached : Status
  pub by : String

step_of : Request → Outcome → List Step
step_of r (granted d) = record { reached = d.target; by = r.actor } ∷ []
step_of r (raised c d) = []

-- Whether a step took a hypothesis to a state, by an actor of a kind that may do so.
pub takes_to : State → Step → Bool
unfolding same
takes_to r st =
    elim st.reached [ known s ↦ same r s | unknown s ↦ false ]
    && actor_is_authorized st.by (known r)

-- Every rung from `supported` up to that of a state was reached in a list of steps.
record Climbed (v : List Step) (s : Status) : Type 0 where
  rungs :
      (r : State)
      → {i j : ℕ} → ladder_index s ≡ some i
      → ladder_index (known r) ≡ some j
      → 1 ≤ j
      → j ≤ i
      → any (takes_to r) v ≡ true

ladder_injective :
    (a b : State)
    → {j : ℕ} → ladder_index (known a) ≡ some j
    → ladder_index (known b) ≡ some j
    → a ≡ b
unfolding ladder_index
ladder_injective lead lead h k = refl
ladder_injective _ _ h k = ground arith

any-append_left : (p : Step → Bool) (v w : List Step) → any p v ≡ true → any p (v ++ w) ≡ true
any-append_left p v w h = rw any-append (ground arith)

takes_to_self :
    (t : State) (actor : String)
    → actor_is_authorized actor (known t) ≡ true
    → takes_to t (record { reached = known t; by = actor }) ≡ true
unfolding takes_to
takes_to_self t actor h = rw (h, same_refl t)

any-append_last :
    (p : Step → Bool) (v : List Step) (x : Step) → p x ≡ true → any p (v ++ x ∷ []) ≡ true
any-append_last p v x h = rw any-append (ground arith)

-- One move along an edge keeps the rungs climbed.
edge-Climbed :
    (c t : State) (actor : String) (v : List Step)
    → is_legal_edge (known c) (known t) ≡ true
    → actor_is_authorized actor (known t) ≡ true
    → Climbed v (known c)
    → Climbed (v ++ record { reached = known t; by = actor } ∷ []) (known t)
edge-Climbed c t actor v edge auth cl = record {
  rungs = λ r {i} {j} at_i at_j low high. elim (Bool-cases (is_demotion (known c) (known t))) [
    | inl down ↦
        let (k, at_k, lower) = demotion_down c t down at_i in
        any-append_left (takes_to r) v _ (cl.rungs r at_k at_j low (omega arith))
    | inr up ↦
        let (at_c, pos) = edge_up c t edge up at_i in
        elim (Bool-cases (leb j (i - 1))) [
          | inl older ↦ any-append_left (takes_to r) v _ (cl.rungs r at_c at_j low (ground arith))
          | inr newest ↦
              let level : j ≡ i = ground arith in
              rw (ladder_injective r t (at_j ∙ ap some level) at_i)
                (any-append_last (takes_to t) v _ (takes_to_self t actor auth))
        ]
  ];
}

lead_rung : ladder_index (known lead) ≡ some 0
unfolding ladder_index
lead_rung = refl

module _ (content_id : String → List String → String) (text : Value → String)
    (reason_text : Reason → String) (state_text : Status → String) where
  -- The accepted moves of a sequence of calls, in order.
  pub steps : Dossier → List Request → List Step
  unfolding step_of
  steps d [] = []
  steps d (r ∷ rs) =
      let (d', o) = transition content_id text reason_text state_text d r in
      step_of r o ++ steps d' rs

  module _ (d : Dossier) (r : Request)
      (e : (evaluate d.hypothesis r.target r.actor r.evidence r.cause).accepted ≡ true) where
    -- The step that it adds.
    abbrev last_step : Step
    last_step = record {
      reached = (evaluate d.hypothesis r.target r.actor r.evidence r.cause).target;
      by = r.actor;
    }

    moved-Climbed :
        (v : List Step)
        → Climbed v (state_of d)
        → Climbed
            (v ++ last_step ∷ [])
            (state_of (moved content_id text reason_text state_text d r e))
    unfolding state_of
    moved-Climbed v c =
        let m = accepted-Move d.hypothesis r.target r.actor r.evidence r.cause e in
        subst₂ (λ (x s : Status). Climbed (v ++ record { reached = x; by = r.actor } ∷ []) s)
          (sym m.moved_to)
          (sym (state_of-moved content_id text reason_text state_text d r e ∙ m.at_to))
          (edge-Climbed m.from m.to r.actor v m.admissible.edge m.admissible.authorized
            (subst (Climbed v) m.at_from c))

  run-Climbed :
      (d : Dossier) (rs : List Request) (v : List Step)
      → Climbed v (state_of d)
      → Climbed (v ++ steps d rs) (state_of (run content_id text reason_text state_text d rs))
  unfolding steps run
  run-Climbed d [] v c = rw append-nil c
  run-Climbed d (r ∷ rs) v c =
      elim (Bool-cases (evaluate d.hypothesis r.target r.actor r.evidence r.cause).accepted) [
        | inl e ↦
            rw
              (
                transition-granted content_id text reason_text state_text d r e,
                ← append_assoc v (last_step d r e ∷ []),
              )
              (run-Climbed (moved content_id text reason_text state_text d r e) rs
                (v ++ last_step d r e ∷ []) (moved-Climbed d r e v c))
        | inr e ↦
            rw (transition-raised content_id text reason_text state_text d r e)
              (run-Climbed d rs v c)
      ]

  lead-Climbed : (s : Status) → s ≡ known lead → Climbed [] s
  lead-Climbed s e = record {
    rungs = λ r {i} {j} at_i at_j low high.
        let zero_rung : some i ≡ some 0 = sym at_i ∙ ap ladder_index e ∙ lead_rung in
        absurd (unfold same in ground arith);
  }

  -- A lead that any calls of `transition`, refused ones among them, have brought to a rung of the
  -- ladder was moved to each rung from `supported` up to that one, each time by an actor of a kind
  -- that the table allows for that rung.
  pub climbed_every_rung :
      (d : Dossier) (rs : List Request)
      → state_of d ≡ known lead
      → (r : State) (i j : ℕ)
      → ladder_index (state_of (run content_id text reason_text state_text d rs)) ≡ some i
      → ladder_index (known r) ≡ some j
      → 1 ≤ j
      → j ≤ i
      → any (takes_to r) (steps d rs) ≡ true
  climbed_every_rung d rs e r i j at below positive under =
      (run-Climbed d rs [] (lead-Climbed (state_of d) e)).rungs r at below positive under
