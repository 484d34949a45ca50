-- ===== src/Evidence/Machine/Accepts.antt =====
-- When `evaluate` of state_machine.py accepts, and what its acceptance implies.
use ayran.Prelude.{
  String, ◌≡◌, refl, ap, ◌∙◌, ◌↔◌, true, false, not, ◌&&◌, Option, none, arith, is_empty,
}
use ayran.Evidence.Types.{
  same, member, terminal, status_to_grade, State, Status, lead, reported, known, unknown,
}
use ayran.Evidence.Payload.{Payload}
use ayran.Evidence.Actors.{actor_is_authorized}
use ayran.Evidence.Edges.{is_demotion, is_listed, is_legal_edge, missing_fields}
use ayran.Evidence.Machine.{
  or_lead, ceiling_blocked, has_cause, next_grade_of, finish, evaluate_known, evaluate_states,
  evaluate, Hypothesis, Decision,
}

-- What an edge between two states needs, apart from the order in which the code tests it.
pub record Admissible (grade : Status) (c t : State) (actor : String) (p : Payload)
    (cause : Option String) : Type 0 where
  pub edge : is_legal_edge (known c) (known t) ≡ true
  pub reasoned :
      is_demotion (known c) (known t) ≡ true
      → is_listed (known c) (known t) ≡ false
      → has_cause cause p ≡ true
  pub authorized : actor_is_authorized actor (known t) ≡ true
  pub clear : is_demotion (known c) (known t) ≡ false → ceiling_blocked grade (known c) t ≡ none
  pub complete : is_empty (missing_fields c t p) ≡ true

-- A terminal state has no listed edge, so its legal edges are demotions.
pub terminal_moves_down :
    (c t : State)
    → is_legal_edge (known c) (known t) ≡ true
    → member c terminal && not (is_demotion (known c) (known t)) ≡ false
unfolding is_legal_edge
terminal_moves_down lead t h = refl
terminal_moves_down reported t h = ground arith
terminal_moves_down _ t h = ground arith

pub edge-same : (c t : State) → is_legal_edge (known c) (known t) ≡ true → same c t ≡ false
unfolding is_legal_edge
edge-same c t h = ground arith

module _ (grade : Status) (c t : State) (actor : String) (p : Payload) (cause : Option String) where
  known-Admissible :
      (evaluate_known grade c t actor p cause).accepted ≡ true → Admissible grade c t actor p cause
  unfolding evaluate_known
  known-Admissible h = ground arith

  Admissible-known :
      Admissible grade c t actor p cause → (evaluate_known grade c t actor p cause).accepted ≡ true
  unfolding evaluate_known
  Admissible-known a = ground (arith, edge-same c t a.edge, terminal_moves_down c t a.edge)

  known_fields :
      (evaluate_known grade c t actor p cause).accepted ≡ true
      → ((evaluate_known grade c t actor p cause).target ≡ known t)
        × ((evaluate_known grade c t actor p cause).current ≡ known c)
        × ((evaluate_known grade c t actor p cause).demotion ≡ is_demotion (known c) (known t))
        × ((evaluate_known grade c t actor p cause).next_grade
            ≡ next_grade_of grade (status_to_grade t))
  unfolding evaluate_known finish
  known_fields h = ground arith

  states-accepted :
      (s target : Status)
      → (evaluate_states grade s target actor p cause).accepted ≡ true
      → (a : State) × (b : State) × (s ≡ known a)
        × (target ≡ known b)
        × ((evaluate_known grade a b actor p cause).accepted ≡ true)
  states-accepted (known a) (known b) h = (a, b, refl, refl, h)
  states-accepted (unknown s) (known b) h = cc
  states-accepted (known s) (unknown b) h = cc
  states-accepted (unknown s) (unknown b) h = cc

module _ (h : Hypothesis) (target : Status) (actor : String) (p : Payload)
    (cause : Option String) where
  accepted-Admissible :
      (evaluate h target actor p cause).accepted ≡ true
      → (c : State) × (t : State) × (or_lead h.status ≡ known c)
        × (target ≡ known t)
        × Admissible (or_lead h.evidence_grade) c t actor p cause
  unfolding evaluate
  accepted-Admissible e =
      let grade = or_lead h.evidence_grade in
      let (c, t, ec, et, k) =
        states-accepted grade lead lead actor p cause (or_lead h.status) target e in
      (c, t, ec, et, known-Admissible grade c t actor p cause k)

  Admissible-accepted :
      (c t : State)
      → or_lead h.status ≡ known c
      → target ≡ known t
      → Admissible (or_lead h.evidence_grade) c t actor p cause
      → (evaluate h target actor p cause).accepted ≡ true
  unfolding evaluate
  Admissible-accepted c t ec et a =
      rw (ec, et) (Admissible-known (or_lead h.evidence_grade) c t actor p cause a)

  -- `evaluate` accepts exactly when the hypothesis is in a known state, the target is a known state,
  -- and the edge between them is admissible for the actor, the evidence and the cause.
  pub accepted_iff : ((evaluate h target actor p cause).accepted ≡ true) ↔ (
      (c : State) × (t : State) × (or_lead h.status ≡ known c)
      × (target ≡ known t)
      × Admissible (or_lead h.evidence_grade) c t actor p cause)
  accepted_iff = (accepted-Admissible, λ r. Admissible-accepted r.0 r.1 r.2 r.3 r.4)

-- An accepted decision taken apart: the edge, and what the decision tells its caller.
pub record Move (h : Hypothesis) (target : Status) (actor : String) (p : Payload)
    (cause : Option String) (d : Decision) : Type 0 where
  pub from : State
  pub to : State
  pub at_from : or_lead h.status ≡ known from
  pub at_to : target ≡ known to
  pub admissible : Admissible (or_lead h.evidence_grade) from to actor p cause
  pub moved_to : d.target ≡ known to
  pub moved_from : d.current ≡ known from
  pub demotion : d.demotion ≡ is_demotion (known from) (known to)
  pub next_grade : d.next_grade ≡ next_grade_of (or_lead h.evidence_grade) (status_to_grade to)

module _ (h : Hypothesis) (target : Status) (actor : String) (p : Payload)
    (cause : Option String) where
  pub accepted-Move :
      (evaluate h target actor p cause).accepted ≡ true
      → Move h target actor p cause (evaluate h target actor p cause)
  unfolding evaluate
  accepted-Move e =
      let (c, t, ec, et, ok) = accepted-Admissible h target actor p cause e in
      let grade = or_lead h.evidence_grade in
      let k = Admissible-known grade c t actor p cause ok in
      let (ft, fc, fd, fg) = known_fields grade c t actor p cause k in
      let same_decision : evaluate_states grade (or_lead h.status) target actor p cause
          ≡ evaluate_known grade c t actor p cause =
        rw (ec, et) in
      record {
        from = c;
        to = t;
        at_from = ec;
        at_to = et;
        admissible = ok;
        moved_to = ap (λ (d : Decision). d.target) same_decision ∙ ft;
        moved_from = ap (λ (d : Decision). d.current) same_decision ∙ fc;
        demotion = ap (λ (d : Decision). d.demotion) same_decision ∙ fd;
        next_grade = ap (λ (d : Decision). d.next_grade) same_decision ∙ fg;
      }
