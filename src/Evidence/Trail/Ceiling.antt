-- ===== src/Evidence/Trail/Ceiling.antt =====
-- The status and the grade of a record move together under `transition` of evidence/service.py, so
-- the evidence ceiling of state_machine.py has nothing left to refuse.
use ayran.Prelude.{
  String, ◌≡◌, sym, ap, ◌∙◌, inl, inr, true, false, none, some, List, arith, Option-cases,
}
use ayran.Evidence.Types.{status_to_grade, State, Status, lead, known}
use ayran.Evidence.Payload.{Value}
use ayran.Evidence.Edges.{is_demotion, is_legal_edge}
use ayran.Evidence.Machine.{or_lead, ceiling_blocked, next_grade_of, Reason}
use ayran.Evidence.Machine.Accepts.{accepted-Move}
use ayran.Evidence.Trail.{run, Dossier, Request}
use ayran.Evidence.Trail.Moves.{state_of, grade_of, state_of-moved, grade_of-moved, run_induction}
use mathlib.Core.Path.{subst, subst₂}

-- The grade is the one that the status stands for, where it stands for one.
pub record Matches (status grade : Status) : Type 0 where
  pub on : {s g : State} → status ≡ known s → status_to_grade s ≡ some g → grade ≡ known g

lead-Matches :
    (status grade : Status) → status ≡ known lead → grade ≡ known lead → Matches status grade
lead-Matches status grade es eg = record {
  on = λ {s} {g} e k. ground (arith, lead_grade s g (sym es ∙ e) k);
}
  where
    lead_grade : (s g : State) → known lead ≡ known s → status_to_grade s ≡ some g → g ≡ lead
    lead_grade s g e k = unfold status_to_grade in ground arith

next-Matches :
    (t : State) (grade : Status)
    → Matches (known t) (or_lead (some (next_grade_of grade (status_to_grade t))))
next-Matches t grade = record {
  on = λ {s} {g} e k. unfold or_lead in ground (arith, known_injective t s e);
}
  where
    known_injective : (a b : State) → known a ≡ known b → a ≡ b
    known_injective a b e = cc

-- Only a graded state has legal edges.
legal-graded :
    (c t : State) → is_legal_edge (known c) (known t) ≡ true → status_to_grade c ≡ none → ⊥
unfolding is_legal_edge status_to_grade
legal-graded lead t h k = cc
legal-graded _ t h k = ground arith

-- Along a legal promotion, the ceiling passes a grade that matches the status.
legal-below_ceiling :
    (c t g : State)
    → is_legal_edge (known c) (known t) ≡ true
    → is_demotion (known c) (known t) ≡ false
    → status_to_grade c ≡ some g
    → ceiling_blocked (known g) (known c) t ≡ none
unfolding is_legal_edge ceiling_blocked status_to_grade
legal-below_ceiling lead lead g e d k = ground arith
legal-below_ceiling _ _ g e d k = ground arith

module _ (content_id : String → List String → String) (text : Value → String)
    (reason_text : Reason → String) (state_text : Status → String) where
  -- A lead of grade `lead` keeps a grade that matches its status through any calls of `transition`:
  -- on a rung of the ladder the grade is the one that the table gives for that rung.
  pub run-Matches :
      (d : Dossier) (rs : List Request)
      → state_of d ≡ known lead
      → grade_of d ≡ known lead
      → let d' = run content_id text reason_text state_text d rs in
        Matches (state_of d') (grade_of d')
  run-Matches d rs es eg =
      run_induction content_id text reason_text state_text (λ x. Matches (state_of x) (grade_of x))
        (λ x r e _.
          let m = accepted-Move x.hypothesis r.target r.actor r.evidence r.cause e in
          subst₂ Matches
            (sym (state_of-moved content_id text reason_text state_text x r e ∙ m.at_to))
            (sym (
              grade_of-moved content_id text reason_text state_text x r e
              ∙ ap (λ (g : Status). or_lead (some g)) m.next_grade))
            (next-Matches m.to _))
        d rs (lead-Matches (state_of d) (grade_of d) es eg)

  -- In a record that began as a lead of grade `lead`, the evidence ceiling refuses no promotion
  -- along a legal edge: the edges alone hold it back.
  pub ceiling_never_binds :
      (d : Dossier) (rs : List Request)
      → state_of d ≡ known lead
      → grade_of d ≡ known lead
      → (c t : State) → state_of (run content_id text reason_text state_text d rs) ≡ known c
      → is_legal_edge (known c) (known t) ≡ true
      → is_demotion (known c) (known t) ≡ false
      → ceiling_blocked (grade_of (run content_id text reason_text state_text d rs)) (known c) t
        ≡ none
  ceiling_never_binds d rs es eg c t at edge up = elim (Option-cases (status_to_grade c)) [
    | inl off ↦ absurd (legal-graded c t edge off)
    | inr (g, graded) ↦
        subst (λ (x : Status). ceiling_blocked x (known c) t ≡ none)
          (sym ((run-Matches d rs es eg).on at graded)) (legal-below_ceiling c t g edge up graded)
  ]
