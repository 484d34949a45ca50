-- ===== src/Evidence/Trail/Moves.antt =====
-- What one call of `transition` of evidence/service.py does to the record, and induction over a
-- sequence of calls.
use ayran.Prelude.{String, ◌≡◌, refl, inl, inr, true, false, some, List, [], ◌∷◌, Bool-cases}
use ayran.Evidence.Types.{Status, supported, duplicate_known_issue, known, unknown}
use ayran.Evidence.Payload.{Payload, Value}
use ayran.Evidence.Machine.{
  or_lead, evaluate, refusal_code, require, Reason, Decision, granted, raised,
}
use ayran.Evidence.Machine.Accepts.{accepted-Move}
use ayran.Evidence.Trail.{
  support, mark_duplicate, for_target, apply_local, transition, run, Dossier, Request,
}

unfoldable pub state_of : Dossier → Status
state_of d = or_lead d.hypothesis.status

unfoldable pub grade_of : Dossier → Status
grade_of d = or_lead d.hypothesis.evidence_grade

module _ (content_id : String → List String → String) (text : Value → String)
    (reason_text : Reason → String) (state_text : Status → String) where
  for_target-hypothesis :
      (s : Status) (d : Dossier) (p : Payload)
      → (for_target content_id text reason_text state_text s d p).hypothesis ≡ d.hypothesis
  unfolding support mark_duplicate
  for_target-hypothesis (known supported) d p = refl
  for_target-hypothesis (known duplicate_known_issue) d p = refl
  for_target-hypothesis (known _) d p = refl
  for_target-hypothesis (unknown s) d p = refl

  -- The hypothesis of the record after an accepted move.
  pub apply_local-hypothesis :
      (d : Dossier) (decision : Decision) (actor : String) (p : Payload) (at : String)
      → (apply_local content_id text reason_text state_text d decision actor p at).hypothesis
        ≡ record { status = some decision.target; evidence_grade = some decision.next_grade }
  unfolding apply_local
  apply_local-hypothesis d decision actor p at = for_target-hypothesis decision.target _ p

  -- `transition` on an accepted request, and on a refused one.
  pub transition-granted :
      (d : Dossier) (r : Request)
      → (evaluate d.hypothesis r.target r.actor r.evidence r.cause).accepted ≡ true
      → let dec = evaluate d.hypothesis r.target r.actor r.evidence r.cause in
        transition content_id text reason_text state_text d r ≡ (
          apply_local content_id text reason_text state_text d dec r.actor r.evidence d.created_at,
          granted dec,
        )
  transition-granted d r e = unfold transition require in rw e

  pub transition-raised :
      (d : Dossier) (r : Request)
      → (evaluate d.hypothesis r.target r.actor r.evidence r.cause).accepted ≡ false
      → let dec = evaluate d.hypothesis r.target r.actor r.evidence r.cause in
        transition content_id text reason_text state_text d r ≡ (d, raised (refusal_code dec) dec)
  transition-raised d r e = unfold transition require in rw e

  module _ (d : Dossier) (r : Request)
      (e : (evaluate d.hypothesis r.target r.actor r.evidence r.cause).accepted ≡ true) where
    -- The record after an accepted request.
    abbrev pub moved : Dossier
    moved =
        apply_local content_id text reason_text state_text d
          (evaluate d.hypothesis r.target r.actor r.evidence r.cause) r.actor r.evidence
          d.created_at

    pub state_of-moved : state_of moved ≡ r.target
    unfolding or_lead state_of
    state_of-moved =
        let m = accepted-Move d.hypothesis r.target r.actor r.evidence r.cause e in
        rw (apply_local-hypothesis, m.moved_to, m.at_to)

    pub grade_of-moved :
        grade_of moved
        ≡ or_lead (some (evaluate d.hypothesis r.target r.actor r.evidence r.cause).next_grade)
    unfolding grade_of
    grade_of-moved = rw apply_local-hypothesis

  -- A property that accepted requests keep holds after any sequence of calls.
  pub run_induction {ℓ} :
      (P : Dossier → Type ℓ)
      → ((d : Dossier) (r : Request)
          → (e : (evaluate d.hypothesis r.target r.actor r.evidence r.cause).accepted ≡ true) → P d
          → P (moved d r e))
      → (d : Dossier) (rs : List Request) → P d
      → P (run content_id text reason_text state_text d rs)
  unfolding run
  run_induction P step d [] h = h
  run_induction P step d (r ∷ rs) h =
      elim (Bool-cases (evaluate d.hypothesis r.target r.actor r.evidence r.cause).accepted) [
        | inl e ↦
            rw (transition-granted d r e) (run_induction P step (moved d r e) rs (step d r e h))
        | inr e ↦ rw (transition-raised d r e) (run_induction P step d rs h)
      ]
