-- ===== src/Learning/Review/Quarantine.antt =====
-- Nothing in the queue of learning/quarantine.py and learning/review.py releases what is in it.
use ayran.Prelude.{
  ℕ, ◌+◌, String, ◌≡◌, refl, inl, inr, Bool, true, false, not, ◌&&◌, Option, none, some, List, [],
  ◌∷◌, map, arith, ltb, Bool-cases, any, every,
}
use ayran.Prelude.Text.{insert}
use ayran.Learning.Review.{
  ok, not_found, candidate_after, outcome_after, entry_after, on_outcome, on_candidate, is_known,
  record_review, submitted, submit_for_review, overdue, archived_entry, archive_expired,
  is_released, is_retrievable, reviewing, submitting, archiving, or_same, call, calls, Stage,
  Verdict, Entry, Outcome, Subject, Result, Call, archived, approve, reject, needs_revision,
}

abbrev unreleased : Option Stage → Bool
unreleased none = true
unreleased (some s) = not (is_released s)

abbrev stage_of : Option Outcome → Option Stage
stage_of none = none
stage_of (some o) = some o.stage

-- Neither the outcome nor the candidate is released, and no entry is retrievable.
unfoldable pub is_quarantined : Subject → Bool
is_quarantined s =
    unreleased (stage_of s.outcome)
    && unreleased s.candidate
    && every (λ q. not q.1.production_retrievable) s.queue

after_unreleased :
    (v : Verdict) (s : Stage)
    → not (is_released s) ≡ true
    → not (is_released (outcome_after v s)) ≡ true
unfolding outcome_after
after_unreleased approve s h = ground (arith, h)
after_unreleased reject s h = refl
after_unreleased needs_revision s h = refl

candidate_unreleased :
    (v : Verdict) (s : Stage)
    → not (is_released s) ≡ true
    → not (is_released (candidate_after v s)) ≡ true
unfolding candidate_after
candidate_unreleased approve s h = ground (arith, h)
candidate_unreleased reject s h = refl
candidate_unreleased needs_revision s h = refl

on_outcome-unreleased :
    (f : Stage → Stage) (o : Option Outcome)
    → ((s : Stage) → not (is_released s) ≡ true → not (is_released (f s)) ≡ true)
    → unreleased (stage_of o) ≡ true
    → unreleased (stage_of (on_outcome f o)) ≡ true
on_outcome-unreleased f none k h = refl
on_outcome-unreleased f (some o) k h = k o.stage h

on_candidate-unreleased :
    (f : Stage → Stage) (o : Option Stage)
    → ((s : Stage) → not (is_released s) ≡ true → not (is_released (f s)) ≡ true)
    → unreleased o ≡ true
    → unreleased (on_candidate f o) ≡ true
on_candidate-unreleased f none k h = refl
on_candidate-unreleased f (some s) k h = k s h

abbrev closed : String × Entry → Bool
closed q = not q.1.production_retrievable

entries_closed :
    (f : Entry → Entry) (qs : List (String × Entry))
    → ((e : Entry) → not e.production_retrievable ≡ true → not (f e).production_retrievable ≡ true)
    → every closed qs ≡ true
    → every closed (map (λ q. (q.0, f q.1)) qs) ≡ true
entries_closed f [] k h = refl
entries_closed f (q ∷ qs) k h =
    let here = k q.1 (ground arith) in
    let rest = entries_closed f qs k (ground arith) in ground (arith, here, rest)

insert-closed :
    (key : String) (e : Entry) (qs : List (String × Entry))
    → not e.production_retrievable ≡ true
    → every closed qs ≡ true
    → every closed (insert key e qs) ≡ true
unfolding insert
insert-closed key e [] k h = ground (arith, k)
insert-closed key e (q ∷ qs) k h =
    let rest = insert-closed key e qs k (ground arith) in ground (arith, k, rest)

entry_closed :
    (v : Verdict) (e : Entry)
    → not e.production_retrievable ≡ true
    → not (entry_after v e).production_retrievable ≡ true
unfolding entry_after
entry_closed approve e h = h
entry_closed reject e h = refl
entry_closed needs_revision e h = h

parts :
    (s : Subject)
    → is_quarantined s ≡ true
    → (unreleased (stage_of s.outcome) ≡ true)
      × (unreleased s.candidate ≡ true)
      × (every closed s.queue ≡ true)
unfolding is_quarantined
parts s h = (ground (arith, h), ground (arith, h), ground (arith, h))

whole :
    (s : Subject)
    → unreleased (stage_of s.outcome) ≡ true
    → unreleased s.candidate ≡ true
    → every closed s.queue ≡ true
    → is_quarantined s ≡ true
unfolding is_quarantined
whole s a b c = ground (arith, a, b, c)

review_quarantined :
    (v : Verdict) (s : Subject)
    → is_quarantined s ≡ true
    → is_quarantined (call (reviewing v) s) ≡ true
unfolding call record_review
review_quarantined v s h =
    let (a, b, c) = parts s h in
    elim (Bool-cases (is_known s.outcome s.candidate)) [
      | inl e ↦
          rw (e, call, record_review)
            (whole _ (on_outcome-unreleased (outcome_after v) s.outcome (after_unreleased v) a)
              (on_candidate-unreleased (candidate_after v) s.candidate (candidate_unreleased v) b)
              (entries_closed (entry_after v) s.queue (entry_closed v) c))
      | inr e ↦ rw (e, call, record_review) h
    ]

submitted_quarantined :
    (now ttl : ℕ) (o : Outcome) (s : Subject)
    → is_quarantined s ≡ true
    → is_quarantined (submitted now ttl o s) ≡ true
submitted_quarantined now ttl o s h =
    let (a, b, c) = parts s h in
    elim (Bool-cases (ltb (o.created_at + ttl) now)) [
      | inl e ↦ rw e (whole _ refl b (insert-closed "expired" _ s.queue refl c))
      | inr e ↦ rw e (whole _ refl b (insert-closed o.content_hash _ s.queue refl c))
    ]

submit_quarantined :
    (now ttl : ℕ) (s : Subject)
    → is_quarantined s ≡ true
    → is_quarantined (call (submitting now ttl) s) ≡ true
unfolding call submit_for_review
submit_quarantined now ttl s h = by_outcome s.outcome
  where
    by_outcome :
        (o : Option Outcome)
        → is_quarantined (
            or_same s (elim o as (λ _. Result Subject) [
              | none ↦ not_found
              | some o ↦ ok (submitted now ttl o s)
            ]))
          ≡ true
    by_outcome none = h
    by_outcome (some o) = submitted_quarantined now ttl o s h

archived_closed :
    (now : ℕ) (e : Entry)
    → not e.production_retrievable ≡ true
    → not (archived_entry now e).production_retrievable ≡ true
archived_closed now e h = elim (Bool-cases (overdue now e)) [ inl t ↦ rw t refl | inr t ↦ rw t h ]

archive_quarantined :
    (now : ℕ) (s : Subject)
    → is_quarantined s ≡ true
    → is_quarantined (call (archiving now) s) ≡ true
unfolding call archive_expired
archive_quarantined now s h =
    let (a, b, c) = parts s h in
    let entries = entries_closed (archived_entry now) s.queue (archived_closed now) c in
    elim (Bool-cases (any (λ q. overdue now q.1) s.queue)) [
      | inl e ↦
          rw (e, call, archive_expired)
            (whole _ (on_outcome-unreleased (λ _. archived) s.outcome (λ _ _. refl) a) b entries)
      | inr e ↦ rw (e, call, archive_expired) (whole _ a b entries)
    ]

quarantined_not_retrievable : (s : Subject) → is_quarantined s ≡ true → is_retrievable s ≡ false
unfolding is_quarantined is_retrievable
quarantined_not_retrievable s h =
    by_stages s.candidate s.outcome (ground (arith, h)) (ground (arith, h))
  where
    by_stages :
        (c : Option Stage) (o : Option Outcome)
        → unreleased c ≡ true
        → unreleased (stage_of o) ≡ true
        → (elim c as (λ _. Bool) [
          | some c ↦ is_released c
          | none ↦ elim o as (λ _. Bool) [ some o ↦ is_released o.stage | none ↦ false ]
        ])
          ≡ false
    by_stages (some c) o a b = ground (arith, a)
    by_stages none none a b = refl
    by_stages none (some o) a b = ground (arith, b)

-- A subject that is not released and has no retrievable entry in the queue, and any reviews,
-- submissions and sweeps of the queue: it is not released after them, no entry of it is retrievable,
-- and it is not production-retrievable.
pub calls_quarantined :
    (cs : List Call) (s : Subject)
    → is_quarantined s ≡ true
    → (is_quarantined (calls cs s) ≡ true) × (is_retrievable (calls cs s) ≡ false)
unfolding calls
calls_quarantined [] s h = (h, quarantined_not_retrievable s h)
calls_quarantined (reviewing v ∷ cs) s h =
    calls_quarantined cs (call (reviewing v) s) (review_quarantined v s h)
calls_quarantined (submitting now ttl ∷ cs) s h =
    calls_quarantined cs (call (submitting now ttl) s) (submit_quarantined now ttl s h)
calls_quarantined (archiving now ∷ cs) s h =
    calls_quarantined cs (call (archiving now) s) (archive_quarantined now s h)
