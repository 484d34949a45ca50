-- ===== src/Learning/Review.antt =====
-- The queue of skills/ayran/src/ayran/learning/quarantine.py and the reviews of learning/review.py, for
-- one subject: its outcome, its candidate and its records in the queue, each under
-- the last part of its content identifier. Times are numbers of seconds;
-- texts, scores and what is written to the graph besides are left out.
pub mod Quarantine
use ayran.Prelude.{
  ℕ, ◌+◌, String, Bool, true, false, not, ◌&&◌, Option, none, some, List, [], ◌∷◌, map, ltb,
  if◌then◌else◌, any,
}
use ayran.Prelude.Text.{insert}

-- `PromotionStage`.
pub data Stage : Type 0 where
  captured quarantined in_review approved generalized fixtures_ready : Stage
  contamination_checked evaluated released rejected archived rolled_back : Stage

pub data Verdict : Type 0 where
  approve reject needs_revision : Verdict

-- `QuarantineRecord.status`.
pub data Status : Type 0 where
  queued reviewed taken refused expired : Status

pub record Entry : Type 0 where
  pub status : Status
  pub review_deadline : ℕ
  pub production_retrievable : Bool

pub record Outcome : Type 0 where
  pub stage : Stage
  pub created_at : ℕ
  pub content_hash : String

pub record Subject : Type 0 where
  pub outcome : Option Outcome
  pub candidate : Option Stage
  pub queue : List (String × Entry)

pub data Result {ℓ} (A : Type ℓ) : Type ℓ where
  ok : A → Result A
  not_found : Result A

abbrev is_early : Stage → Bool
is_early quarantined = true
is_early in_review = true
is_early _ = false

-- The stage of a candidate after a review.
unfoldable pub candidate_after : Verdict → Stage → Stage
candidate_after approve s = if is_early s then approved else s
candidate_after reject s = rejected
candidate_after needs_revision s = in_review

-- The stage of an outcome.
unfoldable pub outcome_after : Verdict → Stage → Stage
outcome_after approve s = if is_early s then approved else s
outcome_after reject s = rejected
outcome_after needs_revision s = in_review

unfoldable pub entry_after : Verdict → Entry → Entry
entry_after approve e = record e { status = taken }
entry_after reject e = record e { status = refused; production_retrievable = false }
entry_after needs_revision e = record e { status = reviewed }

abbrev pub on_outcome : (Stage → Stage) → Option Outcome → Option Outcome
on_outcome f none = none
on_outcome f (some o) = some (record o { stage = f o.stage })

abbrev pub on_candidate : (Stage → Stage) → Option Stage → Option Stage
on_candidate f none = none
on_candidate f (some s) = some (f s)

abbrev pub is_known : Option Outcome → Option Stage → Bool
is_known none none = false
is_known (some o) c = true
is_known none (some c) = true

-- `record_review`.
unfoldable pub record_review : Verdict → Subject → Result Subject
unfolding candidate_after outcome_after entry_after
record_review v s =
    if is_known s.outcome s.candidate
    then ok (record {
      outcome = on_outcome (outcome_after v) s.outcome;
      candidate = on_candidate (candidate_after v) s.candidate;
      queue = map (λ q. (q.0, entry_after v q.1)) s.queue;
    })
    else not_found

-- `submit_for_review` of the outcome in the graph, at a time and with a time to live.
abbrev pub submitted : ℕ → ℕ → Outcome → Subject → Subject
submitted now ttl o s =
    if ltb (o.created_at + ttl) now
    then record s {
      outcome = some (record o { stage = archived });
      queue =
          insert "expired"
            (record {
              status = expired;
              review_deadline = o.created_at + ttl;
              production_retrievable = false;
            })
            s.queue;
    }
    else record s {
      outcome = some (record o { stage = quarantined });
      queue =
          insert o.content_hash
            (record {
              status = queued;
              review_deadline = o.created_at + ttl;
              production_retrievable = false;
            })
            s.queue;
    }

unfoldable pub submit_for_review : ℕ → ℕ → Subject → Result Subject
unfolding insert
submit_for_review now ttl s = elim s.outcome [
  | none ↦ not_found
  | some o ↦ ok (submitted now ttl o s)
]

abbrev is_expired : Status → Bool
is_expired expired = true
is_expired _ = false

-- Whether `archive_expired` archives an entry.
abbrev pub overdue : ℕ → Entry → Bool
overdue now e = not (is_expired e.status) && ltb e.review_deadline now

abbrev pub archived_entry : ℕ → Entry → Entry
archived_entry now e =
    if overdue now e then record e { status = expired; production_retrievable = false } else e

-- `archive_expired`, for the entries of this subject.
unfoldable pub archive_expired : ℕ → Subject → Subject
archive_expired now s = record s {
  outcome =
      if any (λ q. overdue now q.1) s.queue
      then on_outcome (λ _. archived) s.outcome
      else s.outcome;
  queue = map (λ q. (q.0, archived_entry now q.1)) s.queue;
}

abbrev pub is_released : Stage → Bool
is_released released = true
is_released _ = false

-- `record_is_production_retrievable`.
unfoldable pub is_retrievable : Subject → Bool
is_retrievable s = elim s.candidate [
  | some c ↦ is_released c
  | none ↦ elim s.outcome [ some o ↦ is_released o.stage | none ↦ false ]
]

-- A call on the subject, and calls one after the other; a call that raises changes nothing.
pub data Call : Type 0 where
  reviewing : Verdict → Call
  submitting : ℕ → ℕ → Call
  archiving : ℕ → Call

abbrev pub or_same : Subject → Result Subject → Subject
or_same s not_found = s
or_same s (ok t) = t

unfoldable pub call : Call → Subject → Subject
unfolding record_review submit_for_review archive_expired
call (reviewing v) s = or_same s (record_review v s)
call (submitting now ttl) s = or_same s (submit_for_review now ttl s)
call (archiving now) s = archive_expired now s

unfoldable pub calls : List Call → Subject → Subject
unfolding call
calls [] s = s
calls (c ∷ cs) s = calls cs (call c s)
