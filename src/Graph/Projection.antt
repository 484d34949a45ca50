-- ===== src/Graph/Projection.antt =====
-- The tables of graph/projection.py that the commands of the store read: `command_batches`,
-- `applied_events`, `aggregate_heads` and the cursor of `meta`. Whether the typed tables refuse an event
-- after those applied is a parameter (`refused`).
pub mod Receipts
use ayran.Prelude.{
  ℕ, ◌+◌, String, Bool, true, false, not, ◌&&◌, ◌||◌, Option, none, some, List, [], ◌∷◌, ltb, leb,
  ◌==◌, if◌then◌else◌, any,
}
use ayran.Prelude.Text.{Text, eq_text, insert, str_eq}
use ayran.Graph.Record.{eq_hash, tip, last_seq_of, Core, Event, Batch}
use ayran.Graph.Journal.{
  ◌>>=◌, demand, head_of, first_seq_of, Checked, VerificationState, projection_corrupt, ok,
}
use ayran.Graph.Batch.{acknowledgement_for_replay, Acknowledgement}
use mathlib.Core.List.{reverse}

-- A row of `command_batches`.
pub record Receipt : Type 0 where
  pub batch_id : String
  pub idempotency_key : String
  pub request_hash : Text
  pub commit_hash : Text
  pub acknowledgement : Acknowledgement

-- The rows stand last first.
pub record Projection : Type 0 where
  pub receipts : List Receipt
  pub applied : List Event
  pub aggregate_heads : List (String × ℕ)
  pub cursor : ℕ
  pub event_hash : Option Text
  pub commit_hash : Option Text

abbrev pub empty_projection : Projection
empty_projection = record {
  receipts = [];
  applied = [];
  aggregate_heads = [];
  cursor = 0;
  event_hash = none;
  commit_hash = none;
}

unfoldable pub aggregate_revision : Projection → String → ℕ
unfolding head_of
aggregate_revision p id = head_of id p.aggregate_heads

unfoldable pub receipt_in : String → List Receipt → Option Receipt
receipt_in key [] = none
receipt_in key (r ∷ rs) = if str_eq r.idempotency_key key then some r else receipt_in key rs

-- `receipt`, by its idempotency key.
abbrev pub receipt : Projection → String → Option Receipt
receipt p key = receipt_in key p.receipts

unfoldable pub batch_in : String → List Receipt → Option Acknowledgement
batch_in id [] = none
batch_in id (r ∷ rs) = if str_eq r.batch_id id then some r.acknowledgement else batch_in id rs

-- The keys of `command_batches` and `applied_events`.
abbrev pub is_receipt_free : Batch → List Receipt → Bool
is_receipt_free b rs = not (
    any
      (λ r.
        str_eq r.idempotency_key b.begin.idempotency_key
        || eq_text r.commit_hash b.commit.commit_hash)
      rs)

abbrev pub is_event_free : Event → List Event → Bool
is_event_free e es = not (
    any
      (λ d.
        d.core.seq == e.core.seq
        || str_eq d.core.event_id e.core.event_id
        || eq_text d.event_hash e.event_hash
        || (str_eq d.core.aggregate_id e.core.aggregate_id
            && d.core.aggregate_version == e.core.aggregate_version))
      es)

module _ (refused : List Event → Event → Bool) where
  -- `_apply_event`.
  unfoldable pub apply_event : Projection → Event → Checked Projection
  unfolding eq_text
  apply_event p e =
      demand (is_event_free e p.applied && not (refused p.applied e)) projection_corrupt (
        ok (record p {
          applied = e ∷ p.applied;
          aggregate_heads = insert e.core.object_id e.core.aggregate_version p.aggregate_heads;
        }))

  unfoldable pub apply_events : Projection → List Event → Checked Projection
  unfolding apply_event
  apply_events p [] = ok p
  apply_events p (e ∷ es) = apply_event p e >>= λ next. apply_events next es

  -- The transaction of `apply_batch`.
  unfoldable pub project_batch : Projection → Batch → Acknowledgement → Checked Projection
  unfolding apply_events eq_text
  project_batch p b ack = demand (b.begin.first_seq == p.cursor + 1) projection_corrupt (
      demand (is_receipt_free b p.receipts) projection_corrupt (
        apply_events
          (record p {
            receipts =
                record {
                  batch_id = b.begin.batch_id;
                  idempotency_key = b.begin.idempotency_key;
                  request_hash = b.begin.request_hash;
                  commit_hash = b.commit.commit_hash;
                  acknowledgement = ack;
                }
                ∷ p.receipts;
          })
          b.events
        >>= λ next. ok (record next {
          cursor = last_seq_of 0 b.events;
          event_hash = tip none b.events;
          commit_hash = some b.commit.commit_hash;
        })))

  -- `apply_batch`: a batch that is there already changes nothing.
  unfoldable pub apply_batch :
      Projection → Batch → Acknowledgement → Checked (Projection × Acknowledgement)
  unfolding batch_in project_batch
  apply_batch p b ack = elim (batch_in b.begin.batch_id p.receipts) [
    | some known ↦ ok (p, known)
    | none ↦ project_batch p b ack >>= λ next. ok (next, ack)
  ]

  -- The loop of `replay` over the batches, in their order: those at or before the cursor it began with
  -- are there.
  unfoldable pub replay_from : ℕ → Projection → List Batch → Checked Projection
  unfolding apply_batch acknowledgement_for_replay
  replay_from start p [] = ok p
  replay_from start p (b ∷ bs) = elim (leb (last_seq_of 0 b.events) start) [
    | true ↦ replay_from start p bs
    | false ↦
        demand (ltb start (first_seq_of b.events)) projection_corrupt
          (apply_batch p b (acknowledgement_for_replay b) >>= λ next. replay_from start next.0 bs)
  ]

  -- `replay`.
  unfoldable pub replay : VerificationState → Projection → Checked Projection
  unfolding replay_from eq_hash
  replay j p = demand (leb p.cursor j.cursor) projection_corrupt (
      replay_from p.cursor p (reverse j.committed_batches) >>= λ next.
      demand (next.cursor == j.cursor && eq_hash next.event_hash j.last_event_hash)
        projection_corrupt (ok next))
