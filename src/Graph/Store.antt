-- ===== src/Graph/Store.antt =====
-- `GraphStore.append` of graph/recovery.py: the journal and the projection together. A write to the
-- journal succeeds here; what a write that is cut leaves is in Journal/Tail.
pub mod Receipts
pub mod Idempotent
pub mod Recovery
pub mod Served
pub mod InStep
use ayran.Prelude.{ℕ, String, Bool, true, Option, none, some, List, ltb, if◌then◌else◌, is_empty}
use ayran.Prelude.Text.{eq_text}
use ayran.Graph.Record.{Core, Event, Batch, Item, Command, Hashes}
use ayran.Graph.Journal.{
  ◌>>=◌, demand, append_batch, Code, Checked, VerificationState, contract_invalid,
  idempotency_collision, ok, raised,
}
use ayran.Graph.Batch.{position_of, keys_of, build_batch, check_references, Acknowledgement}
use ayran.Graph.Projection.{aggregate_revision, receipt, apply_batch, replay, Receipt, Projection}

pub record Store : Type 0 where
  pub journal : VerificationState
  pub projection : Projection

-- The identifiers that an append makes.
pub record Fresh : Type 0 where
  pub batch_id : String
  pub new_id : ℕ → String

module _ (hash : Hashes) (refusal : Core → Option Code) (refused : List Event → Event → Bool)
    (render : Item → String → ℕ → String) (stream : String) where
  -- The first lines of `append`: a projection behind the journal is brought up to it.
  unfoldable pub caught_up : Store → Checked Projection
  unfolding replay
  caught_up st =
      if ltb st.projection.cursor st.journal.cursor
      then replay refused st.journal st.projection
      else ok st.projection

  -- A key that is there: the acknowledgement of its command, or a collision.
  unfoldable pub answered : Command → Receipt → Checked Acknowledgement
  unfolding eq_text
  answered command r =
      demand (eq_text r.request_hash (hash.of_command command)) idempotency_collision
        (ok (record r.acknowledgement { idempotent_replay = true }))

  -- What is built of a command whose key is new, before anything is written.
  unfoldable pub prepared :
      Fresh → VerificationState → Projection → Command → Checked (Batch × Acknowledgement)
  unfolding build_batch check_references aggregate_revision
  prepared fresh journal p command =
      build_batch hash refusal render fresh.new_id stream fresh.batch_id (aggregate_revision p)
        (position_of journal) command
      >>= λ built.
          demand (check_references (keys_of p.aggregate_heads) built.0.events) contract_invalid
            (ok built)

  -- What is written: the journal first. An error of the projection leaves it behind the journal.
  abbrev pub landed :
      VerificationState
      → Projection
      → Batch
      → Acknowledgement
      → Checked (Projection × Acknowledgement)
      → Store × Checked Acknowledgement
  landed journal p b ack (ok next) =
      (record { journal = append_batch journal b; projection = next.0 }, ok ack)
  landed journal p b ack (raised e) =
      (record { journal = append_batch journal b; projection = p }, raised e)

  unfoldable pub written :
      VerificationState
      → Projection
      → Checked (Batch × Acknowledgement)
      → Store × Checked Acknowledgement
  unfolding append_batch apply_batch
  written journal p (raised e) = (record { journal = journal; projection = p }, raised e)
  written journal p (ok (b, ack)) = landed journal p b ack (apply_batch refused p b ack)

  -- `append` with a projection that is caught up, of a command with canonical timestamps.
  unfoldable pub served : Fresh → Store → Command → Store × Checked Acknowledgement
  unfolding answered prepared written
  served fresh st command =
      if is_empty command.items
      then (st, raised contract_invalid)
      else elim (receipt st.projection command.idempotency_key) [
        | some r ↦ (st, answered command r)
        | none ↦ written st.journal st.projection (prepared fresh st.journal st.projection command)
      ]

  -- `append`; where `replay` fails, the batches that it applied before are left out.
  unfoldable pub append : Fresh → Store → Command → Checked (Store × Checked Acknowledgement)
  unfolding caught_up served
  append fresh st command =
      caught_up st >>= λ p. ok (served fresh (record st { projection = p }) command)
