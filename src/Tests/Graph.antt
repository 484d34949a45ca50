-- ===== src/Tests/Graph.antt =====
-- The journal and the store at concrete commands.
use ayran.Prelude.{
  ℕ, ◌+◌, String, ◌≡◌, refl, Bool, true, false, Option, none, some, List, [], ◌∷◌, ◌++◌, map, ◌==◌,
  if◌then◌else◌, length,
}
use ayran.Prelude.Text.{codes}
use ayran.Graph.Record.{
  objects_of, Core, Event, Record, Batch, Item, Command, Hashes, graph_node, graph_assertion,
  batch_event, whole,
}
use ayran.Graph.Journal.{
  empty_history, distinct_keys, head_of, committed, in_place, step, verify, state_of, append_batch,
  Code, Open, journal_corrupt, ok, raised,
}
use ayran.Graph.Journal.Steps.{steps}
use ayran.Graph.Journal.Tail.{first, torn_line, ended, verify_cut}
use ayran.Graph.Journal.Chain.{verify-IsChained, IsChained}
use ayran.Graph.Batch.{
  position_of, core_of, sealed, assemble, build_batch, loosely, records_of, frames_of,
  acknowledgement_for_replay, Acknowledgement,
}
use ayran.Graph.Batch.Accepted.{heads_of, verify-build_batch}
use ayran.Graph.Batch.Forward.{forward_reference}
use ayran.Graph.Projection.{empty_projection, receipt_in}
use ayran.Graph.Store.{caught_up, prepared, served, append, Store, Fresh}
use ayran.Graph.Store.Receipts.{as_replay}
use ayran.Graph.Store.Idempotent.{run, append_again}
use ayran.Graph.Store.Recovery.{caught_up-append_batch, append-IsInStep}
use ayran.Graph.Batch.Verified.{is_new, resolves}
use ayran.Graph.Journal.Altered.{map_ok, altered_frame, altered_history, verify-altered}
use ayran.Graph.Store.InStep.{is_before, rebuilt, IsInStep}

abbrev hashes : Hashes
hashes = record {
  of_event = λ c. codes c.event_id;
  of_begin = λ b. codes b.batch_id;
  of_members = λ hs. [];
  of_commit = λ b. codes b.batch_id;
  of_command = λ c. codes c.contents;
}

abbrev accepted : Core → Option Code
accepted c = none

abbrev permitted : List Event → Event → Bool
permitted es e = false

abbrev rendered : Item → String → ℕ → String
rendered item id version = item.contents

abbrev stream : String
stream = "target"

abbrev first_ids : ℕ → String
first_ids n = if n == 1 then "evt-1" else "evt-2"

abbrev fresh : Fresh
fresh = record { batch_id = "bat-1"; new_id = first_ids }

abbrev node : Item
node = record { aggregate_id = none; object_id = "node-1"; contract = graph_node; contents = "a" }

abbrev claim : Item
claim = record {
  aggregate_id = some "claim-1";
  object_id = "claim-1";
  contract = graph_assertion "node-1";
  contents = "b";
}

abbrev command : Command
command = record {
  items = node ∷ claim ∷ [];
  expected_revisions = ("node-1", 0) ∷ ("claim-1", 0) ∷ [];
  idempotency_key = "key-1";
  operation_id = none;
  contents = "c";
}

abbrev no_records : List Record
no_records = []

abbrev store : Store
store = record { journal = state_of empty_history; projection = empty_projection }

abbrev batch : Batch
unfolding assemble head_of
batch =
    assemble hashes accepted rendered first_ids stream "bat-1" (heads_of empty_history)
      (position_of (state_of empty_history)) command

abbrev receipt_1 : Acknowledgement
unfolding acknowledgement_for_replay
receipt_1 = acknowledgement_for_replay batch

after : Store
unfolding append
after = (served hashes accepted permitted rendered stream fresh store command).0

verify-build_batch_example :
    (verify hashes accepted stream false (map whole no_records ++ frames_of batch)
      ≡ ok (committed empty_history batch, length no_records + length (records_of batch)))
    × (state_of (committed empty_history batch) ≡ append_batch (state_of empty_history) batch)
    × (receipt_1 ≡ acknowledgement_for_replay batch)
unfolding batch receipt_1 build_batch assemble head_of acknowledgement_for_replay steps
    distinct_keys is_new resolves
verify-build_batch_example =
    verify-build_batch hashes accepted rendered first_ids stream "bat-1" no_records empty_history
      command batch receipt_1 refl refl refl refl refl refl

verify_cut_example :
    verify hashes accepted stream true
      (map whole no_records ++ (first 2 (frames_of batch) ++ torn_line true))
    ≡ ended true 2 true empty_history (length no_records)
unfolding steps batch step
verify_cut_example =
    verify_cut hashes accepted stream true no_records empty_history batch 2 true
      (committed empty_history batch, none) refl refl refl

verify-IsChained_example : IsChained hashes (committed empty_history batch)
unfolding verify batch
verify-IsChained_example =
    verify-IsChained hashes accepted stream false (frames_of batch) (committed empty_history batch)
      4 refl

abbrev again : Fresh
again = record { batch_id = "bat-2"; new_id = first_ids }

append_again_example :
    append hashes accepted permitted rendered stream again after command
    ≡ ok (record after { projection = after.projection }, ok (as_replay receipt_1))
unfolding after append run receipt_1 batch assemble head_of acknowledgement_for_replay receipt_in
append_again_example =
    append_again hashes accepted permitted rendered stream fresh again store after after
      empty_projection after.projection command receipt_1 [] refl refl refl refl refl

store-IsInStep : IsInStep permitted store
unfolding rebuilt is_before
store-IsInStep = record { rows = refl; cursor = refl; before = refl }

append-IsInStep_example : IsInStep permitted after
unfolding after append receipt_1 batch assemble head_of acknowledgement_for_replay receipt_in
append-IsInStep_example =
    append-IsInStep permitted hashes accepted rendered stream fresh store after command receipt_1
      store-IsInStep refl refl

caught_up-append_batch_example :
    caught_up hashes accepted permitted rendered stream
      (record { journal = append_batch store.journal batch; projection = store.projection })
    ≡ ok after.projection
unfolding after append prepared receipt_1 batch assemble head_of acknowledgement_for_replay
    receipt_in
caught_up-append_batch_example =
    caught_up-append_batch permitted hashes accepted rendered stream fresh store command batch
      receipt_1 after.projection store-IsInStep refl refl refl

abbrev begun : Open
unfolding batch assemble
begun = record { begin = batch.begin; events = []; begin_offset = 0 }

abbrev event_of : ℕ → Item → Event
event_of index item =
    sealed hashes accepted rendered first_ids stream "bat-1" (heads_of empty_history) (
      core_of hashes accepted rendered first_ids stream "bat-1" (heads_of empty_history) 0 none
        index item)

forward_reference_example :
    (loosely
        ([] ++ objects_of ([] ++ event_of 1 claim ∷ event_of 2 node ∷ []))
        (event_of 1 claim).core
      ≡ true)
    × (step hashes accepted stream 1 (empty_history, some begun) (batch_event (event_of 1 claim))
        ≡ raised journal_corrupt)
unfolding in_place begun batch assemble head_of
forward_reference_example =
    forward_reference hashes accepted stream 1 empty_history begun (event_of 1 claim)
      (event_of 2 node ∷ []) "node-1" refl refl refl refl refl

abbrev forged : Core → String
forged c = "forged"

verify-altered_example :
    verify hashes accepted stream false (map (altered_frame forged) (frames_of batch))
    ≡ map_ok
        (λ r. (altered_history forged r.0, r.1))
        (verify hashes accepted stream false (frames_of batch))
verify-altered_example =
    verify-altered forged hashes accepted stream (λ c. refl) false (frames_of batch)
