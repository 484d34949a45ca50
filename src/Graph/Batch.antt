-- ===== src/Graph/Batch.antt =====
-- `build_batch` of skills/ayran/src/ayran/graph/events.py, and `_check_references` of
-- skills/ayran/src/ayran/graph/recovery.py. The value that `_prepare_value` makes of an item is a
-- parameter (`render`), and so are the fresh identifiers.
pub mod Sorted
pub mod Verified
pub mod Accepted
pub mod Forward
use ayran.Prelude.{
  ℕ, ◌+◌, String, Bool, true, false, not, ◌&&◌, Option, none, some, List, [], ◌∷◌, ◌++◌, map, ◌==◌,
  if◌then◌else◌, length, every, is_empty,
}
use ayran.Prelude.Text.{Text, elem, str_eq}
use ayran.Graph.Record.{
  tip, last_seq_of, hashes_of, objects_of, Core, Event, Begin, Binding, Commit, Record, Frame,
  Batch, Item, Command, Hashes, graph_node, graph_edge, graph_assertion, other, batch_begin,
  batch_event, batch_commit, whole,
}
use ayran.Graph.Journal.{
  demand, unless, before_key, first_hash, first_seq_of, or_blank, Code, Checked, VerificationState,
  contract_invalid, conflict_revision, ok,
}

-- Where the stream stands: what `build_batch` is told of the journal.
pub record Position : Type 0 where
  pub cursor : ℕ
  pub last_event_hash : Option Text
  pub last_commit_hash : Option Text

-- What the journal tells `build_batch`.
abbrev pub position_of : VerificationState → Position
position_of s = record {
  cursor = s.cursor;
  last_event_hash = s.last_event_hash;
  last_commit_hash = s.last_commit_hash;
}

-- The acknowledgement of a batch.
pub record Acknowledgement : Type 0 where
  pub stream : String
  pub batch_id : String
  pub operation_id : String
  pub idempotency_key : String
  pub request_hash : Text
  pub first_seq : ℕ
  pub last_seq : ℕ
  pub event_ids : List String
  pub event_hashes : List Text
  pub commit_hash : Text
  pub projection_cursor : ℕ
  pub projection_event_hash : Text
  pub idempotent_replay : Bool

abbrev pub agrees : Item → Bool
agrees item = elim item.aggregate_id [ none ↦ true | some id ↦ str_eq id item.object_id ]

abbrev pub ids_of : List Item → List String
ids_of items = map (λ i. i.object_id) items

unfoldable pub distinct_ids : List String → Bool
distinct_ids [] = true
distinct_ids (x ∷ xs) = not (elem x xs) && distinct_ids xs

abbrev pub keys_of : List (String × ℕ) → List String
keys_of rs = map (λ r. r.0) rs

-- `set(a) == set(b)`.
abbrev pub same_set : List String → List String → Bool
same_set xs ys = every (λ x. elem x ys) xs && every (λ y. elem y xs) ys

insert_sorted : String × ℕ → List (String × ℕ) → List (String × ℕ)
unfolding before_key
insert_sorted r [] = r ∷ []
insert_sorted r (q ∷ rs) =
    let rest = insert_sorted r rs in if before_key r q then r ∷ q ∷ rs else q ∷ rest

-- `sorted(command.expected_revisions)`, with the revisions.
unfoldable pub sorted : List (String × ℕ) → List (String × ℕ)
unfolding insert_sorted
sorted [] = []
sorted (r ∷ rs) = insert_sorted r (sorted rs)

-- A dict has each key once.
abbrev pub as_expected : (String → ℕ) → List (String × ℕ) → Bool
as_expected current rs = every (λ r. r.1 == current r.0) rs

module _ (hash : Hashes) (refusal : Core → Option Code) (render : Item → String → ℕ → String)
    (new_id : ℕ → String) (stream batch_id : String) (current : String → ℕ) where
  abbrev pub core_of : ℕ → Option Text → ℕ → Item → Core
  core_of cursor predecessor index item =
      let version = current item.object_id + 1 in
      record {
        event_id = new_id index;
        seq = cursor + index;
        ordinal = index;
        stream = stream;
        batch_id = batch_id;
        aggregate_id = item.object_id;
        aggregate_version = version;
        previous_event_hash = predecessor;
        object_id = item.object_id;
        contract = item.contract;
        contents = render item (new_id index) version;
      }

  abbrev pub sealed : Core → Event
  sealed c = record { core = c; event_hash = hash.of_event c }

  -- The loop over the items.
  unfoldable pub make_events : ℕ → Option Text → ℕ → List Item → List Event
  make_events cursor predecessor index [] = []
  make_events cursor predecessor index (item ∷ items) =
      let e = sealed (core_of cursor predecessor index item) in
      e ∷ make_events cursor (some e.event_hash) (index + 1) items

  -- The first refusal of an event by its contract or its body.
  unfoldable pub first_refusal : List Event → Option Code
  first_refusal [] = none
  first_refusal (e ∷ es) = elim (refusal e.core) [ none ↦ first_refusal es | some code ↦ some code ]

  -- `command.operation_id or new_id("op")`.
  abbrev operation_of : Command → String
  operation_of command = elim command.operation_id [ none ↦ new_id 0 | some id ↦ id ]

  unfoldable pub make_begin : Position → Command → List Event → Begin
  unfolding sorted
  make_begin p command es = record {
    stream = stream;
    batch_id = batch_id;
    operation_id = operation_of command;
    idempotency_key = command.idempotency_key;
    request_hash = hash.of_command command;
    expected_revisions = sorted command.expected_revisions;
    first_seq = first_seq_of es;
    event_count = length es;
    previous_event_hash = p.last_event_hash;
    previous_commit_hash = p.last_commit_hash;
    contents = command.contents;
  }

  abbrev binding_of : Position → Begin → List Event → Binding
  binding_of p begin es = record {
    stream = stream;
    batch_id = batch_id;
    event_count = length es;
    first_seq = first_seq_of es;
    last_seq = last_seq_of 0 es;
    first_event_hash = first_hash es;
    last_event_hash = or_blank (tip none es);
    begin_hash = hash.of_begin begin;
    members_hash = hash.of_members (hashes_of es);
    previous_commit_hash = p.last_commit_hash;
    contents = begin.contents;
  }

  unfoldable pub make_commit : Position → Begin → List Event → Commit
  make_commit p begin es =
      let b = binding_of p begin es in record { binding = b; commit_hash = hash.of_commit b }

  unfoldable pub assemble : Position → Command → Batch
  unfolding make_events make_begin make_commit
  assemble p command =
      let es = make_events p.cursor p.last_event_hash 1 command.items in
      let begin = make_begin p command es in
      record { begin = begin; events = es; commit = make_commit p begin es }

  abbrev pub make_acknowledgement : Command → Batch → Acknowledgement
  make_acknowledgement command b = record {
    stream = stream;
    batch_id = batch_id;
    operation_id = operation_of command;
    idempotency_key = command.idempotency_key;
    request_hash = hash.of_command command;
    first_seq = first_seq_of b.events;
    last_seq = last_seq_of 0 b.events;
    event_ids = map (λ e. e.core.event_id) b.events;
    event_hashes = hashes_of b.events;
    commit_hash = b.commit.commit_hash;
    projection_cursor = last_seq_of 0 b.events;
    projection_event_hash = or_blank (tip none b.events);
    idempotent_replay = false;
  }

  -- `build_batch`.
  unfoldable pub build_batch : Position → Command → Checked (Batch × Acknowledgement)
  unfolding assemble first_refusal distinct_ids
  build_batch p command =
      let batch = assemble p command in
      demand (not (is_empty command.items)) contract_invalid (
        demand (every agrees command.items) contract_invalid (
          demand (distinct_ids (ids_of command.items)) contract_invalid (
            demand (same_set (keys_of command.expected_revisions) (ids_of command.items))
              contract_invalid
              (demand (as_expected current command.expected_revisions) conflict_revision (
                unless (first_refusal batch.events)
                  (ok (batch, make_acknowledgement command batch)))))))

-- `_check_references`: a reference may be to any object of the batch, before or after.
abbrev pub loosely : List String → Core → Bool
loosely objects c = elim c.contract [
  | graph_node ↦ true
  | graph_edge source target ↦ elem source objects && elem target objects
  | graph_assertion subject ↦ elem subject objects
  | other name ↦ true
]

unfoldable pub check_references : List String → List Event → Bool
check_references known es = every (λ e. loosely (known ++ objects_of es) e.core) es

-- The lines that `append_batch` writes, none of them longer than MAX_FRAME_BYTES.
abbrev pub records_of : Batch → List Record
records_of b = batch_begin b.begin ∷ (map batch_event b.events ++ batch_commit b.commit ∷ [])

abbrev pub frames_of : Batch → List Frame
frames_of b = map whole (records_of b)

-- `acknowledgement_for_replay`.
unfoldable pub acknowledgement_for_replay : Batch → Acknowledgement
acknowledgement_for_replay b = record {
  stream = b.begin.stream;
  batch_id = b.begin.batch_id;
  operation_id = b.begin.operation_id;
  idempotency_key = b.begin.idempotency_key;
  request_hash = b.begin.request_hash;
  first_seq = first_seq_of b.events;
  last_seq = last_seq_of 0 b.events;
  event_ids = map (λ e. e.core.event_id) b.events;
  event_hashes = hashes_of b.events;
  commit_hash = b.commit.commit_hash;
  projection_cursor = last_seq_of 0 b.events;
  projection_event_hash = or_blank (tip none b.events);
  idempotent_replay = false;
}
