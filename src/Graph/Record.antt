-- ===== src/Graph/Record.antt =====
-- The records of skills/ayran/src/ayran/graph/journal.py. What the journal does not look into (the
-- value of a body, the actor, the times) is one text, `contents`; a hash is its code points.
use ayran.Prelude.{ℕ, String, Bool, true, false, Option, none, some, List, [], ◌∷◌, map}
use ayran.Prelude.Text.{Text, eq_text}

-- The contract of a body, with the references that the journal follows.
pub data Contract : Type 0 where
  graph_node : Contract
  graph_edge : String → String → Contract
  graph_assertion : String → Contract
  other : String → Contract

-- A journal event without its hash, which is computed of the rest.
pub record Core : Type 0 where
  pub event_id : String
  pub seq : ℕ
  pub ordinal : ℕ
  pub stream : String
  pub batch_id : String
  pub aggregate_id : String
  pub aggregate_version : ℕ
  pub previous_event_hash : Option Text
  pub object_id : String
  pub contract : Contract
  pub contents : String

pub record Event : Type 0 where
  pub core : Core
  pub event_hash : Text

pub record Begin : Type 0 where
  pub stream : String
  pub batch_id : String
  pub operation_id : String
  pub idempotency_key : String
  pub request_hash : Text
  pub expected_revisions : List (String × ℕ)
  pub first_seq : ℕ
  pub event_count : ℕ
  pub previous_event_hash : Option Text
  pub previous_commit_hash : Option Text
  pub contents : String

-- A commit record without its hash.
pub record Binding : Type 0 where
  pub stream : String
  pub batch_id : String
  pub event_count : ℕ
  pub first_seq : ℕ
  pub last_seq : ℕ
  pub first_event_hash : Text
  pub last_event_hash : Text
  pub begin_hash : Text
  pub members_hash : Text
  pub previous_commit_hash : Option Text
  pub contents : String

pub record Commit : Type 0 where
  pub binding : Binding
  pub commit_hash : Text

pub data Record : Type 0 where
  batch_begin : Begin → Record
  batch_event : Event → Record
  batch_commit : Commit → Record

-- A line of a segment: a record that parses and meets its contract, a complete line that does not, or
-- a last line without its newline.
pub data Frame : Type 0 where
  whole : Record → Frame
  broken : Frame
  partial : Frame

-- A committed batch.
pub record Batch : Type 0 where
  pub begin : Begin
  pub events : List Event
  pub commit : Commit

-- `AppendItem`; `object_id` is the one that `object_id_for` finds in its value.
pub record Item : Type 0 where
  pub aggregate_id : Option String
  pub object_id : String
  pub contract : Contract
  pub contents : String

-- `AppendCommand`; the fields that are only copied are one text.
pub record Command : Type 0 where
  pub items : List Item
  pub expected_revisions : List (String × ℕ)
  pub idempotency_key : String
  pub operation_id : Option String
  pub contents : String

-- The hashes of graph/canonical.py: each is sha256 of a canonical JSON text. `of_command` is
-- `command_request_hash`.
pub record Hashes : Type 0 where
  pub of_event : Core → Text
  pub of_begin : Begin → Text
  pub of_members : List Text → Text
  pub of_commit : Binding → Text
  pub of_command : Command → Text

unfoldable pub eq_hash : Option Text → Option Text → Bool
unfolding eq_text
eq_hash none none = true
eq_hash (some a) (some b) = eq_text a b
eq_hash _ _ = false

-- The hash that a next event names: of the last event, or the one given where there is none.
abbrev pub tip : Option Text → List Event → Option Text
tip before [] = before
tip before (e ∷ es) = tip (some e.event_hash) es

-- `events[-1]["seq"]`.
abbrev pub last_seq_of : ℕ → List Event → ℕ
last_seq_of before [] = before
last_seq_of before (e ∷ es) = last_seq_of e.core.seq es

abbrev pub hashes_of : List Event → List Text
hashes_of es = map (λ e. e.event_hash) es

abbrev pub objects_of : List Event → List String
objects_of es = map (λ e. e.core.object_id) es
