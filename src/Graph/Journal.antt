-- ===== src/Graph/Journal.antt =====
-- `Journal.verify` of skills/ayran/src/ayran/graph/journal.py: the protocol of a batch, the chains of
-- sequence numbers, hashes and revisions, and the recovery of the tail. `Hashes` and the checks that
-- `validate_contract` and `validate_body` make of an event are parameters.
pub mod Results
pub mod Steps
pub mod Tail
pub mod Chain
pub mod Altered
use ayran.Prelude.{
  ℕ, ◌+◌, String, Bool, true, false, not, ◌&&◌, ◌||◌, Option, none, some, List, [], ◌∷◌, ◌++◌, ◌==◌,
  length, any, is_empty,
}
use ayran.Prelude.Text.{codes, Text, eq_text, le_text, elem, lookup, insert, str_eq}
use ayran.Graph.Record.{
  eq_hash, tip, last_seq_of, hashes_of, objects_of, Core, Event, Begin, Commit, Record, Frame,
  Batch, Hashes, graph_node, graph_edge, graph_assertion, other, batch_begin, batch_event,
  batch_commit, whole, broken, partial,
}

pub data Code : Type 0 where
  journal_corrupt namespace_mismatch contract_invalid conflict_revision : Code
  projection_corrupt idempotency_collision : Code

pub data Checked {ℓ} (A : Type ℓ) : Type ℓ where
  ok : A → Checked A
  raised : Code → Checked A

infixl 10 ◌>>=◌
abbrev pub ◌>>=◌ {ℓ κ} : {A : Type ℓ} {B : Type κ} → Checked A → (A → Checked B) → Checked B
ok a >>= f = f a
raised e >>= f = raised e

abbrev pub demand {ℓ} : {A : Type ℓ} → Bool → Code → Checked A → Checked A
demand true code next = next
demand false code next = raised code

-- What follows a check that may raise.
abbrev pub unless {ℓ} : {A : Type ℓ} → Option Code → Checked A → Checked A
unless none next = next
unless (some e) next = raised e

-- The local variables of `verify` that outlive a batch, with `VerificationState`. The batches stand
-- last first.
pub record History : Type 0 where
  pub expected_seq : ℕ
  pub last_event_hash : Option Text
  pub last_commit_hash : Option Text
  pub aggregate_heads : List (String × ℕ)
  pub seen_events : List Text
  pub seen_batches : List String
  pub known_objects : List String
  pub cursor : ℕ
  pub event_count : ℕ
  pub batch_count : ℕ
  pub committed_batches : List Batch

abbrev pub empty_history : History
empty_history = record {
  expected_seq = 1;
  last_event_hash = none;
  last_commit_hash = none;
  aggregate_heads = [];
  seen_events = [];
  seen_batches = [];
  known_objects = [];
  cursor = 0;
  event_count = 0;
  batch_count = 0;
  committed_batches = [];
}

-- The open batch: `begin`, `events` and `begin_offset`.
pub record Open : Type 0 where
  pub begin : Begin
  pub events : List Event
  pub begin_offset : ℕ

unfoldable pub among : Text → List Text → Bool
unfolding eq_text
among h hs = any (eq_text h) hs

-- The key of a revision in the order of code points.
unfoldable pub before_key : String × ℕ → String × ℕ → Bool
unfolding le_text
before_key a b = le_text (codes a.0) (codes b.0)

unfoldable pub in_order : List (String × ℕ) → Bool
unfolding before_key
in_order [] = true
in_order (r ∷ []) = true
in_order (r ∷ q ∷ rs) = before_key r q && in_order (q ∷ rs)

unfoldable pub distinct_keys : List (String × ℕ) → Bool
distinct_keys [] = true
distinct_keys (r ∷ rs) = not (any (λ q. str_eq q.0 r.0) rs) && distinct_keys rs

abbrev pub or_zero : Option ℕ → ℕ
or_zero none = 0
or_zero (some n) = n

-- `aggregate_heads.get(id, 0)`.
unfoldable pub head_of : String → List (String × ℕ) → ℕ
unfolding lookup
head_of id heads = or_zero (lookup id heads)

-- The references of an event, against the objects that are known and those of its own batch so far.
unfoldable pub refers : List String → Core → Bool
refers known c = elim c.contract [
  | graph_node ↦ true
  | graph_edge source target ↦
      elem source (known ++ c.object_id ∷ []) && elem target (known ++ c.object_id ∷ [])
  | graph_assertion subject ↦ elem subject known
  | other name ↦ true
]

-- What a commit adds to the history.
abbrev pub heads_after : List (String × ℕ) → List Event → List (String × ℕ)
heads_after heads [] = heads
heads_after heads (e ∷ es) =
    heads_after (insert e.core.aggregate_id e.core.aggregate_version heads) es

abbrev pub seen_after : List Text → List Event → List Text
seen_after seen [] = seen
seen_after seen (e ∷ es) = seen_after (codes e.core.event_id ∷ e.event_hash ∷ seen) es

abbrev pub first_hash : List Event → Text
first_hash [] = []
first_hash (e ∷ es) = e.event_hash

abbrev pub first_seq_of : List Event → ℕ
first_seq_of [] = 0
first_seq_of (e ∷ es) = e.core.seq

abbrev pub or_blank : Option Text → Text
or_blank none = []
or_blank (some h) = h

unfoldable pub committed : History → Batch → History
committed s b = record {
  expected_seq = last_seq_of 0 b.events + 1;
  last_event_hash = tip s.last_event_hash b.events;
  last_commit_hash = some b.commit.commit_hash;
  aggregate_heads = heads_after s.aggregate_heads b.events;
  seen_events = seen_after s.seen_events b.events;
  seen_batches = b.begin.batch_id ∷ s.seen_batches;
  known_objects = s.known_objects ++ objects_of b.events;
  cursor = last_seq_of 0 b.events;
  event_count = s.event_count + length b.events;
  batch_count = s.batch_count + 1;
  committed_batches = b ∷ s.committed_batches;
}

-- What `verify` holds between two records.
abbrev pub State : Type 0
State = History × Option Open

-- Where the segment is cut: before the open batch, or before the torn line.
abbrev pub cut_at : Option Open → ℕ → ℕ
cut_at none line = line
cut_at (some o) line = o.begin_offset

abbrev pub is_open : Option Open → Bool
is_open none = false
is_open (some o) = true

module _ (hash : Hashes) (refusal : Core → Option Code) (own_stream : String) where
  -- `batch.begin`.
  unfoldable pub on_begin : History → Begin → Bool
  unfolding eq_hash in_order distinct_keys
  on_begin s r =
      r.first_seq == s.expected_seq
      && eq_hash r.previous_event_hash s.last_event_hash
      && eq_hash r.previous_commit_hash s.last_commit_hash
      && in_order r.expected_revisions
      && distinct_keys r.expected_revisions

  -- `batch.event`, before the body is validated: its place in the batch and its chains, and that its
  -- identity is new. The hash of the event is not computed again.
  unfoldable pub in_place : History → Open → Event → Bool
  unfolding eq_hash among
  in_place s o e =
      str_eq e.core.stream own_stream
      && str_eq e.core.batch_id o.begin.batch_id
      && e.core.ordinal == length o.events + 1
      && e.core.seq == s.expected_seq + length o.events
      && eq_hash e.core.previous_event_hash (tip s.last_event_hash o.events)
      && not (among (codes e.core.event_id) s.seen_events)
      && not (among e.event_hash s.seen_events)

  -- What follows the validation: the revision and the references.
  unfoldable pub in_history : History → Open → Event → Bool
  unfolding head_of refers
  in_history s o e =
      e.core.aggregate_version == head_of e.core.aggregate_id s.aggregate_heads + 1
      && refers (s.known_objects ++ objects_of o.events) e.core

  -- `expected` of a commit, and the checks after it.
  unfoldable pub binds : History → Open → Commit → Bool
  unfolding eq_text eq_hash
  binds s o c =
      str_eq c.binding.stream own_stream
      && str_eq c.binding.batch_id o.begin.batch_id
      && c.binding.event_count == length o.events
      && c.binding.first_seq == first_seq_of o.events
      && c.binding.last_seq == last_seq_of 0 o.events
      && eq_text c.binding.first_event_hash (first_hash o.events)
      && eq_text c.binding.last_event_hash (or_blank (tip none o.events))
      && eq_text c.binding.begin_hash (hash.of_begin o.begin)
      && eq_text c.binding.members_hash (hash.of_members (hashes_of o.events))
      && eq_hash c.binding.previous_commit_hash s.last_commit_hash
      && o.begin.event_count == length o.events
      && eq_text c.commit_hash (hash.of_commit c.binding)
      && not (elem o.begin.batch_id s.seen_batches)

  -- One record, at its line.
  unfoldable pub step : ℕ → State → Record → Checked State
  unfolding on_begin in_place in_history binds committed
  step line (s, none) (batch_begin r) = demand (str_eq r.stream own_stream) namespace_mismatch (
      demand (on_begin s r) journal_corrupt
        (ok (s, some (record { begin = r; events = []; begin_offset = line }))))
  step line (s, some o) (batch_begin r) = raised journal_corrupt
  step line (s, none) (batch_event e) = raised journal_corrupt
  step line (s, some o) (batch_event e) = demand (in_place s o e) journal_corrupt (
      unless (refusal e.core) (
        demand (in_history s o e) journal_corrupt
          (ok (s, some (record o { events = o.events ++ e ∷ [] })))))
  step line (s, none) (batch_commit c) = raised journal_corrupt
  step line (s, some o) (batch_commit c) =
      demand (not (is_empty o.events) && binds s o c) journal_corrupt
        (ok (committed s (record { begin = o.begin; events = o.events; commit = c }), none))

  -- The lines of a segment: the state after them, the line reached, and whether the last one is torn.
  unfoldable pub scan : ℕ → State → List Frame → Checked (State × ℕ × Bool)
  unfolding step
  scan line st [] = ok (st, line, false)
  scan line st (whole r ∷ fs) = step line st r >>= λ next. scan (line + 1) next fs
  scan line st (broken ∷ fs) = raised journal_corrupt
  scan line st (partial ∷ fs) = ok (st, line, true)

  -- The end of a segment: the history, and how many lines of it stay.
  unfoldable pub close : Bool → State × ℕ × Bool → Checked (History × ℕ)
  close may_recover ((s, o), line, torn) =
      demand (not (torn || is_open o) || may_recover) journal_corrupt (ok (s, cut_at o line))

  -- `verify` of a journal with one segment and no manifest.
  unfoldable pub verify : Bool → List Frame → Checked (History × ℕ)
  unfolding scan close
  verify recover_tail frames = scan 0 (empty_history, none) frames >>= close recover_tail

-- `VerificationState`, which the journal keeps.
pub record VerificationState : Type 0 where
  pub cursor : ℕ
  pub event_count : ℕ
  pub batch_count : ℕ
  pub last_event_hash : Option Text
  pub last_commit_hash : Option Text
  pub committed_batches : List Batch

abbrev pub state_of : History → VerificationState
state_of s = record {
  cursor = s.cursor;
  event_count = s.event_count;
  batch_count = s.batch_count;
  last_event_hash = s.last_event_hash;
  last_commit_hash = s.last_commit_hash;
  committed_batches = s.committed_batches;
}

-- What `append_batch` makes of it, once the lines are on the disk.
unfoldable pub append_batch : VerificationState → Batch → VerificationState
append_batch j b = record {
  cursor = last_seq_of 0 b.events;
  event_count = j.event_count + length b.events;
  batch_count = j.batch_count + 1;
  last_event_hash = tip none b.events;
  last_commit_hash = some b.commit.commit_hash;
  committed_batches = b ∷ j.committed_batches;
}
