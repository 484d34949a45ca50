-- ===== src/Graph/Batch/Accepted.antt =====
-- The batch that `build_batch` of graph/events.py returns, read back by `Journal.verify`.
use ayran.Prelude.{
  ℕ, ◌+◌, String, ◌≡◌, refl, sym, ap, ◌∙◌, true, false, not, Option, none, some, List, [], ◌∷◌,
  ◌++◌, map, arith, length, every, is_empty,
}
use ayran.Prelude.Text.{Text, eq_text_refl, elem, eq_refl}
use ayran.Graph.Record.{
  tip, last_seq_of, hashes_of, Core, Event, Record, Batch, Item, Command, Hashes, whole,
}
use ayran.Graph.Journal.{
  empty_history, distinct_keys, head_of, first_hash, first_seq_of, or_blank, committed, on_begin,
  binds, verify, state_of, append_batch, Code, History, contract_invalid, conflict_revision, ok,
}
use ayran.Graph.Batch.{
  position_of, agrees, ids_of, distinct_ids, keys_of, same_set, as_expected, make_events,
  first_refusal, make_begin, make_commit, assemble, make_acknowledgement, build_batch, records_of,
  frames_of, acknowledgement_for_replay, Position, Acknowledgement,
}
use ayran.Graph.Batch.Sorted.{sorted-in_order, sorted-distinct_keys}
use ayran.Graph.Batch.Verified.{eq_hash_refl, is_new, resolves, opened, made-Fits, batch_joins}
use ayran.Graph.Journal.Results.{demand_ok, unless_ok, ok-injective}
use ayran.Graph.Journal.Steps.{steps, verify-append, tail-steps}
use ayran.Graph.Journal.Chain.{empty_history-IsChained, steps-IsSound}
use mathlib.Core.Path.{subst}

abbrev pub heads_of : History → String → ℕ
heads_of s id = head_of id s.aggregate_heads

module _ (hash : Hashes) (refusal : Core → Option Code) (render : Item → String → ℕ → String)
    (new_id : ℕ → String) (stream batch_id : String) (current : String → ℕ) where
  replayed :
      (p : Position) (command : Command)
      → make_acknowledgement hash refusal render new_id stream batch_id current command
          (assemble hash refusal render new_id stream batch_id current p command)
        ≡ acknowledgement_for_replay
            (assemble hash refusal render new_id stream batch_id current p command)
  unfolding assemble make_begin make_commit acknowledgement_for_replay
  replayed p command = refl

  -- A batch that is returned is the one assembled; it has an item, and none of its events is refused.
  pub build_batch_ok :
      (p : Position) (command : Command) (b : Batch) (ack : Acknowledgement)
      → build_batch hash refusal render new_id stream batch_id current p command ≡ ok (b, ack)
      → (not (is_empty command.items) ≡ true)
        × (first_refusal hash refusal render new_id stream batch_id current
              (assemble hash refusal render new_id stream batch_id current p command).events
            ≡ none)
        × (assemble hash refusal render new_id stream batch_id current p command ≡ b)
        × (ack ≡ acknowledgement_for_replay b)
  unfolding build_batch
  build_batch_ok p command b ack h =
      let (full, h1) = demand_ok (not (is_empty command.items)) contract_invalid _ (b, ack) h in
      let (h2, h3) = demand_ok (every agrees command.items) contract_invalid _ (b, ack) h1 in
      let (h4, h5) =
        demand_ok (distinct_ids (ids_of command.items)) contract_invalid _ (b, ack) h3 in
      let (h6, h7) =
        demand_ok (same_set (keys_of command.expected_revisions) (ids_of command.items))
          contract_invalid _ (b, ack) h5 in
      let (h8, h9) =
        demand_ok (as_expected current command.expected_revisions) conflict_revision _ (b, ack)
          h7 in
      let (accepted, same) =
        unless_ok
          (first_refusal hash refusal render new_id stream batch_id current
            (assemble hash refusal render new_id stream batch_id current p command).events)
          _ (b, ack) h9 in
      let built = ok-injective _ (b, ack) same in
      (
        full,
        accepted,
        ap (λ r. r.0) built,
        sym (ap (λ r. r.1) built)
            ∙ replayed p command
            ∙ ap acknowledgement_for_replay (ap (λ r. r.0) built),
      )

module _ (hash : Hashes) (refusal : Core → Option Code) (render : Item → String → ℕ → String)
    (new_id : ℕ → String) (stream batch_id : String) (s : History)
    (started : s.expected_seq ≡ s.cursor + 1) where
  abbrev made : Command → Batch
  made command =
      assemble hash refusal render new_id stream batch_id (heads_of s) (position_of (state_of s))
        command

  made_events : List Item → List Event
  made_events items =
      make_events hash refusal render new_id stream batch_id (heads_of s) s.cursor s.last_event_hash
        1 items

  made_events_full :
      (items : List Item)
      → not (is_empty items) ≡ true
      → (is_empty (made_events items) ≡ false) × (first_seq_of (made_events items) ≡ s.expected_seq)
  unfolding make_events made_events
  made_events_full [] h = cc
  made_events_full (item ∷ items) h = (refl, sym started)

  made_begins :
      (command : Command)
      → not (is_empty command.items) ≡ true
      → distinct_keys command.expected_revisions ≡ true
      → on_begin hash refusal stream s (made command).begin ≡ true
  unfolding assemble make_begin on_begin made_events
  made_begins command h d =
      let first = (made_events_full command.items h).1 in
      ground (
        arith,
        eq_hash_refl s.last_event_hash,
        eq_hash_refl s.last_commit_hash,
        sorted-in_order command.expected_revisions,
        sorted-distinct_keys command.expected_revisions d,
      )

  binds-made :
      (offset : ℕ) (command : Command)
      → elem batch_id s.seen_batches ≡ false
      → binds hash refusal stream s
          (opened hash refusal stream s (made command).begin offset (made command).events)
          (made command).commit
        ≡ true
  unfolding assemble make_begin make_commit binds
  binds-made offset command fresh =
      let es = (made command).events in
      ground (
        arith,
        eq_refl stream,
        eq_refl batch_id,
        eq_text_refl (first_hash es),
        eq_text_refl (or_blank (tip none es)),
        eq_text_refl (hash.of_begin (made command).begin),
        eq_text_refl (hash.of_members (hashes_of es)),
        eq_hash_refl s.last_commit_hash,
        eq_text_refl (made command).commit.commit_hash,
      )

  steps-made :
      (command : Command) (line : ℕ)
      → not (is_empty command.items) ≡ true
      → first_refusal hash refusal render new_id stream batch_id (heads_of s) (made command).events
        ≡ none
      → distinct_keys command.expected_revisions ≡ true
      → elem batch_id s.seen_batches ≡ false
      → is_new s (made command).events ≡ true
      → resolves s.known_objects [] (made command).events ≡ true
      → steps hash refusal stream line (s, none) (records_of (made command))
        ≡ ok (committed s (made command), none)
  unfolding made_events assemble make_begin
  steps-made command line full accepted d fresh new refs =
      let begin = (made command).begin in
      batch_joins hash refusal stream s begin line (made command).events (made command).commit
        (eq_refl stream) (made_begins command full d)
        (made-Fits hash refusal stream s begin line render new_id started [] command.items
          s.last_event_hash 1 refl refl new accepted refs)
        (made_events_full command.items full).0 (binds-made line command fresh)

  -- A returned batch verifies.
  steps-build_batch :
      (command : Command) (b : Batch) (ack : Acknowledgement) (line : ℕ)
      → build_batch hash refusal render new_id stream batch_id
          (heads_of s)
          (position_of (state_of s))
          command
        ≡ ok (b, ack)
      → distinct_keys command.expected_revisions ≡ true
      → elem batch_id s.seen_batches ≡ false
      → is_new s b.events ≡ true
      → resolves s.known_objects [] b.events ≡ true
      → steps hash refusal stream line (s, none) (records_of b) ≡ ok (committed s b, none)
  steps-build_batch command b ack line h d fresh new refs =
      let (full, accepted, same, replay) =
        build_batch_ok hash refusal render new_id stream batch_id (heads_of s)
          (position_of (state_of s)) command b ack h in
      subst
        (λ (b : Batch).
          is_new s b.events ≡ true
          → resolves s.known_objects [] b.events ≡ true
          → steps hash refusal stream line (s, none) (records_of b) ≡ ok (committed s b, none))
        same (steps-made command line full accepted d fresh) new refs

-- The state that `append_batch` keeps is the one that `verify` would find.
committed_state :
    (s : History) (b : Batch)
    → is_empty b.events ≡ false
    → state_of (committed s b) ≡ append_batch (state_of s) b
unfolding committed append_batch
committed_state s b h =
    let tips : tip s.last_event_hash b.events ≡ tip none b.events =
      tip_full s.last_event_hash none b.events h in
    ap
      (λ h. record {
        cursor = last_seq_of 0 b.events;
        event_count = s.event_count + length b.events;
        batch_count = s.batch_count + 1;
        last_event_hash = h;
        last_commit_hash = some b.commit.commit_hash;
        committed_batches = b ∷ s.committed_batches;
      })
      tips
  where
    tip_full : (a c : Option Text) (es : List Event) → is_empty es ≡ false → tip a es ≡ tip c es
    tip_full a c [] h = cc
    tip_full a c (e ∷ es) h = refl

-- Records that lead `verify` to a closed history, and after them the lines of a batch that `build_batch`
-- returns at its head, with a new batch identifier, new identities and hashes of its events, expected
-- revisions with distinct keys, and references that resolve to the history, to events before them or to
-- the edge itself: `verify` without recovery returns the history with the batch committed and keeps all
-- lines, the state that `append_batch` leaves in memory is that of this history, and the acknowledgement
-- of `build_batch` is the one that `acknowledgement_for_replay` makes of the batch.
pub verify-build_batch :
    (hash : Hashes) (refusal : Core → Option Code) (render : Item → String → ℕ → String)
    (new_id : ℕ → String) (stream batch_id : String) (rs : List Record) (s : History)
    (command : Command) (b : Batch) (ack : Acknowledgement)
    → steps hash refusal stream 0 (empty_history, none) rs ≡ ok (s, none)
    → build_batch hash refusal render new_id stream batch_id
        (heads_of s)
        (position_of (state_of s))
        command
      ≡ ok (b, ack)
    → distinct_keys command.expected_revisions ≡ true
    → elem batch_id s.seen_batches ≡ false
    → is_new s b.events ≡ true
    → resolves s.known_objects [] b.events ≡ true
    → (verify hash refusal stream false (map whole rs ++ frames_of b)
        ≡ ok (committed s b, length rs + length (records_of b)))
      × (state_of (committed s b) ≡ append_batch (state_of s) b)
      × (ack ≡ acknowledgement_for_replay b)
unfolding assemble made_events
verify-build_batch hash refusal render new_id stream batch_id rs s command b ack run h d fresh new
      refs =
    let started =
      (steps-IsSound hash refusal stream 0 (empty_history, none) rs (s, none)
        (empty_history-IsChained hash) run).next in
    let joins =
      steps-build_batch hash refusal render new_id stream batch_id s started command b ack
        (length rs) h d fresh new refs in
    let (full, accepted, same, replay) =
      build_batch_ok hash refusal render new_id stream batch_id (heads_of s)
        (position_of (state_of s)) command b ack h in
    let some_events =
      subst (λ (b : Batch). is_empty b.events ≡ false) same
        ((made_events_full hash refusal render new_id stream batch_id s started command.items
          full).0) in
    (
      verify-append hash refusal stream false rs s (frames_of b) run
          ∙ tail-steps hash refusal stream false (length rs) s (committed s b) (records_of b) joins,
      committed_state s b some_events,
      replay,
    )
