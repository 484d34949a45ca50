-- ===== src/Graph/Store/Recovery.antt =====
-- Appends of graph/recovery.py on a projection that is in step with the journal, and `replay` after a
-- crash between the write of a batch and its projection.
use ayran.Prelude.{
  ℕ, ◌+◌, String, ◌≡◌, sym, ap, ◌∙◌, inl, inr, Bool, true, false, not, Option, none, List, [], ◌∷◌,
  arith, ltb, is_empty,
}
use ayran.Prelude.Text.{Text}
use ayran.Graph.Record.{tip, last_seq_of, Core, Event, Batch, Item, Command, Hashes}
use ayran.Graph.Journal.{◌>>=◌, first_seq_of, append_batch, Code, VerificationState, ok}
use ayran.Graph.Journal.Results.{ok-injective}
use ayran.Graph.Batch.{make_events, assemble, acknowledgement_for_replay, Acknowledgement}
use ayran.Graph.Projection.{
  aggregate_revision, batch_in, project_batch, apply_batch, replay, Projection,
}
use ayran.Graph.Projection.Receipts.{project_batch_ok}
use ayran.Graph.Store.{caught_up, prepared, served, append, Store, Fresh}
use ayran.Graph.Store.Receipts.{prepared_built, prepared_ok}
use ayran.Graph.Store.Served.{served_ok}
use ayran.Graph.Store.InStep.{
  is_before, is_before-later, rebuilt, apply_batch_new, replay_one, IsInStep,
}
use mathlib.Core.Path.{subst}

module _ (refused : List Event → Event → Bool) where
  module _ (hash : Hashes) (refusal : Core → Option Code) (render : Item → String → ℕ → String)
      (stream : String) where
    -- Where the events of a built batch lie.
    built_after :
        (new_id : ℕ → String) (batch_id : String) (current : String → ℕ) (cursor index : ℕ)
        (tip : Option Text) (from : ℕ) (items : List Item)
        → ltb cursor from ≡ true
        → ltb 0 index ≡ true
        → ltb cursor (
            last_seq_of from (
              make_events hash refusal render new_id stream batch_id current cursor tip index
                items))
          ≡ true
    unfolding make_events
    built_after new_id batch_id current cursor index tip from [] h k = h
    built_after new_id batch_id current cursor index tip from (item ∷ items) h k =
        built_after new_id batch_id current cursor (index + 1) _ (cursor + index) items
          (ground arith) (ground arith)

    built_first :
        (new_id : ℕ → String) (batch_id : String) (current : String → ℕ) (cursor : ℕ)
        (tip : Option Text) (items : List Item)
        → not (is_empty items) ≡ true
        → let es =
            make_events hash refusal render new_id stream batch_id current cursor tip 1 items in
          (ltb cursor (first_seq_of es) ≡ true) × (ltb cursor (last_seq_of 0 es) ≡ true)
    unfolding make_events
    built_first new_id batch_id current cursor tip [] h = cc
    built_first new_id batch_id current cursor tip (item ∷ items) h = (
      ground arith,
      built_after new_id batch_id current cursor 2 _ (cursor + 1) items (ground arith)
          (ground arith),
    )

    prepared_after :
        (fresh : Fresh) (j : VerificationState) (p : Projection) (command : Command) (b : Batch)
        (ack : Acknowledgement)
        → prepared hash refusal refused render stream fresh j p command ≡ ok (b, ack)
        → (ltb j.cursor (first_seq_of b.events) ≡ true)
          × (ltb j.cursor (last_seq_of 0 b.events) ≡ true)
    unfolding assemble
    prepared_after fresh j p command b ack h =
        let (full, same, replay) =
          prepared_built hash refusal refused render stream fresh j p command b ack h in
        subst
          (λ b.
            (ltb j.cursor (first_seq_of b.events) ≡ true)
            × (ltb j.cursor (last_seq_of 0 b.events) ≡ true))
          same
          (built_first fresh.new_id fresh.batch_id (aggregate_revision p) j.cursor j.last_event_hash
            command.items full)

    -- A store whose projection is in step with its journal, and a batch that it prepared under a new
    -- identifier and wrote to the journal only: catching up gives the projection that the transaction
    -- of the batch would have given.
    pub caught_up-append_batch :
        (fresh : Fresh) (st : Store) (command : Command) (b : Batch) (ack : Acknowledgement)
        (q : Projection)
        → IsInStep refused st
        → prepared hash refusal refused render stream fresh st.journal st.projection command
          ≡ ok (b, ack)
        → batch_in fresh.batch_id st.projection.receipts ≡ none
        → project_batch refused st.projection b ack ≡ ok q
        → caught_up hash refusal refused render stream
            (record { journal = append_batch st.journal b; projection = st.projection })
          ≡ ok q
    unfolding caught_up append_batch
    caught_up-append_batch fresh st command b ack q i made new h =
        let (first, last) = prepared_after fresh st.journal st.projection command b ack made in
        let (id, key, request, replay) =
          prepared_ok hash refusal refused render stream fresh st.journal st.projection command b
            ack made in
        let known = subst (λ x. batch_in x st.projection.receipts ≡ none) (sym id) new in
        let again = subst (λ a. project_batch refused st.projection b a ≡ ok q) replay h in
        let behind = subst (λ n. ltb n (last_seq_of 0 b.events) ≡ true) (sym i.cursor) last in
        rw (behind, caught_up)
          (replay_one refused st.journal st.projection q b
            (subst (λ n. is_before n st.journal.committed_batches ≡ true) (sym i.cursor) i.before)
            (subst (λ n. ltb n (first_seq_of b.events) ≡ true) (sym i.cursor) first) behind known
            again)

    projected-IsInStep :
        (fresh : Fresh) (st after : Store) (command : Command) (b : Batch) (ack : Acknowledgement)
        → IsInStep refused st
        → prepared hash refusal refused render stream fresh st.journal st.projection command
          ≡ ok (b, ack)
        → batch_in fresh.batch_id st.projection.receipts ≡ none
        → project_batch refused st.projection b ack ≡ ok after.projection
        → after.journal ≡ append_batch st.journal b
        → IsInStep refused after
    unfolding append_batch rebuilt is_before
    projected-IsInStep fresh st after command b ack i made new h j =
        let (first, last) = prepared_after fresh st.journal st.projection command b ack made in
        let (id, key, request, replay) =
          prepared_ok hash refusal refused render stream fresh st.journal st.projection command b
            ack made in
        let known = subst (λ x. batch_in x st.projection.receipts ≡ none) (sym id) new in
        let again =
          subst (λ a. project_batch refused st.projection b a ≡ ok after.projection) replay h in
        let applied =
          apply_batch_new refused st.projection after.projection b (acknowledgement_for_replay b)
            known again in
        let old =
          is_before-later st.journal.cursor (last_seq_of 0 b.events) st.journal.committed_batches
            (ground arith) i.before in
        record {
          rows =
              ap (λ x. rebuilt refused x.committed_batches) j
              ∙ ap
                  (λ c. c >>= λ p.
                    apply_batch refused p b (acknowledgement_for_replay b) >>= λ next. ok next.0)
                  i.rows
              ∙ ap (λ c. c >>= λ next. ok next.0) applied;
          cursor =
              (project_batch_ok refused st.projection after.projection b ack h).3
              ∙ sym (ap (λ x. x.cursor) j);
          before = ap (λ x. is_before x.cursor x.committed_batches) j ∙ ground (arith, old);
        }

    -- What is served keeps the projection in step with the journal.
    served-IsInStep :
        (fresh : Fresh) (st after : Store) (command : Command) (out : Acknowledgement)
        → IsInStep refused st
        → batch_in fresh.batch_id st.projection.receipts ≡ none
        → served hash refusal refused render stream fresh st command ≡ (after, ok out)
        → IsInStep refused after
    served-IsInStep fresh st after command out i new h =
        elim (served_ok hash refusal refused render stream fresh st after command out new h) [
          | inl same ↦ subst (IsInStep refused) same i
          | inr (b, ack, made, projected, journal) ↦
              projected-IsInStep fresh st after command b ack i made new projected journal
        ]

    -- A store whose projection is what `_rebuild_without_current` makes of the journal, at its cursor, and
    -- whose batches end at or before it, and an append that answers under a batch identifier that the
    -- projection does not know: so are the store and the projection after it.
    pub append-IsInStep :
        (fresh : Fresh) (st after : Store) (command : Command) (out : Acknowledgement)
        → IsInStep refused st
        → batch_in fresh.batch_id st.projection.receipts ≡ none
        → append hash refusal refused render stream fresh st command ≡ ok (after, ok out)
        → IsInStep refused after
    unfolding append caught_up
    append-IsInStep fresh st after command out i new h =
        let level : ltb st.projection.cursor st.journal.cursor ≡ false = ground (arith, i.cursor) in
        served-IsInStep fresh st after command out i new
          (ok-injective _ (after, ok out) (rw (level, append, caught_up) at h))
