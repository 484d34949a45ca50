-- ===== src/Graph/Store/InStep.antt =====
-- The projection of graph/recovery.py as a view of the journal.
use ayran.Prelude.{
  ℕ, ◌≡◌, refl, ap, ◌∙◌, Bool, true, false, ◌&&◌, none, List, [], ◌∷◌, ◌++◌, arith, ltb, leb, ◌==◌,
  every,
}
use ayran.Graph.Record.{eq_hash, tip, last_seq_of, Event, Batch}
use ayran.Graph.Journal.{
  ◌>>=◌, demand, first_seq_of, append_batch, Checked, VerificationState, projection_corrupt, ok,
}
use ayran.Graph.Batch.{acknowledgement_for_replay, Acknowledgement}
use ayran.Graph.Projection.{
  empty_projection, batch_in, project_batch, apply_batch, replay_from, replay, Projection,
}
use ayran.Graph.Projection.Receipts.{project_batch_ok}
use ayran.Graph.Store.{Store}
use ayran.Graph.Batch.Verified.{eq_hash_refl}
use mathlib.Core.Path.{subst}
use mathlib.Core.List.{reverse, reverse-cons}

-- The batches end at or before a number.
unfoldable pub is_before : ℕ → List Batch → Bool
is_before n bs = every (λ b. leb (last_seq_of 0 b.events) n) bs

is_before-append :
    (n : ℕ) (bs cs : List Batch) → is_before n (bs ++ cs) ≡ (is_before n bs && is_before n cs)
unfolding is_before
is_before-append n [] cs = refl
is_before-append n (b ∷ bs) cs = ground (arith, is_before-append n bs cs)

is_before-reverse : (n : ℕ) (bs : List Batch) → is_before n (reverse bs) ≡ is_before n bs
unfolding is_before
is_before-reverse n [] = refl
is_before-reverse n (b ∷ bs) =
    ap (is_before n) (reverse-cons b bs)
    ∙ is_before-append n (reverse bs) (b ∷ [])
    ∙ ground (arith, is_before-reverse n bs)

pub is_before-later :
    (n m : ℕ) (bs : List Batch) → leb n m ≡ true → is_before n bs ≡ true → is_before m bs ≡ true
unfolding is_before
is_before-later n m [] l h = refl
is_before-later n m (b ∷ bs) l h =
    let rest = is_before-later n m bs l (ground arith) in ground (arith, rest)

module _ (refused : List Event → Event → Bool) where
  -- `_rebuild_without_current`: the batches of the journal, last first, put into an empty projection; the
  -- `integrity_check` of the database that follows is left out.
  unfoldable pub rebuilt : List Batch → Checked Projection
  unfolding apply_batch acknowledgement_for_replay
  rebuilt [] = ok empty_projection
  rebuilt (b ∷ bs) = rebuilt bs >>= λ p.
      apply_batch refused p b (acknowledgement_for_replay b) >>= λ next. ok next.0

  -- The projection holds what the journal does.
  pub record IsInStep (st : Store) : Type 0 where
    pub rows : rebuilt st.journal.committed_batches ≡ ok st.projection
    pub cursor : st.projection.cursor ≡ st.journal.cursor
    pub before : is_before st.journal.cursor st.journal.committed_batches ≡ true

  replay_from_skip :
      (start : ℕ) (p : Projection) (bs cs : List Batch)
      → is_before start bs ≡ true
      → replay_from refused start p (bs ++ cs) ≡ replay_from refused start p cs
  unfolding replay_from is_before
  replay_from_skip start p [] cs h = refl
  replay_from_skip start p (b ∷ bs) cs h =
      let this : leb (last_seq_of 0 b.events) start ≡ true = ground arith in
      rw (this, replay_from) (replay_from_skip start p bs cs (ground arith))

  pub apply_batch_new :
      (p q : Projection) (b : Batch) (ack : Acknowledgement)
      → batch_in b.begin.batch_id p.receipts ≡ none
      → project_batch refused p b ack ≡ ok q
      → apply_batch refused p b ack ≡ ok (q, ack)
  unfolding apply_batch
  apply_batch_new p q b ack new h = rw (new, apply_batch) (ap (λ c. c >>= λ next. ok (next, ack)) h)

  replay_from_one :
      (p q : Projection) (b : Batch)
      → ltb p.cursor (first_seq_of b.events) ≡ true
      → leb (last_seq_of 0 b.events) p.cursor ≡ false
      → apply_batch refused p b (acknowledgement_for_replay b)
        ≡ ok (q, acknowledgement_for_replay b)
      → replay_from refused p.cursor p (b ∷ []) ≡ ok q
  unfolding replay_from
  replay_from_one p q b first last h =
      rw (last, first, replay_from) (ap (λ c. c >>= λ next. ok next.0) h)

  -- Behind by one batch, `replay` applies that batch.
  pub replay_one :
      (j : VerificationState) (p q : Projection) (b : Batch)
      → is_before p.cursor j.committed_batches ≡ true
      → ltb p.cursor (first_seq_of b.events) ≡ true
      → ltb p.cursor (last_seq_of 0 b.events) ≡ true
      → batch_in b.begin.batch_id p.receipts ≡ none
      → project_batch refused p b (acknowledgement_for_replay b) ≡ ok q
      → replay refused (append_batch j b) p ≡ ok q
  unfolding replay append_batch
  replay_one j p q b old first last new h =
      let (rows, free, next, cursor, tips) =
        project_batch_ok refused p q b (acknowledgement_for_replay b) h in
      let applied = apply_batch_new p q b (acknowledgement_for_replay b) new h in
      let looped =
        ap (replay_from refused p.cursor p) (reverse-cons b j.committed_batches)
        ∙ replay_from_skip p.cursor p (reverse j.committed_batches) (b ∷ [])
            (is_before-reverse p.cursor j.committed_batches ∙ old)
        ∙ replay_from_one p q b first (ground arith) applied in
      let behind : leb p.cursor (last_seq_of 0 b.events) ≡ true = ground arith in
      let reached : (q.cursor == last_seq_of 0 b.events && eq_hash q.event_hash (tip none b.events))
          ≡ true =
        subst (λ h. (q.cursor == last_seq_of 0 b.events && eq_hash q.event_hash h) ≡ true) tips
          (ground (arith, eq_hash_refl q.event_hash)) in
      ap
        (λ t. demand t projection_corrupt (
          replay_from refused p.cursor p (reverse (b ∷ j.committed_batches)) >>= λ next.
          demand
            (next.cursor == last_seq_of 0 b.events && eq_hash next.event_hash (tip none b.events))
            projection_corrupt (ok next)))
        behind
      ∙ ap
          (λ c. c >>= λ next.
            demand
              (next.cursor == last_seq_of 0 b.events && eq_hash next.event_hash (tip none b.events))
              projection_corrupt (ok next))
          looped
      ∙ ap (λ t. demand t projection_corrupt (ok q)) reached
