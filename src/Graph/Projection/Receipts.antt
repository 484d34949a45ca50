-- ===== src/Graph/Projection/Receipts.antt =====
-- The receipts of graph/projection.py: a key that has one keeps it.
use ayran.Prelude.{
  ℕ, ◌+◌, String, ◌≡◌, sym, ap, ◌∙◌, inl, inr, Bool, true, false, ◌&&◌, ◌||◌, none, some, List, [],
  ◌∷◌, arith, ltb, leb, ◌==◌, Bool-cases, any,
}
use ayran.Prelude.Text.{Text, eq_text, str_eq, eq_iff}
use ayran.Graph.Record.{eq_hash, tip, last_seq_of, Event, Batch}
use ayran.Graph.Journal.{◌>>=◌, first_seq_of, Checked, VerificationState, projection_corrupt, ok}
use ayran.Graph.Journal.Results.{bind_ok, demand_ok, ok-injective}
use ayran.Graph.Batch.{acknowledgement_for_replay, Acknowledgement}
use ayran.Graph.Projection.{
  receipt_in, batch_in, is_receipt_free, apply_event, apply_events, project_batch, apply_batch,
  replay_from, replay, Receipt, Projection,
}
use mathlib.Core.Path.{subst}
use mathlib.Core.List.{reverse}

-- Each receipt of the one projection is found in the other.
abbrev pub Keeps : Projection → Projection → Type 0
Keeps p q =
    (key : String) (r : Receipt)
    → receipt_in key p.receipts ≡ some r
    → receipt_in key q.receipts ≡ some r

-- A key that has a receipt is none that is free.
receipt_in_other :
    (key free : String) (commit : Text) (rs : List Receipt) (r : Receipt)
    → any (λ r. str_eq r.idempotency_key free || eq_text r.commit_hash commit) rs ≡ false
    → receipt_in key rs ≡ some r
    → str_eq free key ≡ false
unfolding receipt_in
receipt_in_other key free commit [] r a h = cc
receipt_in_other key free commit (q ∷ rs) r a h = elim (Bool-cases (str_eq q.idempotency_key key)) [
  | inl e ↦
      ground (arith, eq_iff q.idempotency_key key, eq_iff q.idempotency_key free, eq_iff free key)
  | inr e ↦ receipt_in_other key free commit rs r (ground arith) (rw e at h)
]

module _ (refused : List Event → Event → Bool) where
  apply_event-receipts :
      (p q : Projection) (e : Event) → apply_event refused p e ≡ ok q → q.receipts ≡ p.receipts
  unfolding apply_event
  apply_event-receipts p q e h =
      let (free, same) = demand_ok _ projection_corrupt _ q h in
      sym (ap (λ q. q.receipts) (ok-injective _ q same))

  apply_events-receipts :
      (p q : Projection) (es : List Event)
      → apply_events refused p es ≡ ok q
      → q.receipts ≡ p.receipts
  unfolding apply_events
  apply_events-receipts p q [] h = sym (ap (λ q. q.receipts) (ok-injective p q h))
  apply_events-receipts p q (e ∷ es) h =
      let (x, one, rest) = bind_ok (apply_event refused p e) _ q h in
      apply_events-receipts x q es rest ∙ apply_event-receipts p x e one

  abbrev pub receipt_of : Batch → Acknowledgement → Receipt
  receipt_of b ack = record {
    batch_id = b.begin.batch_id;
    idempotency_key = b.begin.idempotency_key;
    request_hash = b.begin.request_hash;
    commit_hash = b.commit.commit_hash;
    acknowledgement = ack;
  }

  -- A transaction that succeeds continues the cursor, and adds the receipt of its batch.
  pub project_batch_ok :
      (p q : Projection) (b : Batch) (ack : Acknowledgement)
      → project_batch refused p b ack ≡ ok q
      → (q.receipts ≡ receipt_of b ack ∷ p.receipts)
        × (is_receipt_free b p.receipts ≡ true)
        × (b.begin.first_seq == p.cursor + 1 ≡ true)
        × (q.cursor ≡ last_seq_of 0 b.events)
        × (q.event_hash ≡ tip none b.events)
  unfolding project_batch
  project_batch_ok p q b ack h =
      let (next, h1) = demand_ok (b.begin.first_seq == p.cursor + 1) projection_corrupt _ q h in
      let (free, h2) = demand_ok (is_receipt_free b p.receipts) projection_corrupt _ q h1 in
      let (x, all, end) =
        bind_ok
          (apply_events refused (record p { receipts = receipt_of b ack ∷ p.receipts }) b.events) _
          q h2 in
      let same = ok-injective _ q end in
      (
        sym (ap (λ q. q.receipts) same) ∙ apply_events-receipts _ x b.events all,
        free,
        next,
        sym (ap (λ q. q.cursor) same),
        sym (ap (λ q. q.event_hash) same),
      )

  project_batch-Keeps :
      (p q : Projection) (b : Batch) (ack : Acknowledgement)
      → project_batch refused p b ack ≡ ok q
      → Keeps p q
  unfolding receipt_in
  project_batch-Keeps p q b ack h key r found =
      let (rows, free, next, end, hash) = project_batch_ok p q b ack h in
      let other =
        receipt_in_other key b.begin.idempotency_key b.commit.commit_hash p.receipts r
          (ground arith) found in
      ap (receipt_in key) rows ∙ rw other found

  pub apply_batch-Keeps :
      (p : Projection) (b : Batch) (ack : Acknowledgement) (next : Projection × Acknowledgement)
      → apply_batch refused p b ack ≡ ok next
      → Keeps p next.0
  unfolding apply_batch
  apply_batch-Keeps p b ack next h =
      elim (batch_in b.begin.batch_id p.receipts)
          as (λ o.
            (elim o as (λ _. Checked (Projection × Acknowledgement)) [
              | some known ↦ ok (p, known)
              | none ↦ project_batch refused p b ack >>= λ q. ok (q, ack)
            ])
              ≡ ok next
            → Keeps p next.0) [
              | some known ↦ λ h key r found.
                  subst (λ n. receipt_in key n.0.receipts ≡ some r) (ok-injective _ next h) found
              | none ↦ λ h key r found.
                  let (q, done, same) = bind_ok (project_batch refused p b ack) _ next h in
                  subst (λ n. receipt_in key n.0.receipts ≡ some r) (ok-injective _ next same)
                    (project_batch-Keeps p q b ack done key r found)
            ]
        h

  replay_from-Keeps :
      (start : ℕ) (p q : Projection) (bs : List Batch)
      → replay_from refused start p bs ≡ ok q
      → Keeps p q
  unfolding replay_from
  replay_from-Keeps start p q [] h key r found =
      subst (λ n. receipt_in key n.receipts ≡ some r) (ok-injective p q h) found
  replay_from-Keeps start p q (b ∷ bs) h key r found =
      elim (Bool-cases (leb (last_seq_of 0 b.events) start)) [
        | inl e ↦ replay_from-Keeps start p q bs (rw (e, replay_from) at h) key r found
        | inr e ↦
            let (after, h1) =
              demand_ok (ltb start (first_seq_of b.events)) projection_corrupt _ q
                (rw (e, replay_from) at h) in
            let (next, one, rest) =
              bind_ok (apply_batch refused p b (acknowledgement_for_replay b)) _ q h1 in
            replay_from-Keeps start next.0 q bs rest key r
              (apply_batch-Keeps p b (acknowledgement_for_replay b) next one key r found)
      ]

  pub replay-Keeps :
      (j : VerificationState) (p q : Projection) → replay refused j p ≡ ok q → Keeps p q
  unfolding replay
  replay-Keeps j p q h key r found =
      let (behind, h1) = demand_ok (leb p.cursor j.cursor) projection_corrupt _ q h in
      let (x, all, end) =
        bind_ok (replay_from refused p.cursor p (reverse j.committed_batches)) _ q h1 in
      let (reached, same) =
        demand_ok (x.cursor == j.cursor && eq_hash x.event_hash j.last_event_hash)
          projection_corrupt _ q end in
      subst (λ n. receipt_in key n.receipts ≡ some r) (ok-injective x q same)
        (replay_from-Keeps p.cursor p x (reverse j.committed_batches) all key r found)
