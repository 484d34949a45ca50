-- ===== src/Graph/Store/Served.antt =====
-- What an append of graph/recovery.py changes: nothing, or a batch that is built, written and projected.
use ayran.Prelude.{
  ℕ, String, ◌≡◌, refl, sym, ap, ◌⊎◌, inl, inr, Bool, true, false, Option, none, some, List,
  if◌then◌else◌, Bool-cases, is_empty,
}
use ayran.Graph.Record.{Core, Event, Batch, Item, Command, Hashes}
use ayran.Graph.Journal.{
  append_batch, Code, Checked, VerificationState, contract_invalid, ok, raised,
}
use ayran.Graph.Batch.{Acknowledgement}
use ayran.Graph.Projection.{receipt, batch_in, project_batch, apply_batch, Receipt, Projection}
use ayran.Graph.Projection.Receipts.{Keeps, apply_batch-Keeps}
use ayran.Graph.Store.{answered, prepared, landed, written, served, Store, Fresh}
use ayran.Graph.Store.Receipts.{prepared_ok, written_ok}
use mathlib.Core.Path.{subst}

module _ (hash : Hashes) (refusal : Core → Option Code) (refused : List Event → Event → Bool)
    (render : Item → String → ℕ → String) (stream : String) where
  -- Whatever a store serves, the receipts stay.
  landed-Keeps :
      (j : VerificationState) (p : Projection) (b : Batch) (ack : Acknowledgement)
      → Keeps p (written hash refusal refused render stream j p (ok (b, ack))).0.projection
  unfolding written
  landed-Keeps j p b ack = by_result (apply_batch refused p b ack) refl
    where
      by_result :
          (c : Checked (Projection × Acknowledgement))
          → apply_batch refused p b ack ≡ c
          → Keeps p (landed hash refusal refused render stream j p b ack c).0.projection
      by_result (ok next) same = apply_batch-Keeps refused p b ack next same
      by_result (raised e) same = λ key r found. found

  pub served-Keeps :
      (fresh : Fresh) (st : Store) (command : Command)
      → Keeps st.projection
          (served hash refusal refused render stream fresh st command).0.projection
  unfolding served
  served-Keeps fresh st command =
      elim (is_empty command.items)
        as (λ t.
          Keeps st.projection
            (if t
              then (st, raised contract_invalid)
              else elim (receipt st.projection command.idempotency_key)
                  as (λ _. Store × Checked Acknowledgement) [
                    | some r ↦ (st, answered hash refusal refused render stream command r)
                    | none ↦ written hash refusal refused render stream st.journal st.projection (
                        prepared hash refusal refused render stream fresh st.journal st.projection
                          command)
                  ]).0.projection) [
                    | true ↦ λ key r found. found
                    | false ↦ by_receipt (receipt st.projection command.idempotency_key)
                  ]
    where
      by_built :
          (c : Checked (Batch × Acknowledgement))
          → Keeps st.projection
              (written hash refusal refused render stream st.journal st.projection c).0.projection
      by_built (ok (b, ack)) = landed-Keeps st.journal st.projection b ack
      by_built (raised e) = λ key r found. unfold written in found

      by_receipt :
          (o : Option Receipt)
          → Keeps st.projection
              (elim o as (λ _. Store × Checked Acknowledgement) [
                | some r ↦ (st, answered hash refusal refused render stream command r)
                | none ↦ written hash refusal refused render stream st.journal st.projection (
                    prepared hash refusal refused render stream fresh st.journal st.projection
                      command)
              ]).0.projection
      by_receipt (some r) = λ key r found. found
      by_receipt none =
          by_built
            (prepared hash refusal refused render stream fresh st.journal st.projection command)

  -- What was served: an answer that was there, or a batch that was built, written and projected.
  abbrev pub Served : Fresh → Store → Store → Command → Type 0
  Served fresh st after command =
      (st ≡ after)
      ⊎ ((b : Batch) × (ack : Acknowledgement) × (prepared hash refusal refused render stream fresh
              st.journal st.projection command
            ≡ ok (b, ack))
          × (project_batch refused st.projection b ack ≡ ok after.projection)
          × (after.journal ≡ append_batch st.journal b))

  pub served_ok :
      (fresh : Fresh) (st after : Store) (command : Command) (out : Acknowledgement)
      → batch_in fresh.batch_id st.projection.receipts ≡ none
      → served hash refusal refused render stream fresh st command ≡ (after, ok out)
      → Served fresh st after command
  unfolding served
  served_ok fresh st after command out new h = elim (Bool-cases (is_empty command.items)) [
    | inl e ↦ inl (ap (λ r. r.0) (rw (e, served) at h))
    | inr e ↦ by_receipt (receipt st.projection command.idempotency_key) (rw (e, served) at h)
  ]
    where
      by_built :
          (c : Checked (Batch × Acknowledgement))
          → prepared hash refusal refused render stream fresh st.journal st.projection command ≡ c
          → written hash refusal refused render stream st.journal st.projection c ≡ (after, ok out)
          → Served fresh st after command
      by_built (ok (b, ack)) made h =
          let id =
            (prepared_ok hash refusal refused render stream fresh st.journal st.projection command b
              ack made).0 in
          let known = subst (λ i. batch_in i st.projection.receipts ≡ none) (sym id) new in
          let (projected, journal, same) =
            written_ok hash refusal refused render stream st.journal st.projection b ack out after
              known h in
          inr (b, ack, made, projected, journal)
      by_built (raised e) made h = let never = ap (λ r. r.1) h in unfold written in cc

      by_receipt :
          (o : Option Receipt)
          → (elim o as (λ _. Store × Checked Acknowledgement) [
            | some r ↦ (st, answered hash refusal refused render stream command r)
            | none ↦
                written hash refusal refused render stream st.journal st.projection (
                  prepared hash refusal refused render stream fresh st.journal st.projection
                    command)
          ])
            ≡ (after, ok out)
          → Served fresh st after command
      by_receipt (some r) h = inl (ap (λ x. x.0) h)
      by_receipt none h = by_built _ refl h
