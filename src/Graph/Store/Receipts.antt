-- ===== src/Graph/Store/Receipts.antt =====
-- What an append of graph/recovery.py leaves of its command: a receipt that answers it from then on.
use ayran.Prelude.{
  ℕ, String, ◌≡◌, refl, sym, ap, ◌∙◌, inl, inr, Bool, true, not, Option, none, some, List,
  Bool-cases, is_empty,
}
use ayran.Prelude.Text.{eq_text, eq_text_refl, str_eq, eq_iff}
use ayran.Graph.Record.{Core, Event, Batch, Item, Command, Hashes}
use ayran.Graph.Journal.{
  ◌>>=◌, append_batch, Code, Checked, VerificationState, contract_invalid, idempotency_collision,
  ok, raised,
}
use ayran.Graph.Journal.Results.{bind_ok, demand_ok, ok-injective}
use ayran.Graph.Batch.{
  position_of, keys_of, make_begin, assemble, build_batch, check_references,
  acknowledgement_for_replay, Acknowledgement,
}
use ayran.Graph.Batch.Accepted.{build_batch_ok}
use ayran.Graph.Projection.{
  aggregate_revision, receipt_in, receipt, batch_in, project_batch, apply_batch, replay, Receipt,
  Projection,
}
use ayran.Graph.Projection.Receipts.{receipt_of, project_batch_ok}
use ayran.Graph.Store.{answered, prepared, landed, written, served, Store, Fresh}
use mathlib.Core.Path.{subst}

-- The acknowledgement of a command that is sent again.
abbrev pub as_replay : Acknowledgement → Acknowledgement
as_replay ack = record ack { idempotent_replay = true }

module _ (hash : Hashes) (refusal : Core → Option Code) (refused : List Event → Event → Bool)
    (render : Item → String → ℕ → String) (stream : String) where
  pub prepared_built :
      (fresh : Fresh) (j : VerificationState) (p : Projection) (command : Command) (b : Batch)
      (ack : Acknowledgement)
      → prepared hash refusal refused render stream fresh j p command ≡ ok (b, ack)
      → (not (is_empty command.items) ≡ true)
        × (assemble hash refusal render fresh.new_id stream fresh.batch_id
              (aggregate_revision p)
              (position_of j)
              command
            ≡ b)
        × (ack ≡ acknowledgement_for_replay b)
  unfolding prepared
  prepared_built fresh j p command b ack h =
      let (built, made, checked) =
        bind_ok
          (build_batch hash refusal render fresh.new_id stream fresh.batch_id (aggregate_revision p)
            (position_of j) command)
          _ (b, ack) h in
      let (referred, same) =
        demand_ok (check_references (keys_of p.aggregate_heads) built.0.events) contract_invalid _
          (b, ack) checked in
      let (full, accepted, assembled, replay) =
        build_batch_ok hash refusal render fresh.new_id stream fresh.batch_id (aggregate_revision p)
          (position_of j) command b ack (made ∙ ap ok (ok-injective built (b, ack) same)) in
      (full, assembled, replay)

  -- The batch that is built carries the identity of its command.
  pub prepared_ok :
      (fresh : Fresh) (j : VerificationState) (p : Projection) (command : Command) (b : Batch)
      (ack : Acknowledgement)
      → prepared hash refusal refused render stream fresh j p command ≡ ok (b, ack)
      → (b.begin.batch_id ≡ fresh.batch_id)
        × (b.begin.idempotency_key ≡ command.idempotency_key)
        × (b.begin.request_hash ≡ hash.of_command command)
        × (ack ≡ acknowledgement_for_replay b)
  unfolding assemble make_begin
  prepared_ok fresh j p command b ack h =
      let (full, assembled, replay) = prepared_built fresh j p command b ack h in
      let begin = ap (λ b. b.begin) (sym assembled) in
      (
        ap (λ x. x.batch_id) begin,
        ap (λ x. x.idempotency_key) begin,
        ap (λ x. x.request_hash) begin,
        replay,
      )

  landed_ok :
      (j : VerificationState) (p : Projection) (b : Batch) (ack out : Acknowledgement)
      (after : Store) (c : Checked Projection)
      → landed hash refusal refused render stream j p b ack (c >>= λ next. ok (next, ack))
        ≡ (after, ok out)
      → (c ≡ ok after.projection) × (after.journal ≡ append_batch j b) × (ack ≡ out)
  landed_ok j p b ack out after (ok q) h = (
    ap (λ r. ok r.0.projection) h,
    sym (ap (λ r. r.0.journal) h),
    ok-injective ack out (ap (λ r. r.1) h),
  )
  landed_ok j p b ack out after (raised e) h = let never = ap (λ r. r.1) h in cc

  -- A batch that is written, whose identifier the projection does not know.
  pub written_ok :
      (j : VerificationState) (p : Projection) (b : Batch) (ack out : Acknowledgement)
      (after : Store)
      → batch_in b.begin.batch_id p.receipts ≡ none
      → written hash refusal refused render stream j p (ok (b, ack)) ≡ (after, ok out)
      → (project_batch refused p b ack ≡ ok after.projection)
        × (after.journal ≡ append_batch j b)
        × (ack ≡ out)
  unfolding written apply_batch
  written_ok j p b ack out after new h =
      landed_ok j p b ack out after (project_batch refused p b ack) (
        subst
          (λ o.
            landed hash refusal refused render stream j p b ack
              (elim o as (λ _. Checked (Projection × Acknowledgement)) [
                | some known ↦ ok (p, known)
                | none ↦ project_batch refused p b ack >>= λ next. ok (next, ack)
              ])
            ≡ (after, ok out))
          new h)

  -- The receipt of a command that was served.
  abbrev pub Answers : Projection → Command → Acknowledgement → Type 0
  Answers p command ack =
      (r : Receipt) × (receipt p command.idempotency_key ≡ some r)
      × (answered hash refusal refused render stream command r ≡ ok (as_replay ack))

  answered_again :
      (command : Command) (r : Receipt) (out : Acknowledgement)
      → answered hash refusal refused render stream command r ≡ ok out
      → answered hash refusal refused render stream command r ≡ ok (as_replay out)
  unfolding answered
  answered_again command r out h =
      let (same, eq) =
        demand_ok (eq_text r.request_hash (hash.of_command command)) idempotency_collision _ out
          h in
      let inner = ok-injective _ out eq in h ∙ sym (ap ok inner) ∙ ap (λ a. ok (as_replay a)) inner

  landed-Answers :
      (fresh : Fresh) (j : VerificationState) (p : Projection) (command : Command)
      (out : Acknowledgement) (after : Store) (c : Checked (Batch × Acknowledgement))
      → prepared hash refusal refused render stream fresh j p command ≡ c
      → batch_in fresh.batch_id p.receipts ≡ none
      → written hash refusal refused render stream j p c ≡ (after, ok out)
      → Answers after.projection command out
  unfolding receipt_in answered written
  landed-Answers fresh j p command out after (ok (b, ack)) made new h =
      let (id, key, request, replay) = prepared_ok fresh j p command b ack made in
      let known = subst (λ i. batch_in i p.receipts ≡ none) (sym id) new in
      let (projected, journal, same) = written_ok j p b ack out after known h in
      let rows = (project_batch_ok refused p after.projection b ack projected).0 in
      let is_key : str_eq b.begin.idempotency_key command.idempotency_key ≡ true =
        (eq_iff _ _).1 key in
      let is_request : eq_text b.begin.request_hash (hash.of_command command) ≡ true =
        subst (λ h. eq_text b.begin.request_hash h ≡ true) request
          (eq_text_refl b.begin.request_hash) in
      (
        receipt_of refused b ack,
        ap (receipt_in command.idempotency_key) rows ∙ rw is_key refl,
        rw is_request (ap (λ a. ok (as_replay a)) same),
      )
  landed-Answers fresh j p command out after (raised e) made new h =
      let never = ap (λ r. r.1) h in cc

  -- A command that was served has a receipt that answers it.
  pub served-Answers :
      (fresh : Fresh) (st after : Store) (command : Command) (out : Acknowledgement)
      → batch_in fresh.batch_id st.projection.receipts ≡ none
      → served hash refusal refused render stream fresh st command ≡ (after, ok out)
      → Answers after.projection command out
  unfolding served
  served-Answers fresh st after command out new h = elim (Bool-cases (is_empty command.items)) [
    | inl e ↦ (let never = ap (λ r. r.1) (rw (e, served) at h) in cc)
    | inr e ↦ by_receipt (receipt st.projection command.idempotency_key) refl (rw (e, served) at h)
  ]
    where
      by_receipt :
          (o : Option Receipt)
          → receipt st.projection command.idempotency_key ≡ o
          → (elim o as (λ _. Store × Checked Acknowledgement) [
            | some r ↦ (st, answered hash refusal refused render stream command r)
            | none ↦
                written hash refusal refused render stream st.journal st.projection (
                  prepared hash refusal refused render stream fresh st.journal st.projection
                    command)
          ])
            ≡ (after, ok out)
          → Answers after.projection command out
      by_receipt (some r) found h =
          subst (λ p. Answers p command out) (ap (λ x. x.0.projection) h)
            (r, found, answered_again command r out (ap (λ x. x.1) h))
      by_receipt none found h =
          landed-Answers fresh st.journal st.projection command out after _ refl new h
