-- ===== src/Graph/Store/Idempotent.antt =====
-- A command that is sent to `GraphStore.append` of graph/recovery.py more than once.
use ayran.Prelude.{
  ℕ, String, ◌≡◌, sym, ap, ◌∙◌, inl, inr, Bool, false, Option, none, some, List, [], ◌∷◌, ltb,
  Bool-cases, is_empty,
}
use ayran.Graph.Record.{Core, Event, Item, Command, Hashes}
use ayran.Graph.Journal.{◌>>=◌, Code, Checked, ok}
use ayran.Graph.Journal.Results.{bind_ok, ok-injective}
use ayran.Graph.Batch.{Acknowledgement}
use ayran.Graph.Projection.{receipt_in, batch_in, Projection}
use ayran.Graph.Projection.Receipts.{Keeps, replay-Keeps}
use ayran.Graph.Store.{caught_up, served, append, Store, Fresh}
use ayran.Graph.Store.Receipts.{as_replay, Answers, served-Answers}
use ayran.Graph.Store.Served.{served-Keeps}
use mathlib.Core.Path.{subst}

module _ (hash : Hashes) (refusal : Core → Option Code) (refused : List Event → Event → Bool)
    (render : Item → String → ℕ → String) (stream : String) where
  -- Appends one after the other, whatever each of them answers.
  unfoldable pub run : Store → List (Fresh × Command) → Checked Store
  unfolding append
  run st [] = ok st
  run st (c ∷ cs) = append hash refusal refused render stream c.0 st c.1 >>= λ r. run r.0 cs

  caught_up-Keeps :
      (st : Store) (p : Projection)
      → caught_up hash refusal refused render stream st ≡ ok p
      → Keeps st.projection p
  unfolding caught_up
  caught_up-Keeps st p h = elim (Bool-cases (ltb st.projection.cursor st.journal.cursor)) [
    | inl e ↦ replay-Keeps refused st.journal st.projection p (rw (e, caught_up) at h)
    | inr e ↦ λ key r found.
        subst (λ x. receipt_in key x.receipts ≡ some r) (ok-injective _ p (rw (e, caught_up) at h))
          found
  ]

  -- An append that answers: the projection it was caught up to, and what was served there.
  append_ok :
      (fresh : Fresh) (st : Store) (command : Command) (r : Store × Checked Acknowledgement)
      → append hash refusal refused render stream fresh st command ≡ ok r
      → (p : Projection) × (caught_up hash refusal refused render stream st ≡ ok p)
        × (served hash refusal refused render stream fresh (record st { projection = p }) command
            ≡ r)
  unfolding append
  append_ok fresh st command r h =
      let (p, up, same) = bind_ok (caught_up hash refusal refused render stream st) _ r h in
      (p, up, ok-injective _ r same)

  append-Keeps :
      (fresh : Fresh) (st : Store) (command : Command) (r : Store × Checked Acknowledgement)
      → append hash refusal refused render stream fresh st command ≡ ok r
      → Keeps st.projection r.0.projection
  append-Keeps fresh st command r h key row found =
      let (p, up, same) = append_ok fresh st command r h in
      subst (λ x. receipt_in key x.0.projection.receipts ≡ some row) same
        (served-Keeps hash refusal refused render stream fresh (record st { projection = p })
          command key row (caught_up-Keeps st p up key row found))

  run-Keeps :
      (st end : Store) (cs : List (Fresh × Command))
      → run st cs ≡ ok end
      → Keeps st.projection end.projection
  unfolding run
  run-Keeps st end [] h key row found =
      subst (λ x. receipt_in key x.projection.receipts ≡ some row) (ok-injective st end h) found
  run-Keeps st end (c ∷ cs) h key row found =
      let (r, one, rest) = bind_ok (append hash refusal refused render stream c.0 st c.1) _ end h in
      run-Keeps r.0 end cs rest key row (append-Keeps c.0 st c.1 r one key row found)

  served_again :
      (fresh : Fresh) (st : Store) (command : Command) (out : Acknowledgement)
      → is_empty command.items ≡ false
      → Answers hash refusal refused render stream st.projection command out
      → served hash refusal refused render stream fresh st command ≡ (st, ok (as_replay out))
  unfolding served
  served_again fresh st command out full (r, found, answer) =
      rw (full, found) (ap (λ a. (st, a)) answer)

  served_full :
      (fresh : Fresh) (st after : Store) (command : Command) (out : Acknowledgement)
      → served hash refusal refused render stream fresh st command ≡ (after, ok out)
      → is_empty command.items ≡ false
  unfolding served
  served_full fresh st after command out h = elim (Bool-cases (is_empty command.items)) [
    | inl e ↦ (let never = ap (λ r. r.1) (rw (e, served) at h) in cc)
    | inr e ↦ e
  ]

  -- A command that an append acknowledged under a batch identifier that its projection did not know,
  -- and any appends after it: where the projection can be caught up with the journal, the same command
  -- is answered by the first acknowledgement, marked as a replay, whatever the fresh identifiers; the
  -- journal stays as it is and the projection is the caught-up one.
  pub append_again :
      (fresh later : Fresh) (st after end : Store) (p q : Projection) (command : Command)
      (out : Acknowledgement) (cs : List (Fresh × Command))
      → caught_up hash refusal refused render stream st ≡ ok p
      → batch_in fresh.batch_id p.receipts ≡ none
      → append hash refusal refused render stream fresh st command ≡ ok (after, ok out)
      → run after cs ≡ ok end
      → caught_up hash refusal refused render stream end ≡ ok q
      → append hash refusal refused render stream later end command
        ≡ ok (record end { projection = q }, ok (as_replay out))
  unfolding append
  append_again fresh later st after end p q command out cs up new first more up_again =
      let (p', up', same) = append_ok fresh st command (after, ok out) first in
      let here : p' ≡ p = ok-injective p' p (sym up' ∙ up) in
      let done =
        subst
          (λ x.
            served hash refusal refused render stream fresh (record st { projection = x }) command
            ≡ (after, ok out))
          here same in
      let (r, found, answer) =
        served-Answers hash refusal refused render stream fresh (record st { projection = p }) after
          command out new done in
      let kept =
        caught_up-Keeps end q up_again command.idempotency_key r
          (run-Keeps after end cs more command.idempotency_key r found) in
      let full = served_full fresh (record st { projection = p }) after command out done in
      ap
        (λ c. c >>= λ x.
          ok (
            served hash refusal refused render stream later (record end { projection = x })
              command))
        up_again
      ∙ ap ok
          (served_again later (record end { projection = q }) command out full (r, kept, answer))
