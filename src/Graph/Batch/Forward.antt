-- ===== src/Graph/Batch/Forward.antt =====
-- References inside a batch: what `_check_references` of graph/recovery.py lets through, and what
-- `Journal.verify` makes of it.
use ayran.Prelude.{
  ℕ, String, ◌≡◌, refl, ap, ◌∙◌, Bool, true, false, ◌&&◌, ◌||◌, Option, none, some, List, [], ◌∷◌,
  ◌++◌, arith,
}
use ayran.Prelude.Text.{elem}
use ayran.Graph.Record.{
  objects_of, Contract, Core, Event, Hashes, graph_node, graph_edge, graph_assertion, other,
  batch_event,
}
use ayran.Graph.Journal.{
  refers, in_place, in_history, step, Code, History, Open, journal_corrupt, raised,
}
use ayran.Graph.Batch.{loosely}

elem-append : (x : String) (xs ys : List String) → elem x (xs ++ ys) ≡ (elem x xs || elem x ys)
elem-append x [] ys = refl
elem-append x (y ∷ xs) ys = ground (arith, elem-append x xs ys)

objects_of-append : (es ds : List Event) → objects_of (es ++ ds) ≡ (objects_of es ++ objects_of ds)
objects_of-append [] ds = refl
objects_of-append (e ∷ es) ds = ap (λ xs. e.core.object_id ∷ xs) (objects_of-append es ds)

loosely_assertion :
    (known : List String) (c : Core) (subject : String)
    → c.contract ≡ graph_assertion subject
    → loosely known c ≡ elem subject known
loosely_assertion known c subject kind =
    ap
      (λ (k : Contract). elim k as (λ _. Bool) [
        | graph_node ↦ true
        | graph_edge source target ↦ elem source known && elem target known
        | graph_assertion about ↦ elem about known
        | other name ↦ true
      ])
      kind

refers_assertion :
    (known : List String) (c : Core) (subject : String)
    → c.contract ≡ graph_assertion subject
    → refers known c ≡ elem subject known
unfolding refers
refers_assertion known c subject kind =
    ap
      (λ (k : Contract). elim k as (λ _. Bool) [
        | graph_node ↦ true
        | graph_edge source target ↦
            elem source (known ++ c.object_id ∷ []) && elem target (known ++ c.object_id ∷ [])
        | graph_assertion about ↦ elem about known
        | other name ↦ true
      ])
      kind

-- An assertion about an object that is neither in the history nor made by an earlier event of its batch,
-- but by a later one, and that passes the other checks of an event: the references of the assertion
-- pass `_check_references`, and `verify` raises `journal_corrupt` at it.
pub forward_reference :
    (hash : Hashes) (refusal : Core → Option Code) (stream : String) (line : ℕ) (s : History)
    (o : Open) (e : Event) (later : List Event) (subject : String)
    → e.core.contract ≡ graph_assertion subject
    → elem subject (objects_of later) ≡ true
    → elem subject (s.known_objects ++ objects_of o.events) ≡ false
    → in_place hash refusal stream s o e ≡ true
    → refusal e.core ≡ none
    → (loosely (s.known_objects ++ objects_of (o.events ++ e ∷ later)) e.core ≡ true)
      × (step hash refusal stream line (s, some o) (batch_event e) ≡ raised journal_corrupt)
unfolding step in_history
forward_reference hash refusal stream line s o e later subject kind ahead unknown placed accepted =
    let all = s.known_objects ++ objects_of (o.events ++ e ∷ later) in
    let found : elem subject all ≡ true =
      elem-append subject s.known_objects (objects_of (o.events ++ e ∷ later))
      ∙ ap (λ xs. elem subject s.known_objects || elem subject xs)
          (objects_of-append o.events (e ∷ later))
      ∙ ap (λ b. elem subject s.known_objects || b)
          (elem-append subject (objects_of o.events) (objects_of (e ∷ later)))
      ∙ ground (arith, ahead) in
    let refused =
      refers_assertion (s.known_objects ++ objects_of o.events) e.core subject kind ∙ unknown in
    (loosely_assertion all e.core subject kind ∙ found, ground (arith, refused))
