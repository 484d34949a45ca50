-- ===== src/Graph/Batch/Verified.antt =====
-- A batch that `build_batch` of graph/events.py makes is one that `Journal.verify` takes.
use ayran.Prelude.{
  ℕ, ◌+◌, String, ◌≡◌, refl, sym, ap, ◌∙◌, Bool, true, false, not, ◌&&◌, Option, none, some, List,
  [], ◌∷◌, ◌++◌, map, arith, ◌==◌, length, every, is_empty,
}
use ayran.Prelude.Text.{codes, Text, eq_text_refl, str_eq, eq_refl}
use ayran.Graph.Record.{
  eq_hash, tip, objects_of, Core, Event, Begin, Commit, Batch, Item, Hashes, batch_begin,
  batch_event, batch_commit,
}
use ayran.Graph.Journal.{
  ◌>>=◌, among, head_of, refers, committed, on_begin, in_place, in_history, binds, step, Code,
  History, Open, ok,
}
use ayran.Graph.Batch.{core_of, sealed, make_events, first_refusal, records_of}
use ayran.Graph.Journal.Steps.{steps, steps-append}
use mathlib.Core.List.{append-nil, append_assoc}

pub eq_hash_refl : (o : Option Text) → eq_hash o o ≡ true
unfolding eq_hash
eq_hash_refl none = refl
eq_hash_refl (some h) = eq_text_refl h

eq_ℕ_refl : (n : ℕ) → (n == n) ≡ true
eq_ℕ_refl n = ground arith

pub tip-append :
    (before : Option Text) (es : List Event) (e : Event)
    → tip before (es ++ e ∷ []) ≡ some e.event_hash
tip-append before [] e = refl
tip-append before (d ∷ es) e = tip-append (some d.event_hash) es e

pub length-append : (es : List Event) (e : Event) → length (es ++ e ∷ []) ≡ length es + 1
length-append [] e = omega arith
length-append (d ∷ es) e = omega (arith, length-append es e)

-- The identities of a batch are new to a history.
unfoldable pub is_new : History → List Event → Bool
unfolding among
is_new s es =
    every
      (λ e.
        not (among (codes e.core.event_id) s.seen_events) && not (among e.event_hash s.seen_events))
      es

-- Each reference of a batch is to an object of the history, of an event before it or, for an edge, to
-- the edge itself.
unfoldable pub resolves : List String → List Event → List Event → Bool
unfolding refers
resolves known done [] = true
resolves known done (e ∷ es) =
    refers (known ++ objects_of done) e.core && resolves known (done ++ e ∷ []) es

-- The first refusal, taken apart.
none_refused :
    (o rest : Option Code)
    → (elim o as (λ _. Option Code) [ none ↦ rest | some code ↦ some code ]) ≡ none
    → (o ≡ none) × (rest ≡ none)
none_refused none rest h = (refl, h)
none_refused (some code) rest h = cc

module _ (hash : Hashes) (refusal : Core → Option Code) (stream : String) where
  -- An event that passes the checks of an open batch joins it.
  event_joins :
      (line : ℕ) (s : History) (o : Open) (e : Event)
      → in_place hash refusal stream s o e ≡ true
      → refusal e.core ≡ none
      → in_history hash refusal stream s o e ≡ true
      → step hash refusal stream line (s, some o) (batch_event e)
        ≡ ok (s, some (record o { events = o.events ++ e ∷ [] }))
  unfolding step
  event_joins line s o e p v h = rw (p, v, h) refl

  module _ (s : History) (begin : Begin) (offset : ℕ) where
    abbrev pub opened : List Event → Open
    opened done = record { begin = begin; events = done; begin_offset = offset }

    -- Events that each pass the checks after those before them.
    abbrev pub Fits : List Event → List Event → Type 0
    Fits done [] = Unit
    Fits done (e ∷ es) =
        (in_place hash refusal stream s (opened done) e ≡ true)
        × (refusal e.core ≡ none)
        × (in_history hash refusal stream s (opened done) e ≡ true)
        × Fits (done ++ e ∷ []) es

    pub events_join :
        (line : ℕ) (done es : List Event)
        → Fits done es
        → steps hash refusal stream line (s, some (opened done)) (map batch_event es)
          ≡ ok (s, some (opened (done ++ es)))
    unfolding steps
    events_join line done [] f = ap (λ xs. ok (s, some (opened xs))) (sym (append-nil done))
    events_join line done (e ∷ es) (p, v, h, f) =
        ap (λ c. c >>= λ next. steps hash refusal stream (line + 1) next (map batch_event es))
          (event_joins line s (opened done) e p v h)
        ∙ events_join (line + 1) (done ++ e ∷ []) es f
        ∙ ap (λ xs. ok (s, some (opened xs))) (append_assoc done (e ∷ []) es)

    module _ (render : Item → String → ℕ → String) (new_id : ℕ → String)
        (started : s.expected_seq ≡ s.cursor + 1) where
      abbrev current : String → ℕ
      current id = head_of id s.aggregate_heads

      abbrev made : Option Text → ℕ → List Item → List Event
      made = make_events hash refusal render new_id stream begin.batch_id current s.cursor

      made_core : Option Text → ℕ → Item → Core
      made_core = core_of hash refusal render new_id stream begin.batch_id current s.cursor

      placed :
          (done : List Event) (item : Item) (before : Option Text) (index : ℕ)
          → before ≡ tip s.last_event_hash done
          → index ≡ length done + 1
          → let e =
              sealed hash refusal render new_id stream begin.batch_id current
                (made_core before index item) in
            not (among (codes e.core.event_id) s.seen_events)
                && not (among e.event_hash s.seen_events)
              ≡ true
            → in_place hash refusal stream s (opened done) e ≡ true
      unfolding in_place made_core
      placed done item before index eb ei n =
          let c = made_core before index item in
          ground (arith, eq_refl stream, eq_refl begin.batch_id, eq_hash_refl before)

      pub made-Fits :
          (done : List Event) (items : List Item) (before : Option Text) (index : ℕ)
          → before ≡ tip s.last_event_hash done
          → index ≡ length done + 1
          → is_new s (made before index items) ≡ true
          → first_refusal hash refusal render new_id stream begin.batch_id current
              (made before index items)
            ≡ none
          → resolves s.known_objects done (made before index items) ≡ true
          → Fits done (made before index items)
      unfolding make_events is_new first_refusal resolves made_core
      made-Fits done [] before index eb ei n f r = tt
      made-Fits done (item ∷ items) before index eb ei n f r =
          let e =
            sealed hash refusal render new_id stream begin.batch_id current
              (made_core before index item) in
          let (accepted, later) =
            none_refused (refusal e.core)
              (first_refusal hash refusal render new_id stream begin.batch_id current
                (made (some e.event_hash) (index + 1) items))
              f in
          (
            placed done item before index eb ei (ground arith),
            accepted,
            (unfold in_history in ground (arith, eq_ℕ_refl (current item.object_id + 1))),
            made-Fits (done ++ e ∷ []) items (some e.event_hash) (index + 1)
                (sym (tip-append s.last_event_hash done e)) (omega (arith, length-append done e))
                (ground arith) later (ground arith),
          )

    pub begins :
        str_eq begin.stream stream ≡ true
        → on_begin hash refusal stream s begin ≡ true
        → step hash refusal stream offset (s, none) (batch_begin begin) ≡ ok (s, some (opened []))
    unfolding step
    begins own fresh = rw (own, fresh) refl

    commits :
        (line : ℕ) (es : List Event) (commit : Commit)
        → is_empty es ≡ false
        → binds hash refusal stream s (opened es) commit ≡ true
        → step hash refusal stream line (s, some (opened es)) (batch_commit commit)
          ≡ ok (committed s (record { begin = begin; events = es; commit = commit }), none)
    unfolding step
    commits line es commit full bound = rw (full, bound) refl

    -- A batch whose events fit and whose commit binds them leads from its closed history to the
    -- history with the batch.
    pub batch_joins :
        (es : List Event) (commit : Commit)
        → str_eq begin.stream stream ≡ true
        → on_begin hash refusal stream s begin ≡ true
        → Fits [] es
        → is_empty es ≡ false
        → binds hash refusal stream s (opened es) commit ≡ true
        → let b : Batch = record { begin = begin; events = es; commit = commit } in
          steps hash refusal stream offset (s, none) (records_of b) ≡ ok (committed s b, none)
    unfolding steps
    batch_joins es commit own fresh fits full bound =
        let inside = events_join (offset + 1) [] es fits in
        let line = offset + 1 + length (map batch_event es) in
        ap
          (λ c. c >>= λ st.
            steps hash refusal stream (offset + 1) st
              (map batch_event es ++ batch_commit commit ∷ []))
          (begins own fresh)
        ∙ steps-append hash refusal stream (offset + 1) (s, some (opened [])) (map batch_event es)
            (batch_commit commit ∷ []) (s, some (opened es)) inside
        ∙ ap (λ c. c >>= λ st. steps hash refusal stream (line + 1) st [])
            (commits line es commit full bound)
