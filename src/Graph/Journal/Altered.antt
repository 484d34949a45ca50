-- ===== src/Graph/Journal/Altered.antt =====
-- What `Journal.verify` of graph/journal.py makes of a journal whose events were changed on the disk
-- while their stored hashes were left.
use ayran.Prelude.{
  ℕ, suc, ◌+◌, String, ◌≡◌, refl, ap, ◌∙◌, Bool, true, false, not, ◌&&◌, ◌||◌, Option, none, some,
  List, [], ◌∷◌, ◌++◌, map, length, is_empty,
}
use ayran.Prelude.Text.{codes, Text, insert, str_eq}
use ayran.Graph.Record.{
  tip, last_seq_of, hashes_of, objects_of, Core, Event, Commit, Record, Frame, Batch, Hashes,
  batch_begin, batch_event, batch_commit, whole, broken, partial,
}
use ayran.Graph.Journal.{
  ok, raised, ◌>>=◌, demand, unless, empty_history, refers, heads_after, seen_after, first_hash,
  first_seq_of, committed, State, on_begin, in_place, in_history, binds, step, scan, close, verify,
  Code, Checked, History, Open, journal_corrupt, namespace_mismatch,
}

-- What follows a result.
abbrev pub map_ok {ℓ κ} : {A : Type ℓ} {B : Type κ} → (A → B) → Checked A → Checked B
map_ok f (ok x) = ok (f x)
map_ok f (raised e) = raised e

demand_alike {ℓ κ} :
    {A : Type ℓ} {B : Type κ} (f : A → B) (a b : Bool) (code : Code) (changed : Checked B)
    (next : Checked A)
    → a ≡ b
    → changed ≡ map_ok f next
    → demand a code changed ≡ map_ok f (demand b code next)
demand_alike f a true code changed next same h = rw same h
demand_alike f a false code changed next same h = rw same refl

unless_alike {ℓ κ} :
    {A : Type ℓ} {B : Type κ} (f : A → B) (o p : Option Code) (changed : Checked B)
    (next : Checked A)
    → o ≡ p
    → changed ≡ map_ok f next
    → unless o changed ≡ map_ok f (unless p next)
unless_alike f o none changed next same h = rw same h
unless_alike f o (some e) changed next same h = rw same refl

bind_alike {ℓ κ} :
    {A B : Type ℓ} {C D : Type κ} (f : A → B) (g : C → D) (c : Checked A) (k : A → Checked C)
    (l : B → Checked D)
    → ((x : A) → l (f x) ≡ map_ok g (k x))
    → map_ok f c >>= l ≡ map_ok g (c >>= k)
bind_alike f g (ok x) k l h = h x
bind_alike f g (raised e) k l h = refl

-- The actor, the times, or any changed part of an event that `contents` holds, written anew.
module _ (rewritten : Core → String) where
  abbrev pub altered : Event → Event
  altered e = record e { core = record e.core { contents = rewritten e.core } }

  abbrev pub altered_record : Record → Record
  altered_record (batch_begin b) = batch_begin b
  altered_record (batch_event e) = batch_event (altered e)
  altered_record (batch_commit c) = batch_commit c

  abbrev pub altered_frame : Frame → Frame
  altered_frame (whole r) = whole (altered_record r)
  altered_frame broken = broken
  altered_frame partial = partial

  abbrev pub altered_batch : Batch → Batch
  altered_batch b = record b { events = map altered b.events }

  abbrev pub altered_history : History → History
  altered_history s = record s { committed_batches = map altered_batch s.committed_batches }

  abbrev altered_open : Option Open → Option Open
  altered_open none = none
  altered_open (some o) = some (record o { events = map altered o.events })

  abbrev altered_state : State → State
  altered_state (s, o) = (altered_history s, altered_open o)

  tip-altered :
      (before : Option Text) (es : List Event) → tip before (map altered es) ≡ tip before es
  tip-altered before [] = refl
  tip-altered before (e ∷ es) = tip-altered (some e.event_hash) es

  last_seq_of-altered :
      (from : ℕ) (es : List Event) → last_seq_of from (map altered es) ≡ last_seq_of from es
  last_seq_of-altered from [] = refl
  last_seq_of-altered from (e ∷ es) = last_seq_of-altered e.core.seq es

  length-altered : (es : List Event) → length (map altered es) ≡ length es
  length-altered [] = refl
  length-altered (e ∷ es) = ap suc (length-altered es)

  first_seq_of-altered : (es : List Event) → first_seq_of (map altered es) ≡ first_seq_of es
  first_seq_of-altered [] = refl
  first_seq_of-altered (e ∷ es) = refl

  first_hash-altered : (es : List Event) → first_hash (map altered es) ≡ first_hash es
  first_hash-altered [] = refl
  first_hash-altered (e ∷ es) = refl

  hashes_of-altered : (es : List Event) → hashes_of (map altered es) ≡ hashes_of es
  hashes_of-altered [] = refl
  hashes_of-altered (e ∷ es) = ap (λ hs. e.event_hash ∷ hs) (hashes_of-altered es)

  objects_of-altered : (es : List Event) → objects_of (map altered es) ≡ objects_of es
  objects_of-altered [] = refl
  objects_of-altered (e ∷ es) = ap (λ xs. e.core.object_id ∷ xs) (objects_of-altered es)

  heads_after-altered :
      (heads : List (String × ℕ)) (es : List Event)
      → heads_after heads (map altered es) ≡ heads_after heads es
  heads_after-altered heads [] = refl
  heads_after-altered heads (e ∷ es) =
      heads_after-altered (insert e.core.aggregate_id e.core.aggregate_version heads) es

  seen_after-altered :
      (seen : List Text) (es : List Event) → seen_after seen (map altered es) ≡ seen_after seen es
  seen_after-altered seen [] = refl
  seen_after-altered seen (e ∷ es) =
      seen_after-altered (codes e.core.event_id ∷ e.event_hash ∷ seen) es

  is_empty-altered : (es : List Event) → is_empty (map altered es) ≡ is_empty es
  is_empty-altered [] = refl
  is_empty-altered (e ∷ es) = refl

  altered-append :
      (es : List Event) (e : Event) → map altered es ++ altered e ∷ [] ≡ map altered (es ++ e ∷ [])
  altered-append [] e = refl
  altered-append (d ∷ es) e = ap (λ xs. altered d ∷ xs) (altered-append es e)

  committed-altered :
      (s : History) (b : Batch)
      → committed (altered_history s) (altered_batch b) ≡ altered_history (committed s b)
  unfolding committed
  committed-altered s b =
      rw
        (
          last_seq_of-altered, tip-altered, heads_after-altered, seen_after-altered,
          objects_of-altered, length-altered,
        )
        refl

  module _ (hash : Hashes) (refusal : Core → Option Code) (stream : String)
      (unnoticed : (c : Core) → refusal (record c { contents = rewritten c }) ≡ refusal c) where
    in_place-altered :
        (s : History) (o : Open) (e : Event)
        → in_place hash refusal stream
            (altered_history s)
            (record o { events = map altered o.events })
            (altered e)
          ≡ in_place hash refusal stream s o e
    unfolding in_place
    in_place-altered s o e = rw (tip-altered, length-altered) refl

    in_history-altered :
        (s : History) (o : Open) (e : Event)
        → in_history hash refusal stream
            (altered_history s)
            (record o { events = map altered o.events })
            (altered e)
          ≡ in_history hash refusal stream s o e
    unfolding in_history refers
    in_history-altered s o e = rw objects_of-altered refl

    binds-altered :
        (s : History) (o : Open) (c : Commit)
        → binds hash refusal stream
            (altered_history s)
            (record o { events = map altered o.events })
            c
          ≡ binds hash refusal stream s o c
    unfolding binds
    binds-altered s o c =
        rw
          (
            length-altered, first_seq_of-altered, last_seq_of-altered, first_hash-altered,
            tip-altered, hashes_of-altered,
          )
          refl

    step-altered :
        (line : ℕ) (st : State) (r : Record)
        → step hash refusal stream line (altered_state st) (altered_record r)
          ≡ map_ok altered_state (step hash refusal stream line st r)
    unfolding step
    step-altered line (s, none) (batch_begin b) =
        demand_alike altered_state (str_eq b.stream stream) _ namespace_mismatch _ _ refl (
          demand_alike altered_state (on_begin hash refusal stream (altered_history s) b)
            (on_begin hash refusal stream s b) journal_corrupt _
            (ok (s, some (record { begin = b; events = []; begin_offset = line })))
            (unfold on_begin in refl) refl)
    step-altered line (s, some o) (batch_begin b) = refl
    step-altered line (s, none) (batch_event e) = refl
    step-altered line (s, some o) (batch_event e) =
        let next : State = (s, some (record o { events = o.events ++ e ∷ [] })) in
        demand_alike altered_state _ (in_place hash refusal stream s o e) journal_corrupt _ _
          (in_place-altered s o e)
          (unless_alike altered_state _ (refusal e.core) _ _ (unnoticed e.core) (
            demand_alike altered_state _ (in_history hash refusal stream s o e) journal_corrupt _
              (ok next) (in_history-altered s o e)
              (ap (λ es. ok (altered_history s, some (record o { events = es })))
                (altered-append o.events e))))
    step-altered line (s, none) (batch_commit c) = refl
    step-altered line (s, some o) (batch_commit c) =
        let b : Batch = record { begin = o.begin; events = o.events; commit = c } in
        let next : State = (committed s b, none) in
        demand_alike altered_state _ (not (is_empty o.events) && binds hash refusal stream s o c)
          journal_corrupt _ (ok next)
          (ap
              (λ t.
                not t
                && binds hash refusal stream (altered_history s)
                    (record o { events = map altered o.events }) c)
              (is_empty-altered o.events)
            ∙ ap (λ t. not (is_empty o.events) && t) (binds-altered s o c))
          (ap (λ x. ok (x, none)) (committed-altered s b))

    scan-altered :
        (line : ℕ) (st : State) (fs : List Frame)
        → scan hash refusal stream line (altered_state st) (map altered_frame fs)
          ≡ map_ok (λ r. (altered_state r.0, r.1, r.2)) (scan hash refusal stream line st fs)
    unfolding scan
    scan-altered line st [] = refl
    scan-altered line st (whole r ∷ fs) =
        ap (λ c. c >>= λ next. scan hash refusal stream (line + 1) next (map altered_frame fs))
          (step-altered line st r)
        ∙ bind_alike altered_state (λ r. (altered_state r.0, r.1, r.2))
            (step hash refusal stream line st r)
            (λ next. scan hash refusal stream (line + 1) next fs)
            (λ next. scan hash refusal stream (line + 1) next (map altered_frame fs))
            (λ next. scan-altered (line + 1) next fs)
    scan-altered line st (broken ∷ fs) = refl
    scan-altered line st (partial ∷ fs) = refl

    -- Whatever is rewritten in the `contents` of events, where the checks of `validate_contract` and
    -- `validate_body` do not notice it: `verify` of the journal with the stored hashes as they were
    -- gives the same result, with recovery or without, and in it the rewritten events.
    pub verify-altered :
        (recover : Bool) (frames : List Frame)
        → verify hash refusal stream recover (map altered_frame frames)
          ≡ map_ok (λ r. (altered_history r.0, r.1)) (verify hash refusal stream recover frames)
    unfolding verify close
    verify-altered recover frames =
        ap (λ c. c >>= close hash refusal stream recover)
          (scan-altered 0 (empty_history, none) frames)
        ∙ bind_alike (λ r. (altered_state r.0, r.1, r.2)) (λ r. (altered_history r.0, r.1))
            (scan hash refusal stream 0 (empty_history, none) frames)
            (close hash refusal stream recover) (close hash refusal stream recover)
            (λ r. closed r.0.0 r.0.1 r.1 r.2)
      where
        closed :
            (s : History) (o : Option Open) (line : ℕ) (torn : Bool)
            → close hash refusal stream recover (altered_state (s, o), line, torn)
              ≡ map_ok
                  (λ r. (altered_history r.0, r.1))
                  (close hash refusal stream recover ((s, o), line, torn))
        closed s none line torn =
            demand_alike (λ r. (altered_history r.0, r.1)) _ (not (torn || false) || recover)
              journal_corrupt _ (ok (s, line)) refl refl
        closed s (some o) line torn =
            demand_alike (λ r. (altered_history r.0, r.1)) _ (not (torn || true) || recover)
              journal_corrupt _ (ok (s, o.begin_offset)) refl refl
