-- ===== src/Graph/Journal/Chain.antt =====
-- The chains that `Journal.verify` of graph/journal.py keeps: what any journal it takes has in common.
use ayran.Prelude.{
  ℕ, ◌+◌, String, ◌≡◌, refl, sym, ap, ◌∙◌, Bool, true, not, ◌&&◌, ◌||◌, Option, none, some, List,
  [], ◌∷◌, ◌++◌, arith, ◌==◌, length, is_empty,
}
use ayran.Prelude.Text.{Text, eq_text}
use ayran.Graph.Record.{
  eq_hash, tip, last_seq_of, hashes_of, Core, Event, Commit, Record, Frame, Batch, Hashes,
  batch_begin, batch_event, batch_commit, whole, broken, partial,
}
use ayran.Graph.Journal.{
  ok, empty_history, committed, State, is_open, in_place, binds, step, scan, close, verify, Code,
  History, Open, journal_corrupt,
}
use ayran.Graph.Journal.Results.{bind_ok, demand_ok, ok-injective}
use ayran.Graph.Journal.Steps.{steps, begin_inside, event_inside, commit_inside}
use mathlib.Core.Path.{subst}

-- The events of the batches, of which the last stands first.
unfoldable pub events_of : List Batch → List Event
events_of [] = []
events_of (b ∷ bs) = events_of bs ++ b.events

-- The hash of the last commit.
abbrev pub commit_tip : List Batch → Option Text
commit_tip [] = none
commit_tip (b ∷ bs) = some b.commit.commit_hash

tip-append :
    (before : Option Text) (es ds : List Event) → tip before (es ++ ds) ≡ tip (tip before es) ds
tip-append before [] ds = refl
tip-append before (e ∷ es) ds = tip-append (some e.event_hash) es ds

length-append : (es ds : List Event) → length (es ++ ds) ≡ length es + length ds
length-append [] ds = omega arith
length-append (e ∷ es) ds = omega (arith, length-append es ds)

-- Each event has the number after the one before it, and names its hash.
unfoldable pub chained : Option Text → ℕ → List Event → Bool
unfolding eq_hash
chained before number [] = true
chained before number (e ∷ es) =
    e.core.seq == number
    && eq_hash e.core.previous_event_hash before
    && chained (some e.event_hash) (number + 1) es

chained-append :
    (before : Option Text) (number : ℕ) (es ds : List Event)
    → chained before number es ≡ true
    → chained (tip before es) (number + length es) ds ≡ true
    → chained before number (es ++ ds) ≡ true
unfolding chained
chained-append before number [] ds h k =
    let here : number + 0 ≡ number = omega arith in subst (λ n. chained before n ds ≡ true) here k
chained-append before number (e ∷ es) ds h k =
    let there : number + length (e ∷ es) ≡ number + 1 + length es = omega arith in
    let rest =
      chained-append (some e.event_hash) (number + 1) es ds (ground arith)
        (subst (λ n. chained (tip (some e.event_hash) es) n ds ≡ true) there k) in
    ground (arith, rest)

chained_last :
    (before : Option Text) (number from : ℕ) (es : List Event)
    → chained before number es ≡ true
    → not (is_empty es) ≡ true
    → last_seq_of from es + 1 ≡ number + length es
unfolding chained
chained_last before number from [] h f = cc
chained_last before number from (e ∷ []) h f = ground arith
chained_last before number from (e ∷ d ∷ es) h f =
    let rest =
      chained_last (some e.event_hash) (number + 1) e.core.seq (d ∷ es) (ground arith) refl in
    omega (arith, rest)

module _ (hash : Hashes) where
  -- Each commit has its own hash, that of the events of its batch, and the hash of the commit before it.
  unfoldable pub linked : List Batch → Bool
  unfolding eq_text eq_hash
  linked [] = true
  linked (b ∷ bs) =
      eq_text b.commit.commit_hash (hash.of_commit b.commit.binding)
      && eq_text b.commit.binding.members_hash (hash.of_members (hashes_of b.events))
      && eq_hash b.commit.binding.previous_commit_hash (commit_tip bs)
      && linked bs

  -- A closed history: its counters agree with its events, which are one chain from the first, and its
  -- commits are another.
  pub record IsChained (s : History) : Type 0 where
    pub next : s.expected_seq ≡ s.cursor + 1
    pub counted : s.event_count ≡ length (events_of s.committed_batches)
    pub numbered : s.cursor ≡ length (events_of s.committed_batches)
    pub batches : s.batch_count ≡ length s.committed_batches
    pub last : s.last_event_hash ≡ tip none (events_of s.committed_batches)
    pub chain : chained none 1 (events_of s.committed_batches) ≡ true
    pub last_commit : s.last_commit_hash ≡ commit_tip s.committed_batches
    pub commits : linked s.committed_batches ≡ true

  committed-IsChained :
      (s : History) (b : Batch)
      → IsChained s
      → not (is_empty b.events) ≡ true
      → chained s.last_event_hash s.expected_seq b.events ≡ true
      → linked (b ∷ s.committed_batches) ≡ true
      → IsChained (committed s b)
  unfolding committed events_of
  committed-IsChained s b i full c k =
      let ends = chained_last s.last_event_hash s.expected_seq 0 b.events c full in
      let more = length-append (events_of s.committed_batches) b.events in
      let number : s.expected_seq ≡ 1 + length (events_of s.committed_batches) =
        omega (arith, i.next, i.numbered) in
      record {
        next = refl;
        counted = omega (arith, i.counted, more);
        numbered = omega (arith, i.numbered, i.next, more, ends);
        batches = omega (arith, i.batches);
        last =
            ap (λ h. tip h b.events) i.last
            ∙ sym (tip-append none (events_of s.committed_batches) b.events);
        chain = chained-append none 1 (events_of s.committed_batches) b.events i.chain (
            subst (λ h. chained h (1 + length (events_of s.committed_batches)) b.events ≡ true)
              i.last (subst (λ n. chained s.last_event_hash n b.events ≡ true) number c));
        last_commit = refl;
        commits = k;
      }

  pub empty_history-IsChained : IsChained empty_history
  unfolding events_of chained linked
  empty_history-IsChained = record {
    next = refl;
    counted = refl;
    numbered = refl;
    batches = refl;
    last = refl;
    chain = refl;
    last_commit = refl;
    commits = refl;
  }

  module _ (refusal : Core → Option Code) (stream : String) where
    -- A state between two records: also the events of an open batch continue the chain.
    abbrev IsSound : State → Type 0
    IsSound (s, none) = IsChained s
    IsSound (s, some o) = IsChained s × (chained s.last_event_hash s.expected_seq o.events ≡ true)

    joined :
        (s : History) (o : Open) (e : Event)
        → chained s.last_event_hash s.expected_seq o.events ≡ true
        → in_place hash refusal stream s o e ≡ true
        → chained s.last_event_hash s.expected_seq (o.events ++ e ∷ []) ≡ true
    unfolding in_place chained
    joined s o e c p =
        chained-append s.last_event_hash s.expected_seq o.events (e ∷ []) c (ground arith)

    binding :
        (s : History) (o : Open) (c : Commit)
        → IsChained s
        → binds hash refusal stream s o c ≡ true
        → linked (record { begin = o.begin; events = o.events; commit = c } ∷ s.committed_batches)
          ≡ true
    unfolding binds linked
    binding s o c i h =
        let tip =
          subst (λ h. eq_hash c.binding.previous_commit_hash h ≡ true) i.last_commit
            (ground arith) in
        ground (arith, tip, i.commits)

    step-IsSound :
        (line : ℕ) (st : State) (r : Record) (next : State)
        → IsSound st
        → step hash refusal stream line st r ≡ ok next
        → IsSound next
    unfolding step
    step-IsSound line (s, none) (batch_begin b) next i h =
        let (own, fresh, same) = begin_inside hash refusal stream line s b next h in
        subst IsSound same (i, unfold chained in refl)
    step-IsSound line (s, some o) (batch_begin b) next i h = cc
    step-IsSound line (s, none) (batch_event e) next i h = cc
    step-IsSound line (s, some o) (batch_event e) next i h =
        let (placed, accepted, known, same) = event_inside hash refusal stream line s o e next h in
        subst IsSound same (i.0, joined s o e i.1 placed)
    step-IsSound line (s, none) (batch_commit c) next i h = cc
    step-IsSound line (s, some o) (batch_commit c) next i h =
        let (bound, same) = commit_inside hash refusal stream line s o c next h in
        subst IsSound same (
          committed-IsChained s (record { begin = o.begin; events = o.events; commit = c }) i.0
            (ground arith) i.1 (binding s o c i.0 (ground arith)))

    pub steps-IsSound :
        (line : ℕ) (st : State) (rs : List Record) (next : State)
        → IsSound st
        → steps hash refusal stream line st rs ≡ ok next
        → IsSound next
    unfolding steps
    steps-IsSound line st [] next i h = subst IsSound (ok-injective st next h) i
    steps-IsSound line st (r ∷ rs) next i h =
        let (x, taken, rest) = bind_ok (step hash refusal stream line st r) _ next h in
        steps-IsSound (line + 1) x rs next (step-IsSound line st r x i taken) rest

    scan-IsSound :
        (line : ℕ) (st : State) (fs : List Frame) (end : State × ℕ × Bool)
        → IsSound st
        → scan hash refusal stream line st fs ≡ ok end
        → IsSound end.0
    unfolding scan
    scan-IsSound line st [] end i h = subst (λ x. IsSound x.0) (ok-injective _ end h) i
    scan-IsSound line st (whole r ∷ fs) end i h =
        let (x, taken, rest) = bind_ok (step hash refusal stream line st r) _ end h in
        scan-IsSound (line + 1) x fs end (step-IsSound line st r x i taken) rest
    scan-IsSound line st (broken ∷ fs) end i h = cc
    scan-IsSound line st (partial ∷ fs) end i h = subst (λ x. IsSound x.0) (ok-injective _ end h) i

    IsSound-IsChained : (s : History) (o : Option Open) → IsSound (s, o) → IsChained s
    IsSound-IsChained s none i = i
    IsSound-IsChained s (some o) i = i.0

    -- The history that `verify` returns, of any frames and with recovery or without: its cursor, its
    -- event count and its next number are those of its events; the events are numbered from one, and
    -- each names the hash of the event before it; and each commit has its own hash, that of its
    -- members, and the hash of the commit before it.
    pub verify-IsChained :
        (recover : Bool) (frames : List Frame) (s : History) (kept : ℕ)
        → verify hash refusal stream recover frames ≡ ok (s, kept)
        → IsChained s
    unfolding verify close
    verify-IsChained recover frames s kept h =
        let (end, read, closed) =
          bind_ok (scan hash refusal stream 0 (empty_history, none) frames) _ (s, kept) h in
        let (may, same) =
          demand_ok (not (end.2 || is_open end.0.1) || recover) journal_corrupt _ (s, kept)
            closed in
        let i = scan-IsSound 0 (empty_history, none) frames end empty_history-IsChained read in
        subst (λ x. IsChained x.0) (ok-injective _ (s, kept) same)
          (IsSound-IsChained end.0.0 end.0.1 i)
