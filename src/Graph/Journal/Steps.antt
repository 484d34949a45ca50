-- ===== src/Graph/Journal/Steps.antt =====
-- Runs of `Journal.verify` over the records of several batches, and over the frames that hold them.
use ayran.Prelude.{
  ℕ, ◌+◌, String, ◌≡◌, sym, ap, ◌∙◌, Bool, true, not, ◌&&◌, Option, none, some, List, [], ◌∷◌, ◌++◌,
  map, arith, length, is_empty,
}
use ayran.Prelude.Text.{str_eq}
use ayran.Graph.Record.{
  Core, Event, Begin, Commit, Record, Frame, Hashes, batch_begin, batch_event, batch_commit, whole,
}
use ayran.Graph.Journal.{
  ok, ◌>>=◌, empty_history, committed, State, on_begin, in_place, in_history, binds, step, scan,
  close, verify, Code, Checked, History, Open, journal_corrupt, namespace_mismatch,
}
use ayran.Graph.Journal.Results.{bind_ok, demand_ok, unless_ok, ok-injective}
use mathlib.Core.List.{append-nil}

module _ (hash : Hashes) (refusal : Core → Option Code) (stream : String) where
  -- The records one after the other.
  unfoldable pub steps : ℕ → State → List Record → Checked (State)
  steps line st [] = ok st
  steps line st (r ∷ rs) = step hash refusal stream line st r >>= λ next. steps (line + 1) next rs

  pub steps-append :
      (line : ℕ) (st : State) (rs bs : List Record) (next : State)
      → steps line st rs ≡ ok next
      → steps line st (rs ++ bs) ≡ steps (line + length rs) next bs
  unfolding steps
  steps-append line st [] bs next h =
      let same : st ≡ next = cc in
      let here : line ≡ line + 0 = omega arith in
      ap (λ x. steps line x bs) same ∙ ap (λ n. steps n next bs) here
  steps-append line st (r ∷ rs) bs next h =
      let (x, e, k) =
        bind_ok (step hash refusal stream line st r) (λ st. steps (line + 1) st rs) next h in
      let there : line + 1 + length rs ≡ line + length (r ∷ rs) = omega arith in
      ap (λ c. c >>= λ st. steps (line + 1) st (rs ++ bs)) e
      ∙ steps-append (line + 1) x rs bs next k
      ∙ ap (λ n. steps n next bs) there

  -- Records that lead to a state are read from their lines as they are from memory.
  pub scan-steps :
      (line : ℕ) (st : State) (rs : List Record) (fs : List Frame) (next : State)
      → steps line st rs ≡ ok next
      → scan hash refusal stream line st (map whole rs ++ fs)
        ≡ scan hash refusal stream (line + length rs) next fs
  unfolding steps scan
  scan-steps line st [] fs next h =
      let same : st ≡ next = cc in
      let here : line ≡ line + 0 = omega arith in
      ap (λ x. scan hash refusal stream line x fs) same
      ∙ ap (λ n. scan hash refusal stream n next fs) here
  scan-steps line st (r ∷ rs) fs next h =
      let (x, e, k) =
        bind_ok (step hash refusal stream line st r) (λ st. steps (line + 1) st rs) next h in
      let there : line + 1 + length rs ≡ line + length (r ∷ rs) = omega arith in
      ap (λ c. c >>= λ st. scan hash refusal stream (line + 1) st (map whole rs ++ fs)) e
      ∙ scan-steps (line + 1) x rs fs next k
      ∙ ap (λ n. scan hash refusal stream n next fs) there

  -- What is known of a record that was taken.
  pub begin_inside :
      (line : ℕ) (s : History) (b : Begin) (next : State)
      → step hash refusal stream line (s, none) (batch_begin b) ≡ ok next
      → (str_eq b.stream stream ≡ true)
        × (on_begin hash refusal stream s b ≡ true)
        × ((s, some (record { begin = b; events = []; begin_offset = line })) ≡ next)
  unfolding step
  begin_inside line s b next h =
      let (own, h1) = demand_ok (str_eq b.stream stream) namespace_mismatch _ next h in
      let (fresh, h2) = demand_ok (on_begin hash refusal stream s b) journal_corrupt _ next h1 in
      (own, fresh, ok-injective _ next h2)

  pub event_inside :
      (line : ℕ) (s : History) (o : Open) (e : Event) (next : State)
      → step hash refusal stream line (s, some o) (batch_event e) ≡ ok next
      → (in_place hash refusal stream s o e ≡ true)
        × (refusal e.core ≡ none)
        × (in_history hash refusal stream s o e ≡ true)
        × ((s, some (record o { events = o.events ++ e ∷ [] })) ≡ next)
  unfolding step
  event_inside line s o e next h =
      let (placed, h1) = demand_ok (in_place hash refusal stream s o e) journal_corrupt _ next h in
      let (accepted, h2) = unless_ok (refusal e.core) _ next h1 in
      let (known, h3) =
        demand_ok (in_history hash refusal stream s o e) journal_corrupt _ next h2 in
      (placed, accepted, known, ok-injective _ next h3)

  pub commit_inside :
      (line : ℕ) (s : History) (o : Open) (c : Commit) (next : State)
      → step hash refusal stream line (s, some o) (batch_commit c) ≡ ok next
      → (not (is_empty o.events) && binds hash refusal stream s o c ≡ true)
        × ((committed s (record { begin = o.begin; events = o.events; commit = c }), none) ≡ next)
  unfolding step
  commit_inside line s o c next h =
      let (bound, h1) =
        demand_ok (not (is_empty o.events) && binds hash refusal stream s o c) journal_corrupt _
          next h in
      (bound, ok-injective _ next h1)

  -- The end of a run of `verify`.
  abbrev pub tail : Bool → ℕ → State → List Frame → Checked (History × ℕ)
  tail may_recover line st fs =
      scan hash refusal stream line st fs >>= close hash refusal stream may_recover

  -- `verify` of records that lead to a closed history, and of what follows them.
  pub verify-append :
      (recover : Bool) (rs : List Record) (s : History) (fs : List Frame)
      → steps 0 (empty_history, none) rs ≡ ok (s, none)
      → verify hash refusal stream recover (map whole rs ++ fs)
        ≡ tail recover (length rs) (s, none) fs
  unfolding verify
  verify-append recover rs s fs h =
      let here : 0 + length rs ≡ length rs = omega arith in
      ap (λ r. r >>= close hash refusal stream recover)
        (scan-steps 0 (empty_history, none) rs fs (s, none) h)
      ∙ ap (λ n. tail recover n (s, none) fs) here

  pub tail-steps :
      (recover : Bool) (line : ℕ) (s after : History) (rs : List Record)
      → steps line (s, none) rs ≡ ok (after, none)
      → tail recover line (s, none) (map whole rs) ≡ ok (after, line + length rs)
  unfolding scan close
  tail-steps recover line s after rs h =
      ap (λ fs. tail recover line (s, none) fs) (sym (append-nil (map whole rs)))
      ∙ ap (λ r. r >>= close hash refusal stream recover)
          (scan-steps line (s, none) rs [] (after, none) h)
