-- ===== src/Graph/Journal/Tail.antt =====
-- The recovery of `Journal.verify`: a crash while `append_batch` writes leaves a part of the batch, and
-- perhaps a torn line, at the end of the last segment.
use ayran.Prelude.{
  ℕ, zero, suc, ◌+◌, String, ◌≡◌, refl, sym, ap, ◌∙◌, Bool, true, false, not, ◌&&◌, ◌||◌, Option,
  none, some, List, [], ◌∷◌, ◌++◌, map, arith, leb, ◌==◌, length, zero,
}
use ayran.Graph.Record.{
  Core, Event, Commit, Record, Frame, Batch, Hashes, batch_begin, batch_event, batch_commit, whole,
  partial,
}
use ayran.Graph.Journal.{
  ok, ◌>>=◌, demand, empty_history, State, step, scan, close, verify, Code, Checked, History, Open,
  journal_corrupt,
}
use ayran.Graph.Journal.Results.{bind_ok}
use ayran.Graph.Journal.Steps.{steps, begin_inside, event_inside, tail, verify-append}
use ayran.Graph.Batch.{records_of, frames_of}
use mathlib.Core.Path.{subst}

-- The first `n` lines.
abbrev pub first : ℕ → List Frame → List Frame
first zero fs = []
first (suc n) [] = []
first (suc n) (f ∷ fs) = f ∷ first n fs

-- What a write that was cut inside a line leaves of it.
abbrev pub torn_line : Bool → List Frame
torn_line false = []
torn_line true = partial ∷ []

-- The end of a journal of which `n` lines of the next batch were written, and perhaps a part of one.
abbrev pub ended : Bool → ℕ → Bool → History → ℕ → Checked (History × ℕ)
ended may_recover n torn s line =
    demand (may_recover || n == 0 && not torn) journal_corrupt (ok (s, line))

module _ (hash : Hashes) (refusal : Core → Option Code) (stream : String) where
  tail_open :
      (recover torn : Bool) (line : ℕ) (s : History) (o : Open)
      → tail hash refusal stream recover line (s, some o) (torn_line torn)
        ≡ demand recover journal_corrupt (ok (s, o.begin_offset))
  unfolding scan close
  tail_open true true line s o = refl
  tail_open true false line s o = refl
  tail_open false true line s o = refl
  tail_open false false line s o = refl

  events_cut :
      (recover : Bool) (n line : ℕ) (s : History) (o : Open) (es : List Event) (c : Commit)
      (torn : Bool) (end : State)
      → steps hash refusal stream line (s, some o) (map batch_event es ++ batch_commit c ∷ [])
        ≡ ok end
      → leb n (length es) ≡ true
      → tail hash refusal stream recover line
          (s, some o)
          (first n (map whole (map batch_event es ++ batch_commit c ∷ [])) ++ torn_line torn)
        ≡ demand recover journal_corrupt (ok (s, o.begin_offset))
  unfolding steps scan
  events_cut recover zero line s o es c torn end h l = tail_open recover torn line s o
  events_cut recover (suc n) line s o [] c torn end h l = absurd (ground arith)
  events_cut recover (suc n) line s o (e ∷ es) c torn end h l =
      let (x, accepted, rest) =
        bind_ok (step hash refusal stream line (s, some o) (batch_event e)) _ end h in
      let same = (event_inside hash refusal stream line s o e x accepted).3 in
      let after =
        first n (map whole (map batch_event es ++ batch_commit c ∷ [])) ++ torn_line torn in
      ap
        (λ r.
          r
          >>= (λ st. scan hash refusal stream (line + 1) st after)
          >>= close hash refusal stream recover)
        (accepted ∙ ap ok (sym same))
      ∙ events_cut recover n (line + 1) s (record o { events = o.events ++ e ∷ [] }) es c torn end
          (subst
            (λ st.
              steps hash refusal stream (line + 1) st (map batch_event es ++ batch_commit c ∷ [])
              ≡ ok end)
            (sym same) rest)
          (ground arith)

  -- A batch of which only a part was written: the history before it, and the lines before it.
  batch_cut :
      (recover : Bool) (n line : ℕ) (s : History) (b : Batch) (torn : Bool) (end : State)
      → steps hash refusal stream line (s, none) (records_of b) ≡ ok end
      → leb n (length b.events + 1) ≡ true
      → tail hash refusal stream recover line (s, none) (first n (frames_of b) ++ torn_line torn)
        ≡ ended recover n torn s line
  unfolding steps scan close
  batch_cut true zero line s b true end h l = refl
  batch_cut true zero line s b false end h l = refl
  batch_cut false zero line s b true end h l = refl
  batch_cut false zero line s b false end h l = refl
  batch_cut recover (suc n) line s b torn end h l =
      let (x, accepted, rest) =
        bind_ok (step hash refusal stream line (s, none) (batch_begin b.begin)) _ end h in
      let same = (begin_inside hash refusal stream line s b.begin x accepted).2 in
      let after =
        first n (map whole (map batch_event b.events ++ batch_commit b.commit ∷ []))
        ++ torn_line torn in
      let cut : (recover || suc n == 0 && not torn) ≡ recover = ground arith in
      ap
        (λ r.
          r
          >>= (λ st. scan hash refusal stream (line + 1) st after)
          >>= close hash refusal stream recover)
        (accepted ∙ ap ok (sym same))
      ∙ events_cut recover n (line + 1) s
          (record { begin = b.begin; events = []; begin_offset = line }) b.events b.commit torn end
          (subst
            (λ st.
              steps hash refusal stream (line + 1) st
                (map batch_event b.events ++ batch_commit b.commit ∷ [])
              ≡ ok end)
            (sym same) rest)
          (ground arith)
      ∙ ap (λ r. demand r journal_corrupt (ok (s, line))) (sym cut)

  -- Records that lead `verify` to a closed history, and after them the first `n` lines of a batch that
  -- would be taken there, its last line not among them, with a torn line at the end or without: `verify`
  -- with recovery returns the history before the batch and keeps exactly the lines before it; `verify`
  -- without raises `journal_corrupt`, unless nothing of the batch is there.
  pub verify_cut :
      (recover : Bool) (rs : List Record) (s : History) (b : Batch) (n : ℕ) (torn : Bool)
      (end : State)
      → steps hash refusal stream 0 (empty_history, none) rs ≡ ok (s, none)
      → steps hash refusal stream (length rs) (s, none) (records_of b) ≡ ok end
      → leb n (length b.events + 1) ≡ true
      → verify hash refusal stream recover
          (map whole rs ++ (first n (frames_of b) ++ torn_line torn))
        ≡ ended recover n torn s (length rs)
  verify_cut recover rs s b n torn end h next l =
      verify-append hash refusal stream recover rs s (first n (frames_of b) ++ torn_line torn) h
      ∙ batch_cut recover n (length rs) s b torn end next l
