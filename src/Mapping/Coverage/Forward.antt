-- ===== src/Mapping/Coverage/Forward.antt =====
-- The state of a cell under the transitions of mapping/coverage.py.
use ayran.Prelude.{
  ◌≤◌, String, ◌≡◌, refl, sym, ap, ◌∙◌, inl, inr, Bool, true, false, not, ◌&&◌, Option, none, some,
  List, [], ◌∷◌, ◌++◌, arith, ltb, if◌then◌else◌, Bool-cases, any, every,
}
use ayran.Prelude.Int.{pos}
use ayran.Prelude.Text.{
  codes, Text, lookup, lookup-insert, lookup-every, every-insert, str_eq, eq_iff,
}
use ayran.Mapping.CellMeta.{cell_rank, word, digits, CellState, CellMeta, unexamined}
use ayran.Mapping.CellMeta.RoundTrip.{is_short, parse_cell_meta-format_cell_meta}
use ayran.Mapping.Coverage.{
  meta, Grid, coverage_cell_record, or_text, rewritten, move, keep_or_add, ensure, store_moved,
  transition, Cell, Call,
}
use mathlib.Core.Path.{subst}

-- The risk of a cell has at most two thousand digits.
abbrev pub has_short_risk : Cell → Bool
has_short_risk cell = is_short (meta cell).risk_score

unfoldable pub fits : Grid → Bool
fits grid = every (λ e. has_short_risk e.1) grid

-- The state of a cell; a cell that the grid lacks counts as unexamined.
abbrev pub state_in : Option Cell → CellState
state_in none = unexamined
state_in (some cell) = (meta cell).cell_state

unfoldable pub state_at : String → Grid → CellState
state_at i grid = state_in (lookup i grid)

-- A transition that goes back and is not an invalidation.
abbrev pub goes_back : CellState → CellState → Bool → Bool
goes_back old new invalidate = ltb (cell_rank new) (cell_rank old) && not invalidate

abbrev new_cell : Text → Cell
new_cell label = coverage_cell_record label (pos 0) []

new_cell-meta :
    (label : Text)
    → ((meta (new_cell label)).cell_state ≡ unexamined) × (has_short_risk (new_cell label) ≡ true)
unfolding digits
new_cell-meta label =
    let (state, risk) =
      parse_cell_meta-format_cell_meta unexamined 0 (codes "unexamined " ++ label) refl in
    (state, ap is_short risk)

pub rewritten-meta :
    (s : CellState) (narrative : Text) (ref : Option String) (old : CellMeta) (refs : List String)
    → is_short old.risk_score ≡ true
    → ((meta (rewritten s narrative ref old refs)).cell_state ≡ s)
      × (has_short_risk (rewritten s narrative ref old refs) ≡ true)
unfolding rewritten
rewritten-meta s narrative ref old refs h =
    let (state, risk) =
      parse_cell_meta-format_cell_meta s old.risk_score
        (or_text narrative (or_text old.narrative (word s))) h in
    (state, ap is_short risk ∙ h)

kept_state :
    (j i : String) (label : Text) (grid : Grid) (o : Option Cell)
    → lookup i grid ≡ o
    → state_at j (keep_or_add i (new_cell label) grid o).1 ≡ state_at j grid
unfolding state_at
kept_state j i label grid (some c) e = refl
kept_state j i label grid none e = elim (Bool-cases (str_eq i j)) [
  | inl here ↦
      ap state_in (
        lookup-insert i j (new_cell label) grid
        ∙ ap (λ b. if b then some (new_cell label) else lookup j grid) here)
      ∙ (new_cell-meta label).0
      ∙ sym (ap state_in (ap (λ k. lookup k grid) (sym ((eq_iff i j).0 here)) ∙ e))
  | inr there ↦ ap state_in (
      lookup-insert i j (new_cell label) grid
      ∙ ap (λ b. if b then some (new_cell label) else lookup j grid) there)
]

ensured_state :
    (j i : String) (label : Text) (grid : Grid)
    → state_at j (ensure i label (pos 0) [] grid).1 ≡ state_at j grid
unfolding ensure
ensured_state j i label grid = kept_state j i label grid (lookup i grid) refl

kept_cell :
    (i : String) (label : Text) (grid : Grid) (o : Option Cell)
    → (meta (keep_or_add i (new_cell label) grid o).0).cell_state ≡ state_in o
kept_cell i label grid none = (new_cell-meta label).0
kept_cell i label grid (some c) = refl

ensured_cell :
    (i : String) (label : Text) (grid : Grid)
    → (meta (ensure i label (pos 0) [] grid).0).cell_state ≡ state_at i grid
unfolding ensure state_at
ensured_cell i label grid = kept_cell i label grid (lookup i grid)

kept_fits :
    (i : String) (label : Text) (grid : Grid) (o : Option Cell)
    → lookup i grid ≡ o
    → fits grid ≡ true
    → (fits (keep_or_add i (new_cell label) grid o).1 ≡ true)
      × (has_short_risk (keep_or_add i (new_cell label) grid o).0 ≡ true)
unfolding fits
kept_fits i label grid none e h =
    let short = (new_cell-meta label).1 in
    (every-insert has_short_risk i (new_cell label) grid short h, short)
kept_fits i label grid (some c) e h = (h, lookup-every (λ k cell. has_short_risk cell) i grid h e)

pub ensured_fits :
    (i : String) (label : Text) (grid : Grid)
    → fits grid ≡ true
    → (fits (ensure i label (pos 0) [] grid).1 ≡ true)
      × (has_short_risk (ensure i label (pos 0) [] grid).0 ≡ true)
unfolding ensure
ensured_fits i label grid h = kept_fits i label grid (lookup i grid) refl h

put_state :
    (j i : String) (grid : Grid) (back : Bool) (moved : Cell) (s : CellState)
    → (meta moved).cell_state ≡ s
    → state_at j (store_moved i grid (if back then none else some moved)).1
      ≡ (if str_eq i j && not back then s else state_at j grid)
unfolding state_at
put_state j i grid true moved s e = ground arith
put_state j i grid false moved s e = elim (Bool-cases (str_eq i j)) [
  | inl here ↦ rw (lookup-insert i j moved grid, here) e
  | inr there ↦ rw (lookup-insert i j moved grid, there) refl
]

-- The state that a transition leaves at `j`: the new one where it succeeds on that very cell.
store_state :
    (j i : String) (s : CellState) (grid : Grid) (b : Bool) (note : Text) (ref : Option String)
    (cell : Cell)
    → has_short_risk cell ≡ true
    → state_at j (store_moved i grid (move s b note ref cell)).1
      ≡ (if str_eq i j && not (goes_back (meta cell).cell_state s b) then s else state_at j grid)
unfolding move
store_state j i s grid b note ref cell h =
    put_state j i grid (goes_back (meta cell).cell_state s b)
      (rewritten s note ref (meta cell) cell.target_refs) s
      (rewritten-meta s note ref (meta cell) cell.target_refs h).0

store_answer :
    (i : String) (s : CellState) (grid : Grid) (b : Bool) (note : Text) (ref : Option String)
    (cell : Cell)
    → (store_moved i grid (move s b note ref cell)).0 ≡ not (goes_back (meta cell).cell_state s b)
unfolding move
store_answer i s grid b note ref cell = ground arith

put_fits :
    (i : String) (grid : Grid) (back : Bool) (moved : Cell)
    → has_short_risk moved ≡ true
    → fits grid ≡ true
    → fits (store_moved i grid (if back then none else some moved)).1 ≡ true
unfolding fits
put_fits i grid true moved short h = h
put_fits i grid false moved short h = every-insert has_short_risk i moved grid short h

-- The risks of the cells stay short.
pub transition-fits :
    (call : Call) (grid : Grid) → fits grid ≡ true → fits (transition call grid).1 ≡ true
unfolding transition move
transition-fits call grid h =
    let cell = (ensure call.identifier call.label (pos 0) [] grid).0 in
    let ensured = (ensure call.identifier call.label (pos 0) [] grid).1 in
    let (fitting, short) = ensured_fits call.identifier call.label grid h in
    put_fits call.identifier ensured
      (goes_back (meta cell).cell_state call.new_state call.invalidate)
      (rewritten call.new_state call.note call.evidence_ref (meta cell) cell.target_refs)
      (rewritten-meta call.new_state call.note call.evidence_ref (meta cell) cell.target_refs
        short).1
      fitting

-- In a grid of short risks, a transition fails exactly when it goes back in rank and is not an
-- invalidation; where it succeeds, the cell has the new state, and every other cell, and every cell
-- where it fails, keeps its state.
pub transition_effect :
    (call : Call) (grid : Grid)
    → fits grid ≡ true
    → let back = goes_back (state_at call.identifier grid) call.new_state call.invalidate in
      ((transition call grid).0 ≡ not back)
      × ((j : String)
          → state_at j (transition call grid).1
            ≡ (if str_eq call.identifier j && not back then call.new_state else state_at j grid))
unfolding transition
transition_effect call grid h =
    let i = call.identifier in
    let s = call.new_state in
    let b = call.invalidate in
    let cell = (ensure i call.label (pos 0) [] grid).0 in
    let ensured = (ensure i call.label (pos 0) [] grid).1 in
    let short = (ensured_fits i call.label grid h).1 in
    (
      store_answer i s ensured b call.note call.evidence_ref cell
          ∙ ap (λ x. not (goes_back x s b)) (ensured_cell i call.label grid),
      λ j.
          store_state j i s ensured b call.note call.evidence_ref cell short
          ∙ ap (λ x. if str_eq i j && not (goes_back x s b) then s else state_at j ensured)
              (ensured_cell i call.label grid)
          ∙ ap (λ x. if str_eq i j && not (goes_back (state_at i grid) s b) then s else x)
              (ensured_state j i call.label grid),
    )

-- Transitions, the last one first.
abbrev pub moves : List Call → Grid → Grid
moves [] grid = grid
moves (call ∷ earlier) grid = (transition call (moves earlier grid)).1

pub moves-fits :
    (calls : List Call) (grid : Grid) → fits grid ≡ true → fits (moves calls grid) ≡ true
moves-fits [] grid h = h
moves-fits (call ∷ earlier) grid h =
    transition-fits call (moves earlier grid) (moves-fits earlier grid h)

rank_kept :
    (old new : CellState) (here : Bool)
    → cell_rank old ≤ cell_rank (if here && not (goes_back old new false) then new else old)
rank_kept old new here = ground arith

rank_step :
    (j : String) (call : Call) (grid : Grid)
    → fits grid ≡ true
    → call.invalidate ≡ false
    → cell_rank (state_at j grid) ≤ cell_rank (state_at j (transition call grid).1)
rank_step j call grid h forward =
    let i = call.identifier in
    let s = call.new_state in
    let after = (transition_effect call grid h).1 j in
    subst (λ x. cell_rank (state_at j grid) ≤ cell_rank x) (sym after)
      (elim (Bool-cases (str_eq i j)) [
        | inl here ↦
            let same_id = (eq_iff i j).0 here in
            rw (forward, here)
              (subst
                (λ k.
                  cell_rank (state_at j grid)
                  ≤ cell_rank
                      (if not (goes_back (state_at k grid) s false) then s else state_at j grid))
                (sym same_id) (rank_kept (state_at j grid) s true))
        | inr there ↦ rw there (omega arith)
      ])

-- Where the risk of every cell has at most two thousand digits: no sequence of transitions without
-- invalidation lowers the rank of any cell, whatever the narratives; the states are those read back
-- from the cells' texts.
pub forward_only :
    (j : String) (calls : List Call) (grid : Grid)
    → fits grid ≡ true
    → any (λ call. call.invalidate) calls ≡ false
    → cell_rank (state_at j grid) ≤ cell_rank (state_at j (moves calls grid))
forward_only j [] grid h forward = omega arith
forward_only j (call ∷ earlier) grid h forward =
    let before = forward_only j earlier grid h (ground arith) in
    let step = rank_step j call (moves earlier grid) (moves-fits earlier grid h) (ground arith) in
    omega (arith, before, step)
