-- ===== src/Mapping/Coverage/Schema.antt =====
-- The schema fields that mapping/coverage.py writes beside the text of a cell.
use ayran.Prelude.{
  ℕ, String, ◌≡◌, refl, sym, ap, Bool, true, false, Option, none, some, List, [], ◌∷◌, ◌++◌,
  if◌then◌else◌, All,
}
use ayran.Prelude.Int.{pos}
use ayran.Prelude.Text.{codes, Text, lookup, insert, str_eq}
use ayran.Mapping.CellMeta.{digits, CellState, CellMeta, unexamined}
use ayran.Mapping.CellMeta.RoundTrip.{is_short, parse_cell_meta-format_cell_meta}
use ayran.Mapping.Coverage.{
  state_to_schema, meta, Grid, coverage_cell_record, rewritten, move, keep_or_add, ensure,
  store_moved, transition, Cell, Call,
}
use ayran.Mapping.Coverage.Forward.{fits, goes_back, rewritten-meta, ensured_fits}

-- The status and depth of a cell are those of the state that is read back from its text.
abbrev pub IsLabelled : Cell → Type 0
IsLabelled cell = cell.schema ≡ state_to_schema (meta cell).cell_state

abbrev pub IsConsistent : Grid → Type 0
IsConsistent grid = All (λ e. IsLabelled e.1) grid

insert-IsConsistent :
    (i : String) (cell : Cell) (grid : Grid)
    → IsLabelled cell
    → IsConsistent grid
    → IsConsistent (insert i cell grid)
unfolding insert
insert-IsConsistent i cell [] l c = (l, tt)
insert-IsConsistent i cell ((j, d) ∷ grid) l (d_labelled, c) =
    let rest = insert-IsConsistent i cell grid l c in
    elim (str_eq j i)
      as (λ b. IsConsistent (if b then (j, cell) ∷ grid else (j, d) ∷ insert i cell grid)) [
        | true ↦ (l, c)
        | false ↦ (d_labelled, rest)
      ]

new_cell-IsLabelled :
    (label : Text) (n : ℕ) (refs : List String)
    → is_short n ≡ true
    → IsLabelled (coverage_cell_record label (pos n) refs)
new_cell-IsLabelled label n refs h =
    ap state_to_schema
      (sym (parse_cell_meta-format_cell_meta unexamined n (codes "unexamined " ++ label) h).0)

kept-IsConsistent :
    (i : String) (label : Text) (n : ℕ) (refs : List String) (grid : Grid) (o : Option Cell)
    → is_short n ≡ true
    → IsConsistent grid
    → IsConsistent (keep_or_add i (coverage_cell_record label (pos n) refs) grid o).1
kept-IsConsistent i label n refs grid none h c =
    insert-IsConsistent i (coverage_cell_record label (pos n) refs) grid
      (new_cell-IsLabelled label n refs h) c
kept-IsConsistent i label n refs grid (some cell) h c = c

-- `ensure` with a risk that is not negative and not too long keeps the schema fields of every cell
-- those of its state.
pub ensure-IsConsistent :
    (i : String) (label : Text) (n : ℕ) (refs : List String) (grid : Grid)
    → is_short n ≡ true
    → IsConsistent grid
    → IsConsistent (ensure i label (pos n) refs grid).1
unfolding ensure
ensure-IsConsistent i label n refs grid h c =
    kept-IsConsistent i label n refs grid (lookup i grid) h c

put-IsConsistent :
    (back : Bool) (i : String) (cell : Cell) (grid : Grid)
    → IsLabelled cell
    → IsConsistent grid
    → IsConsistent (store_moved i grid (if back then none else some cell)).1
put-IsConsistent true i cell grid l c = c
put-IsConsistent false i cell grid l c = insert-IsConsistent i cell grid l c

rewritten-IsLabelled :
    (s : CellState) (note : Text) (ref : Option String) (old : CellMeta) (refs : List String)
    → is_short old.risk_score ≡ true
    → IsLabelled (rewritten s note ref old refs)
unfolding rewritten
rewritten-IsLabelled s note ref old refs h =
    ap state_to_schema (sym (rewritten-meta s note ref old refs h).0)

-- Where the risk of every cell has at most two thousand digits: a transition, even one that fails,
-- keeps the schema fields of every cell those of the state that is read back from its text.
pub transition-IsConsistent :
    (call : Call) (grid : Grid)
    → fits grid ≡ true
    → IsConsistent grid
    → IsConsistent (transition call grid).1
unfolding transition move digits
transition-IsConsistent call grid h c =
    let cell = (ensure call.identifier call.label (pos 0) [] grid).0 in
    let ensured = (ensure call.identifier call.label (pos 0) [] grid).1 in
    let short = (ensured_fits call.identifier call.label grid h).1 in
    put-IsConsistent (goes_back (meta cell).cell_state call.new_state call.invalidate)
      call.identifier
      (rewritten call.new_state call.note call.evidence_ref (meta cell) cell.target_refs) ensured
      (rewritten-IsLabelled call.new_state call.note call.evidence_ref (meta cell) cell.target_refs
        short)
      (ensure-IsConsistent call.identifier call.label 0 [] grid refl c)
