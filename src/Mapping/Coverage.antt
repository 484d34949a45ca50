-- ===== src/Mapping/Coverage.antt =====
-- The coverage grid of skills/ayran/src/ayran/mapping/coverage.py, over the texts of its cells
-- (Mapping/CellMeta). `content_id` is a parameter: an operation is given the identifier of its cell, and
-- with it the label, the dimension and the subject as they stand in the narrative. The cell's identity
-- and dates are left out; no operation below reads them.
pub mod Forward
pub mod Summary
pub mod Schema
use ayran.Prelude.{
  ℕ, ◌+◌, ◌-◌, ◌*◌, String, Bool, true, false, not, ◌&&◌, ◌||◌, Option, none, some, List, [], ◌∷◌,
  ◌++◌, ltb, leb, ◌==◌, if◌then◌else◌, keep,
}
use ayran.Prelude.Int.{ℤ, pos}
use ayran.Prelude.Text.{codes, Text, elem, lookup, insert, str_eq}
use ayran.Mapping.CellMeta.{
  cell_rank, word, parse_cell_meta, format_cell_meta, CellState, CellMeta, unexamined, in_progress,
  examined_no_issue, blocked, lead_found, hypothesis_active, validated, residual_risk,
}

-- `STATE_TO_SCHEMA`.
unfoldable pub state_to_schema : CellState → String × String
state_to_schema unexamined = ("open", "inventory")
state_to_schema in_progress = ("open", "reviewed")
state_to_schema examined_no_issue = ("examined", "reviewed")
state_to_schema blocked = ("blocked", "blocked")
state_to_schema lead_found = ("open", "reviewed")
state_to_schema hypothesis_active = ("open", "tested")
state_to_schema validated = ("examined", "tested")
state_to_schema residual_risk = ("accepted_residual_risk", "reviewed")

pub record Cell : Type 0 where
  pub schema : String × String
  pub examined_result : Text
  pub target_refs : List String

-- What is read back of a cell.
abbrev pub meta : Cell → CellMeta
meta cell = parse_cell_meta cell.examined_result

-- `cells`, by cell id, in order of insertion.
abbrev pub Grid : Type 0
Grid = List (String × Cell)

-- `risk_score`, on counts that are not negative.
unfoldable pub risk_score : ℕ → ℕ → ℕ → ℕ → ℕ
risk_score value_at_risk privilege_level external_interactions historical_precedent =
    value_at_risk * 10 + privilege_level * 5 + external_interactions * 3 + historical_precedent * 2

-- `coverage_cell_record` of an unexamined cell.
abbrev pub coverage_cell_record : Text → ℤ → List String → Cell
coverage_cell_record label risk refs = record {
  schema = state_to_schema unexamined;
  examined_result = format_cell_meta unexamined risk (codes "unexamined " ++ label);
  target_refs = refs;
}

first_refs : ℕ → List String → List String
first_refs n [] = []
first_refs n (x ∷ xs) = let rest = first_refs (n - 1) xs in if n == 0 then [] else x ∷ rest

-- `evidence_ref` among the cell's references, at most 256 of them.
unfoldable pub note_ref : Option String → List String → List String
unfolding first_refs
note_ref none refs = refs
note_ref (some ref) refs =
    if str_eq ref ""
    then refs
    else if elem ref refs
    then first_refs 256 refs
    else first_refs 256 (refs ++ ref ∷ [])

-- `a or b` on texts.
abbrev pub or_text : Text → Text → Text
or_text [] b = b
or_text (c ∷ s) b = c ∷ s

-- The cell that a transition writes, from what was read of the old one.
unfoldable pub rewritten : CellState → Text → Option String → CellMeta → List String → Cell
unfolding note_ref
rewritten new_state narrative evidence_ref old refs = record {
  schema = state_to_schema new_state;
  examined_result =
      format_cell_meta new_state (pos old.risk_score)
        (or_text narrative (or_text old.narrative (word new_state)));
  target_refs = note_ref evidence_ref refs;
}

-- `transition` on the cell that `ensure` gave; `none` is `CoverageTransitionError`.
unfoldable pub move : CellState → Bool → Text → Option String → Cell → Option Cell
unfolding rewritten
move new_state invalidate narrative evidence_ref cell =
    let old = meta cell in
    if ltb (cell_rank new_state) (cell_rank old.cell_state) && not invalidate
    then none
    else some (rewritten new_state narrative evidence_ref old cell.target_refs)

unfoldable pub is_uncovered : CellState → Bool
is_uncovered unexamined = true
is_uncovered in_progress = true
is_uncovered lead_found = true
is_uncovered hypothesis_active = true
is_uncovered _ = false

-- What `ensure` does with the cell that the grid has.
abbrev pub keep_or_add : String → Cell → Grid → Option Cell → Cell × Grid
keep_or_add identifier fresh grid none = (fresh, insert identifier fresh grid)
keep_or_add identifier fresh grid (some cell) = (cell, grid)

-- `ensure`: the cell and the grid, which keeps a cell that it has.
unfoldable pub ensure : String → Text → ℤ → List String → Grid → Cell × Grid
ensure identifier label risk refs grid =
    keep_or_add identifier (coverage_cell_record label risk refs) grid (lookup identifier grid)

-- The cell that a transition has moved, stored; or the error, after which the grid has the ensured
-- cell.
abbrev pub store_moved : String → Grid → Option Cell → Bool × Grid
store_moved identifier grid none = (false, grid)
store_moved identifier grid (some cell) = (true, insert identifier cell grid)

-- The arguments of a transition; a narrative that is not given is empty.
pub record Call : Type 0 where
  pub identifier : String
  pub label : Text
  pub new_state : CellState
  pub invalidate : Bool
  pub note : Text
  pub evidence_ref : Option String

-- `transition`: whether it succeeds, and the grid afterwards.
unfoldable pub transition : Call → Grid → Bool × Grid
unfolding ensure
transition call grid =
    let (cell, ensured) = ensure call.identifier call.label (pos 0) [] grid in
    store_moved call.identifier ensured
      (move call.new_state call.invalidate call.note call.evidence_ref cell)

-- `get_coverage_summary`: the cells of a state, those that are blocked, and the risk that remains.
unfoldable pub by_state : (CellState → Bool) → Grid → ℕ
by_state p [] = 0
by_state p ((i, cell) ∷ grid) = (if p (meta cell).cell_state then 1 else 0) + by_state p grid

abbrev pub is_blocked : CellState → Bool
is_blocked blocked = true
is_blocked _ = false

unfoldable pub cells_blocked : Grid → ℕ
cells_blocked [] = 0
cells_blocked ((i, cell) ∷ grid) =
    (if is_blocked (meta cell).cell_state || str_eq (cell.schema.0) "blocked" then 1 else 0)
    + cells_blocked grid

unfoldable pub remaining_risk : Grid → ℕ
unfolding is_uncovered
remaining_risk [] = 0
remaining_risk ((i, cell) ∷ grid) =
    (if is_uncovered (meta cell).cell_state then (meta cell).risk_score else 0)
    + remaining_risk grid

-- `get_risk_weighted_uncovered`, before it is sorted.
unfoldable pub risk_weighted_uncovered : ℕ → Grid → Grid
unfolding is_uncovered
risk_weighted_uncovered threshold grid =
    keep (λ e. is_uncovered (meta e.1).cell_state && leb threshold (meta e.1).risk_score) grid
