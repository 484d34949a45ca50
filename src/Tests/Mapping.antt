-- ===== src/Tests/Mapping.antt =====
-- The coverage grid of skills/ayran/src/ayran/mapping/coverage.py on one cell.
use ayran.Prelude.{◌≤◌, String, ◌≡◌, refl, false, Option, none, some, List, [], ◌∷◌}
use ayran.Prelude.Int.{pos}
use ayran.Prelude.Text.{codes}
use ayran.Mapping.CellMeta.{
  cell_rank, digits, parse_cell_meta, format_cell_meta, CellState, unexamined, blocked, lead_found,
  validated, residual_risk,
}
use ayran.Mapping.Coverage.{state_to_schema, Grid, transition, Cell, Call}
use ayran.Mapping.Coverage.Forward.{fits, state_at, moves, forward_only}
use ayran.Mapping.Coverage.Schema.{IsConsistent, transition-IsConsistent}
use ayran.Policy.Path.{drop_space}

abbrev cell_one : Cell
cell_one = record {
  schema = ("open", "reviewed");
  examined_result = codes "[lead_found|risk=58] a share price that can be set";
  target_refs = "cluster" ∷ [];
}

abbrev grid_one : Grid
grid_one = ("cov-1", cell_one) ∷ []

abbrev call_of : String → CellState → Option String → Call
call_of i s ref = record {
  identifier = i;
  label = codes "value_flows vault";
  new_state = s;
  invalidate = false;
  note = [];
  evidence_ref = ref;
}

abbrev three_moves : List Call
three_moves =
    call_of "cov-2" blocked none
    ∷ call_of "cov-1" unexamined none
    ∷ call_of "cov-1" validated (some "ev-1")
    ∷ []

read_back : parse_cell_meta cell_one.examined_result ≡ record {
  cell_state = lead_found;
  risk_score = 58;
  narrative = codes "a share price that can be set";
}
unfolding parse_cell_meta drop_space
read_back = refl

unreadable : (parse_cell_meta (codes "[lead_found|risk=-5] a note")).cell_state ≡ unexamined
unfolding parse_cell_meta
unreadable = refl

written : format_cell_meta blocked (pos 407) [] ≡ codes "[blocked|risk=407] cell recorded"
unfolding format_cell_meta
written = refl

forward_only_example :
    cell_rank (state_at "cov-1" grid_one)
    ≤ cell_rank (state_at "cov-1" (moves three_moves grid_one))
unfolding fits parse_cell_meta digits
forward_only_example = forward_only "cov-1" three_moves grid_one refl refl

transition-IsConsistent_example :
    IsConsistent (transition (call_of "cov-2" residual_risk (some "ev-2")) grid_one).1
unfolding fits parse_cell_meta digits state_to_schema
transition-IsConsistent_example =
    transition-IsConsistent (call_of "cov-2" residual_risk (some "ev-2")) grid_one refl (refl, tt)
