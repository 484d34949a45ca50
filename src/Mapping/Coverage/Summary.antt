-- ===== src/Mapping/Coverage/Summary.antt =====
-- What the coverage report of mapping/coverage.py adds up to, and the schema fields of its cells.
use ayran.Prelude.{
  ℕ, ◌+◌, String, ◌≡◌, refl, Bool, true, false, ◌&&◌, [], ◌∷◌, arith, leb, if◌then◌else◌, length,
}
use ayran.Mapping.CellMeta.{CellState, examined_no_issue, validated, residual_risk}
use ayran.Mapping.Coverage.{
  meta, Grid, is_uncovered, by_state, is_blocked, remaining_risk, risk_weighted_uncovered, Cell,
}

-- The states that count as examined.
abbrev pub is_examined : CellState → Bool
is_examined examined_no_issue = true
is_examined validated = true
is_examined residual_risk = true
is_examined _ = false

one_class :
    (s : CellState) (r : ℕ)
    → (if is_examined s then 1 else 0)
        + (if is_blocked s then 1 else 0)
        + (if is_uncovered s && leb 0 r then 1 else 0)
      ≡ 1
unfolding is_uncovered
one_class s r = ground arith

length-when :
    (b : Bool) (e : String × Cell) (rest : Grid)
    → length (if b then e ∷ rest else rest) ≡ (if b then 1 else 0) + length rest
length-when true e rest = omega arith
length-when false e rest = omega arith

-- Every cell of the report is counted once: as examined, as blocked, or among the uncovered cells,
-- where no threshold leaves any out.
pub cells_counted :
    (grid : Grid)
    → by_state is_examined grid + by_state is_blocked grid + length (risk_weighted_uncovered 0 grid)
      ≡ length grid
unfolding by_state risk_weighted_uncovered
cells_counted [] = refl
cells_counted ((i, cell) ∷ grid) =
    let one = one_class (meta cell).cell_state (meta cell).risk_score in
    let here =
      length-when (is_uncovered (meta cell).cell_state && leb 0 (meta cell).risk_score) (i, cell)
        (risk_weighted_uncovered 0 grid) in
    let rest = cells_counted grid in omega arith

abbrev pub total_risk : Grid → ℕ
total_risk [] = 0
total_risk ((i, cell) ∷ grid) = (meta cell).risk_score + total_risk grid

-- The remaining risk of the summary is the sum of the risks of the uncovered cells.
pub risk_counted : (grid : Grid) → total_risk (risk_weighted_uncovered 0 grid) ≡ remaining_risk grid
unfolding remaining_risk risk_weighted_uncovered
risk_counted [] = refl
risk_counted ((i, cell) ∷ grid) = ground (arith, risk_counted grid)
