-- ===== src/Mapping/CellMeta.antt =====
-- The text of a cell's `examined_result` in skills/ayran/src/ayran/mapping/coverage.py: `parse_cell_meta`
-- with its regular expression, and `format_cell_meta`. Texts are code points, and a digit is an ASCII
-- digit; a risk of more digits than Python prints (4300) is printed here.
pub mod RoundTrip
use ayran.Prelude.{
  ℕ, zero, suc, ◌+◌, ◌-◌, ◌*◌, ◌/◌, ◌%◌, Bool, true, false, ◌&&◌, ◌||◌, Option, none, some, List,
  [], ◌∷◌, ◌++◌, ltb, leb, ◌==◌, if◌then◌else◌, is_empty,
}
use ayran.Prelude.Int.{ℤ, pos, negsuc}
use ayran.Prelude.Text.{codes, Text, eq_text}
use ayran.Policy.Path.{strip, drop_space}

pub data CellState : Type 0 where
  unexamined in_progress examined_no_issue blocked : CellState
  lead_found hypothesis_active validated residual_risk : CellState

-- `CELL_RANK`.
unfoldable pub cell_rank : CellState → ℕ
cell_rank unexamined = 0
cell_rank in_progress = 1
cell_rank examined_no_issue = 2
cell_rank lead_found = 3
cell_rank hypothesis_active = 4
cell_rank validated = 5
cell_rank blocked = 5
cell_rank residual_risk = 5

abbrev pub word : CellState → Text
word unexamined = codes "unexamined"
word in_progress = codes "in_progress"
word examined_no_issue = codes "examined_no_issue"
word blocked = codes "blocked"
word lead_found = codes "lead_found"
word hypothesis_active = codes "hypothesis_active"
word validated = codes "validated"
word residual_risk = codes "residual_risk"

abbrev states : List CellState
states =
    unexamined ∷ in_progress ∷ examined_no_issue ∷ blocked ∷ lead_found ∷ hypothesis_active
    ∷ validated ∷ residual_risk ∷ []

named_among : Text → List CellState → CellState
unfolding eq_text
named_among name [] = unexamined
named_among name (s ∷ ss) =
    let rest = named_among name ss in if eq_text name (word s) then s else rest

-- The state of a name, where `CELL_RANK` has it.
unfoldable pub state_of : Text → CellState
unfolding named_among
state_of name = named_among name states

-- `str` of a number: as many rounds as the number are more than its digits.
unfoldable pub digits_upto : ℕ → ℕ → Text
digits_upto zero n = (48 + n) ∷ []
digits_upto (suc fuel) n = elim (ltb n 10) as (λ _. Text) [
  | true ↦ (48 + n) ∷ []
  | false ↦ digits_upto fuel (n / 10) ++ (48 + n % 10) ∷ []
]

unfoldable pub digits : ℕ → Text
unfolding digits_upto
digits n = digits_upto n n

-- `f"{risk}"`.
abbrev pub print : ℤ → Text
print (pos n) = digits n
print (negsuc n) = 45 ∷ digits (suc n)

-- `int` of a text of digits, after those before it.
unfoldable pub value_from : ℕ → Text → ℕ
value_from seen [] = seen
value_from seen (c ∷ cs) = value_from (seen * 10 + (c - 48)) cs

abbrev pub is_digit : ℕ → Bool
is_digit c = leb 48 c && leb c 57

-- `[a-z_]`.
abbrev pub is_word : ℕ → Bool
is_word c = (leb 97 c && leb c 122) || c == 95

-- The longest beginning whose characters pass, and the rest.
unfoldable pub span : (ℕ → Bool) → Text → Text × Text
span p [] = ([], [])
span p (c ∷ s) = let (taken, rest) = span p s in if p c then (c ∷ taken, rest) else ([], c ∷ s)

-- What comes after a beginning.
unfoldable pub after : Text → Text → Option Text
after [] s = some s
after (b ∷ bs) [] = none
after (b ∷ bs) (c ∷ s) = let rest = after bs s in if b == c then rest else none

abbrev pub risk_label : Text
risk_label = codes "|risk="

abbrev pub with_digits : Text → Text × Text → ℕ × Text
with_digits rest (ds, more) = if is_empty ds then (0, rest) else (value_from 0 ds, more)

-- `(?:\|risk=(\d+))?`: the risk, and what comes after it.
unfoldable pub risk_group : Text → ℕ × Text
unfolding span after value_from
risk_group rest = elim (after risk_label rest) as (λ _. ℕ × Text) [
  | none ↦ (0, rest)
  | some ds ↦ with_digits rest (span is_digit ds)
]

-- `\]\s*`, and the match.
abbrev pub closed : Text → ℕ × Text → Option (Text × ℕ × Text)
closed name (risk, []) = none
closed name (risk, c ∷ s) = if c == 93 then some (name, risk, drop_space s) else none

unfoldable pub with_name : Text × Text → Option (Text × ℕ × Text)
unfolding risk_group
with_name (name, rest) = if is_empty name then none else closed name (risk_group rest)

-- `_META.match`: the name, the risk, and the text after the match.
unfoldable pub match_meta : Text → Option (Text × ℕ × Text)
unfolding span with_name
match_meta [] = none
match_meta (c ∷ s) = if c == 91 then with_name (span is_word s) else none

pub record CellMeta : Type 0 where
  pub cell_state : CellState
  pub risk_score : ℕ
  pub narrative : Text

unfoldable pub meta_of : Text → Option (Text × ℕ × Text) → CellMeta
unfolding state_of
meta_of text none = record { cell_state = unexamined; risk_score = 0; narrative = text }
meta_of text (some (name, risk, rest)) = record {
  cell_state = state_of name;
  risk_score = risk;
  narrative = rest;
}

unfoldable pub parse_cell_meta : Text → CellMeta
unfolding match_meta meta_of
parse_cell_meta examined_result = meta_of examined_result (match_meta examined_result)

unfoldable pub take : ℕ → Text → Text
take n [] = []
take zero (x ∷ xs) = []
take (suc n) (x ∷ xs) = x ∷ take n xs

abbrev pub or_recorded : Text → Text
or_recorded [] = codes "cell recorded"
or_recorded (c ∷ s) = c ∷ s

-- The tag before its closing bracket.
abbrev pub tag : CellState → ℤ → Text
tag s risk = 91 ∷ (word s ++ (risk_label ++ print risk))

unfoldable pub format_cell_meta : CellState → ℤ → Text → Text
unfolding digits strip take
format_cell_meta s risk narrative =
    take 2048 (tag s risk ++ (93 ∷ 32 ∷ or_recorded (strip narrative)))
