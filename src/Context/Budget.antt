-- ===== src/Context/Budget.antt =====
-- `_trim_to_budget` of skills/ayran/src/ayran/context/compiler.py, which drops sections of a context pack
-- until it meets its token budget. `str.lower` is a parameter.
pub mod Trimmed
use ayran.Prelude.{
  ℕ, zero, suc, ◌+◌, ◌/◌, max, String, Bool, true, false, ◌&&◌, Option, none, some, List, [], ◌∷◌,
  ◌++◌, map, ltb, if◌then◌else◌, length,
}
use ayran.Prelude.Text.{codes, elem}

pub data Classification : Type 0 where
  historical_reference another_class : Classification

pub record Section : Type 0 where
  pub classification : Classification
  pub title : String
  pub content : String

-- `omitted`; nothing counts its learning entry.
pub record Omitted : Type 0 where
  pub target : ℕ
  pub global : ℕ
  pub learning : ℕ

-- `max(1, (len(text) + 3) // 4)`.
abbrev estimate_tokens : ℕ → ℕ
estimate_tokens n = max 1 ((n + 3) / 4)

-- The text is the title, a line break and the content.
unfoldable pub estimate_section_tokens : Section → ℕ
estimate_section_tokens s = estimate_tokens (length (codes s.title) + 1 + length (codes s.content))

unfoldable pub tokens : List Section → ℕ
unfolding estimate_section_tokens
tokens [] = 0
tokens (s ∷ ss) = estimate_section_tokens s + tokens ss

abbrev pub reconstruction_titles : List String
reconstruction_titles =
    "Active hypothesis" ∷ "Result so far" ∷ "Next action" ∷ "Dead approaches" ∷ "Untried dimensions"
    ∷ []

abbrev pub count : Section → Omitted → Omitted
count s o = elim s.classification [
  | historical_reference ↦ record o { global = o.global + 1 }
  | another_class ↦ record o { target = o.target + 1 }
]

module _ (lower : String → String) (extra_protected : List String) (token_budget : ℕ) where
  unfoldable pub is_protected : Section → Bool
  is_protected s = elem (lower s.title) (
      map lower reconstruction_titles ++ "scope" ∷ "entry point census" ∷ map lower extra_protected)

  -- The last section that is not protected, and the sections without it.
  unfoldable pub drop_last : List Section → Option (Section × List Section)
  unfolding is_protected
  drop_last [] = none
  drop_last (s ∷ ss) = elim (drop_last ss) [
    | some (dropped, rest) ↦ some (dropped, s ∷ rest)
    | none ↦ if is_protected s then none else some (s, ss)
  ]

  -- The loop; the number bounds its rounds.
  unfoldable pub trim : ℕ → List Section → Omitted → List Section × Omitted
  unfolding tokens drop_last
  trim zero ss o = (ss, o)
  trim (suc n) ss o = elim (ltb token_budget (tokens ss) && ltb 6 (length ss)) [
    | false ↦ (ss, o)
    | true ↦ elim (drop_last ss) [
      | none ↦ (ss, o)
      | some (dropped, rest) ↦ trim n rest (count dropped o)
    ]
  ]

  -- `_trim_to_budget`: each round drops a section, so that there are no more rounds than sections.
  unfoldable pub trim_to_budget : List Section → List Section × Omitted
  unfolding trim
  trim_to_budget ss = trim (length ss) ss (record { target = 0; global = 0; learning = 0 })
