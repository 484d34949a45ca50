-- ===== src/Router/Strikes.antt =====
-- `StrikeBook` of skills/ayran/src/ayran/router/injection.py. Whether a text looks like an injection
-- is decided by Python's `re`, so `flagged` is an argument, as it is in the source.
pub mod Quarantine
use ayran.Prelude.{
  ℕ, ◌+◌, String, Bool, true, not, ◌&&◌, Option, none, some, List, [], ◌∷◌, leb, if◌then◌else◌,
}
use ayran.Prelude.Text.{elem, lookup, insert, str_eq}

pub record StrikeBook : Type 0 where
  pub counts : List (String × ℕ)
  pub quarantined : List String

abbrev pub empty : StrikeBook
empty = record { counts = []; quarantined = [] }

abbrev pub or_zero : Option ℕ → ℕ
or_zero none = 0
or_zero (some n) = n

-- `quarantined.add(source_id)`.
unfoldable pub add : String → List String → List String
add s xs = if elem s xs then xs else s ∷ xs

-- `note`: the answer, and the book afterwards.
unfoldable pub note : String → Bool → StrikeBook → Bool × StrikeBook
unfolding add
note source_id flagged b =
    if not flagged
    then (elem source_id b.quarantined, b)
    else let count = or_zero (lookup source_id b.counts) + 1 in
      let counts' = insert source_id count b.counts in
      if leb 3 count
      then (true, record { counts = counts'; quarantined = add source_id b.quarantined })
      else (elem source_id b.quarantined, record { counts = counts'; quarantined = b.quarantined })

-- The book after a sequence of notes, the last one first.
abbrev pub book : List (String × Bool) → StrikeBook
book [] = empty
book ((s, flagged) ∷ earlier) = (note s flagged (book earlier)).1

-- The flags that a source has drawn.
abbrev pub flags : String → List (String × Bool) → ℕ
flags s [] = 0
flags s ((i, flagged) ∷ earlier) = (if flagged && str_eq i s then 1 else 0) + flags s earlier
