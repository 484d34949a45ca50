-- ===== src/Policy/Path.antt =====
-- `_normalize_rel` of skills/ayran/src/ayran/policy/scope.py, with the parts of Python's library that
-- it calls: `str.replace`, `str.strip`, and `os.path.normpath` for POSIX. A path is its code points.
use ayran.Prelude.{ℕ, Bool, not, ◌&&◌, ◌||◌, List, [], ◌∷◌, ◌++◌, map, ◌==◌, if◌then◌else◌, any}
use ayran.Prelude.Text.{is_space, Text, eq_text, starts_with}
use mathlib.Core.List.{reverse}

abbrev pub slash : ℕ
slash = 47

abbrev backslash : ℕ
backslash = 92

abbrev pub dot : ℕ
dot = 46

abbrev pub dots : Text
dots = dot ∷ dot ∷ []

-- `.replace("\\", "/")`.
abbrev pub forward : ℕ → ℕ
forward c = if c == backslash then slash else c

unfoldable pub drop_space : Text → Text
drop_space [] = []
drop_space (c ∷ s) = let rest = drop_space s in if is_space c then rest else c ∷ s

-- `str.strip`.
unfoldable pub strip : Text → Text
unfolding drop_space
strip s = reverse (drop_space (reverse (drop_space s)))

push : ℕ → List Text → List Text
push c [] = (c ∷ []) ∷ []
push c (p ∷ ps) = (c ∷ p) ∷ ps

-- `path.split("/")`.
unfoldable pub split : Text → List Text
unfolding push
split [] = [] ∷ []
split (c ∷ s) = let rest = split s in if c == slash then [] ∷ rest else push c rest

-- One part of the path against the parts kept, the last one first; above the root there is nothing.
place : Bool → Text → List Text → List Text
unfolding eq_text
place rooted part kept =
    if eq_text part [] || eq_text part (dot ∷ [])
    then kept
    else if not (eq_text part dots)
    then part ∷ kept
    else elim kept [
      | [] ↦ if rooted then [] else dots ∷ []
      | top ∷ rest ↦ if eq_text top dots then dots ∷ top ∷ rest else rest
    ]

unfoldable pub collapse : Bool → List Text → List Text → List Text
unfolding place
collapse rooted [] kept = kept
collapse rooted (part ∷ parts) kept = collapse rooted parts (place rooted part kept)

-- `"/".join(parts)`.
unfoldable pub join : List Text → Text
join [] = []
join (p ∷ []) = p
join (p ∷ q ∷ ps) = p ++ (slash ∷ join (q ∷ ps))

abbrev or_dot : Text → Text
or_dot [] = dot ∷ []
or_dot (c ∷ s) = c ∷ s

-- The slashes that a normal path keeps in front: two where the path begins with exactly two, one where
-- it begins with one or with more than two.
abbrev front : Text → Text
front s =
    if not (starts_with s (slash ∷ []))
    then []
    else if starts_with s (slash ∷ slash ∷ []) && not (starts_with s (slash ∷ slash ∷ slash ∷ []))
    then slash ∷ slash ∷ []
    else slash ∷ []

-- `os.path.normpath`.
unfoldable pub normpath : Text → Text
unfolding split collapse join
normpath s = or_dot (front s ++ join (reverse (collapse (starts_with s (slash ∷ [])) (split s) [])))

pub data Error : Type 0 where
  contract_invalid scope_denied : Error

pub data Checked {ℓ} (A : Type ℓ) : Type ℓ where
  ok : A → Checked A
  raised : Error → Checked A

infixl 10 ◌>>=◌
abbrev pub ◌>>=◌ {ℓ κ} : {A : Type ℓ} {B : Type κ} → Checked A → (A → Checked B) → Checked B
ok a >>= f = f a
raised e >>= f = raised e

-- The tests of `_normalize_rel` on the normal path.
abbrev admit : Text → Checked Text
admit s =
    if eq_text s (dot ∷ [])
    then ok []
    else if starts_with s dots || any (λ c. c == 0) s
    then raised scope_denied
    else ok s

unfoldable pub normalize_rel : Text → Checked Text
unfolding strip normpath eq_text
normalize_rel root =
    let value = strip (map forward root) in
    if starts_with value (slash ∷ []) then raised scope_denied else admit (normpath value)

-- A path equal to a root or below it, text against text.
unfoldable pub covers : Text → Text → Bool
unfolding eq_text
covers root path = eq_text path root || starts_with path (root ++ slash ∷ [])
