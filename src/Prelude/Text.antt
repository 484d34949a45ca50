-- ===== src/Prelude/Text.antt =====
-- Python's `str` and `dict` with string keys: whole texts are native strings, compared by `str_eq`;
-- where the code looks inside a text, the text is read as the list of its code points.
use Prim.Native.Nat.{ℕ}
use Prim.Native.Char.{code}
use Prim.Native.String.{String}
pub use text.Mathlib.Text.{◌==◌ as str_eq}
pub use text.Mathlib.TextEquality.{eq_iff}
pub use text.Mathlib.TextPositions.{eq_refl}
use mathlib.Core.Bool.{Bool, true, false, ◌&&◌, ◌||◌}
use mathlib.Core.Option.{Option, none, some}
use mathlib.Core.List.{List, [], ◌∷◌}
use native.Mathlib.Omega.{arith}
use mathlib.Core.Logic.{inl, inr}
use mathlib.Core.Path.{◌≡◌, refl, subst₂}
use ayran.Prelude.Tests.{Bool-cases, ltb, leb, ◌==◌, if◌then◌else◌}
use ayran.Prelude.Lists.{any, every}

abbrev pub codes : String → List ℕ
codes String.[] = []
codes (String.◌∷◌ first rest) = code first ∷ codes rest

-- The code points that Python's `str.strip` removes (`str.isspace`).
abbrev pub is_space : ℕ → Bool
is_space c =
    (leb 9 c && leb c 13)
    || (leb 28 c && leb c 32)
    || c == 133
    || c == 160
    || c == 5760
    || (leb 8192 c && leb c 8202)
    || c == 8232
    || c == 8233
    || c == 8239
    || c == 8287
    || c == 12288

-- A text that the code looks into.
abbrev pub Text : Type 0
Text = List ℕ

-- `a == b` on such texts.
unfoldable pub eq_text : Text → Text → Bool
eq_text [] [] = true
eq_text (a ∷ as') (b ∷ bs) = a == b && eq_text as' bs
eq_text _ _ = false

pub eq_text_refl : (s : Text) → eq_text s s ≡ true
unfolding eq_text
eq_text_refl [] = refl
eq_text_refl (c ∷ s) = ground (arith, eq_text_refl s)

-- `a <= b` on texts, by code points.
unfoldable pub le_text : Text → Text → Bool
le_text [] b = true
le_text (a ∷ s) [] = false
le_text (a ∷ s) (b ∷ t) = ltb a b || (a == b && le_text s t)

-- `not value.strip()`.
blank : List ℕ → Bool
blank [] = true
blank (c ∷ cs) = is_space c && blank cs

unfoldable pub is_blank : String → Bool
unfolding blank
is_blank s = blank (codes s)

-- `hay.startswith(needle)`.
abbrev pub starts_with : List ℕ → List ℕ → Bool
starts_with hay [] = true
starts_with [] (n ∷ needle) = false
starts_with (h ∷ hay) (n ∷ needle) = h == n && starts_with hay needle

-- `needle in hay`.
contains : List ℕ → List ℕ → Bool
contains [] needle = starts_with [] needle
contains (h ∷ hay) needle = starts_with (h ∷ hay) needle || contains hay needle

unfoldable pub has_text : String → String → Bool
unfolding contains
has_text hay needle = contains (codes hay) (codes needle)

-- `s in xs`, for a tuple, list or set of texts.
abbrev pub elem : String → List String → Bool
elem s xs = any (λ x. str_eq x s) xs

module _ {ℓ} {V : Type ℓ} where
  -- `d.get(k)`.
  unfoldable pub lookup : String → List (String × V) → Option V
  lookup key [] = none
  lookup key (entry ∷ entries) = if str_eq entry.0 key then some entry.1 else lookup key entries

  -- `d[k] = v`.
  unfoldable pub insert : String → V → List (String × V) → List (String × V)
  insert key value [] = (key, value) ∷ []
  insert key value (entry ∷ entries) =
      if str_eq entry.0 key then (entry.0, value) ∷ entries else entry ∷ insert key value entries

  pub lookup-insert :
      (key other : String) (value : V) (entries : List (String × V))
      → lookup other (insert key value entries)
        ≡ (if str_eq key other then some value else lookup other entries)
  unfolding lookup insert
  lookup-insert key other value [] = refl
  lookup-insert key other value (entry ∷ entries) =
      let rest = lookup-insert key other value entries in
      ground (arith, rest, eq_iff entry.0 other, eq_iff entry.0 key, eq_iff key other)

-- A test that holds of every entry holds of what `lookup` finds.
pub lookup-every {ℓ} :
    {V : Type ℓ} (p : String → V → Bool) (k : String) (m : List (String × V)) {v : V}
    → every (λ e. p e.0 e.1) m ≡ true
    → lookup k m ≡ some v
    → p k v ≡ true
unfolding lookup
lookup-every p k [] h e = cc
lookup-every p k ((j, w) ∷ m) {v} h e = elim (Bool-cases (str_eq j k)) [
  | inl here ↦
      let found : w ≡ v = ground arith in
      let holds : p j w ≡ true = ground arith in
      subst₂ (λ x y. p x y ≡ true) ((eq_iff j k).0 here) found holds
  | inr there ↦ lookup-every p k m (ground arith) (ground arith)
]

-- What holds of all values holds of them after one more for which it holds.
pub every-insert {ℓ} :
    {V : Type ℓ} (p : V → Bool) (k : String) (v : V) (m : List (String × V))
    → p v ≡ true
    → every (λ e. p e.1) m ≡ true
    → every (λ e. p e.1) (insert k v m) ≡ true
unfolding insert
every-insert p k v [] h all = ground (arith, h)
every-insert p k v ((j, w) ∷ m) h all =
    let rest = every-insert p k v m h (ground arith) in
    let here : p w ≡ true = ground arith in
    elim (str_eq j k)
      as (λ b. every (λ e. p e.1) (if b then (j, v) ∷ m else (j, w) ∷ insert k v m) ≡ true) [
        | true ↦ ground (arith, h, all)
        | false ↦ ground (arith, rest, here)
      ]
