-- ===== src/Evidence/Payload.antt =====
-- The JSON values that the evidence pipeline reads, and `as_str_list` of
-- skills/ayran/src/ayran/evidence/types.py. Of a number the code asks only whether it is zero.
use ayran.Prelude.{
  ℕ, Bool, true, false, not, none, some, List, [], ◌∷◌, ◌==◌, if◌then◌else◌, String,
}
use ayran.Prelude.Text.{str_eq, lookup}

mutual
  pub data Value : Type 0 where
    null : Value
    bool : Bool → Value
    num : ℕ → Value
    str : String → Value
    obj : Fields → Value
    arr : Items → Value

  pub data Fields : Type 0 where
    end : Fields
    field : String → Value → Fields → Fields

  pub data Items : Type 0 where
    nil : Items
    cons : Value → Items → Items

-- A payload maps field names to values.
abbrev pub Payload : Type 0
Payload = List (String × Value)

-- `payload.get(name)`, where a missing field is `None`.
unfoldable pub get : Payload → String → Value
unfolding lookup
get p name = elim (lookup name p) [ none ↦ null | some v ↦ v ]

-- Python's `bool(value)`.
unfoldable pub truthy : Value → Bool
truthy null = false
truthy (bool b) = b
truthy (num n) = not (n == 0)
truthy (str s) = not (str_eq s "")
truthy (arr nil) = false
truthy (arr (cons v vs)) = true
truthy (obj end) = false
truthy (obj (field k v fs)) = true

-- `value is True`.
unfoldable pub is_true : Value → Bool
is_true (bool b) = b
is_true _ = false

text_items : Items → List String
text_items nil = []
text_items (cons (str s) vs) = let rest = text_items vs in if str_eq s "" then rest else s ∷ rest
text_items (cons v vs) = text_items vs

unfoldable pub as_str_list : Value → List String
unfolding text_items
as_str_list (arr vs) = text_items vs
as_str_list _ = []
