-- ===== src/Evidence/Edges/Required.antt =====
-- `missing_fields` of state_machine.py: an edge with nothing missing has all that it requires.
use ayran.Prelude.{
  String, ◌≡◌, refl, ◌⊎◌, inl, inr, true, false, List, [], ◌∷◌, ◌++◌, arith, Bool-cases, is_empty,
  All,
}
use ayran.Evidence.Types.{State, supported, reported}
use ayran.Evidence.Payload.{Payload, get, is_true, as_str_list}
use ayran.Evidence.Edges.{required_fields, present, absent, also_missing, missing_fields}

absent-All :
    (p : Payload) (names : List String)
    → is_empty (absent p names) ≡ true
    → All (λ n. present p n ≡ true) names
unfolding absent
absent-All p [] h = tt
absent-All p (n ∷ ns) h = elim (Bool-cases (present p n)) [
  | inl there ↦ (there, absent-All p ns (rw there at h))
  | inr gone ↦ absurd (stays gone h)
]
  where
    stays : present p n ≡ false → is_empty (absent p (n ∷ ns)) ≡ true → ⊥
    stays g e = ground arith

is_empty-append :
    (xs ys : List String) → is_empty (xs ++ ys) ≡ true → (is_empty xs ≡ true) × (is_empty ys ≡ true)
is_empty-append [] ys h = (refl, h)
is_empty-append (x ∷ xs) ys h = cc

also_missing-keeps :
    (p : Payload) (t : State) (xs : List String)
    → is_empty (also_missing p t xs) ≡ true
    → is_empty xs ≡ true
also_missing-keeps p supported [] h = refl
also_missing-keeps p supported (x ∷ xs) h = ground arith
also_missing-keeps p reported (x ∷ xs) h = ground arith
also_missing-keeps p _ [] h = refl
also_missing-keeps p _ (x ∷ xs) h = ground arith

-- Nothing is missing only if each required field is present, a move to `supported` shows reachable
-- preconditions, and a move to `reported` shows a linter pass that is `True` itself.
pub record Complete (c t : State) (p : Payload) : Type 0 where
  pub fields : All (λ n. present p n ≡ true) (required_fields c t)
  pub reachable :
      t ≡ supported
      → (is_true (get p "preconditions_reachable") ≡ true)
        ⊎ (is_empty (as_str_list (get p "reachable_preconditions")) ≡ false)
  pub linted : t ≡ reported → is_true (get p "linter_pass") ≡ true

reachable_lem :
    (p : Payload) (t : State) (xs : List String)
    → is_empty (also_missing p t xs) ≡ true
    → t ≡ supported
    → (is_true (get p "preconditions_reachable") ≡ true)
      ⊎ (is_empty (as_str_list (get p "reachable_preconditions")) ≡ false)
reachable_lem p supported [] h e = ground arith
reachable_lem p supported (x ∷ xs) h e = ground arith
reachable_lem p _ xs h e = cc

linted_lem :
    (p : Payload) (t : State) (xs : List String)
    → is_empty xs ≡ true
    → is_empty (also_missing p t xs) ≡ true
    → t ≡ reported
    → is_true (get p "linter_pass") ≡ true
linted_lem p reported [] k h e = ground arith
linted_lem p reported (x ∷ xs) k h e = cc
linted_lem p _ xs k h e = cc

-- Evidence that lacks no field has every field that the edge requires; a move to `supported` has the
-- reachable preconditions besides, and a move to `reported` a linter pass.
pub missing_fields-Complete :
    (c t : State) (p : Payload) → is_empty (missing_fields c t p) ≡ true → Complete c t p
missing_fields-Complete c t p h =
    let names = absent p (required_fields c t) in
    let opened : is_empty (also_missing p t names) ≡ true = unfold missing_fields in h in
    let none_absent = also_missing-keeps p t names opened in
    record {
      fields = absent-All p (required_fields c t) none_absent;
      reachable = reachable_lem p t names opened;
      linted = linted_lem p t names none_absent opened;
    }
