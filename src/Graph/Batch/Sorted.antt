-- ===== src/Graph/Batch/Sorted.antt =====
-- The revisions that a begin record lists: sorted, each once.
use ayran.Prelude.{
  ℕ, String, ◌≡◌, refl, ap, ◌∙◌, ◌⊎◌, inl, inr, Bool, true, false, ◌&&◌, ◌||◌, List, [], ◌∷◌, arith,
  ltb, ◌==◌, Bool-cases, any,
}
use ayran.Prelude.Text.{codes, Text, le_text, str_eq, eq_iff}
use ayran.Graph.Journal.{before_key, in_order, distinct_keys}
use ayran.Graph.Batch.{insert_sorted, sorted}

le_text_total : (a b : Text) → (le_text a b ≡ true) ⊎ (le_text b a ≡ true)
unfolding le_text
le_text_total [] b = inl refl
le_text_total (a ∷ s) [] = inr refl
le_text_total (a ∷ s) (b ∷ t) = elim (le_text_total s t) [
  | inl h ↦ either a b (le_text s t) (le_text t s) (inl h)
  | inr h ↦ either a b (le_text s t) (le_text t s) (inr h)
]
  where
    either :
        (a b : ℕ) (p q : Bool)
        → ((p ≡ true) ⊎ (q ≡ true))
        → ((ltb a b || (a == b && p)) ≡ true) ⊎ ((ltb b a || (b == a && q)) ≡ true)
    either a b p q h = ground arith

-- The head of a list comes after `r`, if there is one.
abbrev leads : String × ℕ → List (String × ℕ) → Bool
leads r [] = true
leads r (q ∷ rs) = before_key r q

in_order-cons :
    (r : String × ℕ) (rs : List (String × ℕ))
    → leads r rs ≡ true
    → in_order rs ≡ true
    → in_order (r ∷ rs) ≡ true
unfolding in_order
in_order-cons r [] l h = refl
in_order-cons r (q ∷ rs) l h = ground arith

in_order-tail :
    (r : String × ℕ) (rs : List (String × ℕ))
    → in_order (r ∷ rs) ≡ true
    → (leads r rs ≡ true) × (in_order rs ≡ true)
unfolding in_order
in_order-tail r [] h = (refl, refl)
in_order-tail r (q ∷ rs) h = (ground arith, ground arith)

leads-insert :
    (x r : String × ℕ) (rs : List (String × ℕ))
    → before_key x r ≡ true
    → leads x rs ≡ true
    → leads x (insert_sorted r rs) ≡ true
unfolding insert_sorted
leads-insert x r [] h l = h
leads-insert x r (q ∷ rs) h l = ground arith

before_key_total : (a b : String × ℕ) → before_key a b ≡ false → before_key b a ≡ true
unfolding before_key
before_key_total a b h = elim (le_text_total (codes a.0) (codes b.0)) [
  | inl e ↦ absurd (ground (arith, e))
  | inr e ↦ e
]

insert_sorted-in_order :
    (r : String × ℕ) (rs : List (String × ℕ))
    → in_order rs ≡ true
    → in_order (insert_sorted r rs) ≡ true
unfolding insert_sorted in_order
insert_sorted-in_order r [] h = refl
insert_sorted-in_order r (q ∷ rs) h =
    let (l, t) = in_order-tail q rs h in
    let rest = insert_sorted-in_order r rs t in
    elim (Bool-cases (before_key r q)) [
      | inl e ↦ rw e (in_order-cons r (q ∷ rs) e h)
      | inr e ↦ rw e (
          in_order-cons q (insert_sorted r rs) (leads-insert q r rs (before_key_total r q e) l)
            rest)
    ]

pub sorted-in_order : (rs : List (String × ℕ)) → in_order (sorted rs) ≡ true
unfolding sorted in_order
sorted-in_order [] = refl
sorted-in_order (r ∷ rs) = insert_sorted-in_order r (sorted rs) (sorted-in_order rs)

any-insert_sorted :
    (p : String × ℕ → Bool) (r : String × ℕ) (rs : List (String × ℕ))
    → any p (insert_sorted r rs) ≡ (p r || any p rs)
unfolding insert_sorted
any-insert_sorted p r [] = refl
any-insert_sorted p r (q ∷ rs) = ground (arith, any-insert_sorted p r rs)

any-sorted : (p : String × ℕ → Bool) (rs : List (String × ℕ)) → any p (sorted rs) ≡ any p rs
unfolding sorted
any-sorted p [] = refl
any-sorted p (r ∷ rs) = any-insert_sorted p r (sorted rs) ∙ ap (λ b. p r || b) (any-sorted p rs)

str_eq_sym : (a b : String) → str_eq a b ≡ str_eq b a
str_eq_sym a b = ground (arith, eq_iff a b, eq_iff b a)

distinct_keys-insert_sorted :
    (r : String × ℕ) (rs : List (String × ℕ))
    → any (λ q. str_eq q.0 r.0) rs ≡ false
    → distinct_keys rs ≡ true
    → distinct_keys (insert_sorted r rs) ≡ true
unfolding distinct_keys insert_sorted
distinct_keys-insert_sorted r [] f d = refl
distinct_keys-insert_sorted r (q ∷ rs) f d =
    let rest = distinct_keys-insert_sorted r rs (ground arith) (ground arith) in
    let other = any-insert_sorted (λ (x : String × ℕ). str_eq x.0 q.0) r rs in
    ground (arith, other, rest, str_eq_sym r.0 q.0)

pub sorted-distinct_keys :
    (rs : List (String × ℕ)) → distinct_keys rs ≡ true → distinct_keys (sorted rs) ≡ true
unfolding distinct_keys sorted
sorted-distinct_keys [] d = refl
sorted-distinct_keys (r ∷ rs) d =
    distinct_keys-insert_sorted r (sorted rs) (any-sorted (λ q. str_eq q.0 r.0) rs ∙ ground arith)
      (sorted-distinct_keys rs (ground arith))
