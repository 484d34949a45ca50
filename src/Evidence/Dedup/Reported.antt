-- ===== src/Evidence/Dedup/Reported.antt =====
-- What `check_duplicates` of evidence/dedup.py reports of the other items.
use ayran.Prelude.{
  String, ◌≡◌, refl, sym, ap, ◌∙◌, Bool, true, false, not, ◌&&◌, ◌||◌, Option, none, some, List, [],
  ◌∷◌, ◌++◌, map, arith, if◌then◌else◌, any, every, keep, is_empty,
}
use ayran.Prelude.Text.{str_eq}
use ayran.Evidence.Dedup.{
  id_or_empty, jaccard, is_similar, classify, exact_span, exact_issue, same_root, same_graph,
  same_impact, classify_pair, first_duplicate, with_variant, noted, same_id, turn, check_others,
  named, status_of, check_duplicates, Item, Disposition, Comparison, Found, duplicate_known_issue,
  variant, unique,
}
use mathlib.Core.List.{append-nil, append_assoc}

abbrev is_duplicate : Disposition → Bool
is_duplicate duplicate_known_issue = true
is_duplicate _ = false

abbrev is_variant : Disposition → Bool
is_variant variant = true
is_variant _ = false

-- Two items with one issue: a span or a known issue in common, or the root cause, the attack graph
-- and the impact.
abbrev same_issue : Item → Item → Bool
same_issue c o =
    (exact_span c o || exact_issue c o) || (same_root c o && same_graph c o && same_impact c o)

-- Not that, but the root cause or the attack graph in common.
abbrev varies : Item → Item → Bool
varies c o = not (same_issue c o) && (same_root c o || same_graph c o)

abbrev pub is_other : Item → Item → Bool
is_other c o = not (same_id o c)

abbrev has_id : Item → Bool
has_id o = not (str_eq (id_or_empty o.hypothesis_id) "")

classify-is_duplicate :
    (e r g i s : Bool) → is_duplicate (classify e r g i s).1 ≡ (e || (r && g && i))
unfolding classify
classify-is_duplicate e r g i s = ground arith

classify-is_variant :
    (e r g i s : Bool) → is_variant (classify e r g i s).1 ≡ (not (e || (r && g && i)) && (r || g))
unfolding classify
classify-is_variant e r g i s = ground arith

-- The text of a known duplicate is not empty.
settled : Option String → Bool
settled none = true
settled (some i) = not (str_eq i "")

after_duplicate :
    (d : Disposition) (i : String) (k : Option String)
    → not (str_eq i "") ≡ true
    → settled k ≡ true
    → (settled (first_duplicate d i k) ≡ true)
      × (named (first_duplicate d i k) ≡ (named k || is_duplicate d))
unfolding settled
after_duplicate duplicate_known_issue i none h s = (h, h)
after_duplicate duplicate_known_issue i (some k) h s = (s, ground (arith, s))
after_duplicate variant i none h s = (refl, refl)
after_duplicate variant i (some k) h s = (s, ground (arith, s))
after_duplicate unique i none h s = (refl, refl)
after_duplicate unique i (some k) h s = (s, ground (arith, s))

after_variant :
    (d : Disposition) (i : String) (is : List String)
    → with_variant d i is ≡ is ++ (if is_variant d then i ∷ [] else [])
after_variant duplicate_known_issue i is = sym (append-nil is)
after_variant variant i is = refl
after_variant unique i is = sym (append-nil is)

turned-duplicate :
    (same : Bool) (f : Found) (pair : Comparison)
    → not (str_eq pair.right_id "") ≡ true
    → settled f.duplicate_of ≡ true
    → (settled (if same then f else noted pair f).duplicate_of ≡ true)
      × (named (if same then f else noted pair f).duplicate_of
          ≡ (named f.duplicate_of || (not same && is_duplicate pair.disposition)))
turned-duplicate true f pair h s = (s, ground arith)
turned-duplicate false f pair h s =
    after_duplicate pair.disposition pair.right_id f.duplicate_of h s

turned-variants :
    (same : Bool) (f : Found) (pair : Comparison)
    → (if same then f else noted pair f).variants
      ≡ f.variants ++ (if not same && is_variant pair.disposition then pair.right_id ∷ [] else [])
turned-variants true f pair = sym (append-nil f.variants)
turned-variants false f pair = after_variant pair.disposition pair.right_id f.variants

turned-comparisons :
    (same : Bool) (f : Found) (pair : Comparison)
    → (if same then f else noted pair f).comparisons
      ≡ f.comparisons ++ (if not same then pair ∷ [] else [])
turned-comparisons true f pair = sym (append-nil f.comparisons)
turned-comparisons false f pair = refl

-- What one turn appends, and what the others do after it.
appended {ℓ} :
    {A B : Type ℓ} (g : A → B) (b : Bool) (x : A) (start : List B) (rest : List A)
    → (start ++ (if b then g x ∷ [] else [])) ++ map g rest
      ≡ start ++ map g (if b then x ∷ rest else rest)
appended g true x start rest = append_assoc start (g x ∷ []) (map g rest)
appended g false x start rest = ap (λ s. s ++ map g rest) (append-nil start)

module _ (c : Item) where
  abbrev pub doubles : Item → Bool
  doubles o = is_other c o && same_issue c o

  abbrev pub modifies : Item → Bool
  modifies o = is_other c o && varies c o

  abbrev pub right_of : Item → String
  right_of o = id_or_empty o.hypothesis_id

  turn-duplicate :
      (f : Found) (o : Item)
      → has_id o ≡ true
      → settled f.duplicate_of ≡ true
      → (settled (turn c f o).duplicate_of ≡ true)
        × (named (turn c f o).duplicate_of ≡ (named f.duplicate_of || doubles o))
  unfolding classify_pair turn
  turn-duplicate f o h s =
      let (settled_next, named_next) = turned-duplicate (same_id o c) f (classify_pair c o) h s in
      (
        settled_next,
        named_next
            ∙ ap (λ d. named f.duplicate_of || (is_other c o && d))
                (classify-is_duplicate (exact_span c o || exact_issue c o) (same_root c o)
                  (same_graph c o) (same_impact c o)
                  (is_similar (jaccard c.claim_tokens o.claim_tokens))),
      )

  check_others-duplicate :
      (f : Found) (os : List Item)
      → every has_id os ≡ true
      → settled f.duplicate_of ≡ true
      → named (check_others c f os).duplicate_of ≡ (named f.duplicate_of || any doubles os)
  unfolding check_others
  check_others-duplicate f [] h s = ground arith
  check_others-duplicate f (o ∷ os) h s =
      let (settled_next, named_next) = turn-duplicate f o (ground arith) s in
      let rest = check_others-duplicate (turn c f o) os (ground arith) settled_next in
      ground (arith, rest, named_next)

  turn-variants :
      (f : Found) (o : Item)
      → (turn c f o).variants ≡ f.variants ++ (if modifies o then right_of o ∷ [] else [])
  unfolding classify_pair turn
  turn-variants f o =
      turned-variants (same_id o c) f (classify_pair c o)
      ∙ ap (λ d. f.variants ++ (if is_other c o && d then right_of o ∷ [] else []))
          (classify-is_variant (exact_span c o || exact_issue c o) (same_root c o) (same_graph c o)
            (same_impact c o) (is_similar (jaccard c.claim_tokens o.claim_tokens)))

  check_others-variants :
      (f : Found) (os : List Item)
      → (check_others c f os).variants ≡ f.variants ++ map right_of (keep modifies os)
  unfolding check_others
  check_others-variants f [] = sym (append-nil f.variants)
  check_others-variants f (o ∷ os) =
      check_others-variants (turn c f o) os
      ∙ ap (λ is. is ++ map right_of (keep modifies os)) (turn-variants f o)
      ∙ appended right_of (modifies o) o f.variants (keep modifies os)

  check_others-comparisons :
      (f : Found) (os : List Item)
      → (check_others c f os).comparisons
        ≡ f.comparisons ++ map (classify_pair c) (keep (is_other c) os)
  unfolding check_others turn
  check_others-comparisons f [] = sym (append-nil f.comparisons)
  check_others-comparisons f (o ∷ os) =
      check_others-comparisons (turn c f o) os
      ∙ ap (λ ps. ps ++ map (classify_pair c) (keep (is_other c) os))
          (turned-comparisons (same_id o c) f (classify_pair c o))
      ∙ appended (classify_pair c) (is_other c o) o f.comparisons (keep (is_other c) os)

is_empty-keep :
    (g : Item → String) (p : Item → Bool) (os : List Item)
    → not (is_empty (map g (keep p os))) ≡ any p os
is_empty-keep g p [] = refl
is_empty-keep g p (o ∷ os) =
    let rest = is_empty-keep g p os in
    elim (p o)
      as (λ b. not (is_empty (map g (if b then o ∷ keep p os else keep p os))) ≡ (b || any p os)) [
        | true ↦ refl
        | false ↦ rest
      ]

abbrev pub status_by : Bool → Bool → Disposition
status_by doubled modified =
    if doubled then duplicate_known_issue else if modified then variant else unique

-- Where each of the other items has an identifier: the status is that of a duplicate where some item
-- but the candidate itself has one issue with it (a span or a known issue in common, or root cause,
-- attack graph and impact), that of a variant where none has and some item has the root cause or the
-- attack graph in common, and unique otherwise; the variants are, in their order, exactly the items
-- that have not one issue with the candidate but the root cause or the attack graph in common; and
-- every other item is compared.
pub check_duplicates-Reported :
    (c : Item) (others : List Item)
    → every has_id others ≡ true
    → ((check_duplicates c others).0 ≡ status_by (any (doubles c) others) (any (modifies c) others))
      × ((check_duplicates c others).1.variants ≡ map (right_of c) (keep (modifies c) others))
      × ((check_duplicates c others).1.comparisons
          ≡ map (classify_pair c) (keep (is_other c) others))
unfolding check_duplicates settled status_of
check_duplicates-Reported c others h =
    let start : Found = record { comparisons = []; duplicate_of = none; variants = [] } in
    let found = check_others c start others in
    (
      ap (λ b. status_by b (not (is_empty found.variants)))
            (check_others-duplicate c start others h refl)
          ∙ ap (λ is. status_by (any (doubles c) others) (not (is_empty is)))
              (check_others-variants c start others)
          ∙ ap (status_by (any (doubles c) others))
              (is_empty-keep (right_of c) (modifies c) others),
      check_others-variants c start others,
      check_others-comparisons c start others,
    )
