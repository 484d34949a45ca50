-- ===== src/Learning/Promotion/Reviewers.antt =====
-- What `_independent_approvals` of learning/promote.py asks of the reviewers.
use ayran.Prelude.{
  String, ◌≡◌, refl, sym, ap, ◌∙◌, Bool, true, false, not, ◌&&◌, ◌||◌, List, [], ◌∷◌, map, arith,
  ltb, leb, if◌then◌else◌, length, any, is_empty,
}
use ayran.Prelude.Text.{elem, insert, str_eq, eq_iff, eq_refl}
use ayran.Learning.Promotion.{
  is_approval, of_candidate, load_reviews, reviews_for, approvers, reviewers, is_human,
  independent_approvals, ReviewerType, Review, Candidate,
}

-- The same review by a reviewer of another type.
abbrev pub retyped : (Review → ReviewerType) → Review → Review
retyped f r = record r { reviewer_type = f r }

-- The names in the dict after one more.
added : String → List String → List String
added k [] = k ∷ []
added k (x ∷ xs) = if str_eq x k then x ∷ xs else x ∷ added k xs

reviewers-insert :
    (k : String) (v : ReviewerType) (known : List (String × ReviewerType))
    → reviewers (insert k v known) ≡ added k (reviewers known)
unfolding insert added
reviewers-insert k v [] = refl
reviewers-insert k v ((j, w) ∷ known) =
    let rest = reviewers-insert k v known in
    elim (str_eq j k)
      as (λ b.
        reviewers (if b then (j, v) ∷ known else (j, w) ∷ insert k v known)
        ≡ (if b then j ∷ reviewers known else j ∷ added k (reviewers known))) [
          | true ↦ refl
          | false ↦ ap (λ ks. j ∷ ks) rest
        ]

reviewers-given :
    (approves : Bool) (k : String) (v w : ReviewerType) (known other : List (String × ReviewerType))
    → reviewers known ≡ reviewers other
    → reviewers (if approves then insert k v known else known)
      ≡ reviewers (if approves then insert k w other else other)
reviewers-given true k v w known other same =
    reviewers-insert k v known ∙ ap (added k) same ∙ sym (reviewers-insert k w other)
reviewers-given false k v w known other same = same

reviewers-retyped :
    (f : Review → ReviewerType) (known other : List (String × ReviewerType)) (rs : List Review)
    → reviewers known ≡ reviewers other
    → reviewers (approvers known (map (retyped f) rs)) ≡ reviewers (approvers other rs)
unfolding approvers
reviewers-retyped f known other [] same = same
reviewers-retyped f known other (r ∷ rs) same =
    reviewers-retyped f (if is_approval r.verdict then insert r.reviewer_id (f r) known else known)
      (if is_approval r.verdict then insert r.reviewer_id r.reviewer_type other else other) rs
      (reviewers-given (is_approval r.verdict) r.reviewer_id (f r) r.reviewer_type known other same)

of_candidate-retyped :
    (f : Review → ReviewerType) (id : String) (rs : List Review)
    → of_candidate id (map (retyped f) rs) ≡ map (retyped f) (of_candidate id rs)
of_candidate-retyped f id [] = refl
of_candidate-retyped f id (r ∷ rs) =
    rw (of_candidate-retyped f id rs)
      (elim (str_eq r.candidate id)
        as (λ b.
          (if b
            then retyped f r ∷ map (retyped f) (of_candidate id rs)
            else map (retyped f) (of_candidate id rs))
          ≡ map (retyped f) (if b then r ∷ of_candidate id rs else of_candidate id rs)) [
            | true ↦ refl
            | false ↦ refl
          ])

is_empty-map :
    (f : Review → ReviewerType) (rs : List Review) → is_empty (map (retyped f) rs) ≡ is_empty rs
is_empty-map f [] = refl
is_empty-map f (r ∷ rs) = refl

if-map :
    (b : Bool) (f : Review → ReviewerType) (xs ys : List Review)
    → (if b then map (retyped f) xs else map (retyped f) ys)
      ≡ map (retyped f) (if b then xs else ys)
if-map true f xs ys = refl
if-map false f xs ys = refl

load_reviews-retyped :
    (f : Review → ReviewerType) (id : String) (rs : List Review)
    → load_reviews id (map (retyped f) rs) ≡ map (retyped f) (load_reviews id rs)
load_reviews-retyped f id rs =
    ap (λ own. if str_eq id "" then map (retyped f) rs else own) (of_candidate-retyped f id rs)
    ∙ if-map (str_eq id "") f rs (of_candidate id rs)

reviews_for-retyped :
    (f : Review → ReviewerType) (c : Candidate) (rs : List Review)
    → reviews_for c (map (retyped f) rs) ≡ map (retyped f) (reviews_for c rs)
unfolding reviews_for
reviews_for-retyped f c rs =
    let own = load_reviews c.candidate_id rs in
    let other = load_reviews c.outcome_ref rs in
    rw
      (
        load_reviews-retyped f c.candidate_id rs,
        load_reviews-retyped f c.outcome_ref rs,
        is_empty-map f own,
      )
      (if-map (is_empty own) f other own)

-- Each of the returns of `_independent_approvals` gives the keys of the dict.
same_returns :
    (few mixed : Bool) (unique : List (String × ReviewerType))
    → (if few then reviewers unique else if mixed then reviewers unique else reviewers unique)
      ≡ reviewers unique
same_returns true mixed unique = refl
same_returns false true unique = refl
same_returns false false unique = refl

approvals-reviewers :
    (c : Candidate) (reviews : List Review)
    → independent_approvals c reviews ≡ reviewers (approvers [] (reviews_for c reviews))
unfolding independent_approvals
approvals-reviewers c reviews =
    let unique = approvers [] (reviews_for c reviews) in
    let has_human = any (λ e. is_human e.1) unique in
    let has_agent = any (λ e. not (is_human e.1)) unique in
    same_returns (ltb (length unique) 2) (has_human && (has_agent || has_human)) unique

-- The approvals of a candidate do not depend on the types of the reviewers: `_independent_approvals`
-- collects the types and asks for a human among them, but returns the same reviewers either way.
pub reviewer_types_ignored :
    (f : Review → ReviewerType) (c : Candidate) (reviews : List Review)
    → independent_approvals c (map (retyped f) reviews) ≡ independent_approvals c reviews
reviewer_types_ignored f c reviews =
    approvals-reviewers c (map (retyped f) reviews)
    ∙ ap (λ rs. reviewers (approvers [] rs)) (reviews_for-retyped f c reviews)
    ∙ reviewers-retyped f [] [] (reviews_for c reviews) refl
    ∙ sym (approvals-reviewers c reviews)

-- The reviewer has approved in one of the reviews.
abbrev pub approved_by : List Review → String → Bool
approved_by rs x = any (λ r. is_approval r.verdict && str_eq r.reviewer_id x) rs

elem-added : (x k : String) (ks : List String) → elem x (added k ks) ≡ (str_eq k x || elem x ks)
unfolding added
elem-added x k [] = refl
elem-added x k (y ∷ ks) =
    let rest = elem-added x k ks in ground (arith, rest, eq_iff y k, eq_iff y x, eq_iff k x)

abbrev has_no_double : List String → Bool
has_no_double [] = true
has_no_double (x ∷ xs) = not (elem x xs) && has_no_double xs

added-single :
    (k : String) (ks : List String) → has_no_double ks ≡ true → has_no_double (added k ks) ≡ true
unfolding added
added-single k [] h = refl
added-single k (y ∷ ks) h =
    let rest = added-single k ks (ground arith) in
    ground (arith, rest, elem-added y k ks, eq_iff y k, eq_iff k y)

-- Who stands in the dict after the reviews.
names : List String → List Review → List String
names ks [] = ks
names ks (r ∷ rs) = names (if is_approval r.verdict then added r.reviewer_id ks else ks) rs

reviewers-names :
    (known : List (String × ReviewerType)) (rs : List Review)
    → reviewers (approvers known rs) ≡ names (reviewers known) rs
unfolding approvers names
reviewers-names known [] = refl
reviewers-names known (r ∷ rs) =
    reviewers-names
      (if is_approval r.verdict then insert r.reviewer_id r.reviewer_type known else known) rs
    ∙ ap (λ ks. names ks rs)
        (elim (is_approval r.verdict)
          as (λ b.
            reviewers (if b then insert r.reviewer_id r.reviewer_type known else known)
            ≡ (if b then added r.reviewer_id (reviewers known) else reviewers known)) [
              | true ↦ reviewers-insert r.reviewer_id r.reviewer_type known
              | false ↦ refl
            ])

names-approved :
    (x : String) (ks : List String) (rs : List Review)
    → elem x (names ks rs) ≡ (elem x ks || approved_by rs x)
unfolding names
names-approved x ks [] = ground arith
names-approved x ks (r ∷ rs) =
    let next = if is_approval r.verdict then added r.reviewer_id ks else ks in
    let rest = names-approved x next rs in ground (arith, rest, elem-added x r.reviewer_id ks)

names-single :
    (ks : List String) (rs : List Review)
    → has_no_double ks ≡ true
    → has_no_double (names ks rs) ≡ true
unfolding names
names-single ks [] h = h
names-single ks (r ∷ rs) h =
    names-single (if is_approval r.verdict then added r.reviewer_id ks else ks) rs
      (ground (arith, h, added-single r.reviewer_id ks))

-- Two reviewers have approved in the reviews.
pub record TwoApprove (rs : List Review) : Type 0 where
  pub one : String
  pub another : String
  pub apart : str_eq one another ≡ false
  pub one_approves : approved_by rs one ≡ true
  pub another_approves : approved_by rs another ≡ true

first_two :
    (rs : List Review) (ks : List String)
    → has_no_double ks ≡ true
    → ((x : String) → elem x ks ≡ approved_by rs x)
    → leb 2 (length ks) ≡ true
    → TwoApprove rs
first_two rs [] single all long = absurd (ground (arith, long))
first_two rs (a ∷ []) single all long = absurd (ground (arith, long))
first_two rs (a ∷ b ∷ ks) single all long = record {
  one = a;
  another = b;
  apart = ground (arith, single, eq_iff a b, eq_iff b a);
  one_approves = sym (all a) ∙ ground (arith, eq_refl a);
  another_approves = sym (all b) ∙ ground (arith, eq_refl b);
}

-- Two approvals of a candidate are those of two reviewers.
pub approvals-TwoApprove :
    (c : Candidate) (reviews : List Review)
    → leb 2 (length (independent_approvals c reviews)) ≡ true
    → TwoApprove (reviews_for c reviews)
approvals-TwoApprove c reviews h =
    let rs = reviews_for c reviews in
    first_two rs (names [] rs) (names-single [] rs refl) (λ x. names-approved x [] rs)
      (ap (λ ks. leb 2 (length ks)) (sym (approvals-reviewers c reviews ∙ reviewers-names [] rs))
        ∙ h)
