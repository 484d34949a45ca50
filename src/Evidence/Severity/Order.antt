-- ===== src/Evidence/Severity/Order.antt =====
-- How the labels of evidence/severity.py compare.
use ayran.Prelude.{
  ℕ, ◌≤◌, ◌<◌, String, ◌≡◌, refl, sym, ap, ◌∙◌, inl, inr, Bool, true, false, not, ◌&&◌, ◌||◌,
  Option, none, some, List, arith, ◌==◌, if◌then◌else◌, Bool-cases,
}
use ayran.Prelude.Text.{str_eq, eq_iff}
use ayran.Evidence.Payload.{Value}
use ayran.Evidence.Severity.{
  kind_of_impact, upper_bound, is_theft, is_lock, is_integrity, rules, notes_of, assessment,
  assessed, assess_severity, Label, Citation, Note, Impact, Assessment, critical, high, medium, low,
  informational,
}
use mathlib.Core.Path.{subst}

-- The labels in order.
unfoldable pub label_rank : Label → ℕ
label_rank informational = 0
label_rank low = 1
label_rank medium = 2
label_rank high = 3
label_rank critical = 4

-- The rank of the label that the rules give, where they give one.
abbrev ruled_rank : Option (Label × Citation × List Note) → Option ℕ
ruled_rank none = none
ruled_rank (some ruled) = some (label_rank ruled.0)

-- The rank that the chain of rules gives, by its tests.
abbrev theft_rank : Option Bool → Option ℕ
theft_rank none = none
theft_rank (some large) = some (if large then 4 else 3)

abbrev rank_by : Bool → Bool → Bool → Bool → Option Bool → Option ℕ
rank_by theft lock integrity unprivileged large =
    if theft && unprivileged
    then theft_rank large
    else if lock
    then some 2
    else if integrity && not unprivileged
    then some 1
    else if integrity
    then some 2
    else some 0

ruled_rank-rules :
    (kind : String) (unprivileged : Bool) (large : Option Bool) (notes : List Note)
    → ruled_rank (rules kind unprivileged large notes)
      ≡ rank_by (is_theft kind) (is_lock kind) (is_integrity kind) unprivileged large
unfolding rules label_rank
ruled_rank-rules kind u none notes = ground arith
ruled_rank-rules kind u (some true) notes = ground arith
ruled_rank-rules kind u (some false) notes = ground arith

rank_by_order :
    (theft lock integrity unprivileged later : Bool) (large larger : Option Bool) (m n : ℕ)
    → (unprivileged ≡ true → later ≡ true)
    → (large ≡ some true → larger ≡ some true)
    → rank_by theft lock integrity unprivileged large ≡ some m
    → rank_by theft lock integrity later larger ≡ some n
    → m ≤ n
rank_by_order t l i u v none none m n p q a b = ground (arith, p)
rank_by_order t l i u v none (some y) m n p q a b = ground (arith, p)
rank_by_order t l i u v (some x) none m n p q a b = ground (arith, p, q)
rank_by_order t l i u v (some x) (some y) m n p q a b = ground (arith, p, q)

-- What holds of two texts holds of a text that is one of them.
one_of :
    (p : String → Bool) (kind a b : String)
    → p a ≡ true
    → p b ≡ true
    → (str_eq kind a || str_eq kind b) ≡ true
    → p kind ≡ true
one_of p kind a b pa pb h = elim (Bool-cases (str_eq kind a)) [
  | inl at_a ↦ subst (λ x. p x ≡ true) (sym ((eq_iff kind a).0 at_a)) pa
  | inr not_a ↦
      let at_b : str_eq kind b ≡ true = ground (arith, not_a) in
      subst (λ x. p x ≡ true) (sym ((eq_iff kind b).0 at_b)) pb
]

abbrev is_ranked : ℕ → Option ℕ → Bool
is_ranked n none = false
is_ranked n (some m) = m == n

abbrev has_rank : ℕ → Option Bool → List Note → String → Bool
has_rank n large notes kind = is_ranked n (ruled_rank (rules kind false large notes))

privileged_theft :
    (kind : String) (large : Option Bool) (notes : List Note)
    → is_theft kind ≡ true
    → has_rank 0 large notes kind ≡ true
unfolding is_theft rules label_rank is_lock is_integrity
privileged_theft kind large notes h =
    one_of (has_rank 0 large notes) kind "theft" "loss" refl refl h

privileged_integrity :
    (kind : String) (large : Option Bool) (notes : List Note)
    → is_integrity kind ≡ true
    → has_rank 1 large notes kind ≡ true
unfolding is_theft rules label_rank is_lock is_integrity
privileged_integrity kind large notes h =
    one_of (has_rank 1 large notes) kind "integrity" "governance" refl refl h

ranked :
    (n : ℕ) (o : Option (Label × Citation × List Note))
    → is_ranked n (ruled_rank o) ≡ true
    → (a : Assessment) × (assessed o ≡ some a) × (label_rank a.label ≡ n)
ranked n none h = cc
ranked n (some ruled) h = (assessment ruled, refl, ground (arith, h))

assessed_rank :
    (o : Option (Label × Citation × List Note)) (a : Assessment)
    → assessed o ≡ some a
    → ruled_rank o ≡ some (label_rank a.label)
assessed_rank none a h = cc
assessed_rank (some ruled) a h =
    ap (λ o. elim o as (λ _. Option ℕ) [ none ↦ none | some b ↦ some (label_rank b.label) ]) h

-- Of two impacts that differ in their bounds alone, the second reaching the limit whenever the first
-- does, and two judgements of the preconditions, the second needing no privilege whenever the first
-- needs none: where `assess_severity` raises for neither, the label of the second is no lower.
pub severity_monotone :
    (reaches : Value → Option Bool) (i j : Impact) (unprivileged later : Bool)
    (ambiguities : List String) (a b : Assessment)
    → kind_of_impact j ≡ kind_of_impact i
    → (unprivileged ≡ true → later ≡ true)
    → (reaches (upper_bound i) ≡ some true → reaches (upper_bound j) ≡ some true)
    → assess_severity reaches i unprivileged ambiguities ≡ some a
    → assess_severity reaches j later ambiguities ≡ some b
    → label_rank a.label ≤ label_rank b.label
unfolding assess_severity
severity_monotone reaches i j u later ambiguities a b k p q first second =
    let kind = kind_of_impact i in
    let to_first = ruled_rank-rules kind u (reaches (upper_bound i)) (notes_of i ambiguities) in
    let to_second =
      ruled_rank-rules (kind_of_impact j) later (reaches (upper_bound j))
        (notes_of j ambiguities) in
    rank_by_order (is_theft kind) (is_lock kind) (is_integrity kind) u later
      (reaches (upper_bound i)) (reaches (upper_bound j)) (label_rank a.label) (label_rank b.label)
      p q (sym to_first ∙ assessed_rank _ a first)
      (subst
        (λ x.
          rank_by (is_theft x) (is_lock x) (is_integrity x) later (reaches (upper_bound j))
          ≡ some (label_rank b.label))
        k (sym to_second ∙ assessed_rank _ b second))

-- A theft that needs a privilege and a break of integrity that needs one are both assessed, whatever
-- the bounds, and the theft is assessed lower.
pub privileged_theft_lower :
    (reaches : Value → Option Bool) (theft integrity : Impact) (ambiguities : List String)
    → is_theft (kind_of_impact theft) ≡ true
    → is_integrity (kind_of_impact integrity) ≡ true
    → (a : Assessment) × (b : Assessment) × (assess_severity reaches theft false ambiguities
        ≡ some a)
      × (assess_severity reaches integrity false ambiguities ≡ some b)
      × (label_rank a.label < label_rank b.label)
unfolding assess_severity
privileged_theft_lower reaches theft integrity ambiguities s t =
    let (a, first, low_rank) = ranked 0 _ (
      privileged_theft (kind_of_impact theft) (reaches (upper_bound theft))
        (notes_of theft ambiguities) s) in
    let (b, second, high_rank) = ranked 1 _ (
      privileged_integrity (kind_of_impact integrity) (reaches (upper_bound integrity))
        (notes_of integrity ambiguities) t) in
    (a, b, first, second, ground (arith, low_rank, high_rank))
