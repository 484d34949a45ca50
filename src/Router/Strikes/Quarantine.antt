-- ===== src/Router/Strikes/Quarantine.antt =====
-- Which sources a `StrikeBook` quarantines.
use ayran.Prelude.{
  ℕ, ◌+◌, String, ◌≡◌, refl, sym, ap, ◌∙◌, inl, inr, Bool, true, false, ◌&&◌, ◌||◌, List, [], ◌∷◌,
  arith, leb, if◌then◌else◌, Bool-cases,
}
use ayran.Prelude.Text.{elem, lookup, lookup-insert, str_eq, eq_iff, eq_refl}
use ayran.Router.Strikes.{or_zero, add, note, book, flags, StrikeBook}
use mathlib.Core.Path.{subst}

abbrev tally : String → StrikeBook → ℕ
tally s b = or_zero (lookup s b.counts)

tally-note :
    (s i : String) (flagged : Bool) (b : StrikeBook)
    → tally s (note i flagged b).1 ≡ (if flagged && str_eq i s then 1 else 0) + tally s b
unfolding note
tally-note s i flagged b =
    ground (arith, lookup-insert i s (or_zero (lookup i b.counts) + 1) b.counts, eq_iff i s)

elem-add : (s i : String) (xs : List String) → elem s (add i xs) ≡ (str_eq i s || elem s xs)
unfolding add
elem-add s i xs = elim (Bool-cases (str_eq i s)) [
  | inl here ↦
      subst (λ x. elem x (add i xs) ≡ (str_eq i x || elem x xs)) ((eq_iff i s).0 here)
        (ground (arith, eq_refl i))
  | inr there ↦ ground (arith, there)
]

marked_self :
    (i : String) (b : StrikeBook)
    → elem i b.quarantined ≡ leb 3 (tally i b)
    → elem i (note i true b).1.quarantined ≡ leb 3 (1 + tally i b)
unfolding note
marked_self i b h = elim (Bool-cases (leb 3 (tally i b + 1))) [
  | inl high ↦ ground (arith, elem-add i i b.quarantined, eq_refl i, high)
  | inr low ↦ ground (arith, low)
]

marked-other :
    (s i : String) (b : StrikeBook)
    → str_eq i s ≡ false
    → elem s b.quarantined ≡ leb 3 (tally s b)
    → elem s (note i true b).1.quarantined ≡ leb 3 (0 + tally s b)
unfolding note
marked-other s i b e h = elim (Bool-cases (leb 3 (tally i b + 1))) [
  | inl high ↦ ground (arith, elem-add s i b.quarantined, high)
  | inr low ↦ ground (arith, low)
]

marked-true :
    (s i : String) (b : StrikeBook)
    → elem s b.quarantined ≡ leb 3 (tally s b)
    → elem s (note i true b).1.quarantined ≡ leb 3 ((if str_eq i s then 1 else 0) + tally s b)
marked-true s i b h = elim (Bool-cases (str_eq i s)) [
  | inl here ↦
      subst
        (λ x.
          elem x b.quarantined ≡ leb 3 (tally x b)
          → elem x (note i true b).1.quarantined
            ≡ leb 3 ((if str_eq i x then 1 else 0) + tally x b))
        ((eq_iff i s).0 here)
        (λ g.
          subst
            (λ t. elem i (note i true b).1.quarantined ≡ leb 3 ((if t then 1 else 0) + tally i b))
            (sym (eq_refl i)) (marked_self i b g))
        h
  | inr there ↦ rw there (marked-other s i b there h)
]

marked-note :
    (s i : String) (flagged : Bool) (b : StrikeBook)
    → elem s b.quarantined ≡ leb 3 (tally s b)
    → elem s (note i flagged b).1.quarantined ≡ leb 3 (tally s (note i flagged b).1)
unfolding note
marked-note s i false b h = h
marked-note s i true b h =
    subst (λ n. elem s (note i true b).1.quarantined ≡ leb 3 n) (sym (tally-note s i true b))
      (marked-true s i b h)

tally-book : (s : String) (events : List (String × Bool)) → tally s (book events) ≡ flags s events
unfolding lookup
tally-book s [] = refl
tally-book s ((i, flagged) ∷ earlier) =
    tally-note s i flagged (book earlier)
    ∙ ap (λ n. (if flagged && str_eq i s then 1 else 0) + n) (tally-book s earlier)

marked-book :
    (s : String) (events : List (String × Bool))
    → elem s (book events).quarantined ≡ leb 3 (tally s (book events))
unfolding lookup
marked-book s [] = refl
marked-book s ((i, flagged) ∷ earlier) =
    marked-note s i flagged (book earlier) (marked-book s earlier)

-- After any sequence of notes, a source is quarantined exactly when it was flagged three times or
-- more.
pub quarantined_iff :
    (s : String) (events : List (String × Bool))
    → elem s (book events).quarantined ≡ leb 3 (flags s events)
quarantined_iff s events =
    subst (λ n. elem s (book events).quarantined ≡ leb 3 n) (tally-book s events)
      (marked-book s events)

answer-marked :
    (i : String) (flagged : Bool) (b : StrikeBook)
    → (note i flagged b).0 ≡ elem i (note i flagged b).1.quarantined
unfolding note
answer-marked i false b = refl
answer-marked i true b = elim (Bool-cases (leb 3 (tally i b + 1))) [
  | inl high ↦ ground (arith, elem-add i i b.quarantined, eq_refl i, high)
  | inr low ↦ ground (arith, low)
]

-- Each note answers whether the source is quarantined after it, that is, whether it has been flagged
-- three times or more, this note included.
pub note_answers :
    (s : String) (flagged : Bool) (events : List (String × Bool))
    → (note s flagged (book events)).0 ≡ leb 3 (flags s ((s, flagged) ∷ events))
note_answers s flagged events =
    answer-marked s flagged (book events) ∙ quarantined_iff s ((s, flagged) ∷ events)
