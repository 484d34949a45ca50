-- ===== src/Context/Budget/Trimmed.antt =====
-- What `_trim_to_budget` of context/compiler.py leaves of a context pack.
use ayran.Prelude.{
  ℕ, zero, suc, ◌+◌, String, ◌≡◌, refl, sym, ap, ◌∙◌, Bool, true, false, not, ◌&&◌, ◌||◌, Option,
  none, some, List, [], ◌∷◌, ◌++◌, arith, ltb, leb, if◌then◌else◌, length, every, keep, zero,
}
use ayran.Context.Budget.{
  tokens, count, is_protected, drop_last, trim, trim_to_budget, Classification, Section, Omitted,
  historical_reference, another_class,
}
use mathlib.Core.List.{append-nil, append_assoc}

module _ (lower : String → String) (extra_protected : List String) (token_budget : ℕ) where
  abbrev stays : Section → Bool
  stays s = is_protected lower extra_protected token_budget s

  abbrev pub goes : Section → Bool
  goes s = not (stays s)

  abbrev dropping : List Section → Option (Section × List Section)
  dropping ss = drop_last lower extra_protected token_budget ss

  all_stay : (ss : List Section) → every stays ss ≡ true → keep goes ss ≡ []
  all_stay [] h = refl
  all_stay (s ∷ ss) h =
      let here : stays s ≡ true = ground arith in rw here (all_stay ss (ground arith))

  -- Without the last section that may go, or with none that may.
  Dropped : List Section → Option (Section × List Section) → Type 0
  Dropped ss none = every stays ss ≡ true
  Dropped ss (some (dropped, rest)) =
      (keep stays rest ≡ keep stays ss)
      × (keep goes ss ≡ keep goes rest ++ dropped ∷ [])
      × (length ss ≡ suc (length rest))

  cons_append :
      (b : Bool) (s dropped : Section) (more rest : List Section)
      → more ≡ rest ++ dropped ∷ []
      → (if b then s ∷ more else more) ≡ (if b then s ∷ rest else rest) ++ dropped ∷ []
  cons_append true s dropped more rest h = ap (λ r. s ∷ r) h
  cons_append false s dropped more rest h = h

  drop_last-Dropped : (ss : List Section) → Dropped ss (dropping ss)
  unfolding drop_last Dropped
  drop_last-Dropped [] = refl
  drop_last-Dropped (s ∷ ss) = by_rest (dropping ss) (drop_last-Dropped ss)
    where
      by_first :
          (b : Bool)
          → stays s ≡ b
          → every stays ss ≡ true
          → Dropped (s ∷ ss) (if b then none else some (s, ss))
      by_first true h rest = ground (arith, h, rest)
      by_first false h rest = (rw h refl, rw (h, all_stay ss rest) refl, refl)

      by_rest :
          (o : Option (Section × List Section))
          → Dropped ss o
          → Dropped (s ∷ ss) (elim o as (λ _. Option (Section × List Section)) [
            | some (dropped, rest) ↦ some (dropped, s ∷ rest)
            | none ↦ if stays s then none else some (s, ss)
          ])
      by_rest none h = by_first (stays s) refl h
      by_rest (some (dropped, rest)) (a, b, c) = (
        ap (λ r. if stays s then s ∷ r else r) a,
        cons_append (goes s) s dropped (keep goes ss) (keep goes rest) b,
        ap suc c,
      )

  -- The pack meets its budget, or it has six sections or fewer, or none that may go; those that may not
  -- go are all there, in their order; the others went from the end, and each is counted.
  pub record IsTrimmed (from : List Section) (before : ℕ) (to : List Section) (o : Omitted)
      : Type 0 where
    pub fits : (leb (tokens to) token_budget || leb (length to) 6 || every stays to) ≡ true
    pub protected : keep stays to ≡ keep stays from
    pub omitted : (dropped : List Section) × (keep goes from ≡ keep goes to ++ dropped)
    pub counted : length to + o.target + o.global ≡ length from + before

  at_rest :
      (ss : List Section) (o : Omitted)
      → (leb (tokens ss) token_budget || leb (length ss) 6 || every stays ss) ≡ true
      → IsTrimmed ss (o.target + o.global) ss o
  at_rest ss o h = record {
    fits = h;
    protected = refl;
    omitted = ([], sym (append-nil (keep goes ss)));
    counted = omega arith;
  }

  one_more :
      (ss rest to : List Section) (dropped : Section) (o after : Omitted)
      → Dropped ss (some (dropped, rest))
      → IsTrimmed rest ((count dropped o).target + (count dropped o).global) to after
      → IsTrimmed ss (o.target + o.global) to after
  unfolding Dropped
  one_more ss rest to dropped o after (a, b, c) i = record {
    fits = i.fits;
    protected = i.protected ∙ a;
    omitted = (
      i.omitted.0 ++ dropped ∷ [],
      b
          ∙ ap (λ r. r ++ dropped ∷ []) i.omitted.1
          ∙ append_assoc (keep goes to) i.omitted.0 (dropped ∷ []),
    );
    counted = omega (arith, i.counted, c, counts dropped.classification o);
  }
    where
      counts :
          (k : Classification) (o : Omitted)
          → (elim k as (λ _. Omitted) [
            | historical_reference ↦ record o { global = o.global + 1 }
            | another_class ↦ record o { target = o.target + 1 }
          ]).target
              + (elim k as (λ _. Omitted) [
                | historical_reference ↦ record o { global = o.global + 1 }
                | another_class ↦ record o { target = o.target + 1 }
              ]).global
            ≡ o.target + o.global + 1
      counts historical_reference o = omega arith
      counts another_class o = omega arith

  Trims : ℕ → Type 0
  Trims n =
      (ss : List Section) (o : Omitted)
      → leb (length ss) n ≡ true
      → IsTrimmed ss (o.target + o.global) (trim lower extra_protected token_budget n ss o).0
          (trim lower extra_protected token_budget n ss o).1

  trim-IsTrimmed : (n : ℕ) → Trims n
  unfolding trim Trims
  trim-IsTrimmed zero [] o enough = at_rest [] o (ground arith)
  trim-IsTrimmed zero (s ∷ ss) o enough = absurd (ground arith)
  trim-IsTrimmed (suc n) ss o enough =
      by_test (ltb token_budget (tokens ss) && ltb 6 (length ss)) refl (trim-IsTrimmed n)
    where
      by_drop :
          (d : Option (Section × List Section))
          → Dropped ss d
          → Trims n
          → let r : List Section × Omitted = elim d as (λ _. List Section × Omitted) [
            | none ↦ (ss, o)
            | some (dropped, rest) ↦
                trim lower extra_protected token_budget n rest (count dropped o)
          ] in
            IsTrimmed ss (o.target + o.global) r.0 r.1
      by_drop none h rest_of = at_rest ss o (unfold Dropped in ground (arith, h))
      by_drop (some (dropped, rest)) h rest_of =
          one_more ss rest _ dropped o _ h
            (rest_of rest (count dropped o) (unfold Dropped in ground (arith, h.2)))

      by_test :
          (b : Bool)
          → (ltb token_budget (tokens ss) && ltb 6 (length ss)) ≡ b
          → Trims n
          → let r : List Section × Omitted = elim b as (λ _. List Section × Omitted) [
            | false ↦ (ss, o)
            | true ↦ elim (dropping ss) [
              | none ↦ (ss, o)
              | some (dropped, rest) ↦
                  trim lower extra_protected token_budget n rest (count dropped o)
            ]
          ] in
            IsTrimmed ss (o.target + o.global) r.0 r.1
      by_test false h rest_of = at_rest ss o (ground (arith, h))
      by_test true h rest_of = by_drop (dropping ss) (drop_last-Dropped ss) rest_of

  -- What `_trim_to_budget` returns of any sections: they meet the budget, or are six or fewer, or none
  -- of them may go; the protected sections are all there, in their order; of the others those at the
  -- end are left out; and the counts of what was omitted add up to the sections that are missing.
  pub trim_to_budget-IsTrimmed :
      (ss : List Section)
      → let r = trim_to_budget lower extra_protected token_budget ss in IsTrimmed ss 0 r.0 r.1
  unfolding trim_to_budget
  trim_to_budget-IsTrimmed ss =
      unfold Trims in
      trim-IsTrimmed (length ss) ss (record { target = 0; global = 0; learning = 0 }) (ground arith)
