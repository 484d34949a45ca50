-- ===== src/Mapping/CellMeta/RoundTrip.antt =====
-- What `parse_cell_meta` of mapping/coverage.py reads back of what `format_cell_meta` writes.
use ayran.Prelude.{
  ℕ, zero, suc, ◌+◌, ◌-◌, ◌*◌, ◌/◌, ◌%◌, ◌≤◌, ◌<◌, ◌≡◌, refl, ap, ◌∙◌, Bool, true, false, some, [],
  ◌∷◌, ◌++◌, arith, ltb, leb, length, every, is_empty,
}
use ayran.Prelude.Int.{pos}
use ayran.Prelude.Text.{codes, Text, eq_text}
use ayran.Mapping.CellMeta.{
  word, state_of, digits_upto, digits, value_from, is_digit, is_word, span, after, risk_label,
  with_digits, risk_group, with_name, match_meta, meta_of, parse_cell_meta, take, or_recorded, tag,
  format_cell_meta, CellState, unexamined, in_progress, examined_no_issue, blocked, lead_found,
  hypothesis_active, validated, residual_risk,
}
use ayran.Policy.Path.{strip, drop_space}
use mathlib.Core.List.{append_assoc}

span-stop :
    (p : ℕ → Bool) (xs : Text) (c : ℕ) (ys : Text)
    → every p xs ≡ true
    → p c ≡ false
    → span p (xs ++ c ∷ ys) ≡ (xs, c ∷ ys)
unfolding span
span-stop p [] c ys all stop = rw stop refl
span-stop p (x ∷ xs) c ys all stop =
    let here : p x ≡ true = ground arith in
    let rest = span-stop p xs c ys (ground arith) stop in rw (here, rest) refl

value_from-append :
    (seen : ℕ) (xs : Text) (c : ℕ)
    → value_from seen (xs ++ c ∷ []) ≡ value_from seen xs * 10 + (c - 48)
unfolding value_from
value_from-append seen [] c = refl
value_from-append seen (x ∷ xs) c = value_from-append (seen * 10 + (x - 48)) xs c

every-append :
    (p : ℕ → Bool) (xs : Text) (c : ℕ)
    → every p xs ≡ true
    → p c ≡ true
    → every p (xs ++ c ∷ []) ≡ true
every-append p [] c all here = ground (arith, here)
every-append p (x ∷ xs) c all here =
    let rest = every-append p xs c (ground arith) here in ground (arith, rest)

length-append : (xs ys : Text) → length (xs ++ ys) ≡ length xs + length ys
length-append [] ys = omega arith
length-append (x ∷ xs) ys = let rest = length-append xs ys in omega (arith, rest)

is_empty-append : (xs : Text) (c : ℕ) → is_empty (xs ++ c ∷ []) ≡ false
is_empty-append [] c = refl
is_empty-append (x ∷ xs) c = refl

-- The text is that of the number, in digits.
Prints : ℕ → Text → Type 0
Prints n s = (value_from 0 s ≡ n) × (every is_digit s ≡ true) × (is_empty s ≡ false)

one_digit : (n : ℕ) → n < 10 → Prints n ((48 + n) ∷ [])
unfolding Prints value_from
one_digit n h = (omega arith, ground (arith, h), refl)

next_digit : (n : ℕ) (s : Text) → Prints (n / 10) s → Prints n (s ++ (48 + n % 10) ∷ [])
unfolding Prints
next_digit n s (same, all, some_digit) =
    let value = value_from-append 0 s (48 + n % 10) in
    let last : is_digit (48 + n % 10) ≡ true = ground arith in
    (
      omega (arith, same, value),
      every-append is_digit s (48 + n % 10) all last,
      is_empty-append s (48 + n % 10),
    )

-- As many rounds as the number are enough for its digits.
digits_upto-Prints : (fuel n : ℕ) → n ≤ fuel → Prints n (digits_upto fuel n)
unfolding digits_upto
digits_upto-Prints zero n h = one_digit n (omega (arith, h))
digits_upto-Prints (suc fuel) n h =
    elim (ltb n 10)
        as (λ b.
          ltb n 10 ≡ b
          → Prints n (elim b as (λ _. Text) [
            | true ↦ (48 + n) ∷ []
            | false ↦ digits_upto fuel (n / 10) ++ (48 + n % 10) ∷ []
          ])) [
            | true ↦ λ small. one_digit n (ground (arith, small))
            | false ↦ λ large.
                let least : 10 ≤ n = ground (arith, large) in
                next_digit n (digits_upto fuel (n / 10))
                  (digits_upto-Prints fuel (n / 10) (omega (arith, h, least)))
          ]
      refl

kept_start :
    (n : ℕ) (xs : Text) (c : ℕ) (ys : Text)
    → length xs < n
    → (zs : Text) × (take n (xs ++ c ∷ ys) ≡ xs ++ c ∷ zs)
unfolding take
kept_start zero xs c ys h = absurd (omega (arith, h))
kept_start (suc n) [] c ys h = (take n ys, refl)
kept_start (suc n) (x ∷ xs) c ys h =
    let (zs, same) = kept_start n xs c ys (omega (arith, h)) in (zs, ap (λ s. x ∷ s) same)

word-state : (s : CellState) → state_of (word s) ≡ s
unfolding state_of eq_text
word-state unexamined = refl
word-state in_progress = refl
word-state examined_no_issue = refl
word-state blocked = refl
word-state lead_found = refl
word-state hypothesis_active = refl
word-state validated = refl
word-state residual_risk = refl

-- A state's word is not empty, of the characters of a word, and not too long.
word-fits :
    (s : CellState)
    → (every is_word (word s) ≡ true) × (is_empty (word s) ≡ false) × (length (word s) ≤ 17)
word-fits unexamined = (refl, refl, omega arith)
word-fits in_progress = (refl, refl, omega arith)
word-fits examined_no_issue = (refl, refl, omega arith)
word-fits blocked = (refl, refl, omega arith)
word-fits lead_found = (refl, refl, omega arith)
word-fits hypothesis_active = (refl, refl, omega arith)
word-fits validated = (refl, refl, omega arith)
word-fits residual_risk = (refl, refl, omega arith)

-- A risk whose digits leave room for the rest of the tag.
abbrev pub is_short : ℕ → Bool
is_short n = leb (length (digits n)) 2000

tag-length : (s : CellState) (n : ℕ) → is_short n ≡ true → length (tag s (pos n)) < 2048
tag-length s n h =
    let word_length = (word-fits s).2 in
    let first = length-append (word s) (risk_label ++ digits n) in
    let second = length-append risk_label (digits n) in
    let short : length (digits n) ≤ 2000 = ground (arith, h) in
    omega (arith, word_length, first, second, short)

risk_group-digits :
    (n : ℕ) (zs : Text) → risk_group (risk_label ++ (digits n ++ 93 ∷ zs)) ≡ (n, 93 ∷ zs)
unfolding risk_group after digits Prints
risk_group-digits n zs =
    let (same, all, some_digit) = digits_upto-Prints n n (omega arith) in
    ap (with_digits (risk_label ++ (digits n ++ 93 ∷ zs)))
      (span-stop is_digit (digits n) 93 zs all refl)
    ∙ rw (some_digit, same) refl

with_name-risk :
    (s : CellState) (n : ℕ) (zs : Text)
    → with_name (word s, risk_label ++ (digits n ++ 93 ∷ zs)) ≡ some (word s, n, drop_space zs)
unfolding with_name
with_name-risk s n zs =
    let (all, some_letter, short) = word-fits s in rw (some_letter, risk_group-digits n zs) refl

match_meta-tag :
    (s : CellState) (n : ℕ) (zs : Text)
    → match_meta (tag s (pos n) ++ 93 ∷ zs) ≡ some (word s, n, drop_space zs)
unfolding match_meta
match_meta-tag s n zs =
    let rest = digits n ++ 93 ∷ zs in
    ap (λ r. with_name (span is_word r))
      (append_assoc (word s) (risk_label ++ digits n) (93 ∷ zs)
        ∙ ap (λ r. word s ++ r) (append_assoc risk_label (digits n) (93 ∷ zs)))
    ∙ ap with_name (span-stop is_word (word s) 124 (codes "risk=" ++ rest) (word-fits s).0 refl)
    ∙ with_name-risk s n zs

pub parse_cell_meta-format_cell_meta :
    (s : CellState) (n : ℕ) (narrative : Text)
    → is_short n ≡ true
    → ((parse_cell_meta (format_cell_meta s (pos n) narrative)).cell_state ≡ s)
      × ((parse_cell_meta (format_cell_meta s (pos n) narrative)).risk_score ≡ n)
unfolding parse_cell_meta format_cell_meta
parse_cell_meta-format_cell_meta s n narrative h =
    let body = 32 ∷ or_recorded (strip narrative) in
    let (zs, kept) = kept_start 2048 (tag s (pos n)) 93 body (tag-length s n h) in
    let meta = meta_of (take 2048 (tag s (pos n) ++ 93 ∷ body)) in
    let read = ap match_meta kept ∙ match_meta-tag s n zs in
    (ap (λ m. (meta m).cell_state) read ∙ word-state s, ap (λ m. (meta m).risk_score) read)
