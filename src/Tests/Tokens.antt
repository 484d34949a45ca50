-- ===== src/Tests/Tokens.antt =====
-- A codec for the tokens of skills/ayran/src/ayran/gates/credentials.py: claims as numbers above that
-- of the full stop, and a signature that shifts the body.
use ayran.Prelude.{
  ℕ, zero, suc, ◌+◌, ◌-◌, String, ◌≡◌, refl, ap, ◌∙◌, false, Option, none, some, List, [], ◌∷◌,
  arith, ◌==◌, if◌then◌else◌, length, any,
}
use ayran.Prelude.Text.{Text}
use ayran.Gates.Credentials.{full_stop, Claims, Codec}
use Prim.Native.Nat.{compare, Ordering}
use Prim.Native.Char.{Char, char, code, IsLt, IsScalar}

abbrev Both : Ordering → Ordering → Type 0
Both Ordering.lt o = IsLt o
Both Ordering.eq _ = ⊥
Both Ordering.gt _ = ⊥

abbrev Scalar : Ordering → Ordering → Ordering → Type 0
Scalar Ordering.lt _ _ = Unit
Scalar Ordering.eq o p = Both o p
Scalar Ordering.gt o p = Both o p

abbrev as_lt : (o : Ordering) → Option (IsLt o)
as_lt Ordering.lt = some tt
as_lt Ordering.eq = none
as_lt Ordering.gt = none

abbrev as_both : (o p : Ordering) → Option (Both o p)
as_both Ordering.lt p = as_lt p
as_both Ordering.eq p = none
as_both Ordering.gt p = none

abbrev as_scalar : (o p q : Ordering) → Option (Scalar o p q)
as_scalar Ordering.lt p q = some tt
as_scalar Ordering.eq p q = as_both p q
as_scalar Ordering.gt p q = as_both p q

as_lt-found : (o : Ordering) (h : IsLt o) → as_lt o ≡ some h
as_lt-found Ordering.lt h = refl
as_lt-found Ordering.eq h = absurd h
as_lt-found Ordering.gt h = absurd h

as_both-found : (o p : Ordering) (h : Both o p) → as_both o p ≡ some h
as_both-found Ordering.lt p h = as_lt-found p h
as_both-found Ordering.eq p h = absurd h
as_both-found Ordering.gt p h = absurd h

as_scalar-found : (o p q : Ordering) (h : Scalar o p q) → as_scalar o p q ≡ some h
as_scalar-found Ordering.lt p q h = refl
as_scalar-found Ordering.eq p q h = as_both-found p q h
as_scalar-found Ordering.gt p q h = as_both-found p q h

abbrev named : (n : ℕ) → Option (IsScalar n) → Option Char
named n none = none
named n (some h) = some (char n h)

unfoldable pub of_code : ℕ → Option Char
of_code n = named n (as_scalar (compare n 55296) (compare 57343 n) (compare n 1114112))

of_code-code : (c : Char) → of_code (code c) ≡ some c
unfolding of_code
of_code-code (char n h) =
    ap (named n) (as_scalar-found (compare n 55296) (compare 57343 n) (compare n 1114112) h)

abbrev Read : Type 0 → Type 0
Read A = Option (A × Text)

unfoldable pub write_string : String → Text → Text
write_string String.[] rest = 47 ∷ rest
write_string (String.◌∷◌ c s) rest = (code c + 48) ∷ write_string s rest

abbrev push : Option Char → Read String → Read String
push none r = none
push (some c) none = none
push (some c) (some (s, rest)) = some (String.◌∷◌ c s, rest)

unfoldable pub read_string : Text → Read String
read_string [] = none
read_string (x ∷ xs) =
    let later = read_string xs in if x == 47 then some ("", xs) else push (of_code (x - 48)) later

read-write_string : (s : String) (rest : Text) → read_string (write_string s rest) ≡ some (s, rest)
unfolding read_string write_string
read-write_string String.[] rest = refl
read-write_string (String.◌∷◌ c s) rest =
    let back : (code c + 48) - 48 ≡ code c = omega arith in
    let other : ((code c + 48) == 47) ≡ false = ground arith in
    rw (other, back, of_code-code c, read-write_string s rest) refl

plain-write_string :
    (s : String) (rest : Text)
    → any (λ x. x == full_stop) (write_string s rest) ≡ any (λ x. x == full_stop) rest
unfolding write_string
plain-write_string String.[] rest = refl
plain-write_string (String.◌∷◌ c s) rest = ground (arith, plain-write_string s rest)

abbrev write_number : ℕ → Text → Text
write_number n rest = (n + 47) ∷ rest

abbrev read_number : Text → Read ℕ
read_number [] = none
read_number (x ∷ xs) = some (x - 47, xs)

back_47 : (n : ℕ) → (n + 47) - 47 ≡ n
back_47 n = omega arith

not_stop : (n : ℕ) → ((n + 47) == full_stop) ≡ false
not_stop n = ground arith

unfoldable pub write_all : List String → Text → Text
write_all [] rest = rest
write_all (s ∷ ss) rest = write_string s (write_all ss rest)

abbrev then_more : String → Read (List String) → Read (List String)
then_more s none = none
then_more s (some (ss, rest)) = some (s ∷ ss, rest)

abbrev read_then : (Text → Read (List String)) → Read String → Read (List String)
read_then more none = none
read_then more (some (s, rest)) = then_more s (more rest)

unfoldable pub read_all : ℕ → Text → Read (List String)
read_all zero xs = some ([], xs)
read_all (suc n) xs = read_then (read_all n) (read_string xs)

read-write_all :
    (ss : List String) (rest : Text) → read_all (length ss) (write_all ss rest) ≡ some (ss, rest)
unfolding read_all write_all
read-write_all [] rest = refl
read-write_all (s ∷ ss) rest =
    ap (read_then (read_all (length ss))) (read-write_string s (write_all ss rest))
    ∙ ap (then_more s) (read-write_all ss rest)

plain-write_all :
    (ss : List String) (rest : Text)
    → any (λ x. x == full_stop) (write_all ss rest) ≡ any (λ x. x == full_stop) rest
unfolding write_all
plain-write_all [] rest = refl
plain-write_all (s ∷ ss) rest = plain-write_string s (write_all ss rest) ∙ plain-write_all ss rest

unfoldable pub flatten : List (String × String) → List String
flatten [] = []
flatten ((k, v) ∷ ps) = k ∷ v ∷ flatten ps

unfoldable pub pair_up : List String → List (String × String)
pair_up [] = []
pair_up (k ∷ []) = []
pair_up (k ∷ v ∷ ss) = (k, v) ∷ pair_up ss

pair_up-flatten : (ps : List (String × String)) → pair_up (flatten ps) ≡ ps
unfolding pair_up flatten
pair_up-flatten [] = refl
pair_up-flatten ((k, v) ∷ ps) = ap (λ qs. (k, v) ∷ qs) (pair_up-flatten ps)

abbrev heads : Claims → List String
heads c = c.jti ∷ c.child_id ∷ c.session ∷ []

-- The numbers and the lengths first, then every text.
abbrev write_claims : Claims → Text
write_claims c = write_number c.iat (
    write_number c.exp (
      write_number (length c.grants) (
        write_number (length (flatten c.writer))
          (write_all (heads c) (write_all c.grants (write_all (flatten c.writer) []))))))

abbrev claims_from : ℕ → ℕ → List String → List String → List String → Option Claims
claims_from iat exp (jti ∷ child ∷ session ∷ []) grants writer = some (record {
  jti = jti;
  iat = iat;
  exp = exp;
  grants = grants;
  writer = pair_up writer;
  child_id = child;
  session = session;
})
claims_from iat exp _ grants writer = none

abbrev with_rest : (List String → Text → Option Claims) → Read (List String) → Option Claims
with_rest k none = none
with_rest k (some (ss, rest)) = k ss rest

abbrev read_parts : ℕ → ℕ → ℕ → ℕ → Text → Option Claims
read_parts iat exp g w xs =
    with_rest
      (λ hs after_heads.
        with_rest
          (λ gs after_grants.
            with_rest (λ ws rest. claims_from iat exp hs gs ws) (read_all w after_grants))
          (read_all g after_heads))
      (read_all 3 xs)

unfoldable pub read_claims : Text → Option Claims
read_claims (iat ∷ exp ∷ g ∷ w ∷ xs) = read_parts (iat - 47) (exp - 47) (g - 47) (w - 47) xs
read_claims _ = none

pub read-write_claims : (c : Claims) → read_claims (write_claims c) ≡ some c
unfolding read_claims
read-write_claims c =
    let last = write_all (flatten c.writer) [] in
    let middle = write_all c.grants last in
    let first : read_all 3 (write_all (heads c) middle) ≡ some (heads c, middle) =
      read-write_all (heads c) middle in
    rw
      (
        back_47 c.iat,
        back_47 c.exp,
        back_47 (length c.grants),
        back_47 (length (flatten c.writer)),
        first,
        read-write_all c.grants last,
        read-write_all (flatten c.writer) [],
        pair_up-flatten c.writer,
      )
      refl

pub plain-write_claims : (c : Claims) → any (λ x. x == full_stop) (write_claims c) ≡ false
plain-write_claims c =
    rw
      (
        not_stop c.iat,
        not_stop c.exp,
        not_stop (length c.grants),
        not_stop (length (flatten c.writer)),
      )
      (plain-write_all (heads c) (write_all c.grants (write_all (flatten c.writer) []))
        ∙ plain-write_all c.grants (write_all (flatten c.writer) [])
        ∙ plain-write_all (flatten c.writer) [])

unfoldable pub shift : Text → Text
shift [] = []
shift (x ∷ xs) = (x + 47) ∷ shift xs

pub plain-shift : (xs : Text) → any (λ x. x == full_stop) (shift xs) ≡ false
unfolding shift
plain-shift [] = refl
plain-shift (x ∷ xs) = rw (not_stop x) (plain-shift xs)

abbrev pub codec_one : Codec
codec_one = record {
  Key = ℕ;
  sign = λ k body. shift (k ∷ body);
  encode = write_claims;
  decode = read_claims;
  decode-encode = read-write_claims;
  encode-plain = plain-write_claims;
  sign-plain = λ k body. plain-shift (k ∷ body);
}
