-- ===== src/Gates/Credentials.antt =====
-- skills/ayran/src/ayran/gates/credentials.py: `CredentialAuthority`. HMAC-SHA256, base64url and JSON
-- are the parameter `Codec`; the clock and the random token identifier are arguments; times, which
-- the code keeps as floats and only adds and compares, are natural numbers.
pub mod SingleUse
pub mod Minting
pub mod Roles
use ayran.Prelude.{
  ℕ, ◌+◌, String, ◌≡◌, Bool, true, false, not, Option, none, some, List, [], ◌∷◌, ◌++◌, leb, ◌==◌,
  if◌then◌else◌, any,
}
use ayran.Prelude.Text.{codes, Text, eq_text, le_text, elem, str_eq}

-- The claims of a token's body. A missing number is 0, a missing text is empty, and the writer is the
-- list of its entries, which are written in the order of their keys.
pub record Claims : Type 0 where
  pub jti : String
  pub iat : ℕ
  pub exp : ℕ
  pub grants : List String
  pub writer : List (String × String)
  pub child_id : String
  pub session : String

abbrev pub full_stop : ℕ
full_stop = 46

-- What the code relies on: signatures of a key over a body, and a body that is decoded to the claims
-- that were encoded. `decode` gives `none` for what is no JSON object. Neither base64url without
-- padding nor lowercase hexadecimal has a full stop.
pub record Codec : Type 1 where
  pub Key : Type 0
  pub sign : Key → Text → Text
  pub encode : Claims → Text
  pub decode : Text → Option Claims
  pub decode-encode : (c : Claims) → decode (encode c) ≡ some c
  pub encode-plain : (c : Claims) → any (λ x. x == full_stop) (encode c) ≡ false
  pub sign-plain : (k : Key) (body : Text) → any (λ x. x == full_stop) (sign k body) ≡ false

pub data Reason : Type 0 where
  malformed signature_invalid revoked expired grant_mismatch bound_id_mismatch : Reason

pub data Result {ℓ} (A : Type ℓ) : Type ℓ where
  ok : A → Result A
  refused : Reason → Result A

-- The text before the first full stop and the text behind it.
unfoldable pub cut : Text → Option (Text × Text)
cut [] = none
cut (c ∷ s) =
    let rest = cut s in
    if c == full_stop
    then some ([], s)
    else elim rest [ none ↦ none | some (a, b) ↦ some (c ∷ a, b) ]

-- `token.split(".", 1)` if `token.count(".") == 1`.
abbrev two_parts : Option (Text × Text) → Option (Text × Text)
two_parts none = none
two_parts (some (body, signature)) =
    if any (λ x. x == full_stop) signature then none else some (body, signature)

unfoldable pub parts : Text → Option (Text × Text)
unfolding cut
parts token = two_parts (cut token)

-- `sorted(grants)`.
insert_sorted : String → List String → List String
unfolding le_text
insert_sorted g [] = g ∷ []
insert_sorted g (h ∷ hs) =
    if le_text (codes g) (codes h) then g ∷ h ∷ hs else h ∷ insert_sorted g hs

unfoldable pub sorted : List String → List String
unfolding insert_sorted
sorted [] = []
sorted (g ∷ gs) = insert_sorted g (sorted gs)

abbrev pub lacks_grant : Option String → Claims → Bool
lacks_grant none c = false
lacks_grant (some g) c = not (elem g c.grants)

abbrev pub other_child : Option String → Claims → Bool
other_child none c = false
other_child (some k) c = not (str_eq c.child_id k)

module _ (codec : Codec) where
  open codec use {Key, sign, encode, decode}

  -- The state of a `CredentialAuthority`.
  pub record Authority : Type 0 where
    pub key : Key
    pub ttl_seconds : ℕ
    pub used : List String
    pub revoked_ids : List String

  -- What `mint` is asked for; `jti` is `secrets.token_hex(8)`.
  pub record Order : Type 0 where
    pub jti : String
    pub grants : List String
    pub writer : List (String × String)
    pub child_id : String
    pub session : String
    pub ttl_seconds : Option ℕ

  abbrev lifetime : Authority → Option ℕ → ℕ
  lifetime a none = a.ttl_seconds
  lifetime a (some n) = n

  -- The claims that `mint` writes.
  unfoldable pub claims_of : Authority → ℕ → Order → Claims
  unfolding sorted
  claims_of a now o = record {
    jti = o.jti;
    iat = now;
    exp = now + lifetime a o.ttl_seconds;
    grants = sorted o.grants;
    writer = o.writer;
    child_id = o.child_id;
    session = o.session;
  }

  -- `mint`.
  unfoldable pub mint : Authority → ℕ → Order → Text
  mint a now o = let body = encode (claims_of a now o) in body ++ full_stop ∷ sign a.key body

  -- The identifier that a payload must have.
  abbrev identified : Claims → Result Claims
  identified c = if str_eq c.jti "" then refused malformed else ok c

  abbrev decoded : Option Claims → Result Claims
  decoded none = refused malformed
  decoded (some c) = identified c

  -- The signature is checked before the body is read.
  abbrev opened : Authority → Option (Text × Text) → Result Claims
  opened a none = refused malformed
  opened a (some (body, signature)) =
      if not (eq_text signature (sign a.key body))
      then refused signature_invalid
      else decoded (decode body)

  -- The tests of `verify` on the claims.
  unfoldable pub examine : Authority → ℕ → Option String → Option String → Claims → Result Claims
  examine a now grant child_id c =
      if elem c.jti a.revoked_ids
      then refused revoked
      else if leb c.exp now
      then refused expired
      else if elem c.jti a.used
      then refused revoked
      else if lacks_grant grant c
      then refused grant_mismatch
      else if other_child child_id c
      then refused bound_id_mismatch
      else ok c

  abbrev examined :
      Authority
      → ℕ
      → Option String
      → Option String
      → Bool
      → Result Claims
      → Authority × Result Claims
  examined a now grant child_id consume (refused r) = (a, refused r)
  examined a now grant child_id consume (ok c) = elim (examine a now grant child_id c) [
    | refused r ↦ (a, refused r)
    | ok d ↦ (if consume then record a { used = d.jti ∷ a.used } else a, ok d)
  ]

  -- `verify`.
  unfoldable pub verify :
      Authority → ℕ → Text → Option String → Option String → Bool → Authority × Result Claims
  unfolding parts eq_text
  verify a now token grant child_id consume =
      examined a now grant child_id consume (opened a (parts token))

  abbrev retire : Authority → Option Claims → Authority
  retire a none = a
  retire a (some c) =
      if str_eq c.jti "" then a else record a { revoked_ids = c.jti ∷ a.revoked_ids }

  -- `token.split(".", 1)[0]`.
  abbrev head_part : Text → Option (Text × Text) → Text
  head_part token none = token
  head_part token (some (body, rest)) = body

  -- `revoke`; it reads the body without a look at the signature.
  unfoldable pub revoke : Authority → Text → Authority
  unfolding cut
  revoke a token = retire a (decode (head_part token (cut token)))

  -- `consume`: a `verify` with no grant and no child, and then the use.
  unfoldable pub consume : Authority → ℕ → Text → Authority × Result Claims
  consume a now token = verify a now token none none true
