-- ===== src/Gates/Credentials/Roles.antt =====
-- The two kinds of token that gates/credentials.py hands out: `mint_session_writer` and
-- `mint_challenger`.
use ayran.Prelude.{ℕ, String, ◌≡◌, sym, ◌∙◌, Bool, true, false, Option, some, List, [], ◌∷◌, arith}
use ayran.Prelude.Text.{Text, elem, str_eq, eq_iff}
use ayran.Gates.Credentials.{
  ok, parts, sorted, other_child, claims_of, mint, verify, consume, Claims, Codec, Authority, Order,
}
use ayran.Gates.Credentials.SingleUse.{ok-injective, verify-Verified, opened-key}
use ayran.Gates.Credentials.Minting.{elem-sorted, opened-mint}
use mathlib.Core.Path.{subst}

pub data Role : Type 0 where
  session_writer challenger : Role

-- `CREDENTIAL_GRANT_REMEMBER` and `CREDENTIAL_GRANT_GATE_A`.
abbrev pub grant_of : Role → String
grant_of session_writer = "hypotheses.remember"
grant_of challenger = "gate_a_submission"

module _ (codec : Codec) where
  -- What each of them asks `mint` for.
  abbrev pub order_of : Role → String → List (String × String) → String → Option ℕ → Order codec
  order_of session_writer jti writer name ttl = record {
    jti = jti;
    grants = grant_of session_writer ∷ [];
    writer = writer;
    child_id = "";
    session = name;
    ttl_seconds = ttl;
  }
  order_of challenger jti writer name ttl = record {
    jti = jti;
    grants = grant_of challenger ∷ [];
    writer = [];
    child_id = name;
    session = "";
    ttl_seconds = ttl;
  }

  -- `mint_session_writer` and `mint_challenger`.
  unfoldable pub mint_for :
      Authority codec → ℕ → Role → String → List (String × String) → String → Option ℕ → Text
  unfolding mint
  mint_for a now role jti writer name ttl = mint codec a now (order_of role jti writer name ttl)

  -- What is verified of a minted token is what was minted, and its grant is one of those.
  verify_minted :
      (a b : Authority codec) (now at : ℕ) (o : Order codec) (grant : String)
      (child_id : Option String) (consume : Bool) (after : Authority codec) (c : Claims)
      → str_eq o.jti "" ≡ false
      → b.key ≡ a.key
      → verify codec b at (mint codec a now o) (some grant) child_id consume ≡ (after, ok c)
      → (elem grant o.grants ≡ true) × (other_child child_id (claims_of codec a now o) ≡ false)
  unfolding claims_of
  verify_minted a b now at o grant child_id consume after c named key h =
      let (checked, effect) =
        verify-Verified codec b at (mint codec a now o) (some grant) child_id consume after c h in
      let same : c ≡ claims_of codec a now o = ok-injective (
        sym checked.reads
        ∙ opened-key codec a b (parts (mint codec a now o)) key
        ∙ opened-mint codec a now o named) in
      let granted : elem grant (sorted o.grants) ≡ true =
        subst (λ (x : Claims). elem grant x.grants ≡ true) same (ground (arith, checked.granted)) in
      (
        sym (elem-sorted grant o.grants) ∙ granted,
        subst (λ x. other_child child_id x ≡ false) same checked.bound,
      )

  -- A token of `mint_session_writer` or `mint_challenger` with a name: under the same key, at any time
  -- and whatever was used or revoked before, a `verify` with a grant succeeds only for the grant of its
  -- role, hypotheses.remember or gate_a_submission, and, where it names a child, only for the token's.
  pub mint_for-grant_of :
      (a b : Authority codec) (now at : ℕ) (role : Role) (jti : String)
      (writer : List (String × String)) (name : String) (ttl : Option ℕ) (grant : String)
      (child_id : Option String) (consume : Bool) (after : Authority codec) (c : Claims)
      → str_eq jti "" ≡ false
      → b.key ≡ a.key
      → verify codec b at (mint_for a now role jti writer name ttl) (some grant) child_id consume
        ≡ (after, ok c)
      → (grant ≡ grant_of role)
        × (other_child child_id (claims_of codec a now (order_of role jti writer name ttl)) ≡ false)
  unfolding mint_for
  mint_for-grant_of a b now at session_writer jti writer name ttl grant child_id consume after c
        named key h =
      let (granted, bound) =
        verify_minted a b now at (order_of session_writer jti writer name ttl) grant child_id
          consume after c named key h in
      (sym ((eq_iff (grant_of session_writer) grant).0 (ground arith)), bound)
  mint_for-grant_of a b now at challenger jti writer name ttl grant child_id consume after c named
        key h =
      let (granted, bound) =
        verify_minted a b now at (order_of challenger jti writer name ttl) grant child_id consume
          after c named key h in
      (sym ((eq_iff (grant_of challenger) grant).0 (ground arith)), bound)
