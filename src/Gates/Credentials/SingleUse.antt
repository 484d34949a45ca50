-- ===== src/Gates/Credentials/SingleUse.antt =====
-- A credential of credentials.py grants one submission.
use ayran.Prelude.{
  ℕ, ◌<◌, String, ◌≡◌, refl, sym, ap, ◌∙◌, ◌≢◌, ◌⊎◌, inl, inr, Bool, true, false, ◌||◌, Option,
  none, some, List, [], ◌∷◌, arith, if◌then◌else◌,
}
use ayran.Prelude.Text.{Text, elem, str_eq, eq_refl}
use ayran.Gates.Credentials.{
  ok, refused, cut, parts, lacks_grant, other_child, opened, examine, examined, verify, retire,
  head_part, revoke, consume, Claims, Codec, Reason, Result, Authority,
}
use mathlib.Core.Path.{subst}

true_and_false : {b : Bool} → b ≡ true → b ≡ false → ⊥
true_and_false p q = cc

pub ok-injective : {a b : Claims} → ok a ≡ ok b → a ≡ b
ok-injective e = cc

module _ (codec : Codec) where
  -- A call on the authority, with the time at which it is made.
  pub data Call : Type 0 where
    verifying : ℕ → Text → Option String → Option String → Bool → Call
    revoking : Text → Call
    consuming : ℕ → Text → Call

  pub step : Authority codec → Call → Authority codec
  step a (verifying now token grant child_id consume) =
      (verify codec a now token grant child_id consume).0
  step a (revoking token) = revoke codec a token
  step a (consuming now token) = (consume codec a now token).0

  pub run : Authority codec → List (Call) → Authority codec
  run a [] = a
  run a (c ∷ cs) = run (step a c) cs

  -- An identifier that was used or revoked.
  unfoldable pub spent : Authority codec → String → Bool
  spent a jti = elem jti a.used || elem jti a.revoked_ids

  -- What a successful `verify` has checked.
  pub record Verified (a : Authority codec) (now : ℕ) (token : Text)
      (grant child_id : Option String) (c : Claims) : Type 0 where
    pub reads : opened codec a (parts token) ≡ ok c
    pub fresh : spent a c.jti ≡ false
    pub in_time : now < c.exp
    pub granted : lacks_grant grant c ≡ false
    pub bound : other_child child_id c ≡ false

  examine-ok :
      (a : Authority codec) (now : ℕ) (grant child_id : Option String) (c d : Claims)
      → examine codec a now grant child_id c ≡ ok d
      → (c ≡ d)
        × (spent a c.jti ≡ false)
        × (now < c.exp)
        × (lacks_grant grant c ≡ false)
        × (other_child child_id c ≡ false)
  unfolding examine spent
  examine-ok a now grant child_id c d h =
      (ground arith, ground arith, ground arith, ground arith, ground arith)

  Result-cases :
      (r : Result Claims) → ((c : Claims) × (r ≡ ok c)) ⊎ ((x : Reason) × (r ≡ refused x))
  Result-cases (ok c) = inl (c, refl)
  Result-cases (refused x) = inr (x, refl)

  examine-same :
      (a : Authority codec) (now : ℕ) (grant child_id : Option String) (c d : Claims)
      → examine codec a now grant child_id c ≡ ok d
      → examine codec a now grant child_id c ≡ ok c
  examine-same a now grant child_id c d h =
      h ∙ ap (λ (x : Claims). ok x) (sym (examine-ok a now grant child_id c d h).0)

  examined-ok :
      (a : Authority codec) (now : ℕ) (grant child_id : Option String) (consume : Bool)
      (r : Result Claims) (b : Authority codec) (c : Claims)
      → examined codec a now grant child_id consume r ≡ (b, ok c)
      → (r ≡ ok c)
        × (examine codec a now grant child_id c ≡ ok c)
        × (b ≡ (if consume then record a { used = c.jti ∷ a.used } else a))
  examined-ok a now grant child_id consume (refused x) b c h = absurd (ground arith)
  examined-ok a now grant child_id consume (ok e) b c h =
      elim (Result-cases (examine codec a now grant child_id e)) [
        | inl (d, k) ↦
            let same_claims = (examine-ok a now grant child_id e d k).0 in
            let k' = examine-same a now grant child_id e d k in
            let e_is_c : e ≡ c = same_claims ∙ ground (arith, k, h) in
            (
              ap (λ (x : Claims). ok x) e_is_c,
              subst (λ (x : Claims). examine codec a now grant child_id x ≡ ok x) e_is_c k',
              ground (arith, k, h, e_is_c, same_claims),
            )
        | inr (x, k) ↦ absurd (ground arith)
      ]

  -- A `verify` that succeeds has read the claims from a body with the key's signature; they are
  -- neither used nor revoked, not expired, and carry the grant and the child that it asked for. It
  -- marks them as used if it was told to consume, and else changes nothing.
  pub verify-Verified :
      (a : Authority codec) (now : ℕ) (token : Text) (grant child_id : Option String)
      (consume : Bool) (b : Authority codec) (c : Claims)
      → verify codec a now token grant child_id consume ≡ (b, ok c)
      → Verified a now token grant child_id c
        × (b ≡ (if consume then record a { used = c.jti ∷ a.used } else a))
  unfolding verify
  verify-Verified a now token grant child_id consume b c h =
      let (r, e, s) =
        examined-ok a now grant child_id consume (opened codec a (parts token)) b c h in
      let (_, fresh, in_time, granted, bound) = examine-ok a now grant child_id c c e in
      (record { reads = r; fresh = fresh; in_time = in_time; granted = granted; bound = bound }, s)

  -- Whatever a call does, the key stays and what is spent stays spent.
  pub record Later (a b : Authority codec) : Type 0 where
    pub key : b.key ≡ a.key
    pub spent_stays : (jti : String) → spent a jti ≡ true → spent b jti ≡ true

  Later-refl : (a : Authority codec) → Later a a
  Later-refl a = record { key = refl; spent_stays = λ jti h. h }

  Later-used : (a : Authority codec) (j : String) → Later a (record a { used = j ∷ a.used })
  unfolding spent
  Later-used a j = record { key = refl; spent_stays = λ jti h. ground arith }

  Later-revoked :
      (a : Authority codec) (j : String) → Later a (record a { revoked_ids = j ∷ a.revoked_ids })
  unfolding spent
  Later-revoked a j = record { key = refl; spent_stays = λ jti h. ground arith }

  Later-if :
      (a b c : Authority codec) (t : Bool) → Later a b → Later a c → Later a (if t then b else c)
  Later-if a b c true p q = p
  Later-if a b c false p q = q

  Later-examined :
      (a : Authority codec) (now : ℕ) (grant child_id : Option String) (consume : Bool)
      (r : Result Claims)
      → Later a (examined codec a now grant child_id consume r).0
  Later-examined a now grant child_id consume (refused x) = Later-refl a
  Later-examined a now grant child_id consume (ok c) =
      elim (Result-cases (examine codec a now grant child_id c)) [
        | inl (d, k) ↦ rw (k, examined) (Later-if a _ a consume (Later-used a d.jti) (Later-refl a))
        | inr (x, k) ↦ rw (k, examined) (Later-refl a)
      ]

  Later-retire : (a : Authority codec) (o : Option Claims) → Later a (retire codec a o)
  Later-retire a none = Later-refl a
  Later-retire a (some c) = Later-if a a _ (str_eq c.jti "") (Later-refl a) (Later-revoked a c.jti)

  step-Later : (a : Authority codec) (c : Call) → Later a (step a c)
  unfolding step verify revoke consume
  step-Later a (verifying now token grant child_id consume) =
      Later-examined a now grant child_id consume (opened codec a (parts token))
  step-Later a (revoking token) = Later-retire a (codec.decode (head_part codec token (cut token)))
  step-Later a (consuming now token) =
      Later-examined a now none none true (opened codec a (parts token))

  pub run-Later : (a : Authority codec) (cs : List Call) → Later a (run a cs)
  unfolding run
  run-Later a [] = Later-refl a
  run-Later a (c ∷ cs) =
      let first = step-Later a c in
      let rest = run-Later (step a c) cs in
      record {
        key = rest.key ∙ first.key;
        spent_stays = λ jti h. rest.spent_stays jti (first.spent_stays jti h);
      }

  pub opened-key :
      (a b : Authority codec) (o : Option (Text × Text))
      → b.key ≡ a.key
      → opened codec b o ≡ opened codec a o
  opened-key a b none e = refl
  opened-key a b (some (body, signature)) e = rw e

  used_is_spent :
      (a : Authority codec) (jti : String) → spent (record a { used = jti ∷ a.used }) jti ≡ true
  unfolding spent
  used_is_spent a jti = rw eq_refl

  -- A token that a `verify` has consumed is never verified again: not after any further calls, at
  -- whatever time, for whatever grant and child, consuming or not.
  pub single_use :
      (a : Authority codec) (now : ℕ) (token : Text) (grant child_id : Option String)
      (b : Authority codec) (c : Claims)
      → verify codec a now token grant child_id true ≡ (b, ok c)
      → (cs : List Call) (now' : ℕ) (grant' child_id' : Option String) (consume' : Bool)
        (b' : Authority codec) (c' : Claims)
      → verify codec (run b cs) now' token grant' child_id' consume' ≢ (b', ok c')
  single_use a now token grant child_id b c h cs now' grant' child_id' consume' b' c' h' =
      let (first, after) = verify-Verified a now token grant child_id true b c h in
      let (second, _) = verify-Verified (run b cs) now' token grant' child_id' consume' b' c' h' in
      let later = run-Later b cs in
      let same_key : (run b cs).key ≡ a.key =
        later.key ∙ ap (λ (x : Authority codec). x.key) after in
      let same_claims : ok c' ≡ ok c =
        sym second.reads ∙ opened-key a (run b cs) (parts token) same_key ∙ first.reads in
      let spent_c : spent (run b cs) c.jti ≡ true = later.spent_stays c.jti (
        subst (λ (x : Authority codec). spent x c.jti ≡ true) (sym after)
          (used_is_spent a c.jti)) in
      true_and_false spent_c (
        subst (λ (x : Claims). spent (run b cs) x.jti ≡ false) (ok-injective same_claims)
          second.fresh)
