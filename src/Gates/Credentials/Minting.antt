-- ===== src/Gates/Credentials/Minting.antt =====
-- What `mint` of credentials.py writes, `verify` reads.
use ayran.Prelude.{
  ℕ, ◌+◌, ◌<◌, String, ◌≡◌, refl, Bool, true, false, ◌||◌, some, List, [], ◌∷◌, ◌++◌, arith, ◌==◌,
  any,
}
use ayran.Prelude.Text.{Text, eq_text_refl, elem, str_eq, eq_refl}
use ayran.Gates.Credentials.{
  full_stop, ok, cut, parts, insert_sorted, sorted, lifetime, claims_of, mint, opened, examine,
  examined, verify, consume, Codec, Authority, Order,
}
use ayran.Gates.Credentials.SingleUse.{spent}

abbrev has_stop : Text → Bool
has_stop = any (λ x. x == full_stop)

cut-append :
    (body signature : Text)
    → has_stop body ≡ false
    → cut (body ++ full_stop ∷ signature) ≡ some (body, signature)
unfolding cut
cut-append [] signature h = refl
cut-append (c ∷ body) signature h = ground (arith, cut-append body signature)

parts-append :
    (body signature : Text)
    → has_stop body ≡ false
    → has_stop signature ≡ false
    → parts (body ++ full_stop ∷ signature) ≡ some (body, signature)
unfolding parts
parts-append body signature h k = rw (cut-append body signature h, k)

elem-insert_sorted :
    (g h : String) (hs : List String) → elem g (insert_sorted h hs) ≡ (str_eq h g || elem g hs)
unfolding insert_sorted
elem-insert_sorted g h [] = refl
elem-insert_sorted g h (k ∷ ks) = ground (arith, elem-insert_sorted g h ks)

pub elem-sorted : (g : String) (gs : List String) → elem g (sorted gs) ≡ elem g gs
unfolding sorted
elem-sorted g [] = refl
elem-sorted g (h ∷ hs) = rw (elem-insert_sorted, elem-sorted g hs)

module _ (codec : Codec) (a : Authority codec) (now : ℕ) (o : Order codec) where
  pub opened-mint :
      str_eq o.jti "" ≡ false
      → opened codec a (parts (mint codec a now o)) ≡ ok (claims_of codec a now o)
  unfolding mint claims_of
  opened-mint named = rw (
    parts-append _ _ (codec.encode-plain _) (codec.sign-plain _ _),
    eq_text_refl,
    codec.decode-encode,
    named,
  )

  examine-mint :
      (at : ℕ) (grant : String)
      → spent codec a o.jti ≡ false
      → elem grant o.grants ≡ true
      → at < now + lifetime codec a o.ttl_seconds
      → examine codec a at (some grant) (some o.child_id) (claims_of codec a now o)
        ≡ ok (claims_of codec a now o)
  unfolding examine claims_of spent
  examine-mint at grant fresh granted early =
      ground (arith, elem-sorted grant o.grants, eq_refl o.child_id)

  -- A minted token with a name that is neither used nor revoked is verified until it expires, for
  -- each of its grants and for its child, and yields the claims that were minted.
  pub verify-mint :
      (at : ℕ) (grant : String) (consume : Bool)
      → str_eq o.jti "" ≡ false
      → spent codec a o.jti ≡ false
      → elem grant o.grants ≡ true
      → at < now + lifetime codec a o.ttl_seconds
      → (verify codec a at (mint codec a now o) (some grant) (some o.child_id) consume).1
        ≡ ok (claims_of codec a now o)
  unfolding verify
  verify-mint at grant consume named fresh granted early =
      rw (opened-mint named, examine-mint at grant fresh granted early, examined)
