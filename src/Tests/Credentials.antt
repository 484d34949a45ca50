-- ===== src/Tests/Credentials.antt =====
-- One token of skills/ayran/src/ayran/gates/credentials.py, minted, verified and used up.
use ayran.Prelude.{◌≡◌, refl, ◌≢◌, true, false, none, some, [], ◌∷◌, arith}
use ayran.Prelude.Text.{Text, eq_text}
use ayran.Gates.Credentials.{
  cut, parts, sorted, other_child, claims_of, mint, examine, verify, Claims, Authority, Order, ok,
}
use ayran.Gates.Credentials.SingleUse.{run, spent, single_use, revoking}
use ayran.Gates.Credentials.Minting.{verify-mint}
use ayran.Gates.Credentials.Roles.{grant_of, mint_for, mint_for-grant_of, challenger}
use ayran.Tests.Tokens.{
  of_code, write_string, read_string, write_all, read_all, flatten, pair_up, read_claims, shift,
  codec_one,
}

abbrev authority_one : Authority codec_one
authority_one = record { key = 5; ttl_seconds = 900; used = []; revoked_ids = [] }

abbrev order_one : Order codec_one
order_one = record {
  jti = "j1";
  grants = "remember" ∷ [];
  writer = ("kind", "model") ∷ [];
  child_id = "c1";
  session = "s1";
  ttl_seconds = none;
}

abbrev claims_one : Claims
claims_one = record {
  jti = "j1";
  iat = 100;
  exp = 1000;
  grants = "remember" ∷ [];
  writer = ("kind", "model") ∷ [];
  child_id = "c1";
  session = "s1";
}

abbrev token_one : Text
token_one = mint codec_one authority_one 100 order_one

abbrev used_up : Authority codec_one
used_up = record { key = 5; ttl_seconds = 900; used = "j1" ∷ []; revoked_ids = [] }

verify-mint_example :
    (verify codec_one authority_one 999 token_one (some "remember") (some "c1") true).1
    ≡ ok (claims_of codec_one authority_one 100 order_one)
unfolding spent
verify-mint_example =
    verify-mint codec_one authority_one 100 order_one 999 "remember" true refl refl refl
      (omega arith)

-- The run of the first use.
first_use :
    verify codec_one authority_one 200 token_one (some "remember") none true
    ≡ (used_up, ok claims_one)
unfolding verify mint claims_of sorted parts cut examine spent eq_text shift flatten write_all
    write_string read_claims read_all read_string of_code pair_up
first_use = refl

single_use_example :
    verify codec_one (run codec_one used_up (revoking [] ∷ [])) 300 token_one none none false
    ≢ (used_up, ok claims_one)
single_use_example =
    single_use codec_one authority_one 200 token_one (some "remember") none used_up claims_one
      first_use (revoking [] ∷ []) 300 none none false used_up claims_one

abbrev challenger_claims : Claims
challenger_claims = record {
  jti = "j2";
  iat = 100;
  exp = 160;
  grants = "gate_a_submission" ∷ [];
  writer = [];
  child_id = "c2";
  session = "";
}

mint_for-grant_of_example :
    (grant_of challenger ≡ grant_of challenger)
    × (other_child (some "c2") challenger_claims ≡ false)
unfolding verify mint_for mint claims_of sorted parts cut examine spent eq_text shift flatten
    write_all write_string read_claims read_all read_string of_code pair_up
mint_for-grant_of_example =
    mint_for-grant_of codec_one authority_one used_up 100 150 challenger "j2" [] "c2" (some 60)
      "gate_a_submission" (some "c2") false used_up challenger_claims refl refl refl
