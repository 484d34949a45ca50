-- ===== src/Learning/Release/Immutable.antt =====
-- The published releases of learning/release.py stay as they are.
use mathlib.Core.Path.{subst}
use ayran.Prelude.{
  String, ◌≡◌, refl, sym, ap, ◌∙◌, inl, inr, Bool, true, false, none, some, arith, if◌then◌else◌,
  Bool-cases,
}
use ayran.Prelude.Text.{lookup, insert, lookup-insert, str_eq, eq_iff}
use ayran.Learning.Release.{is_published, pointing, publish_release, Manifest, Root}

fresh_differs :
    (id j : String) (m : Manifest) (root : Root)
    → is_published id root ≡ false
    → lookup j root.releases ≡ some m
    → str_eq id j ≡ false
unfolding is_published
fresh_differs id j m root fresh e = elim (Bool-cases (str_eq id j)) [
  | inl here ↦
      let found : lookup id root.releases ≡ some m =
        subst (λ k. lookup k root.releases ≡ some m) (sym ((eq_iff id j).0 here)) e in
      absurd (ground (arith, found, fresh))
  | inr there ↦ there
]

pointing-releases :
    (switch : Bool) (id : String) (root : Root)
    → (if switch then pointing id root else root).releases ≡ root.releases
pointing-releases true id root = refl
pointing-releases false id root = refl

written :
    (published : Bool) (x after : Root)
    → (if published then none else some x) ≡ some after
    → (published ≡ false) × (x ≡ after)
written true x after e = absurd (ground arith)
written false x after e = (refl, cc)

-- Publishing a release changes none that is published: every manifest that could be loaded is loaded
-- the same afterwards.
pub publish_keeps :
    (id j : String) (m n : Manifest) (switch : Bool) (root after : Root)
    → publish_release id m switch root ≡ some after
    → lookup j root.releases ≡ some n
    → lookup j after.releases ≡ some n
unfolding publish_release
publish_keeps id j m n switch root after e old =
    let published = record root { releases = insert id m root.releases } in
    let (fresh, same_root) =
      written (is_published id root) (if switch then pointing id published else published) after
        e in
    let other = fresh_differs id j n root fresh old in
    ap (λ r. lookup j r.releases) (sym same_root)
    ∙ ap (lookup j) (pointing-releases switch id published)
    ∙ lookup-insert id j m root.releases
    ∙ ap (λ b. if b then some m else lookup j root.releases) other
    ∙ old
