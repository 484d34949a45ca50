-- ===== src/Learning/Release/Rollback.antt =====
-- The current pointer of the Learning releases under the rollback of learning/rollback.py.
use ayran.Prelude.{
  String, ◌≡◌, refl, inl, inr, Bool, true, false, Option, none, some, arith, if◌then◌else◌,
  Bool-cases,
}
use ayran.Prelude.Text.{lookup, insert, lookup-insert, str_eq, eq_refl}
use ayran.Learning.Release.{
  is_published, pointing, publish_release, switch_pointer, restore_id, record_rollback,
  rollback_from, rollback, Manifest, Pointer, Root,
}
use mathlib.Core.Path.{subst}

-- The pointer, where there is one, names a published release.
abbrev pub points_inside : Root → Option Pointer → Bool
points_inside root none = true
points_inside root (some p) = is_published p.release_id root

unfoldable pub is_sound : Root → Bool
is_sound root = points_inside root root.current

pub is_published-insert :
    (id j : String) (m : Manifest) (root : Root)
    → is_published j root ≡ true
    → is_published j (record root { releases = insert id m root.releases }) ≡ true
unfolding is_published
is_published-insert id j m root h = elim (Bool-cases (str_eq id j)) [
  | inl here ↦ rw (lookup-insert id j m root.releases, here) refl
  | inr there ↦ rw (lookup-insert id j m root.releases, there) h
]

abbrev holds_in : (Root → Bool) → Option Root → Bool
holds_in p none = true
holds_in p (some root) = p root

-- A property of the root that an operation writes, read off its result.
carried :
    (p : Root → Bool) (fails : Bool) (x after : Root)
    → p x ≡ true
    → (if fails then none else some x) ≡ some after
    → p after ≡ true
carried p true x after h e = absurd (ground arith)
carried p false x after h e = subst (λ o. holds_in p o ≡ true) e h

published_now :
    (id : String) (m : Manifest) (root : Root)
    → is_published id (record root { releases = insert id m root.releases }) ≡ true
unfolding is_published
published_now id m root = rw (lookup-insert id id m root.releases, eq_refl id) refl

inserted-is_sound :
    (id : String) (m : Manifest) (switch : Bool) (root : Root)
    → is_sound root ≡ true
    → let published = record root { releases = insert id m root.releases } in
      is_sound (if switch then pointing id published else published) ≡ true
unfolding is_sound is_published
inserted-is_sound id m true root h = published_now id m root
inserted-is_sound id m false root h =
    elim root.current
        as (λ o.
          points_inside root o ≡ true
          → points_inside (record root { releases = insert id m root.releases }) o ≡ true) [
            | none ↦ λ g. refl
            | some p ↦ λ g. is_published-insert id p.release_id m root g
          ]
      h

-- Publishing a release keeps the pointer on a published release.
pub publish-is_sound :
    (id : String) (m : Manifest) (switch : Bool) (root after : Root)
    → is_sound root ≡ true
    → publish_release id m switch root ≡ some after
    → is_sound after ≡ true
unfolding publish_release
publish-is_sound id m switch root after h e =
    carried is_sound (is_published id root)
      (if switch
        then pointing id (record root { releases = insert id m root.releases })
        else record root { releases = insert id m root.releases })
      after (inserted-is_sound id m switch root h) e

switched_if :
    (p : Root → Bool) (works : Bool) (x after : Root)
    → (works ≡ true → p x ≡ true)
    → (if works then some x else none) ≡ some after
    → p after ≡ true
switched_if p true x after h e = subst (λ o. holds_in p o ≡ true) e (h refl)
switched_if p false x after h e = absurd (ground arith)

-- A pointer that was switched names a published release.
pub switch-is_sound :
    (id : String) (root after : Root) → switch_pointer id root ≡ some after → is_sound after ≡ true
unfolding switch_pointer is_sound is_published
switch-is_sound id root after e =
    switched_if is_sound (is_published id root) (pointing id root) after (λ h. h) e

recorded-is_sound :
    (id : String) (m : Manifest) (switched : Root) (o : Option Root)
    → publish_release id m false switched ≡ o
    → is_sound switched ≡ true
    → is_sound (elim o as (λ _. Bool × Root) [ none ↦ (false, switched) | some r ↦ (true, r) ]).1
      ≡ true
recorded-is_sound id m switched none e h = h
recorded-is_sound id m switched (some r) e h = publish-is_sound id m false switched r h e

record-is_sound :
    (id target : String) (m : Manifest) (root : Root) (o : Option Root)
    → switch_pointer target root ≡ o
    → is_sound root ≡ true
    → is_sound (record_rollback id m o root).1 ≡ true
record-is_sound id target m root none e h = h
record-is_sound id target m root (some switched) e h =
    recorded-is_sound id m switched (publish_release id m false switched) refl
      (switch-is_sound target root switched e)

rollback_from-is_sound :
    (rollback_id : String → String → String) (release : String) (o : Option Manifest) (root : Root)
    → is_sound root ≡ true
    → is_sound (rollback_from rollback_id release o root).1 ≡ true
rollback_from-is_sound rollback_id release none root h = h
rollback_from-is_sound rollback_id release (some m) root h =
    let target = restore_id m root in
    elim (str_eq target "")
      as (λ b.
        is_sound
          (if b
            then (false, root)
            else record_rollback (rollback_id release target)
                (record {
                  candidates = m.candidates;
                  prior_pointer = release;
                  rollback_pointer = target;
                })
                (switch_pointer target root) root).1
        ≡ true) [
          | true ↦ h
          | false ↦
              record-is_sound (rollback_id release target) target
                (record {
                  candidates = m.candidates;
                  prior_pointer = release;
                  rollback_pointer = target;
                })
                root (switch_pointer target root) refl h
        ]

-- A rollback, even one that fails, keeps the pointer on a published release.
pub rollback-is_sound :
    (rollback_id : String → String → String) (release : String) (root : Root)
    → is_sound root ≡ true
    → is_sound (rollback rollback_id release root).1 ≡ true
unfolding rollback
rollback-is_sound rollback_id release root h =
    rollback_from-is_sound rollback_id release (lookup release root.releases) root h
