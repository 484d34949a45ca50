-- ===== src/Learning/Release.antt =====
-- The releases of skills/ayran/src/ayran/learning/release.py and the rollback of
-- skills/ayran/src/ayran/learning/rollback.py: the published manifests and the current pointer on
-- disk. The contents of a release besides its pointers, and hashes, are left out; `content_id` is a
-- parameter.
pub mod Rollback
pub mod Immutable
use ayran.Prelude.{String, Bool, true, false, Option, none, some, List, if◌then◌else◌}
use ayran.Prelude.Text.{lookup, insert, str_eq}

-- `PromotionRelease`, as its manifest keeps it.
pub record Manifest : Type 0 where
  pub candidates : List String
  pub prior_pointer : String
  pub rollback_pointer : String

-- The file that names the current release, and the one before it.
pub record Pointer : Type 0 where
  pub release_id : String
  pub previous_release_id : String

-- The learning root: releases by id, the pointer, and the records of the active routing policy.
pub record Root : Type 0 where
  pub releases : List (String × Manifest)
  pub current : Option Pointer
  pub routing : List String

abbrev pub is_given : Option Manifest → Bool
is_given none = false
is_given (some m) = true

unfoldable pub is_published : String → Root → Bool
is_published id root = is_given (lookup id root.releases)

pub data Code : Type 0 where
  direct_mutation_denied redaction_incomplete fixtures_required contamination_blocked : Code
  ablation_failed promotion_denied review_incomplete release_unavailable : Code

abbrev pub id_of : Option Pointer → String
id_of none = ""
id_of (some p) = p.release_id

abbrev pub pointing : String → Root → Root
pointing id root = record root {
  current = some (record { release_id = id; previous_release_id = id_of root.current });
}

-- `publish_release`; `none` is the error that published releases are immutable.
unfoldable pub publish_release : String → Manifest → Bool → Root → Option Root
publish_release id manifest switch root =
    if is_published id root
    then none
    else let published = record root { releases = insert id manifest root.releases } in
      some (if switch then pointing id published else published)

-- `switch_pointer`, which needs the manifest of the release.
unfoldable pub switch_pointer : String → Root → Option Root
switch_pointer id root = if is_published id root then some (pointing id root) else none

abbrev pub or_text : String → String → String
or_text a b = if str_eq a "" then b else a

abbrev pub previous_of : Option Pointer → String
previous_of none = ""
previous_of (some p) = p.previous_release_id

-- The release that a rollback restores: the manifest's, or the one before the current one.
unfoldable pub restore_id : Manifest → Root → String
restore_id m root = or_text (or_text m.rollback_pointer m.prior_pointer) (previous_of root.current)

-- The rollback's own record, published once the pointer is switched.
abbrev pub record_rollback : String → Manifest → Option Root → Root → Bool × Root
record_rollback id m none before = (false, before)
record_rollback id m (some switched) before = elim (publish_release id m false switched) [
  | none ↦ (false, switched)
  | some recorded ↦ (true, recorded)
]

abbrev pub rollback_from :
    (String → String → String) → String → Option Manifest → Root → Bool × Root
rollback_from rollback_id release none root = (false, root)
rollback_from rollback_id release (some m) root =
    let target = restore_id m root in
    if str_eq target ""
    then (false, root)
    else record_rollback (rollback_id release target)
        (record { candidates = m.candidates; prior_pointer = release; rollback_pointer = target })
        (switch_pointer target root) root

-- `rollback`: whether it returns, and the root afterwards; `rollback_id` is the `content_id` of the
-- rollback of one release to another.
unfoldable pub rollback : (String → String → String) → String → Root → Bool × Root
unfolding publish_release switch_pointer restore_id
rollback rollback_id release root =
    rollback_from rollback_id release (lookup release root.releases) root
