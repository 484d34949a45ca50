-- ===== src/Gates/Patch.antt =====
-- `patch_scope_violations` of skills/ayran/src/ayran/gates/gate_b_mechanical.py: what a candidate patch
-- may touch. Python's `str.lower` is a parameter on code points; texts are lists of code points.
use ayran.Prelude.{
  String, ◌≡◌, refl, Bool, true, not, ◌&&◌, ◌||◌, Option, none, some, List, [], ◌∷◌, ◌++◌, map,
  arith, ◌==◌, if◌then◌else◌, any, keep, is_empty, All,
}
use ayran.Prelude.Text.{codes, Text, eq_text, starts_with}
use ayran.Policy.Path.{slash, forward, split}
use mathlib.Core.List.{reverse}

abbrev texts : List String → List Text
texts = map codes

abbrev pub forbidden_parts : List String
forbidden_parts =
    "test" ∷ "tests" ∷ "script" ∷ "scripts" ∷ "harness" ∷ "harnesses" ∷ "config" ∷ "configs" ∷ "ci"
    ∷ "mocks" ∷ []

abbrev pub forbidden_names : List String
forbidden_names =
    "foundry.toml" ∷ "remappings.txt" ∷ "makefile" ∷ "gas-snapshot.json" ∷ "coverage.json" ∷ []

abbrev pub forbidden_suffixes : List String
forbidden_suffixes = ".t.sol" ∷ ".toml" ∷ ".json" ∷ ".sh" ∷ ".js" ∷ ".ts" ∷ ".py" ∷ []

unfoldable pub among : Text → List String → Bool
unfolding eq_text
among s names = any (λ n. eq_text (codes n) s) names

unfoldable pub ends_with : Text → Text → Bool
ends_with s suffix = starts_with (reverse s) (reverse suffix)

drop_slashes : Text → Text
drop_slashes [] = []
drop_slashes (c ∷ s) = let rest = drop_slashes s in if c == slash then rest else c ∷ s

-- `raw_path.replace("\\", "/").strip("/")`.
unfoldable pub trim : Text → Text
unfolding drop_slashes
trim path = reverse (drop_slashes (reverse (drop_slashes (map forward path))))

-- The nonempty parts of a path, the last one first.
unfoldable pub parts_back : Text → List Text
unfolding split
parts_back path = reverse (keep (λ p. not (is_empty p)) (split path))

abbrev last_part : List Text → Text
last_part [] = []
last_part (p ∷ ps) = p

abbrev folders : List Text → List Text
folders [] = []
folders (p ∷ ps) = ps

pub data Violation : Type 0 where
  patch_required : Violation
  files_required : Violation
  not_an_object : Violation
  path_empty : Violation
  harness_path : Text → Violation
  not_source : Text → Violation
  outside_spans : Text → Violation

-- The three tests of a path, on its lower-case form.
unfoldable pub is_harness : Text → Bool
unfolding among parts_back
is_harness lowered =
    let parts = parts_back lowered in
    any (λ p. among p forbidden_parts) (folders parts) || among (last_part parts) forbidden_names

unfoldable pub is_no_source : Text → Bool
unfolding ends_with
is_no_source lowered = any (λ x. ends_with lowered (codes x)) forbidden_suffixes

module _ (lower : Text → Text) where
  unfoldable pub is_outside : List Text → Text → Bool
  unfolding eq_text
  is_outside allowed normalized =
      not (is_empty allowed)
      && not (any (eq_text normalized) allowed)
      && not (any (eq_text (lower normalized)) (map lower allowed))

  -- The loop body for one entry of the patch; `none` is an entry that is no object.
  unfoldable pub entry_violations : List Text → Option Text → List Violation
  unfolding trim is_harness is_no_source is_outside
  entry_violations allowed none = not_an_object ∷ []
  entry_violations allowed (some raw_path) =
      let normalized = trim raw_path in
      let lowered = lower normalized in
      if is_empty lowered
      then path_empty ∷ []
      else if is_harness lowered
      then harness_path raw_path ∷ []
      else if is_no_source lowered
      then not_source raw_path ∷ []
      else if is_outside allowed normalized
      then outside_spans raw_path ∷ []
      else []

  abbrev pub file_violations : List Text → List (Option Text) → List Violation
  file_violations allowed [] = []
  file_violations allowed (f ∷ fs) = entry_violations allowed f ++ file_violations allowed fs

  abbrev pub patch_violations : List Text → Option (List (Option Text)) → List Violation
  patch_violations allowed none = patch_required ∷ []
  patch_violations allowed (some []) = files_required ∷ []
  patch_violations allowed (some (f ∷ fs)) = file_violations allowed (f ∷ fs)

  -- The entries of `allowed_source_files` that are not empty.
  abbrev pub listed : List Text → List Text
  listed allowed = keep (λ t. not (is_empty t)) allowed

  -- `patch_scope_violations`; `pinning` says whether a control, removal or fix block was given, and
  -- the patch is its list of files, where it is an object. A patch whose files are no list counts as
  -- one with no files.
  unfoldable pub patch_scope_violations :
      Bool → List Text → Option (List (Option Text)) → List Violation
  patch_scope_violations pinning allowed patch =
      if not pinning then [] else patch_violations (listed allowed) patch

  both_empty :
      (vs ws : List Violation) → is_empty (vs ++ ws) ≡ true → (vs ≡ []) × (is_empty ws ≡ true)
  both_empty [] ws h = (refl, h)
  both_empty (v ∷ vs) ws h = absurd (ground arith)

  clean_files :
      (allowed : List Text) (fs : List (Option Text))
      → is_empty (file_violations allowed fs) ≡ true
      → All (λ x. entry_violations allowed x ≡ []) fs
  clean_files allowed [] h = tt
  clean_files allowed (f ∷ fs) h =
      let (here, there) = both_empty (entry_violations allowed f) (file_violations allowed fs) h in
      (here, clean_files allowed fs there)

  -- A patch that passes has files, and every file is a source path inside the claim's spans.
  pub clean_patch :
      (allowed : List Text) (patch : Option (List (Option Text)))
      → is_empty (patch_scope_violations true allowed patch) ≡ true
      → (f : Option Text) × (fs : List (Option Text)) × (patch ≡ some (f ∷ fs))
        × All (λ x. entry_violations (listed allowed) x ≡ []) (f ∷ fs)
  unfolding patch_scope_violations
  clean_patch allowed none h = absurd (ground arith)
  clean_patch allowed (some []) h = absurd (ground arith)
  clean_patch allowed (some (f ∷ fs)) h = (f, fs, refl, clean_files (listed allowed) (f ∷ fs) h)
