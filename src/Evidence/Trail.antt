-- ===== src/Evidence/Trail.antt =====
-- skills/ayran/src/ayran/evidence/service.py: `transition` and `_apply_local`, which put an accepted
-- decision into the hypothesis record. The graph store is left out: a refused transition raises
-- before anything is stored. `content_id` (a hash over sha256) and Python's `str` of a JSON value
-- are parameters.
pub mod Ladder
pub mod Moves
pub mod Ceiling
use ayran.Prelude.{
  ℕ, zero, suc, String, not, ◌&&◌, Option, some, List, [], ◌∷◌, ◌++◌, if◌then◌else◌,
}
use ayran.Prelude.Text.{elem, str_eq}
use ayran.Evidence.Types.{Status, supported, duplicate_known_issue, known}
use ayran.Evidence.Payload.{
  Payload, get, truthy, Value, Items, Fields, str, arr, obj, nil, cons, end, field,
}
use ayran.Evidence.Machine.{require, Hypothesis, Reason, Decision, Outcome, granted, raised}

-- An entry of `transition_history`; of the actor its kind is kept.
pub record Entry : Type 0 where
  pub from : Status
  pub to : Status
  pub event_id : String
  pub actor : String
  pub at : String
  pub evidence_ids : List String

-- The fields of the hypothesis record that a transition reads or writes.
pub record Dossier : Type 0 where
  pub hypothesis : Hypothesis
  pub hypothesis_id : String
  pub created_at : String
  pub history : List Entry
  pub invariant_ids : List String
  pub attack_path : List String
  pub target_entities : List String
  pub duplicate_candidate_ids : List String

-- A call of `transition`.
pub record Request : Type 0 where
  pub target : Status
  pub actor : String
  pub evidence : Payload
  pub cause : Option String

-- `xs[:n]`.
unfoldable pub take {ℓ} : {A : Type ℓ} → ℕ → List A → List A
take zero xs = []
take (suc n) [] = []
take (suc n) (x ∷ xs) = x ∷ take n xs

-- `s[:n]`.
unfoldable pub clip : ℕ → String → String
clip zero s = ""
clip (suc n) String.[] = ""
clip (suc n) (String.◌∷◌ c s) = String.◌∷◌ c (clip n s)

id_items : Items → List String
id_items nil = []
id_items (cons (str s) vs) = s ∷ id_items vs
id_items (cons v vs) = id_items vs

chars : String → List String
chars String.[] = []
chars (String.◌∷◌ c s) = String.◌∷◌ c "" ∷ chars s

keys : Fields → List String
keys end = []
keys (field k v fs) = k ∷ keys fs

-- `[str(item) for item in (evidence.get("evidence_ids") or []) if isinstance(item, str)]`, which
-- walks the characters of a text and the keys of an object. (It raises on a number or `True`.)
evidence_refs : Value → List String
unfolding id_items chars keys
evidence_refs (arr vs) = id_items vs
evidence_refs (str s) = chars s
evidence_refs (obj fs) = keys fs
evidence_refs _ = []

module _ (content_id : String → List String → String) (text : Value → String)
    (reason_text : Reason → String) (state_text : Status → String) where
  -- The branch of `_apply_local` for a move to `supported`.
  support : Dossier → Payload → Dossier
  unfolding take clip get truthy
  support d p =
      let ids : List String =
        if truthy (get p "invariant")
        then take 256 (content_id "inv" (text (get p "invariant") ∷ []) ∷ [])
        else d.invariant_ids in
      let path : List String =
        if truthy (get p "path")
        then take 64 (clip 512 (text (get p "path")) ∷ d.attack_path)
        else d.attack_path in
      let span = content_id "nod" (text (get p "source_span") ∷ []) in
      let entities : List String =
        if truthy (get p "source_span")
        then take 256
            (if elem span d.target_entities then d.target_entities else span ∷ d.target_entities)
        else d.target_entities in
      record d { invariant_ids = ids; attack_path = path; target_entities = entities }

  -- The branch for a move to `duplicate_known_issue`.
  mark_duplicate : Dossier → Payload → Dossier
  unfolding take get truthy
  mark_duplicate d p =
      let known_as = if truthy (get p "duplicate_of") then text (get p "duplicate_of") else "" in
      let ids = d.duplicate_candidate_ids in
      let more : List String =
        if not (str_eq known_as "") && not (elem known_as ids) then ids ++ known_as ∷ [] else ids in
      record d { duplicate_candidate_ids = take 256 more }

  abbrev for_target : Status → Dossier → Payload → Dossier
  for_target (known supported) d p = support d p
  for_target (known duplicate_known_issue) d p = mark_duplicate d p
  for_target _ d p = d

  -- `_apply_local`.
  unfoldable pub apply_local : Dossier → Decision → String → Payload → String → Dossier
  unfolding take get evidence_refs support mark_duplicate
  apply_local d decision actor p created_at =
      let event_id = content_id "evt" (
        d.hypothesis_id
        ∷ state_text decision.current
        ∷ state_text decision.target
        ∷ reason_text decision.reason
        ∷ []) in
      let entry : Entry = record {
        from = decision.current;
        to = decision.target;
        event_id = event_id;
        actor = actor;
        at = created_at;
        evidence_ids = take 256 (evidence_refs (get p "evidence_ids"));
      } in
      for_target decision.target
        (record d {
          hypothesis = record {
            status = some decision.target;
            evidence_grade = some decision.next_grade;
          };
          history = take 128 (d.history ++ entry ∷ []);
        })
        p

  -- What `transition` does with the outcome of `require`: a refusal is raised, and changes nothing.
  abbrev settle : Dossier → Request → Outcome → Dossier × Outcome
  settle d r (granted decision) =
      (apply_local d decision r.actor r.evidence d.created_at, granted decision)
  settle d r (raised code decision) = (d, raised code decision)

  -- `transition`, on the record that the store holds.
  unfoldable pub transition : Dossier → Request → Dossier × Outcome
  transition d r = settle d r (require d.hypothesis r.target r.actor r.evidence r.cause)

  -- A sequence of calls, whatever the outcome of each.
  unfoldable pub run : Dossier → List Request → Dossier
  run d [] = d
  run d (r ∷ rs) = run (transition d r).0 rs
