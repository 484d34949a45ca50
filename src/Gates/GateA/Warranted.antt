-- ===== src/Gates/GateA/Warranted.antt =====
-- What stands behind a verdict of `run_gate_a` in gates/gate_a.py.
use ayran.Prelude.{
  ℕ, suc, ◌≤◌, ◌<◌, ◌≡◌, refl, sym, ap, ◌∙◌, Bool, true, false, not, ◌&&◌, ◌||◌, Option, none, some,
  List, [], ◌∷◌, arith, length, any, is_empty, All,
}
use ayran.Prelude.Text.{Text}
use ayran.Evidence.Payload.{Payload, get, Value}
use ayran.Evidence.Types.{same, State, lead, supported, needs_reformulation}
use ayran.Evidence.Machine.{or_lead}
use ayran.Evidence.Trail.{take}
use ayran.Gates.GateB.{is_state}
use ayran.Gates.GateA.{
  judged, refused, ◌>>=◌, demand, decision_of, as_object, as_list, as_bool, is_absent,
  experiment_fields, optional_bool, text_or_blank, stripped, boolean_of, precondition_in,
  precondition_of, preconditions_of, experiment_of, floored, with_experiment, with_verdict,
  validate_object, validate_submission, has_override, allows_others, is_stamped, run_gate_a,
  Refusal, Judged, Precondition, Normalized, Challenge, verdict_override, gate_precondition,
  evidence_ceiling, submission_invalid,
}
use mathlib.Core.Path.{subst}

bind_judged {ℓ κ} :
    {A : Type ℓ} {B : Type κ} (c : Judged A) (f : A → Judged B) (y : B)
    → (c >>= f) ≡ judged y
    → (x : A) × (c ≡ judged x) × (f x ≡ judged y)
bind_judged (judged x) f y h = (x, refl, h)
bind_judged (refused e) f y h = cc

demand_judged {ℓ} :
    {A : Type ℓ} (b : Bool) (e : Refusal) (next : Judged A) (y : A)
    → demand b e next ≡ judged y
    → (b ≡ true) × (next ≡ judged y)
demand_judged true e next y h = (refl, h)
demand_judged false e next y h = cc

judged-injective {ℓ} : {A : Type ℓ} (x y : A) → judged x ≡ judged y → x ≡ y
judged-injective x y h = cc

-- What is done where there is a value.
given_judged {ℓ κ} :
    {A : Type ℓ} {B : Type κ} (o : Option A) (e : Refusal) (f : A → Judged B) (y : B)
    → (elim o as (λ _. Judged B) [ none ↦ refused e | some x ↦ f x ]) ≡ judged y
    → (x : A) × (o ≡ some x) × (f x ≡ judged y)
given_judged none e f y h = cc
given_judged (some x) e f y h = (x, refl, h)

module _ (text_of : Value → Text) where
  abbrev pub IsFull : Precondition → Type 0
  IsFull c = (is_empty c.dimension ≡ false) × (is_empty c.detail ≡ false)

  take-full : (n : ℕ) (t : Text) → not (is_empty t) ≡ true → is_empty (take (suc n) t) ≡ false
  unfolding take
  take-full n [] h = cc
  take-full n (c ∷ t) h = refl

  precondition_in-IsFull :
      (p : Payload) (c : Precondition) → precondition_in text_of p ≡ judged c → IsFull c
  unfolding precondition_in
  precondition_in-IsFull p c h =
      let dimension = stripped text_of (get p "dimension") in
      let detail = stripped text_of (get p "detail") in
      let (full, h1) =
        demand_judged (not (is_empty dimension) && not (is_empty detail)) submission_invalid _ c
          h in
      let (present, is_bool, h2) =
        bind_judged (boolean_of text_of (as_bool (get p "present"))) _ c h1 in
      let (can, optional, h3) = bind_judged (optional_bool (get p "attacker_can_create")) _ c h2 in
      let same = judged-injective _ c h3 in
      (
        ap (λ c. is_empty c.dimension) (sym same) ∙ take-full 255 dimension (ground arith),
        ap (λ c. is_empty c.detail) (sym same) ∙ take-full 1023 detail (ground arith),
      )

  precondition_of-IsFull :
      (v : Value) (c : Precondition) → precondition_of text_of v ≡ judged c → IsFull c
  unfolding precondition_of
  precondition_of-IsFull v c h =
      let (p, is_object, h1) =
        given_judged (as_object v) submission_invalid (precondition_in text_of) c h in
      precondition_in-IsFull p c h1

  preconditions_of-IsFull :
      (vs : List Value) (cs : List Precondition)
      → preconditions_of text_of vs ≡ judged cs
      → All IsFull cs × (length cs ≡ length vs)
  unfolding preconditions_of
  preconditions_of-IsFull [] cs h =
      subst (λ cs. All IsFull cs × (length cs ≡ 0)) (judged-injective [] cs h) (tt, refl)
  preconditions_of-IsFull (v ∷ vs) cs h =
      let (c, one, h1) = bind_judged (precondition_of text_of v) _ cs h in
      let (rest, more, h2) = bind_judged (preconditions_of text_of vs) _ cs h1 in
      let (full, same) = preconditions_of-IsFull vs rest more in
      subst (λ cs. All IsFull cs × (length cs ≡ suc (length vs)))
        (judged-injective (c ∷ rest) cs h2) ((precondition_of-IsFull v c one, full), ap suc same)

  floored_lem :
      (invariant : Text) (v : State)
      → (length invariant < 12 → floored text_of invariant v ≡ needs_reformulation)
        × (12 ≤ length invariant → floored text_of invariant v ≡ v)
  floored_lem invariant v = (λ h. ground (arith, h), λ h. ground (arith, h))

  -- A normalized submission against the object it is made of: its verdict is the one submitted, or
  -- needs_reformulation where the invariant has fewer than twelve characters; the invariant, the benign
  -- explanation and every precondition kept are written out; and no field of the experiment is absent.
  pub record IsComplete (p : Payload) (n : Normalized) : Type 0 where
    pub verdict :
        (v : State) × (decision_of (text_or_blank text_of (get p "verdict")) ≡ some v)
        × (let invariant = stripped text_of (get p "violated_invariant") in
            (length invariant < 12 → n.verdict ≡ needs_reformulation)
            × (12 ≤ length invariant → n.verdict ≡ v))
    pub invariant : is_empty n.violated_invariant ≡ false
    pub benign : is_empty n.strongest_benign_explanation ≡ false
    pub preconditions : All IsFull n.preconditions
    pub some_precondition : is_empty n.preconditions ≡ false
    pub experiment :
        (e : Payload) × (as_object (get p "cheapest_decisive_experiment") ≡ some e)
        × (any (λ f. is_absent (get e f)) experiment_fields ≡ false)

  full_length :
      (vs : List Value) (cs : List Precondition)
      → not (is_empty vs) ≡ true
      → length cs ≡ length (take 64 vs)
      → is_empty cs ≡ false
  unfolding take
  full_length [] cs h same = cc
  full_length (v ∷ vs) [] h same = absurd (omega (arith, same))
  full_length (v ∷ vs) (c ∷ cs) h same = refl

  with_experiment-IsComplete :
      (p e : Payload) (v : State) (n : Normalized)
      → decision_of (text_or_blank text_of (get p "verdict")) ≡ some v
      → not (is_empty (stripped text_of (get p "violated_invariant"))) ≡ true
      → not (is_empty (stripped text_of (get p "strongest_benign_explanation"))) ≡ true
      → as_object (get p "cheapest_decisive_experiment") ≡ some e
      → with_experiment text_of p v e ≡ judged n
      → IsComplete p n
  unfolding with_experiment
  with_experiment-IsComplete p e v n decided invariant benign is_object h =
      let (all, h1) =
        demand_judged (not (any (λ f. is_absent (get e f)) experiment_fields)) submission_invalid _
          n h in
      let (some_there, h2) =
        demand_judged (not (is_empty (as_list (get p "preconditions")))) submission_invalid _ n
          h1 in
      let (cs, checked, h3) =
        bind_judged (preconditions_of text_of (take 64 (as_list (get p "preconditions")))) _ n h2 in
      let (x, sliced, h4) = bind_judged (experiment_of text_of e) _ n h3 in
      let (full, same) =
        preconditions_of-IsFull (take 64 (as_list (get p "preconditions"))) cs checked in
      subst (IsComplete p) (judged-injective _ n h4) (record {
        verdict = (v, decided, floored_lem (stripped text_of (get p "violated_invariant")) v);
        invariant = take-full 2047 (stripped text_of (get p "violated_invariant")) invariant;
        benign = take-full 2047 (stripped text_of (get p "strongest_benign_explanation")) benign;
        preconditions = full;
        some_precondition = full_length (as_list (get p "preconditions")) cs some_there same;
        experiment = (e, is_object, ground (arith, all));
      })

  validate_object-IsComplete :
      (p : Payload) (n : Normalized) → validate_object text_of p ≡ judged n → IsComplete p n
  unfolding validate_object with_verdict
  validate_object-IsComplete p n h =
      let (v, decided, h1) =
        given_judged (decision_of (text_or_blank text_of (get p "verdict"))) submission_invalid
          (with_verdict text_of p) n h in
      let (invariant, h2) =
        demand_judged (not (is_empty (stripped text_of (get p "violated_invariant"))))
          submission_invalid _ n h1 in
      let (benign, h3) =
        demand_judged (not (is_empty (stripped text_of (get p "strongest_benign_explanation"))))
          submission_invalid _ n h2 in
      let (e, is_object, h4) =
        given_judged (as_object (get p "cheapest_decisive_experiment")) submission_invalid
          (with_experiment text_of p v) n h3 in
      with_experiment-IsComplete p e v n decided invariant benign is_object h4

  -- The guards of the gate, and the submission behind its verdict.
  pub record IsWarranted (r : Challenge text_of) (n : Normalized) : Type 0 where
    pub no_override : has_override text_of r.analysis ≡ false
    pub admitted :
        (is_state supported (or_lead r.status) || allows_others text_of r.analysis) ≡ true
    pub above_lead : is_state lead (or_lead r.grade) ≡ false
    pub stamped : is_stamped text_of r.reviewer ≡ true
    pub complete :
        (s : Value) × (r.submission ≡ some s)
        × (p : Payload) × (as_object s ≡ some p)
        × IsComplete p n

  -- A verdict of `run_gate_a`: no verdict came with the analysis; the hypothesis is supported, or the
  -- analysis allows another status, and its grade is above lead; the reviewer has an identity; and the
  -- verdict is that of the submission, or needs_reformulation where the invariant has fewer than twelve
  -- characters. The submission has an invariant, a benign explanation, an experiment without an absent
  -- field, and at least one precondition, each with its dimension and its detail.
  pub run_gate_a-IsWarranted :
      (r : Challenge text_of) (n : Normalized) → run_gate_a text_of r ≡ judged n → IsWarranted r n
  unfolding run_gate_a
  run_gate_a-IsWarranted r n h =
      let (clean, h1) =
        demand_judged (not (has_override text_of r.analysis)) verdict_override _ n h in
      let (may, h2) =
        demand_judged (is_state supported (or_lead r.status) || allows_others text_of r.analysis)
          gate_precondition _ n h1 in
      let (above, h3) =
        demand_judged (not (is_state lead (or_lead r.grade))) evidence_ceiling _ n h2 in
      let (s, submitted, h4) =
        given_judged r.submission submission_invalid
          (λ s.
            demand (is_stamped text_of r.reviewer) submission_invalid
              (validate_submission text_of s))
          n h3 in
      let (stamp, h5) = demand_judged (is_stamped text_of r.reviewer) submission_invalid _ n h4 in
      let (p, is_object, h6) =
        given_judged (as_object s) submission_invalid (validate_object text_of) n h5 in
      record {
        no_override = ground (arith, clean);
        admitted = may;
        above_lead = ground (arith, above);
        stamped = stamp;
        complete = (s, submitted, p, is_object, validate_object-IsComplete p n h6);
      }
