-- ===== src/Gates/GateB/Executed.antt =====
-- What Gate B asks of the blocks of a payload: an executed block for each run, or, under the governed
-- profile, the flags of the five required blocks.
use ayran.Prelude.{
  String, ◌≡◌, refl, ap, ◌↔◌, Bool, true, false, not, ◌&&◌, Option, none, some, List, [], ◌∷◌,
  arith, if◌then◌else◌, any, every, keep, is_empty,
}
use ayran.Prelude.Text.{Text}
use ayran.Evidence.Payload.{Payload, get, is_true}
use ayran.Evidence.Types.{lead, observed, defect_pinned, needs_reformulation, reported}
use ayran.Evidence.Machine.{or_lead}
use ayran.Gates.Mechanical.{
  Blocks, slot_obligations, is_executed, head, run_slot, execute_runs, Obligation, Block, Slot,
  RunResult, replay, patched, revert_mutation, defect_pinned, needs_reformulation,
}
use ayran.Gates.GateB.{
  blocks_of, evaluate_obligation, evaluate_obligations, required, decide_verdict, refused, reported,
  unstamped, is_governed, governed_report, is_state, runs_of, run_gate_b, Request,
  gate_precondition, evidence_ceiling,
}
use ayran.Gates.GateB.Warrant.{pins, gate_b_pins_iff}

any_kept :
    (p : Obligation → Bool) (os : List Obligation) → is_empty (keep p os) ≡ false → any p os ≡ true
any_kept p [] h = absurd (ground arith)
any_kept p (o ∷ os) h = ground (arith, any_kept p os)

ran_kept :
    (execute : Slot → Option Block → RunResult) (blocks : Blocks) (slot : Slot)
    (kept : List Obligation) (x : RunResult)
    → run_slot execute blocks slot (head kept) ≡ some x
    → is_empty kept ≡ false
ran_kept execute blocks slot [] x h = absurd (ground arith)
ran_kept execute blocks slot (o ∷ os) x h = refl

-- A run that exists was asked for by a block with a command and an exit code.
pub run_executed :
    (execute : Slot → Option Block → RunResult) (blocks : Blocks) (slot : Slot) (x : RunResult)
    → execute_runs execute blocks slot ≡ some x
    → any (λ o. is_executed (blocks o)) (slot_obligations slot) ≡ true
unfolding execute_runs
run_executed execute blocks slot x h =
    any_kept (λ o. is_executed (blocks o)) (slot_obligations slot)
      (ran_kept execute blocks slot (keep (λ o. is_executed (blocks o)) (slot_obligations slot)) x
        h)

-- A defect pinned under the executable profile has, for each of the three runs, a block with both a
-- command and an exit code.
pub pinned_executed :
    (lower : Text → Text) (execute : Slot → Option Block → RunResult) (r : Request)
    → is_governed r.profile ≡ false
    → pins (run_gate_b lower execute r) ≡ true
    → (slot : Slot) → any (λ o. is_executed (blocks_of r o)) (slot_obligations slot) ≡ true
unfolding runs_of
pinned_executed lower execute r g h replay =
    let e = ((gate_b_pins_iff lower execute r g).0 h).evidence in
    run_executed execute (blocks_of r) replay e.replayed e.at_replay
pinned_executed lower execute r g h patched =
    let e = ((gate_b_pins_iff lower execute r g).0 h).evidence in
    run_executed execute (blocks_of r) patched e.controlled e.at_patched
pinned_executed lower execute r g h revert_mutation =
    let e = ((gate_b_pins_iff lower execute r g).0 h).evidence in
    run_executed execute (blocks_of r) revert_mutation e.reverted e.at_revert

-- The flag that the governed profile reads of a block.
abbrev pub attests : Option Payload → Bool
attests none = false
attests (some p) = is_true (get p "passed") && not (is_true (get p "wrong_reason"))

attests-passed : (b : Option Payload) → (evaluate_obligation b).passed ≡ attests b
unfolding evaluate_obligation
attests-passed none = refl
attests-passed (some p) = refl

kept_every :
    (p : String → Bool) (xs : List String) → is_empty (keep (λ x. not (p x)) xs) ≡ every p xs
kept_every p [] = refl
kept_every p (x ∷ xs) = ground (arith, kept_every p xs)

-- The five flags that are looked up are those of the blocks.
decide_attests :
    (blocks : String → Option Payload)
    → decide_verdict (evaluate_obligations blocks) ≡ (
        if every (λ name. attests (blocks name)) required
        then defect_pinned
        else needs_reformulation)
unfolding decide_verdict evaluate_obligations
decide_attests blocks =
    rw
      (
        attests-passed (blocks "numerical_assertions"),
        attests-passed (blocks "defect_removal"),
        attests-passed (blocks "fix_efficacy"),
        attests-passed (blocks "independent_skeptic"),
        attests-passed (blocks "feasibility_scope_severity"),
      )
      (ap (λ b. if b then defect_pinned else needs_reformulation)
        (kept_every (λ name. attests (blocks name)) required))

-- The tests of the governed profile, on their values.
governed_tests :
    (seen weak allowed attested : Bool)
    → (pins (
          if not seen
          then refused gate_precondition
          else if weak
          then refused evidence_ceiling
          else reported (
              if allowed
              then unstamped (if attested then defect_pinned else needs_reformulation)
              else unstamped needs_reformulation))
        ≡ true)
      ↔ ((seen ≡ true) × (weak ≡ false) × (allowed ≡ true) × (attested ≡ true))
governed_tests false _ _ _ = (λ h. absurd (ground arith), λ t. absurd (ground (arith, t.0)))
governed_tests true true _ _ = (λ h. absurd (ground arith), λ t. absurd (ground (arith, t.1)))
governed_tests true false false _ = (λ h. absurd (ground arith), λ t. absurd (ground (arith, t.2)))
governed_tests true false true false =
    (λ h. absurd (ground arith), λ t. absurd (ground (arith, t.3)))
governed_tests true false true true = (λ h. (refl, refl, refl, refl), λ t. refl)

-- Under the governed profile, Gate B pins a defect exactly when the hypothesis is observed and its
-- grade is not `lead`, the contest policy allows a proof, and each of the five required blocks
-- claims a pass and no wrong reason; the other four obligations may be unspecified.
pub governed_pins_iff :
    (lower : Text → Text) (execute : Slot → Option Block → RunResult) (r : Request)
    → is_governed r.profile ≡ true
    → (pins (run_gate_b lower execute r) ≡ true) ↔ (
        (is_state observed (or_lead r.status) ≡ true)
        × (is_state lead (or_lead r.grade) ≡ false)
        × (r.contest_policy_allows_proof ≡ true)
        × (every (λ name. attests (r.blocks name)) required ≡ true))
unfolding run_gate_b governed_report
governed_pins_iff lower execute r g =
    rw (g, decide_attests r.blocks)
      (governed_tests (is_state observed (or_lead r.status)) (is_state lead (or_lead r.grade))
        r.contest_policy_allows_proof (every (λ name. attests (r.blocks name)) required))
