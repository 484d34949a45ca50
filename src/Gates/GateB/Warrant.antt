-- ===== src/Gates/GateB/Warrant.antt =====
-- What a pinned defect of gate_b.py rests on, in each profile.
use ayran.Prelude.{
  ◌≡◌, refl, ◌↔◌, Bool, true, false, not, Option, none, [], arith, if◌then◌else◌, is_empty,
}
use ayran.Prelude.Text.{Text}
use ayran.Evidence.Types.{lead, observed, defect_pinned, falsified, needs_reformulation, reported}
use ayran.Evidence.Machine.{or_lead}
use ayran.Gates.Mechanical.{
  detect_forgery, Block, Slot, RunResult, Verdict, defect_pinned, needs_reformulation, falsified,
}
use ayran.Gates.Mechanical.Pinning.{pinned_iff, PinnedBy}
use ayran.Gates.GateB.{
  blocks_of, expected_replay_hash, match_test_of, refused, reported, is_governed, governed_report,
  is_state, runs_of, classified, executed_report, violations_of, executable, run_gate_b, Request,
  Report, Outcome, gate_precondition, evidence_ceiling, obligation_forgery_rejected,
}

-- A report of a pinned defect.
abbrev pub pins : Outcome → Bool
pins (refused c) = false
pins (reported r) = elim r.verdict [ defect_pinned ↦ true | _ ↦ false ]

is_pinned : (v : Verdict) → (elim v [ defect_pinned ↦ true | _ ↦ false ]) ≡ true → v ≡ defect_pinned
is_pinned defect_pinned h = refl
is_pinned needs_reformulation h = absurd (ground arith)
is_pinned falsified h = absurd (ground arith)

-- The tests of the executable profile, on their values.
passed_tests :
    (seen weak forged violating : Bool) (governed blocked done : Report)
    → blocked.verdict ≡ needs_reformulation
    → pins (
        if not seen
        then refused gate_precondition
        else if weak
        then refused evidence_ceiling
        else if false
        then reported governed
        else if not forged
        then refused obligation_forgery_rejected
        else if not violating
        then reported blocked
        else reported done)
      ≡ true
    → (seen ≡ true)
      × (weak ≡ false)
      × (forged ≡ true)
      × (violating ≡ true)
      × (done.verdict ≡ defect_pinned)
passed_tests false _ _ _ _ _ _ e h = absurd (ground arith)
passed_tests true true _ _ _ _ _ e h = absurd (ground arith)
passed_tests true false false _ _ _ _ e h = absurd (ground arith)
passed_tests true false true false g b d e h = absurd (ground arith)
passed_tests true false true true g b d e h = (refl, refl, refl, refl, is_pinned d.verdict h)

module _ (lower : Text → Text) (execute : Slot → Option Block → RunResult) where
  -- The grounds of a pinned defect under the executable profile.
  pub record Warrant (r : Request) : Type 0 where
    pub was_observed : is_state observed (or_lead r.status) ≡ true
    pub not_lead : is_state lead (or_lead r.grade) ≡ false
    pub unforged : is_empty (detect_forgery (blocks_of r)) ≡ true
    pub in_scope : is_empty (violations_of lower r) ≡ true
    pub evidence :
        PinnedBy (blocks_of r) (runs_of execute r) (match_test_of r) (expected_replay_hash r)

  -- The steps of the executable profile that a pinned report has passed.
  passed_checks :
      (r : Request)
      → is_governed r.profile ≡ false
      → pins (run_gate_b lower execute r) ≡ true
      → (is_state observed (or_lead r.status) ≡ true)
        × (is_state lead (or_lead r.grade) ≡ false)
        × (is_empty (detect_forgery (blocks_of r)) ≡ true)
        × (is_empty (violations_of lower r) ≡ true)
        × ((classified execute r).verdict ≡ defect_pinned)
  unfolding run_gate_b executable executed_report
  passed_checks r g h =
      passed_tests (is_state observed (or_lead r.status)) (is_state lead (or_lead r.grade))
        (is_empty (detect_forgery (blocks_of r))) (is_empty (violations_of lower r))
        (governed_report r)
        (record {
          verdict = needs_reformulation;
          pinned = false;
          krait_stamp = none;
          order = [];
          violations = violations_of lower r;
        })
        (executed_report execute r) refl (rw g at h)

  warranted :
      (r : Request)
      → is_governed r.profile ≡ false
      → pins (run_gate_b lower execute r) ≡ true
      → Warrant r
  unfolding classified
  warranted r g h =
      let (a, b, c, d, e) = passed_checks r g h in
      record {
        was_observed = a;
        not_lead = b;
        unforged = c;
        in_scope = d;
        evidence =
            (pinned_iff (blocks_of r) (runs_of execute r) (match_test_of r)
                (expected_replay_hash r)).0
              e;
      }

  pins_from :
      (r : Request)
      → is_governed r.profile ≡ false
      → Warrant r
      → pins (run_gate_b lower execute r) ≡ true
  unfolding run_gate_b executable executed_report classified
  pins_from r g w =
      let e : (classified execute r).verdict ≡ defect_pinned =
        (pinned_iff (blocks_of r) (runs_of execute r) (match_test_of r) (expected_replay_hash r)).1
          w.evidence in
      rw (w.was_observed, w.not_lead, g, w.unforged, w.in_scope, e) refl

pub gate_b_pins_iff :
    (lower : Text → Text) (execute : Slot → Option Block → RunResult) (r : Request)
    → is_governed r.profile ≡ false
    → (pins (run_gate_b lower execute r) ≡ true) ↔ Warrant lower execute r
gate_b_pins_iff lower execute r g = (warranted lower execute r g, pins_from lower execute r g)

-- No run is made for a request whose patch leaves its scope, whatever the runner: the outcome of
-- Gate B is the same for any two runners.
pub scope_before_runs :
    (lower : Text → Text) (execute other : Slot → Option Block → RunResult) (r : Request)
    → is_empty (violations_of lower r) ≡ false
    → run_gate_b lower execute r ≡ run_gate_b lower other r
unfolding run_gate_b executable
scope_before_runs lower execute other r h = rw h refl
