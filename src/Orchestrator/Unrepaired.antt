-- ===== src/Orchestrator/Unrepaired.antt =====
-- Where the decision over the candidates raises (`_advance_candidates` of
-- src/application/orchestration/orchestrator.py): the table of src/domain/services/run_state_machine.py
-- has no move from coding to repairing.
use agentic_gpu_platform.Shared.{
  All, Bool, Bool-cases, List, String, [], any, any-first, arith, false, first-filled, inl, inr,
  none, refl, select, true, ℕ, ◌∷◌, ◌≡◌,
}
use agentic_gpu_platform.Enums.{RunStatus}
use agentic_gpu_platform.Errors.{Yields, Yields-value, invalid_run_transition, raise, settled}
use agentic_gpu_platform.Project.{Project, is_given}
use agentic_gpu_platform.Selection.{viable}
use agentic_gpu_platform.Job.{Job}
use agentic_gpu_platform.Run.{Run}
use agentic_gpu_platform.Run
use agentic_gpu_platform.RunMachine.{can, ensure}
use agentic_gpu_platform.Candidate.{Candidate}
use agentic_gpu_platform.Candidate
use agentic_gpu_platform.Validation.{ValidationReport}
use agentic_gpu_platform.Orchestrator.{
  OrchestratorConfig, Ports, Step, advance_candidates, is_validating, judge, next_of, next_stage,
  push_candidates, repair_or_fail, stage_is_configured,
}
use agentic_gpu_platform.Orchestrator.Pushing.{is_judged, is_open}

-- The project configures no command at all.
pub record IsUnconfigured (p : Project) : Type 0 where
  pub build : is_given p.toolchain.build_command ≡ false
  pub test : is_given p.toolchain.test_command ≡ false
  pub static_analysis : is_given p.toolchain.static_analysis_command ≡ false

no_stage : (p : Project) (v : ValidationReport) → IsUnconfigured p → next_stage p v ≡ none
unfolding next_stage next_of stage_is_configured
no_stage p v u = let a = u.build in let b = u.test in let c = u.static_analysis in ground arith

-- None of the candidates brought a change.
abbrev pub AreEmpty : List Candidate → Type 0
AreEmpty cs = All (λ (c : Candidate). Candidate.has_patch c ≡ false) cs

none_viable : (cs : List Candidate) → AreEmpty cs → viable (select is_judged cs) ≡ []
unfolding viable select
none_viable [] a = refl
none_viable (c ∷ cs) (e, a) = elim (Bool-cases (is_judged c)) [
  | inl x ↦ rw (x, e) (none_viable cs a)
  | inr x ↦ rw (x) (none_viable cs a)
]

recorded :
    (c : Candidate) (now : ℕ) (blocking : Bool)
    → is_validating c.status ≡ true
    → Candidate.has_patch c ≡ false
    → Yields
        (λ (d : Candidate). (is_judged d ≡ true) × (Candidate.has_patch d ≡ false))
        (settled (Candidate.record_validation c now none blocking))
unfolding settled Candidate.record_validation
recorded c now blocking e n = ground arith

module _ (ports : Ports) (cfg : OrchestratorConfig) (now : ℕ) where
  push_unconfigured :
      (p : Project) (r : Run) (cs : List Candidate) (drawn : ℕ)
      → IsUnconfigured p
      → AreEmpty cs
      → Yields
          (λ (q : List Candidate × List Job × ℕ).
            (q.1 ≡ []) × AreEmpty q.0 × (any is_open cs ≡ true → any is_judged q.0 ≡ true))
          (push_candidates ports cfg now p r cs drawn)
  unfolding push_candidates any
  push_unconfigured p r [] drawn u a = (refl, tt, λ x. x)
  push_unconfigured p r (c ∷ cs) drawn u (e, a) =
      let (q, later, (nothing, bare, judged)) =
        Yields-value (push_candidates ports cfg now p r cs drawn)
          (push_unconfigured p r cs drawn u a) in
      elim (Bool-cases (is_validating c.status)) [
        | inl x ↦
            let (d, done, (marked, still)) =
              Yields-value
                (settled (Candidate.record_validation c now none cfg.static_analysis_is_blocking))
                (recorded c now cfg.static_analysis_is_blocking x e) in
            rw (push_candidates, x, no_stage p c.validation u, done, later)
              (nothing, (still, bare), λ y. rw (marked) refl)
        | inr x ↦ rw (push_candidates, x, later) (nothing, (e, bare), λ y. ground (arith, judged))
      ]

  refused :
      (r : Run) (id : ℕ) (why : String)
      → r.status ≡ RunStatus.coding
      → Run.can_repair r ≡ true
      → (Run.request_repair r id why now).1
        ≡ raise (invalid_run_transition RunStatus.coding RunStatus.repairing)
  unfolding Run.request_repair Run.transition ensure can
  refused r id why e b = rw (e, b) refl

  -- Where the project configures no command and the coders hand over nothing, the decision raises while
  -- the repair budget lasts: the repair is asked for from coding, which the table does not allow. So
  -- nothing is stored, and the run neither repairs nor fails.
  pub advance_candidates-raise :
      (p : Project) (st : Step)
      → IsUnconfigured p
      → AreEmpty st.candidates
      → any is_open st.candidates ≡ true
      → st.run.status ≡ RunStatus.coding
      → Run.can_repair st.run ≡ true
      → advance_candidates ports cfg now p st
        ≡ raise (invalid_run_transition RunStatus.coding RunStatus.repairing)
  unfolding advance_candidates judge repair_or_fail
  advance_candidates-raise p st u a some_open e budget =
      let (q, pushed, (nothing, bare, judged)) =
        Yields-value (push_candidates ports cfg now p st.run st.candidates st.drawn)
          (push_unconfigured p st.run st.candidates st.drawn u a) in
      let (c, one) = any-first is_judged q.0 (judged some_open) in
      let why : String = "no candidate survived deterministic validation" in
      rw
        (
          advance_candidates,
          pushed,
          nothing,
          judge,
          first-filled (select is_judged q.0) one,
          none_viable q.0 bare,
          repair_or_fail,
          one,
          refused st.run c.id why e budget,
        )
        refl
