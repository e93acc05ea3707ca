-- ===== src/Orchestrator/Stages.antt =====
-- What a decision of src/application/orchestration/orchestrator.py works on, the ports it calls, and the
-- stages of the validation.
use agentic_gpu_platform.Shared.{
  Bool, List, Option, String, [], any, bool, false, get_field, if◌then◌else◌, is_none, is_true,
  none, not, select, some, true, ℕ, ◌&&◌, ◌==◌, ◌or◌, ◌∷◌,
}
use agentic_gpu_platform.Enums.{
  AgentRole, CandidateStatus, JobType, Priority, ReviewVerdict, job_is_terminal,
}
use agentic_gpu_platform.Errors.{Result}
use agentic_gpu_platform.Project.{Project, ToolchainConfig, is_given}
use agentic_gpu_platform.Job.{Job}
use agentic_gpu_platform.Job
use agentic_gpu_platform.Run.{Run}
use agentic_gpu_platform.Candidate.{Candidate}
use agentic_gpu_platform.Validation.{
  ValidationReport, build_passed, is_false, static_analysis_passed, tests_passed,
}

-- The part of `OrchestratorConfig` that the decisions read.
pub record OrchestratorConfig : Type 0 where
  pub job_max_attempts : ℕ
  pub static_analysis_is_blocking : Bool
  pub integrate_on_success : Bool

-- `IdGenerator.next_id`, by the number of identifiers that the decision drew before;
-- `WorkspaceManager.create` for a candidate and `integrate` of a workspace, with `release_run`; and the
-- text of a number.
pub record Ports : Type 0 where
  pub fresh_id : ℕ → ℕ
  pub create_workspace : (candidate_id : ℕ) → Result ℕ
  pub integrate : (run_id workspace_id : ℕ) → Result (Unit {0})
  pub release_run : (run_id : ℕ) → Result (Unit {0})
  pub str_of : ℕ → String

-- What a decision works on, and the jobs that it asks for.
pub record Step : Type 0 where
  pub run : Run
  pub candidates : List Candidate
  pub drawn : ℕ
  pub follow_ups : List Job

-- `_has_unfinished`
unfoldable pub has_unfinished : List Job → Bool
has_unfinished jobs = any (λ (j : Job). not (job_is_terminal j.status)) jobs

-- `_stage_is_configured`
unfoldable pub stage_is_configured : ToolchainConfig → JobType → Bool
unfolding is_given
stage_is_configured t JobType.build = is_given t.build_command
stage_is_configured t JobType.test = is_given t.test_command
stage_is_configured t JobType.static_analysis = is_given t.static_analysis_command
stage_is_configured t _ = false

-- The dictionary `done` of `_next_stage`.
abbrev pub verdict_of : ValidationReport → JobType → Option Bool
verdict_of v JobType.build = build_passed v
verdict_of v JobType.test = tests_passed v
verdict_of v JobType.static_analysis = static_analysis_passed v
verdict_of v _ = none

-- `_VALIDATION_STAGES`
abbrev pub validation_stages : List JobType
validation_stages = JobType.build ∷ JobType.test ∷ JobType.static_analysis ∷ []

unfoldable pub next_of : ToolchainConfig → ValidationReport → List JobType → Option JobType
unfolding stage_is_configured
next_of t v [] = none
next_of t v (s ∷ ss) =
    let rest = next_of t v ss in
    if is_false (verdict_of v s)
    then none
    else if is_none (verdict_of v s) && stage_is_configured t s
    then some s
    else rest

-- `_next_stage`
unfoldable pub next_stage : Project → ValidationReport → Option JobType
unfolding next_of
next_stage p v = next_of p.toolchain v validation_stages

abbrev pub is_validated : CandidateStatus → Bool
is_validated s = elim s [ CandidateStatus.validated ↦ true | _ ↦ false ]

abbrev pub is_validating : CandidateStatus → Bool
is_validating s = elim s [ CandidateStatus.validating ↦ true | _ ↦ false ]

-- A candidate is one object: what changes it changes the entry with its identifier.
unfoldable pub replace : Candidate → List Candidate → List Candidate
replace c [] = []
replace c (d ∷ ds) = let rest = replace c ds in if d.id == c.id then c ∷ rest else d ∷ rest

-- `_new_job`, with the identifier drawn for it.
unfoldable pub new_job :
    OrchestratorConfig
    → Run
    → JobType
    → Option AgentRole
    → (candidate_id : Option ℕ) → Priority
    → (job_id now : ℕ) → Result Job
unfolding Job.create
new_job cfg r t role candidate_id priority job_id now =
    Job.create
      (record {
        job_id = job_id;
        run_id = r.id;
        project_id = r.project_id;
        job_type = t;
        role = role;
        candidate_id = candidate_id;
        priority = priority;
        payload = none;
        requirements = none;
        max_attempts = cfg.job_max_attempts;
        idempotency_key = none;
      })
      now

-- `bool(run.metadata.get("requires_plan", True))`
unfoldable pub requires_plan : Run → Bool
unfolding get_field is_true
requires_plan r = is_true (get_field "requires_plan" r.metadata or bool true)

abbrev pub settled_candidates : Step → List Candidate
settled_candidates st = select (λ (c : Candidate). is_validated c.status) st.candidates

abbrev pub has_passed : Candidate → Bool
has_passed c = elim c.review_verdict [
  | none ↦ false
  | some v ↦ elim v [ ReviewVerdict.pass ↦ true | ReviewVerdict.fail ↦ false ]
]

abbrev pub has_failed : Candidate → Bool
has_failed c = elim c.review_verdict [
  | none ↦ false
  | some v ↦ elim v [ ReviewVerdict.pass ↦ false | ReviewVerdict.fail ↦ true ]
]
