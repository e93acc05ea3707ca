-- ===== src/Database/Samples.antt =====
-- Objects to store, and the theorems about their rows at concrete inputs.
use agentic_gpu_platform.Shared.{
  List, String, [], arith, bool, end, false, field, is_blank, is_empty_text, none, refl, some,
  strip, true, ℕ, ◌∷◌, ◌≡◌,
}
use agentic_gpu_platform.Enums.{
  AgentRole, CandidateStatus, FailureKind, JobStatus, JobType, Priority, ReviewVerdict, RunStatus,
}
use agentic_gpu_platform.Errors.{ok}
use agentic_gpu_platform.Limits.{check_limits, default_limits}
use agentic_gpu_platform.Lease.{check}
use agentic_gpu_platform.Job.{Job, check_job}
use agentic_gpu_platform.Run.{Run}
use agentic_gpu_platform.Candidate.{Candidate}
use agentic_gpu_platform.Plan.{Plan, PlanTask}
use agentic_gpu_platform.Review.{Review, Severity}
use agentic_gpu_platform.Database.Codes.{read_optional}
use agentic_gpu_platform.Database.Runs.{
  apply_run, check_key, new_run_row, run_to_domain, run_to_domain-apply_run,
}
use agentic_gpu_platform.Database.Jobs.{
  apply_job, job_to_domain, job_to_domain-apply_job, new_job_row,
}
use agentic_gpu_platform.Database.Candidates.{
  apply_candidate, candidate_to_domain, candidate_to_domain-apply_candidate, new_candidate_row,
}

abbrev ended_run : Run
ended_run = record {
  id = 1;
  project_id = 2;
  objective = "add a parser";
  candidate_count = 2;
  limits = default_limits;
  status = RunStatus.failed;
  plan_id = some 3;
  plan_revisions = 1;
  repair_iterations = 3;
  review_iterations = 4;
  selected_candidate_id = none;
  token_usage = record { input_tokens = 900; output_tokens = 70 };
  idempotency_key = some "key-1";
  metadata = field "requires_plan" (bool false) end;
  created_at = 5;
  started_at = some 6;
  completed_at = some 90;
  updated_at = 90;
  failure_kind = some FailureKind.review;
  failure_reason = some "repair budget exhausted";
  events = [];
}

run_to_domain-apply_run_example :
    run_to_domain (apply_run (new_run_row ended_run) ended_run) ≡ ok ended_run
unfolding is_blank is_empty_text strip check_limits read_optional check_key
run_to_domain-apply_run_example =
    run_to_domain-apply_run (new_run_row ended_run) ended_run
      (record { id = refl; project = refl; objective = refl; created = refl })
      (record {
        worded = refl;
        trimmed = refl;
        counted = omega arith;
        capped = omega arith;
        limited = refl;
        keyed = refl;
      })

abbrev leased_job : Job
leased_job = record {
  id = 4;
  run_id = 1;
  project_id = 2;
  type = JobType.code;
  role = some AgentRole.coder;
  candidate_id = some 7;
  priority = Priority.high;
  status = JobStatus.leased;
  attempt = 2;
  max_attempts = 3;
  payload = end;
  requirements = some (record {
    role = AgentRole.coder;
    model_id = none;
    estimated_prompt_tokens = 1200;
    requires_tools = true;
    requires_json_schema = true;
  });
  idempotency_key = none;
  lease = some (record { job_id = 4; holder = 9; token = 77; acquired_at = 10; expires_at = 90 });
  assigned_worker_id = some 9;
  created_at = 8;
  started_at = some 10;
  completed_at = none;
  result = none;
  failure_kind = some FailureKind.inference;
  failure_reason = some "no answer";
  events = [];
}

job_to_domain-apply_job_example :
    job_to_domain (apply_job (new_job_row leased_job) leased_job) ≡ ok leased_job
unfolding check_job check read_optional
job_to_domain-apply_job_example =
    job_to_domain-apply_job (new_job_row leased_job) leased_job
      (record { id = refl; run = refl; project = refl; type = refl; created = refl })
      (record { made = refl; keyed = refl; leased = (refl, refl) })

abbrev tried : Candidate
tried = record {
  id = 7;
  run_id = 1;
  index = 0;
  created_at = 6;
  workspace_id = some 17;
  status = CandidateStatus.validated;
  patch = some (record {
    diff = "diff --git a/m.py b/m.py";
    base_revision = none;
    files = record { path = "m.py"; added_lines = 2; removed_lines = 1 } ∷ [];
  });
  validation = record { results = []; static_analysis_is_blocking = true };
  summary = "first";
  uncertainties = "speed" ∷ [];
  coder_iterations = 1;
  repair_iterations = 0;
  worker_id = some 9;
  last_job_id = none;
  review_verdict = some ReviewVerdict.fail;
  started_at = some 6;
  completed_at = none;
  failure_kind = none;
  failure_reason = none;
  events = [];
}

candidate_to_domain-apply_candidate_example :
    candidate_to_domain (apply_candidate (new_candidate_row tried) tried) ≡ ok tried
candidate_to_domain-apply_candidate_example =
    candidate_to_domain-apply_candidate (new_candidate_row tried) tried
      (record { id = refl; run = refl; index = refl; created = refl })

abbrev step : (id : ℕ) (key : String) (depends_on : List String) → PlanTask
step id key depends_on = record {
  id = id;
  key = key;
  title = key;
  description = "";
  target_paths = [];
  depends_on = depends_on;
  validation = [];
}

abbrev two_steps : Plan
two_steps = record {
  id = 3;
  run_id = 1;
  revision = 1;
  objective = "add a parser";
  created_at = 3;
  tasks = step 2 "parse" ("lex" ∷ []) ∷ step 1 "lex" [] ∷ [];
  assumptions = [];
  constraints = [];
  risk_areas = [];
  validation_requirements = [];
  prompt_version = "v1";
  metadata = end;
}

abbrev refusal : Review
refusal = record {
  id = 8;
  run_id = 1;
  candidate_id = 7;
  verdict = ReviewVerdict.fail;
  iteration = 1;
  created_at = 70;
  summary = "";
  findings =
      record {
        summary = "no test";
        severity = Severity.major;
        file = some "m.py";
        line = some 3;
        repair_instruction = none;
      }
      ∷ [];
  prompt_version = "v1";
  metadata = end;
}
