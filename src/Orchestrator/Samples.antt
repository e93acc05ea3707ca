-- ===== src/Orchestrator/Samples.antt =====
-- A run to decide on, and the theorems about the orchestrator at concrete inputs.
use agentic_gpu_platform.Shared.{
  All, List, Option, [], any, arith, end, false, get, is_blank, is_empty_text, none, pos, refl,
  some, strip, true, ℕ, ◌+◌, ◌∷◌, ◌≡◌, ◌⊎◌,
}
use agentic_gpu_platform.Enums.{
  AgentRole, CandidateStatus, JobStatus, JobType, Priority, ReviewVerdict, RunStatus,
}
use agentic_gpu_platform.Errors.{Yields, inference_error, invalid_run_transition, is_ok, ok, raise}
use agentic_gpu_platform.Limits.{default_limits, no_tokens}
use agentic_gpu_platform.Project.{Project, default_toolchain, is_given}
use agentic_gpu_platform.Retry.{default_policy}
use agentic_gpu_platform.Job.{Job}
use agentic_gpu_platform.Run.{Run}
use agentic_gpu_platform.Candidate.{Candidate, Patch}
use agentic_gpu_platform.Queue.{Queue, empty_queue}
use agentic_gpu_platform.Orchestrator.{
  OrchestratorConfig, Ports, Step, advance, advance_candidates, has_unfinished, open_first_stage,
}
use agentic_gpu_platform.Orchestrator.Opening.{IsServing, IsStarted, open_first_stage-IsStarted}
use agentic_gpu_platform.Orchestrator.Unrepaired.{IsUnconfigured, advance_candidates-raise}
use agentic_gpu_platform.Orchestrator.Verdict.{IsAlive}
use agentic_gpu_platform.Orchestrator.Publishing.{IsPublished, is_taken}
use agentic_gpu_platform.Orchestrator.Advance.{
  AreQueued, IsOngoing, advance-IsOngoing, due_validating,
}
use agentic_gpu_platform.Orchestrator.Work.{Answer, CodeDraft, finish_code}
use agentic_gpu_platform.Orchestrator.Handover.{IsHandedIn, finish_code_lem, may_hand_in}
use agentic_gpu_platform.Orchestrator.Failures.{handle_failure}
use agentic_gpu_platform.Orchestrator.Handling.{IsHandled, IsHeld, handle_failure-IsHandled}

abbrev ports : Ports
ports = record {
  fresh_id = λ n. 100 + n;
  create_workspace = λ c. ok (c + 1000);
  integrate = λ r w. ok tt;
  release_run = λ r. ok tt;
  str_of = λ n. "n";
}

abbrev cfg : OrchestratorConfig
cfg = record {
  job_max_attempts = 3;
  static_analysis_is_blocking = false;
  integrate_on_success = true;
}

abbrev serving : IsServing ports
serving = record { opens = λ c. refl; integrates = λ r w. refl; releases = λ r. refl }

-- A project without any command.
abbrev bare : Project
bare = record {
  id = 2;
  name = "parser";
  repository_url = some "https://example.org/parser.git";
  default_branch = "main";
  created_at = 1;
  toolchain = default_toolchain;
  local_path = none;
  metadata = end;
}

abbrev run_in : RunStatus → Run
run_in s = record {
  id = 1;
  project_id = 2;
  objective = "add a parser";
  candidate_count = 2;
  limits = default_limits;
  status = s;
  plan_id = none;
  plan_revisions = 0;
  repair_iterations = 0;
  review_iterations = 0;
  selected_candidate_id = none;
  token_usage = no_tokens;
  idempotency_key = none;
  metadata = end;
  created_at = 5;
  started_at = none;
  completed_at = none;
  updated_at = 5;
  failure_kind = none;
  failure_reason = none;
  events = [];
}

abbrev empty_patch : Patch
empty_patch = record { diff = ""; base_revision = none; files = [] }

abbrev candidate : (id : ℕ) → CandidateStatus → Option ReviewVerdict → Candidate
candidate id s verdict = record {
  id = id;
  run_id = 1;
  index = id;
  created_at = 6;
  workspace_id = some (id + 1000);
  status = s;
  patch = some empty_patch;
  validation = record { results = []; static_analysis_is_blocking = false };
  summary = "";
  uncertainties = [];
  coder_iterations = 1;
  repair_iterations = 0;
  worker_id = none;
  last_job_id = none;
  review_verdict = verdict;
  started_at = some 6;
  completed_at = none;
  failure_kind = none;
  failure_reason = none;
  events = [];
}

abbrev step_in : RunStatus → List Candidate → Step
step_in s cs = record { run = run_in s; candidates = cs; drawn = 0; follow_ups = [] }

abbrev opening : Step
opening = step_in RunStatus.created []

abbrev checked : Step
checked = step_in RunStatus.validating (candidate 3 CandidateStatus.validating none ∷ [])

-- The first candidate failed its review, the second passed.
abbrev reviewed : Step
reviewed = step_in RunStatus.reviewing (
    candidate 3 CandidateStatus.validated (some ReviewVerdict.fail)
    ∷ candidate 4 CandidateStatus.validated (some ReviewVerdict.pass)
    ∷ [])

-- The coder handed over nothing, and there is no stage to run.
abbrev nothing_coded : Step
nothing_coded = step_in RunStatus.coding (candidate 3 CandidateStatus.validating none ∷ [])

abbrev alive :
    (id : ℕ) (v : Option ReviewVerdict) → IsAlive (candidate id CandidateStatus.validated v)
alive id v = record { alive = refl; owner = refl }

open_first_stage-IsStarted_example :
    Yields (IsStarted opening) (open_first_stage ports cfg 10 opening)
open_first_stage-IsStarted_example =
    open_first_stage-IsStarted ports cfg 10 opening refl serving (omega arith)

advance-IsOngoing_example :
    Yields
      (λ (out : Step × Queue).
        AreQueued 1 out.0.follow_ups × All (IsPublished 1 out.1) out.0.follow_ups × IsOngoing out.0)
      (advance ports cfg 10 (some bare) [] empty_queue checked)
unfolding has_unfinished any is_taken get
advance-IsOngoing_example =
    advance-IsOngoing ports cfg 10 bare [] empty_queue checked serving (omega arith) (λ n. refl)
      refl (due_validating refl refl)

unconfigured : IsUnconfigured bare
unfolding is_given
unconfigured = record { build = refl; test = refl; static_analysis = refl }

advance_candidates-raise_example :
    advance_candidates ports cfg 10 bare nothing_coded
    ≡ raise (invalid_run_transition RunStatus.coding RunStatus.repairing)
unfolding any is_blank is_empty_text strip
advance_candidates-raise_example =
    advance_candidates-raise ports cfg 10 bare nothing_coded unconfigured (refl, tt) refl refl refl

-- A job in the hands of worker 9 under the token 77.
abbrev taken : Job
taken = record {
  id = 4;
  run_id = 1;
  project_id = 2;
  type = JobType.test;
  role = none;
  candidate_id = some 3;
  priority = Priority.high;
  status = JobStatus.leased;
  attempt = 1;
  max_attempts = 3;
  payload = end;
  requirements = none;
  idempotency_key = none;
  lease = some (record { job_id = 4; holder = 9; token = 77; acquired_at = 10; expires_at = 90 });
  assigned_worker_id = some 9;
  created_at = 8;
  started_at = some 10;
  completed_at = none;
  result = none;
  failure_kind = none;
  failure_reason = none;
  events = [];
}

abbrev one_taken : Queue
one_taken = record empty_queue {
  jobs = (4, taken) ∷ [];
  scores = (4, pos 8) ∷ [];
  leases = (4, 90) ∷ [];
  runs = (1, 4 ∷ []) ∷ [];
}

held : IsHeld one_taken 4 77
unfolding get any
held = record {
  stored = taken;
  entry = refl;
  held = refl;
  score = pos 8;
  scored = refl;
  unacknowledged = refl;
}

handle_failure-IsHandled_example :
    ((handle_failure default_policy taken 77
        (inference_error "no answer")
        "no answer"
        (some (run_in RunStatus.validating))
        one_taken
        20).1
      ≡ ok tt)
    × IsHandled taken
        (run_in RunStatus.validating)
        (inference_error "no answer")
        (handle_failure default_policy taken 77
          (inference_error "no answer")
          "no answer"
          (some (run_in RunStatus.validating))
          one_taken
          20).0
handle_failure-IsHandled_example =
    handle_failure-IsHandled default_policy taken 77 (inference_error "no answer") "no answer"
      (run_in RunStatus.validating) one_taken 20 (omega arith) (omega arith) refl refl held

abbrev coding_job : Job
coding_job = record taken { type = JobType.code; role = some AgentRole.coder }

abbrev draft : CodeDraft
draft = record { patch = empty_patch; summary = "nothing to do"; uncertainties = [] }

abbrev answer : Answer
answer = record {
  worker_id = 9;
  usage = record { input_tokens = 900; output_tokens = 70 };
  prompt_version = "v1";
  repairs = 0;
}

abbrev at_work : Candidate
at_work = candidate 3 CandidateStatus.coding none

finish_code_lem_example :
    (may_hand_in at_work coding_job 77 20 ≡ true)
      × Yields
          (IsHandedIn (run_in RunStatus.coding) draft answer)
          (finish_code (λ n. "id") (run_in RunStatus.coding) at_work coding_job 77 draft answer 20)
    ⊎ (may_hand_in at_work coding_job 77 20 ≡ false)
      × (is_ok (
            finish_code (λ n. "id") (run_in RunStatus.coding) at_work coding_job 77 draft answer 20)
          ≡ false)
finish_code_lem_example =
    finish_code_lem (λ n. "id") (run_in RunStatus.coding) at_work coding_job 77 draft answer 20
