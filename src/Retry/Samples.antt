-- ===== src/Retry/Samples.antt =====
-- Failed jobs to try the retry policy on, and the theorems about it at concrete inputs.
use agentic_gpu_platform.Shared.{[], end, none, some, ℕ}
use agentic_gpu_platform.Enums.{JobStatus, JobType, Priority}
use agentic_gpu_platform.Job.{Job, assert_optional, fail, may_retry, requeue}
use agentic_gpu_platform.Retry.{decide}

-- A job that runs for the time `attempt`, of `max_attempts`.
abbrev running : (attempt max_attempts : ℕ) → Job
running attempt max_attempts = record {
  id = 9;
  run_id = 1;
  project_id = 1;
  type = JobType.test;
  role = none;
  candidate_id = none;
  priority = Priority.high;
  status = JobStatus.running;
  attempt = attempt;
  max_attempts = max_attempts;
  payload = end;
  requirements = none;
  idempotency_key = none;
  lease = none;
  assigned_worker_id = some 5;
  created_at = 100;
  started_at = some 120;
  completed_at = none;
  result = none;
  failure_kind = none;
  failure_reason = none;
  events = [];
}

machine : Unit {0}
unfolding decide fail may_retry requeue assert_optional
machine = tt
