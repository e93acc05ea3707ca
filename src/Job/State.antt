-- ===== src/Job/State.antt =====
-- The state and the events of a job, and its creation (src/domain/entities/job.py,
-- src/domain/events/job.py).
use agentic_gpu_platform.Shared.{
  Bool, Fields, List, Option, String, [], end, if◌then◌else◌, is_none, ltb, none, ℕ, ◌&&◌, ◌or◌,
}
use agentic_gpu_platform.Enums.{
  AgentRole, FailureKind, JobStatus, JobType, Priority, requires_inference,
}
use agentic_gpu_platform.Errors.{Result, ok, raise, value_error}
use agentic_gpu_platform.Lease.{Lease}
use agentic_gpu_platform.Requirements.{JobRequirements}

pub data JobEvent : Type 0 where
  job_enqueued : (occurred_at job_id run_id : ℕ) (job_type : JobType) (attempt : ℕ) → JobEvent
  job_leased : (occurred_at job_id run_id worker_id attempt : ℕ) → JobEvent
  job_completed :
      (occurred_at job_id run_id : ℕ) (job_type : JobType) (span : Option (ℕ × ℕ)) → JobEvent
  job_failed :
      (occurred_at job_id run_id : ℕ) (failure_kind : FailureKind) (reason : String) (attempt : ℕ)
      (retryable : Bool)
      → JobEvent
  job_lease_expired_event : (occurred_at job_id run_id holder : ℕ) → JobEvent
  job_requeued : (occurred_at job_id run_id attempt : ℕ) (reason : String) → JobEvent

pub record Job : Type 0 where
  pub id : ℕ
  pub run_id : ℕ
  pub project_id : ℕ
  pub type : JobType
  pub role : Option AgentRole
  pub candidate_id : Option ℕ
  pub priority : Priority
  pub status : JobStatus
  pub attempt : ℕ
  pub max_attempts : ℕ
  pub payload : Fields
  pub requirements : Option JobRequirements
  pub idempotency_key : Option String
  pub lease : Option Lease
  pub assigned_worker_id : Option ℕ
  pub created_at : ℕ
  pub started_at : Option ℕ
  pub completed_at : Option ℕ
  pub result : Option Fields
  pub failure_kind : Option FailureKind
  pub failure_reason : Option String
  pub events : List JobEvent

-- What a caller of `Job.create` supplies.
pub record JobSpec : Type 0 where
  pub job_id : ℕ
  pub run_id : ℕ
  pub project_id : ℕ
  pub job_type : JobType
  pub role : Option AgentRole
  pub candidate_id : Option ℕ
  pub priority : Priority
  pub payload : Option Fields
  pub requirements : Option JobRequirements
  pub max_attempts : ℕ
  pub idempotency_key : Option String

-- The checks of `Job.__init__`.
unfoldable pub check_job : Job → Result Job
check_job j =
    if requires_inference j.type && is_none j.role
    then raise (value_error "an inference job requires an agent role")
    else if ltb j.max_attempts 1
    then raise (value_error "max_attempts must be at least 1")
    else ok j

unfoldable pub create : JobSpec → (now : ℕ) → Result Job
unfolding check_job
create s now = check_job (record {
  id = s.job_id;
  run_id = s.run_id;
  project_id = s.project_id;
  type = s.job_type;
  role = s.role;
  candidate_id = s.candidate_id;
  priority = s.priority;
  status = JobStatus.pending;
  attempt = 0;
  max_attempts = s.max_attempts;
  payload = s.payload or end;
  requirements = s.requirements;
  idempotency_key = s.idempotency_key;
  lease = none;
  assigned_worker_id = none;
  created_at = now;
  started_at = none;
  completed_at = none;
  result = none;
  failure_kind = none;
  failure_reason = none;
  events = [];
})
