-- ===== src/Events.antt =====
-- src/domain/events/: the events of runs, candidates, jobs and workers with the fields that they
-- announce, and which run an event belongs to and ends (src/infrastructure/redis/codecs.py).
pub mod Payload
pub mod Codec
pub mod Bus
mod Samples
use agentic_gpu_platform.Shared.{Bool, Option, String, false, none, some, true, ℕ}
use agentic_gpu_platform.Enums.{
  CandidateStatus, FailureKind, JobType, ReviewVerdict, RunStatus, WorkerStatus, run_is_terminal,
}

pub data EventBody : Type 0 where
  run_created : (run_id project_id : ℕ) (objective : String) (candidate_count : ℕ) → EventBody
  run_state_changed :
      (run_id : ℕ) (previous current : RunStatus) (reason : Option String) → EventBody
  plan_requested : (run_id revision : ℕ) → EventBody
  plan_completed : (run_id plan_id revision task_count : ℕ) → EventBody
  candidate_started : (run_id candidate_id index : ℕ) (job_id : Option ℕ) → EventBody
  candidate_completed :
      (run_id candidate_id : ℕ) (status : CandidateStatus) (changed_files : ℕ) → EventBody
  validation_started : (run_id candidate_id : ℕ) → EventBody
  validation_completed : (run_id candidate_id : ℕ) (viable : Bool) (summary : String) → EventBody
  review_requested : (run_id candidate_id iteration : ℕ) → EventBody
  review_completed :
      (run_id candidate_id : ℕ) (verdict : ReviewVerdict) (finding_count : ℕ) → EventBody
  repair_requested : (run_id candidate_id iteration : ℕ) (reason : String) → EventBody
  candidate_selected : (run_id candidate_id : ℕ) (rationale : String) → EventBody
  run_completed : (run_id : ℕ) (candidate_id : Option ℕ) → EventBody
  run_failed : (run_id : ℕ) (failure_kind : FailureKind) (reason : String) → EventBody
  run_cancelled : (run_id : ℕ) (reason : Option String) → EventBody
  job_enqueued : (job_id run_id : ℕ) (job_type : JobType) (attempt : ℕ) → EventBody
  job_leased : (job_id run_id worker_id attempt : ℕ) → EventBody
  job_completed : (job_id run_id : ℕ) (job_type : JobType) (duration_ms : ℕ) → EventBody
  job_failed :
      (job_id run_id : ℕ) (failure_kind : FailureKind) (reason : String) (attempt : ℕ)
      (retryable : Bool)
      → EventBody
  job_lease_expired : (job_id run_id holder : ℕ) → EventBody
  job_requeued : (job_id run_id attempt : ℕ) (reason : String) → EventBody
  worker_registered : (worker_id : ℕ) (model_id endpoint : String) (max_concurrency : ℕ) → EventBody
  worker_heartbeat_received : (worker_id : ℕ) (status : WorkerStatus) (active_jobs : ℕ) → EventBody
  worker_status_changed : (worker_id : ℕ) (previous current : WorkerStatus) → EventBody
  worker_draining : (worker_id active_jobs : ℕ) → EventBody
  worker_unavailable : (worker_id : ℕ) (reason : String) → EventBody
  worker_deregistered : (worker_id : ℕ) (graceful : Bool) → EventBody

-- The envelope and the body of a `DomainEvent`.
pub record DomainEvent : Type 0 where
  pub occurred_at : ℕ
  pub event_id : ℕ
  pub body : EventBody

-- `type(event).name`
unfoldable pub event_name : EventBody → String
event_name (run_created _ _ _ _) = "run.created"
event_name (run_state_changed _ _ _ _) = "run.state_changed"
event_name (plan_requested _ _) = "run.plan_requested"
event_name (plan_completed _ _ _ _) = "run.plan_completed"
event_name (candidate_started _ _ _ _) = "candidate.started"
event_name (candidate_completed _ _ _ _) = "candidate.completed"
event_name (validation_started _ _) = "candidate.validation_started"
event_name (validation_completed _ _ _ _) = "candidate.validation_completed"
event_name (review_requested _ _ _) = "review.requested"
event_name (review_completed _ _ _ _) = "review.completed"
event_name (repair_requested _ _ _ _) = "run.repair_requested"
event_name (candidate_selected _ _ _) = "candidate.selected"
event_name (run_completed _ _) = "run.completed"
event_name (run_failed _ _ _) = "run.failed"
event_name (run_cancelled _ _) = "run.cancelled"
event_name (job_enqueued _ _ _ _) = "job.enqueued"
event_name (job_leased _ _ _ _) = "job.leased"
event_name (job_completed _ _ _ _) = "job.completed"
event_name (job_failed _ _ _ _ _ _) = "job.failed"
event_name (job_lease_expired _ _ _) = "job.lease_expired"
event_name (job_requeued _ _ _ _) = "job.requeued"
event_name (worker_registered _ _ _ _) = "worker.registered"
event_name (worker_heartbeat_received _ _ _) = "worker.heartbeat"
event_name (worker_status_changed _ _ _) = "worker.status_changed"
event_name (worker_draining _ _) = "worker.draining"
event_name (worker_unavailable _ _) = "worker.unavailable"
event_name (worker_deregistered _ _) = "worker.deregistered"

-- `run_id_of`
unfoldable pub run_id_of : EventBody → Option ℕ
run_id_of (run_created run_id _ _ _) = some run_id
run_id_of (run_state_changed run_id _ _ _) = some run_id
run_id_of (plan_requested run_id _) = some run_id
run_id_of (plan_completed run_id _ _ _) = some run_id
run_id_of (candidate_started run_id _ _ _) = some run_id
run_id_of (candidate_completed run_id _ _ _) = some run_id
run_id_of (validation_started run_id _) = some run_id
run_id_of (validation_completed run_id _ _ _) = some run_id
run_id_of (review_requested run_id _ _) = some run_id
run_id_of (review_completed run_id _ _ _) = some run_id
run_id_of (repair_requested run_id _ _ _) = some run_id
run_id_of (candidate_selected run_id _ _) = some run_id
run_id_of (run_completed run_id _) = some run_id
run_id_of (run_failed run_id _ _) = some run_id
run_id_of (run_cancelled run_id _) = some run_id
run_id_of (job_enqueued _ run_id _ _) = some run_id
run_id_of (job_leased _ run_id _ _) = some run_id
run_id_of (job_completed _ run_id _ _) = some run_id
run_id_of (job_failed _ run_id _ _ _ _) = some run_id
run_id_of (job_lease_expired _ run_id _) = some run_id
run_id_of (job_requeued _ run_id _ _) = some run_id
run_id_of (worker_registered _ _ _ _) = none
run_id_of (worker_heartbeat_received _ _ _) = none
run_id_of (worker_status_changed _ _ _) = none
run_id_of (worker_draining _ _) = none
run_id_of (worker_unavailable _ _) = none
run_id_of (worker_deregistered _ _) = none

-- `is_terminal_for_run`
unfoldable pub is_terminal_for_run : EventBody → Bool
is_terminal_for_run (run_completed _ _) = true
is_terminal_for_run (run_failed _ _ _) = true
is_terminal_for_run (run_cancelled _ _) = true
is_terminal_for_run (run_state_changed _ _ current _) = run_is_terminal current
is_terminal_for_run _ = false
