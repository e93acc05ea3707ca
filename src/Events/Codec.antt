-- ===== src/Events/Codec.antt =====
-- src/infrastructure/redis/codecs.py, `encode_event` and `decode_event`: an event on the wire. The
-- JSON text of the payload is the value that it holds. A field is read as a value of the type that
-- its class declares, where the source also converts a text or a number to it. Where several fields
-- are wrong, the error may be another one than the source's first.
pub mod Restored
use agentic_gpu_platform.Events.{
  DomainEvent, EventBody, candidate_completed, candidate_selected, candidate_started, event_name,
  job_completed, job_enqueued, job_failed, job_lease_expired, job_leased, job_requeued,
  plan_completed, plan_requested, repair_requested, review_completed, review_requested,
  run_cancelled, run_completed, run_created, run_failed, run_state_changed, validation_completed,
  validation_started, worker_deregistered, worker_draining, worker_heartbeat_received,
  worker_registered, worker_status_changed, worker_unavailable,
}
use agentic_gpu_platform.Shared.{
  Fields, Json, Option, String, end, field, get_field, if◌then◌else◌, none, null, object, some,
  str_eq, text, ℕ,
}
use agentic_gpu_platform.Errors.{Result, ok, raise, type_error, value_error, ◌>>=◌}
use agentic_gpu_platform.Database.Codes.{read_job_type, read_kind, read_run_status}
use agentic_gpu_platform.Database.Columns.{
  as_flag, as_mapping, as_nat, as_optional, as_text, at, of_nat,
}
use agentic_gpu_platform.Database.Candidates.{read_candidate_status, read_verdict}
use agentic_gpu_platform.Database.Workers.{read_worker_status}
use agentic_gpu_platform.Events.Payload.{payload}

-- `_coerce` at `EntityId | None`
unfoldable pub as_maybe : Json → Result (Option ℕ)
unfolding as_nat
as_maybe null = ok none
as_maybe v = as_nat v >>= λ n. ok (some n)

-- `_coerce` at an enumeration
unfoldable pub as_code : {A : Type 0} → (String → Result A) → Json → Result A
unfolding as_text
as_code read v = as_text v >>= read

-- `_require`: a field of the envelope.
unfoldable pub required : {A : Type 0} → (Json → Result A) → (key : String) → Fields → Result A
unfolding get_field
required read key raw = elim (get_field key raw) [
  | none ↦ raise (value_error "malformed redis record: missing field")
  | some v ↦ read v
]

-- An argument of an event's constructor that has no default.
unfoldable pub argument : {A : Type 0} → (Json → Result A) → (key : String) → Fields → Result A
unfolding get_field
argument read key raw = elim (get_field key raw) [
  | none ↦ raise (type_error "missing a required keyword-only argument")
  | some v ↦ read v
]

-- The class of a name, called on the fields that the payload has.
unfoldable pub build_body : (name : String) → Fields → Option (Result EventBody)
unfolding argument at as_nat as_text as_flag as_code
build_body name raw =
    if str_eq name "run.created"
    then some (
        argument as_nat "run_id" raw >>= λ run_id.
        argument as_nat "project_id" raw >>= λ project_id.
        argument as_text "objective" raw >>= λ objective.
        argument as_nat "candidate_count" raw >>= λ candidate_count.
        ok (run_created run_id project_id objective candidate_count))
    else if str_eq name "run.state_changed"
    then some (
        argument as_nat "run_id" raw >>= λ run_id.
        argument (as_code read_run_status) "previous" raw >>= λ previous.
        argument (as_code read_run_status) "current" raw >>= λ current.
        at as_optional none "reason" raw >>= λ reason.
        ok (run_state_changed run_id previous current reason))
    else if str_eq name "run.plan_requested"
    then some (
        argument as_nat "run_id" raw >>= λ run_id.
        argument as_nat "revision" raw >>= λ revision. ok (plan_requested run_id revision))
    else if str_eq name "run.plan_completed"
    then some (
        argument as_nat "run_id" raw >>= λ run_id. argument as_nat "plan_id" raw >>= λ plan_id.
        argument as_nat "revision" raw >>= λ revision.
        argument as_nat "task_count" raw >>= λ task_count.
        ok (plan_completed run_id plan_id revision task_count))
    else if str_eq name "candidate.started"
    then some (
        argument as_nat "run_id" raw >>= λ run_id.
        argument as_nat "candidate_id" raw >>= λ candidate_id.
        argument as_nat "index" raw >>= λ index. at as_maybe none "job_id" raw >>= λ job_id.
        ok (candidate_started run_id candidate_id index job_id))
    else if str_eq name "candidate.completed"
    then some (
        argument as_nat "run_id" raw >>= λ run_id.
        argument as_nat "candidate_id" raw >>= λ candidate_id.
        argument (as_code read_candidate_status) "status" raw >>= λ status.
        at as_nat 0 "changed_files" raw >>= λ changed_files.
        ok (candidate_completed run_id candidate_id status changed_files))
    else if str_eq name "candidate.validation_started"
    then some (
        argument as_nat "run_id" raw >>= λ run_id.
        argument as_nat "candidate_id" raw >>= λ candidate_id.
        ok (validation_started run_id candidate_id))
    else if str_eq name "candidate.validation_completed"
    then some (
        argument as_nat "run_id" raw >>= λ run_id.
        argument as_nat "candidate_id" raw >>= λ candidate_id.
        argument as_flag "viable" raw >>= λ viable. argument as_text "summary" raw >>= λ summary.
        ok (validation_completed run_id candidate_id viable summary))
    else if str_eq name "review.requested"
    then some (
        argument as_nat "run_id" raw >>= λ run_id.
        argument as_nat "candidate_id" raw >>= λ candidate_id.
        argument as_nat "iteration" raw >>= λ iteration.
        ok (review_requested run_id candidate_id iteration))
    else if str_eq name "review.completed"
    then some (
        argument as_nat "run_id" raw >>= λ run_id.
        argument as_nat "candidate_id" raw >>= λ candidate_id.
        argument (as_code read_verdict) "verdict" raw >>= λ verdict.
        at as_nat 0 "finding_count" raw >>= λ finding_count.
        ok (review_completed run_id candidate_id verdict finding_count))
    else if str_eq name "run.repair_requested"
    then some (
        argument as_nat "run_id" raw >>= λ run_id.
        argument as_nat "candidate_id" raw >>= λ candidate_id.
        argument as_nat "iteration" raw >>= λ iteration. argument as_text "reason" raw >>= λ reason.
        ok (repair_requested run_id candidate_id iteration reason))
    else if str_eq name "candidate.selected"
    then some (
        argument as_nat "run_id" raw >>= λ run_id.
        argument as_nat "candidate_id" raw >>= λ candidate_id.
        argument as_text "rationale" raw >>= λ rationale.
        ok (candidate_selected run_id candidate_id rationale))
    else if str_eq name "run.completed"
    then some (
        argument as_nat "run_id" raw >>= λ run_id.
        at as_maybe none "candidate_id" raw >>= λ candidate_id.
        ok (run_completed run_id candidate_id))
    else if str_eq name "run.failed"
    then some (
        argument as_nat "run_id" raw >>= λ run_id.
        argument (as_code read_kind) "failure_kind" raw >>= λ failure_kind.
        argument as_text "reason" raw >>= λ reason. ok (run_failed run_id failure_kind reason))
    else if str_eq name "run.cancelled"
    then some (
        argument as_nat "run_id" raw >>= λ run_id.
        at as_optional none "reason" raw >>= λ reason. ok (run_cancelled run_id reason))
    else if str_eq name "job.enqueued"
    then some (
        argument as_nat "job_id" raw >>= λ job_id. argument as_nat "run_id" raw >>= λ run_id.
        argument (as_code read_job_type) "job_type" raw >>= λ job_type.
        argument as_nat "attempt" raw >>= λ attempt.
        ok (job_enqueued job_id run_id job_type attempt))
    else if str_eq name "job.leased"
    then some (
        argument as_nat "job_id" raw >>= λ job_id. argument as_nat "run_id" raw >>= λ run_id.
        argument as_nat "worker_id" raw >>= λ worker_id.
        argument as_nat "attempt" raw >>= λ attempt.
        ok (job_leased job_id run_id worker_id attempt))
    else if str_eq name "job.completed"
    then some (
        argument as_nat "job_id" raw >>= λ job_id. argument as_nat "run_id" raw >>= λ run_id.
        argument (as_code read_job_type) "job_type" raw >>= λ job_type.
        at as_nat 0 "duration_ms" raw >>= λ duration_ms.
        ok (job_completed job_id run_id job_type duration_ms))
    else if str_eq name "job.failed"
    then some (
        argument as_nat "job_id" raw >>= λ job_id. argument as_nat "run_id" raw >>= λ run_id.
        argument (as_code read_kind) "failure_kind" raw >>= λ failure_kind.
        argument as_text "reason" raw >>= λ reason. argument as_nat "attempt" raw >>= λ attempt.
        argument as_flag "retryable" raw >>= λ retryable.
        ok (job_failed job_id run_id failure_kind reason attempt retryable))
    else if str_eq name "job.lease_expired"
    then some (
        argument as_nat "job_id" raw >>= λ job_id. argument as_nat "run_id" raw >>= λ run_id.
        argument as_nat "holder" raw >>= λ holder. ok (job_lease_expired job_id run_id holder))
    else if str_eq name "job.requeued"
    then some (
        argument as_nat "job_id" raw >>= λ job_id. argument as_nat "run_id" raw >>= λ run_id.
        argument as_nat "attempt" raw >>= λ attempt.
        argument as_text "reason" raw >>= λ reason. ok (job_requeued job_id run_id attempt reason))
    else if str_eq name "worker.registered"
    then some (
        argument as_nat "worker_id" raw >>= λ worker_id.
        argument as_text "model_id" raw >>= λ model_id.
        argument as_text "endpoint" raw >>= λ endpoint.
        argument as_nat "max_concurrency" raw >>= λ max_concurrency.
        ok (worker_registered worker_id model_id endpoint max_concurrency))
    else if str_eq name "worker.heartbeat"
    then some (
        argument as_nat "worker_id" raw >>= λ worker_id.
        argument (as_code read_worker_status) "status" raw >>= λ status.
        argument as_nat "active_jobs" raw >>= λ active_jobs.
        ok (worker_heartbeat_received worker_id status active_jobs))
    else if str_eq name "worker.status_changed"
    then some (
        argument as_nat "worker_id" raw >>= λ worker_id.
        argument (as_code read_worker_status) "previous" raw >>= λ previous.
        argument (as_code read_worker_status) "current" raw >>= λ current.
        ok (worker_status_changed worker_id previous current))
    else if str_eq name "worker.draining"
    then some (
        argument as_nat "worker_id" raw >>= λ worker_id.
        argument as_nat "active_jobs" raw >>= λ active_jobs.
        ok (worker_draining worker_id active_jobs))
    else if str_eq name "worker.unavailable"
    then some (
        argument as_nat "worker_id" raw >>= λ worker_id.
        argument as_text "reason" raw >>= λ reason. ok (worker_unavailable worker_id reason))
    else if str_eq name "worker.deregistered"
    then some (
        argument as_nat "worker_id" raw >>= λ worker_id.
        argument as_flag "graceful" raw >>= λ graceful. ok (worker_deregistered worker_id graceful))
    else none

-- `encode_event`
unfoldable pub encode_event : DomainEvent → Fields
unfolding event_name payload
encode_event e = field "name" (text (event_name e.body)) (
    field "event_id" (of_nat e.event_id)
      (field "occurred_at" (of_nat e.occurred_at) (field "payload" (object (payload e.body)) end)))

-- The envelope around a body.
unfoldable pub envelope : Fields → Result EventBody → Result DomainEvent
unfolding required as_nat
envelope raw made = required as_nat "occurred_at" raw >>= λ occurred_at.
    required as_nat "event_id" raw >>= λ event_id.
    made >>= λ body. ok (record { occurred_at = occurred_at; event_id = event_id; body = body })

-- `decode_event`: nothing for a name that is not known.
unfoldable pub decode_event : Fields → Result (Option DomainEvent)
unfolding at as_text as_mapping build_body envelope
decode_event raw = at as_text "" "name" raw >>= λ name. at as_mapping end "payload" raw >>= λ body.
    elim (build_body name body) [
      | none ↦ ok none
      | some made ↦ envelope raw made >>= λ e. ok (some e)
    ]
