-- ===== src/Events/Payload.antt =====
-- src/domain/events/base.py, `DomainEvent.payload`: the body of an event as JSON values.
use agentic_gpu_platform.Events.{
  EventBody, candidate_completed, candidate_selected, candidate_started, job_completed,
  job_enqueued, job_failed, job_lease_expired, job_leased, job_requeued, plan_completed,
  plan_requested, repair_requested, review_completed, review_requested, run_cancelled,
  run_completed, run_created, run_failed, run_state_changed, validation_completed,
  validation_started, worker_deregistered, worker_draining, worker_heartbeat_received,
  worker_registered, worker_status_changed, worker_unavailable,
}
use agentic_gpu_platform.Shared.{Fields, Json, Option, bool, end, field, none, null, some, text, ℕ}
use agentic_gpu_platform.Enums.{kind_value}
use agentic_gpu_platform.Database.Codes.{job_type_value, run_status_value}
use agentic_gpu_platform.Database.Columns.{of_nat, of_optional}
use agentic_gpu_platform.Database.Candidates.{candidate_status_value, verdict_value}
use agentic_gpu_platform.Database.Workers.{worker_status_value}

abbrev pub of_maybe : Option ℕ → Json
of_maybe none = null
of_maybe (some n) = of_nat n

-- `DomainEvent.payload`
unfoldable pub payload : EventBody → Fields
payload (run_created run_id project_id objective candidate_count) = field "run_id" (of_nat run_id) (
    field "project_id" (of_nat project_id)
      (field "objective" (text objective) (field "candidate_count" (of_nat candidate_count) end)))
payload (run_state_changed run_id previous current reason) = field "run_id" (of_nat run_id) (
    field "previous" (text (run_status_value previous))
      (field "current" (text (run_status_value current)) (field "reason" (of_optional reason) end)))
payload (plan_requested run_id revision) =
    field "run_id" (of_nat run_id) (field "revision" (of_nat revision) end)
payload (plan_completed run_id plan_id revision task_count) = field "run_id" (of_nat run_id) (
    field "plan_id" (of_nat plan_id)
      (field "revision" (of_nat revision) (field "task_count" (of_nat task_count) end)))
payload (candidate_started run_id candidate_id index job_id) = field "run_id" (of_nat run_id) (
    field "candidate_id" (of_nat candidate_id)
      (field "index" (of_nat index) (field "job_id" (of_maybe job_id) end)))
payload (candidate_completed run_id candidate_id status changed_files) =
    field "run_id" (of_nat run_id) (
      field "candidate_id" (of_nat candidate_id) (
        field "status" (text (candidate_status_value status))
          (field "changed_files" (of_nat changed_files) end)))
payload (validation_started run_id candidate_id) =
    field "run_id" (of_nat run_id) (field "candidate_id" (of_nat candidate_id) end)
payload (validation_completed run_id candidate_id viable summary) = field "run_id" (of_nat run_id) (
    field "candidate_id" (of_nat candidate_id)
      (field "viable" (bool viable) (field "summary" (text summary) end)))
payload (review_requested run_id candidate_id iteration) =
    field "run_id" (of_nat run_id)
      (field "candidate_id" (of_nat candidate_id) (field "iteration" (of_nat iteration) end))
payload (review_completed run_id candidate_id verdict finding_count) =
    field "run_id" (of_nat run_id) (
      field "candidate_id" (of_nat candidate_id) (
        field "verdict" (text (verdict_value verdict))
          (field "finding_count" (of_nat finding_count) end)))
payload (repair_requested run_id candidate_id iteration reason) = field "run_id" (of_nat run_id) (
    field "candidate_id" (of_nat candidate_id)
      (field "iteration" (of_nat iteration) (field "reason" (text reason) end)))
payload (candidate_selected run_id candidate_id rationale) =
    field "run_id" (of_nat run_id)
      (field "candidate_id" (of_nat candidate_id) (field "rationale" (text rationale) end))
payload (run_completed run_id candidate_id) =
    field "run_id" (of_nat run_id) (field "candidate_id" (of_maybe candidate_id) end)
payload (run_failed run_id failure_kind reason) =
    field "run_id" (of_nat run_id)
      (field "failure_kind" (text (kind_value failure_kind)) (field "reason" (text reason) end))
payload (run_cancelled run_id reason) =
    field "run_id" (of_nat run_id) (field "reason" (of_optional reason) end)
payload (job_enqueued job_id run_id job_type attempt) = field "job_id" (of_nat job_id) (
    field "run_id" (of_nat run_id)
      (field "job_type" (text (job_type_value job_type)) (field "attempt" (of_nat attempt) end)))
payload (job_leased job_id run_id worker_id attempt) = field "job_id" (of_nat job_id) (
    field "run_id" (of_nat run_id)
      (field "worker_id" (of_nat worker_id) (field "attempt" (of_nat attempt) end)))
payload (job_completed job_id run_id job_type duration_ms) = field "job_id" (of_nat job_id) (
    field "run_id" (of_nat run_id) (
      field "job_type" (text (job_type_value job_type))
        (field "duration_ms" (of_nat duration_ms) end)))
payload (job_failed job_id run_id failure_kind reason attempt retryable) =
    field "job_id" (of_nat job_id) (
      field "run_id" (of_nat run_id) (
        field "failure_kind" (text (kind_value failure_kind)) (
          field "reason" (text reason)
            (field "attempt" (of_nat attempt) (field "retryable" (bool retryable) end)))))
payload (job_lease_expired job_id run_id holder) =
    field "job_id" (of_nat job_id)
      (field "run_id" (of_nat run_id) (field "holder" (of_nat holder) end))
payload (job_requeued job_id run_id attempt reason) = field "job_id" (of_nat job_id) (
    field "run_id" (of_nat run_id)
      (field "attempt" (of_nat attempt) (field "reason" (text reason) end)))
payload (worker_registered worker_id model_id endpoint max_concurrency) =
    field "worker_id" (of_nat worker_id) (
      field "model_id" (text model_id)
        (field "endpoint" (text endpoint) (field "max_concurrency" (of_nat max_concurrency) end)))
payload (worker_heartbeat_received worker_id status active_jobs) =
    field "worker_id" (of_nat worker_id) (
      field "status" (text (worker_status_value status))
        (field "active_jobs" (of_nat active_jobs) end))
payload (worker_status_changed worker_id previous current) = field "worker_id" (of_nat worker_id) (
    field "previous" (text (worker_status_value previous))
      (field "current" (text (worker_status_value current)) end))
payload (worker_draining worker_id active_jobs) =
    field "worker_id" (of_nat worker_id) (field "active_jobs" (of_nat active_jobs) end)
payload (worker_unavailable worker_id reason) =
    field "worker_id" (of_nat worker_id) (field "reason" (text reason) end)
payload (worker_deregistered worker_id graceful) =
    field "worker_id" (of_nat worker_id) (field "graceful" (bool graceful) end)
