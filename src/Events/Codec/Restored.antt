-- ===== src/Events/Codec/Restored.antt =====
-- An event that is put on the wire and taken off it is the event.
use agentic_gpu_platform.Events.{
  DomainEvent, EventBody, candidate_completed, candidate_selected, candidate_started, event_name,
  job_completed, job_enqueued, job_failed, job_lease_expired, job_leased, job_requeued,
  plan_completed, plan_requested, repair_requested, review_completed, review_requested,
  run_cancelled, run_completed, run_created, run_failed, run_state_changed, validation_completed,
  validation_started, worker_deregistered, worker_draining, worker_heartbeat_received,
  worker_registered, worker_status_changed, worker_unavailable,
}
use agentic_gpu_platform.Shared.{Option, none, refl, some, ℕ, ◌≡◌}
use agentic_gpu_platform.Enums.{FailureKind, kind_value}
use agentic_gpu_platform.Errors.{ok, ◌>>=◌}
use agentic_gpu_platform.Database.Codes.{
  read_job_type-job_type_value, read_kind, read_run_status-run_status_value,
}
use agentic_gpu_platform.Database.Columns.{as_mapping-restored, as_optional-of_optional}
use agentic_gpu_platform.Database.Candidates.{
  read_candidate_status-candidate_status_value, read_verdict-verdict_value,
}
use agentic_gpu_platform.Database.Workers.{read_worker_status-worker_status_value}
use agentic_gpu_platform.Events.Payload.{of_maybe, payload}
use agentic_gpu_platform.Events.Codec.{as_maybe, build_body, decode_event, encode_event}

as_maybe-of_maybe : (n : Option ℕ) → as_maybe (of_maybe n) ≡ ok n
unfolding as_maybe
as_maybe-of_maybe none = refl
as_maybe-of_maybe (some n) = refl

read_kind-kind_value : (k : FailureKind) → read_kind (kind_value k) ≡ ok k
unfolding read_kind
read_kind-kind_value FailureKind.infrastructure = refl
read_kind-kind_value FailureKind.inference = refl
read_kind-kind_value FailureKind.invalid_structured_output = refl
read_kind-kind_value FailureKind.tool = refl
read_kind-kind_value FailureKind.compilation = refl
read_kind-kind_value FailureKind.test = refl
read_kind-kind_value FailureKind.review = refl
read_kind-kind_value FailureKind.cancelled = refl

build_body-payload : (b : EventBody) → build_body (event_name b) (payload b) ≡ some (ok b)
unfolding build_body event_name payload
build_body-payload (run_created _ _ _ _) = refl
build_body-payload (run_state_changed _ previous current reason) =
    rw
      (
        read_run_status-run_status_value previous,
        read_run_status-run_status_value current,
        as_optional-of_optional reason,
      )
      refl
build_body-payload (plan_requested _ _) = refl
build_body-payload (plan_completed _ _ _ _) = refl
build_body-payload (candidate_started _ _ _ job_id) = rw (as_maybe-of_maybe job_id) refl
build_body-payload (candidate_completed _ _ status _) =
    rw (read_candidate_status-candidate_status_value status) refl
build_body-payload (validation_started _ _) = refl
build_body-payload (validation_completed _ _ _ _) = refl
build_body-payload (review_requested _ _ _) = refl
build_body-payload (review_completed _ _ verdict _) = rw (read_verdict-verdict_value verdict) refl
build_body-payload (repair_requested _ _ _ _) = refl
build_body-payload (candidate_selected _ _ _) = refl
build_body-payload (run_completed _ candidate_id) = rw (as_maybe-of_maybe candidate_id) refl
build_body-payload (run_failed _ failure_kind _) = rw (read_kind-kind_value failure_kind) refl
build_body-payload (run_cancelled _ reason) = rw (as_optional-of_optional reason) refl
build_body-payload (job_enqueued _ _ job_type _) = rw (read_job_type-job_type_value job_type) refl
build_body-payload (job_leased _ _ _ _) = refl
build_body-payload (job_completed _ _ job_type _) = rw (read_job_type-job_type_value job_type) refl
build_body-payload (job_failed _ _ failure_kind _ _ _) = rw (read_kind-kind_value failure_kind) refl
build_body-payload (job_lease_expired _ _ _) = refl
build_body-payload (job_requeued _ _ _ _) = refl
build_body-payload (worker_registered _ _ _ _) = refl
build_body-payload (worker_heartbeat_received _ status _) =
    rw (read_worker_status-worker_status_value status) refl
build_body-payload (worker_status_changed _ previous current) =
    rw
      (
        read_worker_status-worker_status_value previous,
        read_worker_status-worker_status_value current,
      )
      refl
build_body-payload (worker_draining _ _) = refl
build_body-payload (worker_unavailable _ _) = refl
build_body-payload (worker_deregistered _ _) = refl

-- Every event that is encoded for the wire and decoded again is the event, its envelope included.
pub decode_event-encode_event : (e : DomainEvent) → decode_event (encode_event e) ≡ ok (some e)
unfolding decode_event encode_event
decode_event-encode_event e =
    rw (as_mapping-restored (payload e.body), ◌>>=◌, build_body-payload e.body) refl
