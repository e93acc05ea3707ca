-- ===== src/Orchestrator/Failures.antt =====
-- What a failed job leads to: `_classify`, `_handle_failure` and `handle_dead_job` of
-- src/application/orchestration/orchestrator.py, with the queue of one process. The job that the second
-- transaction reads is the one that the first one stored, as the events are not stored with it.
use agentic_gpu_platform.Shared.{
  Bool, Option, String, [], false, if◌then◌else◌, none, some, true, ℕ, ◌or◌, ◌||◌,
}
use agentic_gpu_platform.Enums.{FailureKind, is_code_defect, run_is_terminal}
use agentic_gpu_platform.Errors.{
  DomainError, Outcome, Result, inference_error, llm_timeout, no_compatible_worker, ok, raise,
  settled, structured_output_error, tool_execution_error, workspace_error, ◌>>=◌,
}
use agentic_gpu_platform.Project.{is_given}
use agentic_gpu_platform.Retry.{RetryDecision, RetryPolicy, decide, should_retry_job}
use agentic_gpu_platform.Job.{Job}
use agentic_gpu_platform.Job
use agentic_gpu_platform.Run.{Run}
use agentic_gpu_platform.Run
use agentic_gpu_platform.Queue.{Queue}
use agentic_gpu_platform.Queue

-- `_classify`
unfoldable pub classify : DomainError → FailureKind
classify (structured_output_error m) = FailureKind.invalid_structured_output
classify (llm_timeout m) = FailureKind.inference
classify (inference_error m) = FailureKind.inference
classify (no_compatible_worker m) = FailureKind.infrastructure
classify (tool_execution_error m) = FailureKind.tool
classify (workspace_error m) = FailureKind.infrastructure
classify _ = FailureKind.infrastructure

-- What is stored after a failure, and whether `_advance` is called.
pub record Handled : Type 0 where
  pub job : Job
  pub run : Option Run
  pub queue : Queue
  pub advances : Bool

unfoldable pub fail_run :
    Option Run → FailureKind → (reason : String) (now : ℕ) → Result (Option Run)
unfolding settled Run.fail
fail_run none kind reason now = ok none
fail_run (some r) kind reason now =
    if run_is_terminal r.status || is_code_defect kind
    then ok (some r)
    else (settled (Run.fail r now kind reason) >>= λ s. ok (some s))

-- The second half, where the job is tried again: the queue has it back, then the job is stored as
-- queued and published.
unfoldable pub publish_again : RetryDecision → Handled → (now : ℕ) → Outcome Handled (Unit {0})
unfolding Job.requeue Queue.enqueue
publish_again d h now =
    let (again, answer) = Job.requeue (record h.job { events = [] }) now d.reason in
    elim answer [
      | raise e ↦ (h, raise e)
      | ok _ ↦ (record h { job = again; queue = Queue.enqueue h.queue again }, ok tt)
    ]

-- What follows the policy's decision; `again` is `decision.should_retry_job`.
unfoldable pub settle_failure :
    (again : Bool)
    → RetryDecision
    → FailureKind
    → Job
    → (token : ℕ) → (reason : String) → Option Run
    → Queue
    → (now : ℕ) → Outcome Handled (Unit {0})
unfolding Job.fail fail_run Queue.release publish_again
settle_failure again decision kind j token reason run q now =
    let (k, _) = Job.fail j none now kind reason (some again) in
    let start : Handled = record { job = j; run = run; queue = q; advances = false } in
    elim (if again then ok run else fail_run run kind reason now) [
      | raise e ↦ (start, raise e)
      | ok r ↦
          let (freed, answer) = Queue.release q j.id token again in
          let stored : Handled = record { job = k; run = r; queue = freed; advances = false } in
          elim answer [
            | raise e ↦ (stored, raise e)
            | ok _ ↦
                if again
                then publish_again decision stored now
                else (record stored { advances = true }, ok tt)
          ]
    ]

-- `_handle_failure`, with the text of the exception as the reason.
unfoldable pub handle_failure :
    RetryPolicy
    → Job
    → (token : ℕ) → DomainError
    → (reason : String) → Option Run
    → Queue
    → (now : ℕ) → Outcome Handled (Unit {0})
unfolding classify decide settle_failure
handle_failure policy j token error reason run q now =
    let decision = decide policy (classify error) j.attempt in
    settle_failure (should_retry_job decision) decision (classify error) j token reason run q now

-- `handle_dead_job`: `dead_reason` is the text for a job that names no reason.
unfoldable pub handle_dead_job : Job → (dead_reason : String) → Run → (now : ℕ) → Result Run
unfolding settled is_given Run.fail
handle_dead_job j dead_reason r now =
    let reason =
      if is_given j.failure_reason then j.failure_reason or dead_reason else dead_reason in
    if run_is_terminal r.status
    then ok r
    else settled (Run.fail r now (j.failure_kind or FailureKind.infrastructure) reason)
