-- ===== src/Retry.antt =====
-- src/domain/services/retry_policy.py. Durations are microseconds; the float arithmetic of `backoff`
-- is exact on whole seconds and halves thereof, and is written as arithmetic of microseconds.
pub mod Policy
mod Samples
use agentic_gpu_platform.Shared.{
  Bool, String, false, if◌then◌else◌, leb, ltb, min, text_append, true, ℕ, ◌*◌, ◌-◌, ◌^◌,
}
use agentic_gpu_platform.Enums.{
  FailureKind, is_code_defect, is_invalid_structured_output, kind_value,
}
use agentic_gpu_platform.Errors.{Result, ok, raise, value_error}

pub data RetryAction : Type 0 where
  retry_same_worker retry_other_worker repair_prompt agentic_repair fail : RetryAction

pub record RetryDecision : Type 0 where
  pub action : RetryAction
  pub delay : ℕ
  pub reason : String

abbrev pub should_retry_job : RetryDecision → Bool
should_retry_job d = elim d.action [
  | retry_same_worker ↦ true
  | retry_other_worker ↦ true
  | repair_prompt ↦ true
  | agentic_repair ↦ false
  | fail ↦ false
]

pub record RetryPolicy : Type 0 where
  pub max_attempts : ℕ
  pub base_delay : ℕ
  pub max_delay : ℕ
  pub max_structured_output_repairs : ℕ

-- The values of `RetryPolicy()`.
abbrev pub default_policy : RetryPolicy
default_policy = record {
  max_attempts = 3;
  base_delay = 1_000_000;
  max_delay = 30_000_000;
  max_structured_output_repairs = 2;
}

-- `__post_init__`
unfoldable pub check_policy : RetryPolicy → Result RetryPolicy
check_policy p =
    if ltb p.max_attempts 1 then raise (value_error "max_attempts must be at least 1") else ok p

unfoldable pub backoff : RetryPolicy → (attempt : ℕ) → ℕ
backoff p attempt = min (p.base_delay * 2 ^ (attempt - 1)) p.max_delay

abbrev decision : RetryAction → ℕ → String → RetryDecision
decision action delay reason = record { action = action; delay = delay; reason = reason }

abbrev is_cancelled_kind : FailureKind → Bool
is_cancelled_kind k = elim k [ FailureKind.cancelled ↦ true | _ ↦ false ]

unfoldable pub decide : RetryPolicy → FailureKind → (attempt : ℕ) → RetryDecision
decide p kind attempt =
    if is_cancelled_kind kind
    then decision fail 0 "run cancelled"
    else if is_code_defect kind
    then decision agentic_repair 0
        (text_append (kind_value kind) " is repaired by the coder, not retried")
    else if is_invalid_structured_output kind
    then (if leb p.max_structured_output_repairs attempt
        then decision fail 0 "structured output still invalid after repairs"
        else decision repair_prompt 0 "re-ask the model with the schema violation attached")
    else if leb p.max_attempts attempt
    then decision fail 0 "retry budget exhausted"
    else elim kind [
      | FailureKind.infrastructure ↦
          decision retry_other_worker (backoff p attempt) "worker or transport failed"
      | FailureKind.inference ↦
          decision retry_other_worker (backoff p attempt)
            "inference failed; another worker may succeed"
      | FailureKind.tool ↦
          decision retry_same_worker (backoff p attempt)
            "tool could not run; the workspace is unchanged"
      | other ↦ decision fail 0 (text_append "unhandled failure kind " (kind_value other))
    ]
