-- ===== src/Limits.antt =====
-- src/domain/value_objects/limits.py and `TokenUsage` of src/domain/value_objects/llm.py. The fields
-- are natural numbers, as `__post_init__` demands.
use agentic_gpu_platform.Shared.{if◌then◌else◌, ltb, ℕ, ◌+◌}
use agentic_gpu_platform.Errors.{Result, ok, raise, value_error}

pub record RunLimits : Type 0 where
  pub max_plan_revisions : ℕ
  pub max_coder_iterations : ℕ
  pub max_repair_iterations : ℕ
  pub max_worker_retries : ℕ
  pub max_parallel_candidates : ℕ

-- The values of `RunLimits()`.
abbrev pub default_limits : RunLimits
default_limits = record {
  max_plan_revisions = 2;
  max_coder_iterations = 6;
  max_repair_iterations = 3;
  max_worker_retries = 3;
  max_parallel_candidates = 3;
}

unfoldable pub check_limits : RunLimits → Result RunLimits
check_limits l =
    if ltb l.max_parallel_candidates 1
    then raise (value_error "max_parallel_candidates must be at least 1")
    else if ltb l.max_worker_retries 1
    then raise (value_error "max_worker_retries must be at least 1")
    else ok l

pub record TokenUsage : Type 0 where
  pub input_tokens : ℕ
  pub output_tokens : ℕ

abbrev pub total_tokens : TokenUsage → ℕ
total_tokens u = u.input_tokens + u.output_tokens

abbrev pub no_tokens : TokenUsage
no_tokens = record { input_tokens = 0; output_tokens = 0 }

-- `TokenUsage.__add__`
abbrev pub add_usage : TokenUsage → TokenUsage → TokenUsage
add_usage u v = record {
  input_tokens = u.input_tokens + v.input_tokens;
  output_tokens = u.output_tokens + v.output_tokens;
}
