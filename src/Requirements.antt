-- ===== src/Requirements.antt =====
-- src/domain/value_objects/worker.py: what a worker offers and what a job asks for. Counters are
-- natural numbers, as the `__post_init__` methods demand. `supported_roles` is a list without order.
use agentic_gpu_platform.Shared.{
  Bool, Fields, Json, List, Option, String, any, if◌then◌else◌, is_empty, is_empty_text, leb, ltb,
  ℕ,
}
use agentic_gpu_platform.Errors.{Result, ok, raise, value_error}
use agentic_gpu_platform.Enums.{AgentRole, role_eq}

-- `estimated_prompt_tokens` is a natural number, as `__post_init__` demands.
pub record JobRequirements : Type 0 where
  pub role : AgentRole
  pub model_id : Option String
  pub estimated_prompt_tokens : ℕ
  pub requires_tools : Bool
  pub requires_json_schema : Bool

pub record GpuSpec : Type 0 where
  pub gpu_type : Option String
  pub gpu_count : ℕ
  pub memory_gb : Option Json
  pub tensor_parallel_size : ℕ

pub record WorkerCapabilities : Type 0 where
  pub model_id : String
  pub context_length : ℕ
  pub max_concurrency : ℕ
  pub supported_roles : List AgentRole
  pub gpu : GpuSpec
  pub supports_tools : Bool
  pub supports_json_schema : Bool
  pub metadata : Fields

-- `WorkerCapabilities.__post_init__`
unfoldable pub check_capabilities : WorkerCapabilities → Result WorkerCapabilities
unfolding is_empty_text
check_capabilities c =
    if is_empty_text c.model_id
    then raise (value_error "model_id must not be empty")
    else if leb c.context_length 0
    then raise (value_error "context_length must be positive")
    else if ltb c.max_concurrency 1
    then raise (value_error "max_concurrency must be at least 1")
    else if is_empty c.supported_roles
    then raise (value_error "a worker must support at least one role")
    else ok c

unfoldable pub supports_role : WorkerCapabilities → AgentRole → Bool
supports_role c role = any (role_eq role) c.supported_roles

abbrev pub fits : WorkerCapabilities → (estimated_tokens : ℕ) → Bool
fits c estimated_tokens = leb estimated_tokens c.context_length

pub record WorkerLoad : Type 0 where
  pub active_jobs : ℕ
  pub queued_jobs : ℕ

abbrev pub idle_load : WorkerLoad
idle_load = record { active_jobs = 0; queued_jobs = 0 }
