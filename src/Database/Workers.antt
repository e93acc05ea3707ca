-- ===== src/Database/Workers.antt =====
-- The row of a worker (`WorkerModel` of src/infrastructure/database/models.py) and its translation in
-- src/infrastructure/database/mappers.py. The roles are written in the order of their texts.
pub mod Restored
use agentic_gpu_platform.Shared.{
  Fields, Json, List, Option, String, [], array, bool, by, end, field, if◌then◌else◌, ltb, none,
  null, object, refl, some, sorted, starts_with, text, true, ℕ, ◌||◌, ◌∷◌, ◌≡◌, ◌≤◌,
}
use agentic_gpu_platform.Enums.{AgentRole, WorkerStatus}
use agentic_gpu_platform.Errors.{Result, ok, raise, value_error, ◌>>=◌}
use agentic_gpu_platform.Requirements.{GpuSpec, WorkerCapabilities, check_capabilities}
use agentic_gpu_platform.Worker.{Worker}
use agentic_gpu_platform.Database.Codes.{read_code, read_role, role_value}
use agentic_gpu_platform.Database.Columns.{
  as_array, as_flag, as_mapping, as_nat, as_optional, as_text, at, dump_items, load_items, need,
  of_nat, of_optional,
}

unfoldable pub worker_status_value : WorkerStatus → String
worker_status_value WorkerStatus.starting = "STARTING"
worker_status_value WorkerStatus.registering = "REGISTERING"
worker_status_value WorkerStatus.ready = "READY"
worker_status_value WorkerStatus.busy = "BUSY"
worker_status_value WorkerStatus.draining = "DRAINING"
worker_status_value WorkerStatus.offline = "OFFLINE"
worker_status_value WorkerStatus.unhealthy = "UNHEALTHY"

unfoldable pub read_worker_status : String → Result WorkerStatus
unfolding read_code worker_status_value
read_worker_status = read_code worker_status_value (
    WorkerStatus.starting ∷ WorkerStatus.registering ∷ WorkerStatus.ready ∷ WorkerStatus.busy
    ∷ WorkerStatus.draining ∷ WorkerStatus.offline ∷ WorkerStatus.unhealthy ∷ [])

pub read_worker_status-worker_status_value :
    (s : WorkerStatus) → read_worker_status (worker_status_value s) ≡ ok s
unfolding read_worker_status
read_worker_status-worker_status_value WorkerStatus.starting = refl
read_worker_status-worker_status_value WorkerStatus.registering = refl
read_worker_status-worker_status_value WorkerStatus.ready = refl
read_worker_status-worker_status_value WorkerStatus.busy = refl
read_worker_status-worker_status_value WorkerStatus.draining = refl
read_worker_status-worker_status_value WorkerStatus.offline = refl
read_worker_status-worker_status_value WorkerStatus.unhealthy = refl

pub record WorkerModel : Type 0 where
  pub id : ℕ
  pub endpoint : String
  pub status : String
  pub capabilities : Fields
  pub active_jobs : ℕ
  pub queued_jobs : ℕ
  pub registered_at : ℕ
  pub last_heartbeat_at : ℕ
  pub meta : Fields

-- The place of a role's text in the order of the texts.
abbrev pub text_position : AgentRole → ℕ
text_position AgentRole.coder = 0
text_position AgentRole.planner = 1
text_position AgentRole.reviewer = 2

-- `sorted(role.value for role in roles)`
unfoldable pub sorted_roles : List AgentRole → List AgentRole
sorted_roles roles = sorted (by text_position) roles

abbrev pub of_role : AgentRole → Json
of_role r = text (role_value r)

unfoldable pub as_role : Json → Result AgentRole
unfolding as_text
as_role v = as_text v >>= read_role

abbrev pub of_memory : Option Json → Json
of_memory none = null
of_memory (some v) = v

unfoldable pub as_memory : Json → Result (Option Json)
as_memory null = ok none
as_memory v = ok (some v)

unfoldable pub dump_gpu : GpuSpec → Fields
dump_gpu g = field "gpu_type" (of_optional g.gpu_type) (
    field "gpu_count" (of_nat g.gpu_count) (
      field "memory_gb" (of_memory g.memory_gb)
        (field "tensor_parallel_size" (of_nat g.tensor_parallel_size) end)))

-- `GpuSpec(...)`, with the test of `__post_init__` that a natural number can fail.
unfoldable pub load_gpu : Fields → Result GpuSpec
unfolding at as_nat
load_gpu raw = at as_optional none "gpu_type" raw >>= λ gpu_type.
    at as_nat 1 "gpu_count" raw >>= λ gpu_count. at as_memory none "memory_gb" raw >>= λ memory_gb.
    at as_nat 1 "tensor_parallel_size" raw >>= λ tensor_parallel_size.
    if ltb tensor_parallel_size 1
    then raise (value_error "tensor_parallel_size must be at least 1")
    else ok (record {
      gpu_type = gpu_type;
      gpu_count = gpu_count;
      memory_gb = memory_gb;
      tensor_parallel_size = tensor_parallel_size;
    })

-- `_dump_capabilities`
unfoldable pub dump_capabilities : WorkerCapabilities → Fields
unfolding dump_gpu
dump_capabilities c = field "model_id" (text c.model_id) (
    field "context_length" (of_nat c.context_length) (
      field "max_concurrency" (of_nat c.max_concurrency) (
        field "supported_roles" (array (dump_items of_role (sorted_roles c.supported_roles))) (
          field "gpu" (object (dump_gpu c.gpu)) (
            field "supports_tools" (bool c.supports_tools) (
              field "supports_json_schema" (bool c.supports_json_schema)
                (field "metadata" (object c.metadata) end)))))))

unfoldable pub load_roles : Json → Result (List AgentRole)
unfolding as_array load_items
load_roles v = as_array v >>= load_items as_role

-- `_load_capabilities`
unfoldable pub load_capabilities : Fields → Result WorkerCapabilities
unfolding at need as_nat as_text as_flag check_capabilities
load_capabilities raw = at as_mapping end "gpu" raw >>= λ gpu.
    need as_text "model_id" raw >>= λ model_id.
    need as_nat "context_length" raw >>= λ context_length.
    at as_nat 1 "max_concurrency" raw >>= λ max_concurrency.
    at load_roles [] "supported_roles" raw >>= λ supported_roles. load_gpu gpu >>= λ spec.
    at as_flag true "supports_tools" raw >>= λ supports_tools.
    at as_flag true "supports_json_schema" raw >>= λ supports_json_schema.
    at as_mapping end "metadata" raw >>= λ metadata. check_capabilities (record {
      model_id = model_id;
      context_length = context_length;
      max_concurrency = max_concurrency;
      supported_roles = supported_roles;
      gpu = spec;
      supports_tools = supports_tools;
      supports_json_schema = supports_json_schema;
      metadata = metadata;
    })

-- `WorkerEndpoint.__post_init__`
unfoldable pub check_endpoint : String → Result String
check_endpoint url =
    if starts_with url "http://" || starts_with url "https://"
    then ok url
    else raise (value_error "worker endpoint must be an http(s) URL")

-- `apply_worker`
unfoldable pub apply_worker : WorkerModel → Worker → WorkerModel
unfolding dump_capabilities worker_status_value
apply_worker m w = record m {
  endpoint = w.endpoint;
  status = worker_status_value w.status;
  capabilities = dump_capabilities w.capabilities;
  active_jobs = w.load.active_jobs;
  queued_jobs = w.load.queued_jobs;
  last_heartbeat_at = w.last_heartbeat_at;
  meta = w.metadata;
}

-- The row that a new worker starts with; `apply_worker` sets the columns that have defaults.
abbrev pub new_worker_row : Worker → WorkerModel
new_worker_row w = record {
  id = w.id;
  endpoint = w.endpoint;
  status = worker_status_value w.status;
  capabilities = end;
  active_jobs = 0;
  queued_jobs = 0;
  registered_at = w.registered_at;
  last_heartbeat_at = w.last_heartbeat_at;
  meta = end;
}

-- `worker_to_model`
unfoldable pub worker_to_model : Worker → WorkerModel
unfolding apply_worker
worker_to_model w = apply_worker (new_worker_row w) w

-- `worker_to_domain`
unfoldable pub worker_to_domain : WorkerModel → Result Worker
unfolding check_endpoint load_capabilities read_worker_status
worker_to_domain m = check_endpoint m.endpoint >>= λ endpoint.
    load_capabilities m.capabilities >>= λ capabilities. read_worker_status m.status >>= λ status.
    ok (record {
      id = m.id;
      endpoint = endpoint;
      capabilities = capabilities;
      registered_at = m.registered_at;
      status = status;
      load = record { active_jobs = m.active_jobs; queued_jobs = m.queued_jobs };
      last_heartbeat_at = m.last_heartbeat_at;
      metadata = m.meta;
      events = [];
    })

-- The capabilities with the roles in the order of their texts.
unfoldable pub in_order : WorkerCapabilities → WorkerCapabilities
in_order c = record c { supported_roles = sorted_roles c.supported_roles }

-- What the constructors make sure of.
pub record IsStorable (w : Worker) : Type 0 where
  pub addressed : check_endpoint w.endpoint ≡ ok w.endpoint
  pub able : check_capabilities w.capabilities ≡ ok w.capabilities
  pub parallel : 1 ≤ w.capabilities.gpu.tensor_parallel_size
  pub memory : as_memory (of_memory w.capabilities.gpu.memory_gb) ≡ ok w.capabilities.gpu.memory_gb
