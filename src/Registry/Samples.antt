-- ===== src/Registry/Samples.antt =====
-- A registry with one worker that fell silent, and what the theorems say of it.
use agentic_gpu_platform.Shared.{[], end, none, true, ◌∷◌, ◌≡◌, get as get_value}
use agentic_gpu_platform.Enums.{AgentRole, WorkerStatus}
use agentic_gpu_platform.Requirements.{WorkerCapabilities}
use agentic_gpu_platform.Worker.{Worker}
use agentic_gpu_platform.Registry
use agentic_gpu_platform.Registry.{Registry, is_due, reap_stale}
use agentic_gpu_platform.Registry.Consistency.{IsKeyed, Reachable-IsKeyed, after, fresh, registered}
use agentic_gpu_platform.Registry.Silence.{after_silence?, get-reap_stale}

abbrev capabilities : WorkerCapabilities
capabilities = record {
  model_id = "qwen";
  context_length = 8192;
  max_concurrency = 2;
  supported_roles = AgentRole.coder ∷ [];
  gpu = record { gpu_type = none; gpu_count = 1; memory_gb = none; tensor_parallel_size = 1 };
  supports_tools = true;
  supports_json_schema = true;
  metadata = end;
}

abbrev silent : Worker
silent = record {
  id = 4;
  endpoint = "http://w";
  capabilities = capabilities;
  registered_at = 0;
  status = WorkerStatus.ready;
  load = record { active_jobs = 0; queued_jobs = 0 };
  last_heartbeat_at = 10;
  metadata = end;
  events = [];
}

unfoldable known : Registry
known = Registry.register [] silent

known-IsKeyed : IsKeyed known
unfolding known
known-IsKeyed = Reachable-IsKeyed (after fresh (registered [] silent))

Reachable-IsKeyed_example : IsKeyed (Registry.register [] silent)
Reachable-IsKeyed_example = Reachable-IsKeyed (after fresh (registered [] silent))

get-reap_stale_example :
    get_value 4 (reap_stale known 100 30).0 ≡ after_silence? 100 30 (get_value 4 known)
get-reap_stale_example = get-reap_stale known 100 30 4 known-IsKeyed
