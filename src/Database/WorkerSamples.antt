-- ===== src/Database/WorkerSamples.antt =====
-- A worker to store, and what comes back of it.
use agentic_gpu_platform.Shared.{[], arith, end, none, refl, starts_with, true, ◌∷◌, ◌≡◌}
use agentic_gpu_platform.Enums.{AgentRole, WorkerStatus}
use agentic_gpu_platform.Errors.{ok}
use agentic_gpu_platform.Requirements.{check_capabilities}
use agentic_gpu_platform.Worker.{Worker}
use agentic_gpu_platform.Database.Workers.{
  IsStorable, apply_worker, as_memory, check_endpoint, in_order, worker_to_domain, worker_to_model,
}
use agentic_gpu_platform.Database.Workers.Restored.{worker_to_domain-apply_worker}

abbrev gpu_worker : Worker
gpu_worker = record {
  id = 4;
  endpoint = "http://w";
  capabilities = record {
    model_id = "qwen";
    context_length = 8192;
    max_concurrency = 2;
    supported_roles = AgentRole.reviewer ∷ AgentRole.coder ∷ [];
    gpu = record { gpu_type = none; gpu_count = 1; memory_gb = none; tensor_parallel_size = 1 };
    supports_tools = true;
    supports_json_schema = true;
    metadata = end;
  };
  registered_at = 0;
  status = WorkerStatus.busy;
  load = record { active_jobs = 2; queued_jobs = 0 };
  last_heartbeat_at = 10;
  metadata = end;
  events = [];
}

gpu_worker-IsStorable : IsStorable gpu_worker
unfolding check_endpoint check_capabilities as_memory starts_with
gpu_worker-IsStorable = record {
  addressed = refl;
  able = refl;
  parallel = omega arith;
  memory = refl;
}

worker_to_domain-apply_worker_example :
    worker_to_domain (apply_worker (worker_to_model gpu_worker) gpu_worker)
    ≡ ok (record gpu_worker { capabilities = in_order gpu_worker.capabilities; events = [] })
unfolding worker_to_model
worker_to_domain-apply_worker_example =
    worker_to_domain-apply_worker (worker_to_model gpu_worker) gpu_worker refl refl
      gpu_worker-IsStorable
