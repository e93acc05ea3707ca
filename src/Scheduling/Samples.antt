-- ===== src/Scheduling/Samples.antt =====
-- Workers to try the code on, and the theorems about workers and scheduling at concrete inputs.
use agentic_gpu_platform.Shared.{
  List, [], any, arith, end, false, here, insert, none, refl, select, some, sorted, true, ◌∷◌, ◌≡◌,
  ◌⊎◌,
}
use agentic_gpu_platform.Enums.{AgentRole, rank}
use agentic_gpu_platform.Errors.{ok}
use agentic_gpu_platform.Requirements.{JobRequirements, WorkerCapabilities, check_capabilities}
use agentic_gpu_platform.Worker.{Worker, can_accept, register, release_slot, reserve_slot}
use agentic_gpu_platform.Worker.Capacity.{
  Call, IsConsistent, heartbeats, registered-IsConsistent, releases, reserves, run,
}
use agentic_gpu_platform.Scheduling.{better, select_least_loaded}
use agentic_gpu_platform.Scheduling.LeastLoaded.{select_least_loaded-best}

abbrev small_caps : WorkerCapabilities
small_caps = record {
  model_id = "qwen";
  context_length = 8192;
  max_concurrency = 2;
  supported_roles = AgentRole.planner ∷ AgentRole.coder ∷ [];
  gpu = record { gpu_type = none; gpu_count = 1; memory_gb = none; tensor_parallel_size = 1 };
  supports_tools = true;
  supports_json_schema = true;
  metadata = end;
}

small_caps_pass : check_capabilities small_caps ≡ ok small_caps
unfolding check_capabilities
small_caps_pass = refl

abbrev coding_need : JobRequirements
coding_need = record {
  role = AgentRole.coder;
  model_id = some "qwen";
  estimated_prompt_tokens = 4000;
  requires_tools = false;
  requires_json_schema = true;
}

first_worker : Worker
unfolding register
first_worker = register 3 "http://gpu-3" small_caps 10 none

second_worker : Worker
unfolding register reserve_slot can_accept
second_worker = (reserve_slot (register 5 "http://gpu-5" small_caps 12 none) coding_need).0

abbrev both : List Worker
both = second_worker ∷ first_worker ∷ []

machine : Unit {0}
unfolding first_worker second_worker can_accept reserve_slot release_slot select_least_loaded rank
    any select sorted insert
machine = tt

first_fits : can_accept first_worker coding_need ≡ true
unfolding machine
first_fits = refl

first_wins : select_least_loaded both coding_need ≡ some first_worker
unfolding machine
first_wins = refl

abbrev busy_day : List Call
busy_day =
    reserves coding_need ∷ reserves coding_need ∷ heartbeats 20 none none none ∷ releases ∷ []

registered-IsConsistent_example :
    IsConsistent (run (register 3 "http://gpu-3" small_caps 10 none) busy_day)
registered-IsConsistent_example =
    registered-IsConsistent 3 "http://gpu-3" small_caps 10 none busy_day small_caps_pass

select_least_loaded-best_example :
    (first_worker ≡ second_worker) ⊎ (better second_worker first_worker ≡ false)
unfolding machine
select_least_loaded-best_example =
    (select_least_loaded-best both coding_need first_worker second_worker (omega arith) first_wins
      (here refl) refl).2
