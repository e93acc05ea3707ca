-- ===== src/Registry.antt =====
-- src/infrastructure/queue/in_memory.py, `InMemoryWorkerRegistry`: the workers that one process knows.
-- The lock makes every operation one step. The time to live of a registration is accepted and not
-- used, as in the source.
pub mod Consistency
pub mod Silence
mod Samples
use agentic_gpu_platform.Shared.{
  Bool, List, Map, Option, [], by, false, get as get_value, has, if◌then◌else◌, ltb, map, none, not,
  pop, put, select, some, sorted, true, ℕ, ◌&&◌, ◌++◌, ◌or◌, ◌∷◌,
}
use agentic_gpu_platform.Enums.{WorkerStatus, accepts_new_jobs, is_live}
use agentic_gpu_platform.Requirements.{WorkerLoad}
use agentic_gpu_platform.Worker
use agentic_gpu_platform.Worker.{Worker}

abbrev pub Registry : Type 0
Registry = Map Worker

-- `_copy_worker`: a new entity has no events.
unfoldable pub copy_worker : Worker → Worker
copy_worker w = record w { events = [] }

unfoldable pub register : Registry → Worker → Registry
unfolding copy_worker
register r w = put w.id (copy_worker w) r

unfoldable pub heartbeat : Registry → (worker_id : ℕ) (load : WorkerLoad) (at : ℕ) → Registry × Bool
unfolding copy_worker
heartbeat r worker_id load at = elim (get_value worker_id r) [
  | none ↦ (r, false)
  | some w ↦ (put worker_id (copy_worker (Worker.heartbeat w at none (some load) none)) r, true)
]

unfoldable pub get : Registry → (worker_id : ℕ) → Option Worker
unfolding copy_worker
get r worker_id = elim (get_value worker_id r) [ none ↦ none | some w ↦ some (copy_worker w) ]

-- `_sorted`: the order of the keys' texts.
unfoldable pub sorted_workers : Registry → List Worker
sorted_workers r = map (λ e. e.1) (sorted (by (λ e. e.0)) r)

unfoldable pub list_all : Registry → List Worker
list_all r = map copy_worker (sorted_workers r)

abbrev pub is_available : Worker → Bool
is_available w = accepts_new_jobs w.status && ltb 0 (Worker.available_slots w)

unfoldable pub list_available : Registry → List Worker
list_available r = map copy_worker (select is_available (sorted_workers r))

unfoldable pub update : Registry → Worker → Registry
unfolding copy_worker
update r w = if not (has w.id r) then r else put w.id (copy_worker w) r

unfoldable pub deregister : Registry → (worker_id : ℕ) → Registry
deregister r worker_id = pop worker_id r

-- Whether the loop of `reap_stale` takes the worker.
unfoldable pub is_due : (now heartbeat_timeout : ℕ) → Worker → Bool
is_due now heartbeat_timeout w = is_live w.status && Worker.is_stale w now heartbeat_timeout

-- The worker that leaves, with the events of the transition.
unfoldable pub reaped : (now : ℕ) → Worker → Worker
unfolding copy_worker
reaped now w = Worker.mark_unavailable (copy_worker w) now "heartbeat timeout"

-- One round of the loop of `reap_stale`.
unfoldable pub reap_one :
    (now heartbeat_timeout : ℕ) → Registry × List Worker → Worker → Registry × List Worker
reap_one now heartbeat_timeout (r, out) stored =
    if not (is_due now heartbeat_timeout stored) then (r, out) else (
      put (reaped now stored).id (copy_worker (reaped now stored)) r,
      out ++ reaped now stored ∷ [],
    )

unfoldable pub reap_all :
    (now heartbeat_timeout : ℕ) → Registry × List Worker → List Worker → Registry × List Worker
unfolding reap_one
reap_all now heartbeat_timeout acc [] = acc
reap_all now heartbeat_timeout acc (stored ∷ rest) =
    reap_all now heartbeat_timeout (reap_one now heartbeat_timeout acc stored) rest

unfoldable pub reap_stale : Registry → (now heartbeat_timeout : ℕ) → Registry × List Worker
unfolding reap_all
reap_stale r now heartbeat_timeout = reap_all now heartbeat_timeout (r, []) (sorted_workers r)
