-- ===== src/Worker.antt =====
-- src/domain/entities/worker.py and src/domain/events/worker.py: the registration of a GPU worker.
-- The reasons of `rejection_reason` are data in place of texts.
pub mod Eligibility
pub mod Capacity
use agentic_gpu_platform.Shared.{
  Bool, Fields, List, Option, String, [], end, false, if◌then◌else◌, leb, ltb, none, not, some,
  str_eq, true, ℕ, ◌&&◌, ◌++◌, ◌+◌, ◌-◌, ◌==◌, ◌or◌, ◌∷◌,
}
use agentic_gpu_platform.Enums.{AgentRole, WorkerStatus, accepts_new_jobs}
use agentic_gpu_platform.Errors.{Outcome, invalid_worker_transition, ok, raise, worker_unavailable}
use agentic_gpu_platform.Requirements.{
  JobRequirements, WorkerCapabilities, WorkerLoad, fits, idle_load, supports_role,
}

pub data WorkerEvent : Type 0 where
  worker_registered :
      (occurred_at worker_id : ℕ) (model_id endpoint : String) (max_concurrency : ℕ) → WorkerEvent
  worker_heartbeat :
      (occurred_at worker_id : ℕ) (status : WorkerStatus) (active_jobs : ℕ) → WorkerEvent
  worker_status_changed :
      (occurred_at worker_id : ℕ) (previous current : WorkerStatus) → WorkerEvent
  worker_draining : (occurred_at worker_id active_jobs : ℕ) → WorkerEvent
  worker_gone : (occurred_at worker_id : ℕ) (reason : String) → WorkerEvent
  worker_deregistered : (occurred_at worker_id : ℕ) (graceful : Bool) → WorkerEvent

pub record Worker : Type 0 where
  pub id : ℕ
  pub endpoint : String
  pub capabilities : WorkerCapabilities
  pub registered_at : ℕ
  pub status : WorkerStatus
  pub load : WorkerLoad
  pub last_heartbeat_at : ℕ
  pub metadata : Fields
  pub events : List WorkerEvent

unfoldable pub register :
    (worker_id : ℕ) (endpoint : String) (capabilities : WorkerCapabilities) (now : ℕ)
    (metadata : Option Fields)
    → Worker
register worker_id endpoint capabilities now metadata = record {
  id = worker_id;
  endpoint = endpoint;
  capabilities = capabilities;
  registered_at = now;
  status = WorkerStatus.ready;
  load = idle_load;
  last_heartbeat_at = now;
  metadata = metadata or end;
  events =
      worker_registered now worker_id capabilities.model_id endpoint capabilities.max_concurrency
      ∷ [];
}

-- `max(max_concurrency - active_jobs, 0)`
abbrev pub available_slots : Worker → ℕ
available_slots w = w.capabilities.max_concurrency - w.load.active_jobs

-- `now - last_heartbeat_at > timeout`; the difference may be negative.
unfoldable pub is_stale : Worker → (now timeout : ℕ) → Bool
is_stale w now timeout = ltb (w.last_heartbeat_at + timeout) now

abbrev asks_other_model : Option String → String → Bool
asks_other_model none served = false
asks_other_model (some asked) served = not (str_eq asked served)

unfoldable pub can_accept : Worker → JobRequirements → Bool
unfolding supports_role
can_accept w r =
    let caps = w.capabilities in
    if not (accepts_new_jobs w.status)
    then false
    else if leb (available_slots w) 0
    then false
    else if not (supports_role caps r.role)
    then false
    else if asks_other_model r.model_id caps.model_id
    then false
    else if r.requires_tools && not caps.supports_tools
    then false
    else if r.requires_json_schema && not caps.supports_json_schema
    then false
    else fits caps r.estimated_prompt_tokens

pub data Rejection : Type 0 where
  not_accepting : WorkerStatus → Rejection
  at_capacity : Rejection
  role_unsupported : AgentRole → Rejection
  other_model : (served : String) (asked : Option String) → Rejection
  no_tools no_json_schema : Rejection
  prompt_too_long : (context_length : ℕ) → Rejection

unfoldable pub rejection_reason : Worker → JobRequirements → Option Rejection
unfolding supports_role
rejection_reason w r =
    let caps = w.capabilities in
    if not (accepts_new_jobs w.status)
    then some (not_accepting w.status)
    else if leb (available_slots w) 0
    then some at_capacity
    else if not (supports_role caps r.role)
    then some (role_unsupported r.role)
    else if asks_other_model r.model_id caps.model_id
    then some (other_model caps.model_id r.model_id)
    else if r.requires_tools && not caps.supports_tools
    then some no_tools
    else if r.requires_json_schema && not caps.supports_json_schema
    then some no_json_schema
    else if not (fits caps r.estimated_prompt_tokens)
    then some (prompt_too_long caps.context_length)
    else none

abbrev pub worker_position : WorkerStatus → ℕ
worker_position WorkerStatus.starting = 0
worker_position WorkerStatus.registering = 1
worker_position WorkerStatus.ready = 2
worker_position WorkerStatus.busy = 3
worker_position WorkerStatus.draining = 4
worker_position WorkerStatus.offline = 5
worker_position WorkerStatus.unhealthy = 6

abbrev pub worker_status_eq : WorkerStatus → WorkerStatus → Bool
worker_status_eq a b = worker_position a == worker_position b

abbrev pub record_event : WorkerEvent → Worker → Worker
record_event e w = record w { events = w.events ++ e ∷ [] }

-- `_transition`
unfoldable pub transition : Worker → WorkerStatus → (now : ℕ) → Worker
transition w target now =
    if worker_status_eq w.status target
    then w
    else record_event (worker_status_changed now w.id w.status target)
        (record w { status = target })

-- `_sync_busy`; its test for READY or BUSY is the one of `accepts_new_jobs`.
unfoldable pub sync_busy : Worker → Worker
sync_busy w =
    if accepts_new_jobs w.status
    then record w {
      status = if available_slots w == 0 then WorkerStatus.busy else WorkerStatus.ready;
    }
    else w

abbrev is_unavailable : WorkerStatus → Bool
is_unavailable s = elim s [
  | WorkerStatus.offline ↦ true
  | WorkerStatus.unhealthy ↦ true
  | _ ↦ false
]

-- The status that a heartbeat asks for, where it asks for another one.
abbrev asked_transition : Worker → Option WorkerStatus → (now : ℕ) → Worker
asked_transition w none now =
    if is_unavailable w.status then transition w WorkerStatus.ready now else w
asked_transition w (some s) now =
    if not (worker_status_eq s w.status)
    then transition w s now
    else if is_unavailable w.status
    then transition w WorkerStatus.ready now
    else w

unfoldable pub heartbeat :
    Worker
    → (now : ℕ) (status : Option WorkerStatus) (load : Option WorkerLoad)
      (capabilities : Option WorkerCapabilities)
    → Worker
unfolding transition sync_busy
heartbeat w now status load capabilities =
    let seen = record w {
      last_heartbeat_at = now;
      capabilities = capabilities or w.capabilities;
      load = load or w.load;
    } in
    let moved = sync_busy (asked_transition seen status now) in
    record_event (worker_heartbeat now w.id moved.status moved.load.active_jobs) moved

unfoldable pub start_draining : Worker → (now : ℕ) → Outcome Worker (Unit {0})
unfolding transition
start_draining w now =
    if worker_status_eq w.status WorkerStatus.draining
    then (w, ok tt)
    else if is_unavailable w.status
    then (w, raise (invalid_worker_transition w.status WorkerStatus.draining))
    else (
      record_event (worker_draining now w.id w.load.active_jobs)
          (transition w WorkerStatus.draining now),
      ok tt,
    )

unfoldable pub mark_unavailable : Worker → (now : ℕ) (reason : String) → Worker
unfolding transition
mark_unavailable w now reason =
    if worker_status_eq w.status WorkerStatus.offline
    then w
    else record_event (worker_gone now w.id reason) (transition w WorkerStatus.offline now)

unfoldable pub mark_unhealthy : Worker → (now : ℕ) (reason : String) → Worker
unfolding transition
mark_unhealthy w now reason =
    if worker_status_eq w.status WorkerStatus.unhealthy
    then w
    else record_event (worker_gone now w.id reason) (transition w WorkerStatus.unhealthy now)

unfoldable pub deregister : Worker → (now : ℕ) (graceful : Bool) → Worker
unfolding transition
deregister w now graceful = record_event (worker_deregistered now w.id graceful) (
    if not (worker_status_eq w.status WorkerStatus.offline)
    then transition w WorkerStatus.offline now
    else w)

unfoldable pub is_drained : Worker → Bool
is_drained w = worker_status_eq w.status WorkerStatus.draining && w.load.active_jobs == 0

unfoldable pub reserve_slot : Worker → JobRequirements → Outcome Worker (Unit {0})
unfolding sync_busy
reserve_slot w r = if not (can_accept w r) then (w, raise (worker_unavailable w.id w.status)) else (
  sync_busy (record w {
    load = record { active_jobs = w.load.active_jobs + 1; queued_jobs = w.load.queued_jobs };
  }),
  ok tt,
)

unfoldable pub release_slot : Worker → Worker
unfolding sync_busy
release_slot w = sync_busy (record w {
  load = record { active_jobs = w.load.active_jobs - 1; queued_jobs = w.load.queued_jobs };
})
