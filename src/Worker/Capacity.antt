-- ===== src/Worker/Capacity.antt =====
-- Occupancy and draining of a worker (src/domain/entities/worker.py).
use agentic_gpu_platform.Shared.{
  Bool, Bool-cases, Fields, List, Option, String, [], arith, false, if◌then◌else◌, inl, inr, none,
  some, true, ℕ, ◌+◌, ◌<◌, ◌==◌, ◌∷◌, ◌≡◌, ◌≤◌, ◌⊎◌,
}
use agentic_gpu_platform.Enums.{WorkerStatus, is_live}
use agentic_gpu_platform.Errors.{ok, raise, worker_unavailable}
use agentic_gpu_platform.Requirements.{
  JobRequirements, WorkerCapabilities, WorkerLoad, check_capabilities,
}
use agentic_gpu_platform.Worker.{
  Worker, available_slots, can_accept, deregister, heartbeat, mark_unavailable, mark_unhealthy,
  register, release_slot, reserve_slot, start_draining,
}
use agentic_gpu_platform.Worker.Eligibility.{can_accept-Meets}

pub data Call : Type 0 where
  heartbeats :
      (now : ℕ) (status : Option WorkerStatus) (load : Option WorkerLoad)
      (capabilities : Option WorkerCapabilities)
      → Call
  starts_draining : (now : ℕ) → Call
  marks_unavailable marks_unhealthy : (now : ℕ) (reason : String) → Call
  deregisters : (now : ℕ) (graceful : Bool) → Call
  reserves : JobRequirements → Call
  releases : Call

unfoldable pub after : Worker → Call → Worker
after w (heartbeats now s l c) = heartbeat w now s l c
after w (starts_draining now) = (start_draining w now).0
after w (marks_unavailable now why) = mark_unavailable w now why
after w (marks_unhealthy now why) = mark_unhealthy w now why
after w (deregisters now graceful) = deregister w now graceful
after w (reserves r) = (reserve_slot w r).0
after w releases = release_slot w

unfoldable pub run : Worker → List Call → Worker
run w [] = w
run w (c ∷ cs) = run (after w c) cs

-- READY means that a slot is free, and BUSY that none is.
pub record IsConsistent (w : Worker) : Type 0 where
  pub ready_free :
      w.status ≡ WorkerStatus.ready → w.load.active_jobs < w.capabilities.max_concurrency
  pub busy_full : w.status ≡ WorkerStatus.busy → w.capabilities.max_concurrency ≤ w.load.active_jobs

after-IsConsistent : (w : Worker) (c : Call) → IsConsistent w → IsConsistent (after w c)
unfolding after heartbeat start_draining mark_unavailable mark_unhealthy deregister reserve_slot
    release_slot
after-IsConsistent w (heartbeats now s l c) k = ground arith
after-IsConsistent w (starts_draining now) k = ground arith
after-IsConsistent w (marks_unavailable now why) k = ground arith
after-IsConsistent w (marks_unhealthy now why) k = ground arith
after-IsConsistent w (deregisters now graceful) k = ground arith
after-IsConsistent w (reserves r) k = ground arith
after-IsConsistent w releases k = ground arith

run-IsConsistent : (w : Worker) (cs : List Call) → IsConsistent w → IsConsistent (run w cs)
unfolding run
run-IsConsistent w [] k = k
run-IsConsistent w (c ∷ cs) k = run-IsConsistent (after w c) cs (after-IsConsistent w c k)

-- A worker registered with capabilities that pass their check says READY exactly while it has a free
-- slot, as far as it says READY or BUSY at all, whatever calls come.
pub registered-IsConsistent :
    (id : ℕ) (endpoint : String) (caps : WorkerCapabilities) (now : ℕ) (metadata : Option Fields)
    (cs : List Call)
    → check_capabilities caps ≡ ok caps
    → IsConsistent (run (register id endpoint caps now metadata) cs)
unfolding register check_capabilities
registered-IsConsistent id endpoint caps now metadata cs e =
    run-IsConsistent (register id endpoint caps now metadata) cs (ground arith)

-- Reserving a slot fails, and changes nothing, exactly when the worker cannot take the job. Otherwise
-- it takes one slot and stays within the worker's ceiling, and giving the slot back restores the load.
pub reserve_slot_lem :
    (w : Worker) (r : JobRequirements)
    → let (v, answer) = reserve_slot w r in
      (can_accept w r ≡ false) × (v ≡ w) × (answer ≡ raise (worker_unavailable w.id w.status))
      ⊎ (can_accept w r ≡ true)
        × (answer ≡ ok tt)
        × (v.load.active_jobs ≡ w.load.active_jobs + 1)
        × (v.load.active_jobs ≤ v.capabilities.max_concurrency)
        × ((release_slot v).load ≡ w.load)
unfolding reserve_slot release_slot
reserve_slot_lem w r = elim (Bool-cases (can_accept w r)) [
  | inl e ↦ ground (arith, can_accept-Meets w r)
  | inr e ↦ ground arith
]

-- The calls that do not speak of the worker's status.
abbrev pub IsQuiet : Call → Type 0
IsQuiet (heartbeats now none l c) = Unit
IsQuiet (reserves r) = Unit
IsQuiet releases = Unit
IsQuiet (starts_draining now) = Unit
IsQuiet _ = ⊥

abbrev pub AreQuiet : List Call → Type 0
AreQuiet [] = Unit
AreQuiet (c ∷ cs) = IsQuiet c × AreQuiet cs

after-draining :
    (w : Worker) (c : Call)
    → IsQuiet c
    → w.status ≡ WorkerStatus.draining
    → (after w c).status ≡ WorkerStatus.draining
unfolding after heartbeat start_draining reserve_slot release_slot
after-draining w (heartbeats now none l c) q d = ground arith
after-draining w (heartbeats now (some s) l c) q d = elim q [ ]
after-draining w (starts_draining now) q d = ground arith
after-draining w (marks_unavailable now why) q d = elim q [ ]
after-draining w (marks_unhealthy now why) q d = elim q [ ]
after-draining w (deregisters now graceful) q d = elim q [ ]
after-draining w (reserves r) q d = ground arith
after-draining w releases q d = ground arith

run-draining :
    (w : Worker) (cs : List Call)
    → AreQuiet cs
    → w.status ≡ WorkerStatus.draining
    → (run w cs).status ≡ WorkerStatus.draining
unfolding run
run-draining w [] q d = d
run-draining w (c ∷ cs) q d = run-draining (after w c) cs q.1 (after-draining w c q.0 d)

-- A worker told to drain stays draining through load reports, reservations and releases, and no job
-- is ever placed on it.
pub start_draining-excludes :
    (w : Worker) (now : ℕ) (cs : List Call) (r : JobRequirements)
    → is_live w.status ≡ true
    → AreQuiet cs
    → let drained = run (start_draining w now).0 cs in
      (drained.status ≡ WorkerStatus.draining)
      × (can_accept drained r ≡ false)
      × ((reserve_slot drained r).0 ≡ drained)
unfolding reserve_slot can_accept
start_draining-excludes w now cs r l q =
    let d = run-draining (start_draining w now).0 cs q (unfold start_draining in ground arith) in
    (d, ground arith, ground arith)

-- A worker that was given up on and then reports again, without naming a status, is readmitted: it is
-- READY or BUSY by the load that it then has.
pub heartbeat-readmits :
    (w : Worker) (now : ℕ) (l : Option WorkerLoad) (c : Option WorkerCapabilities)
    → is_live w.status ≡ false
    → let v = heartbeat w now none l c in
      (v.last_heartbeat_at ≡ now)
      × (v.status ≡ (if available_slots v == 0 then WorkerStatus.busy else WorkerStatus.ready))
unfolding heartbeat
heartbeat-readmits w now l c h = ground arith
