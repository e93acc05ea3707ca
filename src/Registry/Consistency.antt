-- ===== src/Registry/Consistency.antt =====
-- What every operation of the registry keeps: a worker stands under its own identifier, once, and
-- without events.
use agentic_gpu_platform.Shared.{
  Bool-cases, List, Option-cases, [], arith, false, get as get_value, get-put, get-pop, inl, inr,
  none, pop, put, refl, some, ℕ, ==_iff, subst, has, ◌++◌, ◌==◌, ◌∷◌, ◌≡◌, ◌∙◌,
}
use agentic_gpu_platform.Requirements.{WorkerLoad}
use agentic_gpu_platform.Worker
use agentic_gpu_platform.Worker.{Worker}
use agentic_gpu_platform.Registry
use agentic_gpu_platform.Registry.{
  Registry, copy_worker, is_due, reap_all, reap_one, reap_stale, reaped, sorted_workers, update,
}

pub data IsKeyed : Registry → Type 0 where
  nothing : IsKeyed []
  one_more :
      (k : ℕ) (w : Worker) (r : Registry)
      → w.id ≡ k
      → w.events ≡ []
      → get_value k r ≡ none
      → IsKeyed r
      → IsKeyed ((k, w) ∷ r)

put-IsKeyed :
    (k : ℕ) (w : Worker) (r : Registry) → w.id ≡ k → w.events ≡ [] → IsKeyed r → IsKeyed (put k w r)
unfolding put get_value
put-IsKeyed k w [] own quiet good = one_more k w [] own quiet refl nothing
put-IsKeyed k w ((i, v) ∷ r) own quiet (one_more _ _ _ e q fresh good) =
    elim (Bool-cases (i == k)) [
      | inl h ↦ rw h (
          one_more k w r own quiet (subst (λ n. get_value n r ≡ none) ((==_iff i k).0 h) fresh)
            good)
      | inr h ↦ rw h (
          one_more i v (put k w r) e q (ground (arith, get-put k i w r))
            (put-IsKeyed k w r own quiet good))
    ]

pop-IsKeyed : (k : ℕ) (r : Registry) → IsKeyed r → IsKeyed (pop k r)
unfolding pop
pop-IsKeyed k [] good = good
pop-IsKeyed k ((i, v) ∷ r) (one_more _ _ _ e q fresh good) = elim (Bool-cases (i == k)) [
  | inl h ↦ rw h (pop-IsKeyed k r good)
  | inr h ↦ rw h (one_more i v (pop k r) e q (ground (arith, get-pop k i r)) (pop-IsKeyed k r good))
]

IsKeyed-get :
    (r : Registry) (k : ℕ) (w : Worker)
    → IsKeyed r
    → get_value k r ≡ some w
    → (w.id ≡ k) × (w.events ≡ [])
unfolding get_value
IsKeyed-get [] k w good h = absurd (ground arith)
IsKeyed-get ((i, v) ∷ r) k w (one_more _ _ _ e q fresh good) h =
    ground (arith, IsKeyed-get r k w good)

reap_all-IsKeyed :
    (now heartbeat_timeout : ℕ) (r : Registry) (out : List Worker) (ws : List Worker)
    → IsKeyed r
    → IsKeyed (reap_all now heartbeat_timeout (r, out) ws).0
unfolding reap_all reap_one copy_worker
reap_all-IsKeyed now heartbeat_timeout r out [] good = good
reap_all-IsKeyed now heartbeat_timeout r out (s ∷ ws) good =
    elim (Bool-cases (is_due now heartbeat_timeout s)) [
      | inl e ↦
          rw (reap_all, e)
            (reap_all-IsKeyed now heartbeat_timeout
              (put (reaped now s).id (copy_worker (reaped now s)) r) (out ++ reaped now s ∷ []) ws
              (put-IsKeyed (reaped now s).id (copy_worker (reaped now s)) r refl refl good))
      | inr e ↦ rw (reap_all, e) (reap_all-IsKeyed now heartbeat_timeout r out ws good)
    ]

-- One operation of the registry.
pub data Step : Registry → Registry → Type 0 where
  registered : (r : Registry) (w : Worker) → Step r (Registry.register r w)
  beaten :
      (r : Registry) (worker_id : ℕ) (load : WorkerLoad) (at : ℕ)
      → Step r (Registry.heartbeat r worker_id load at).0
  updated : (r : Registry) (w : Worker) → Step r (update r w)
  deregistered : (r : Registry) (worker_id : ℕ) → Step r (Registry.deregister r worker_id)
  swept : (r : Registry) (now heartbeat_timeout : ℕ) → Step r (reap_stale r now heartbeat_timeout).0

-- What operations make of a new registry.
pub data Reachable : Registry → Type 0 where
  fresh : Reachable []
  after : {r s : Registry} → Reachable r → Step r s → Reachable s

heartbeat-id :
    (w : Worker) (at : ℕ) (load : WorkerLoad)
    → (Worker.heartbeat w at none (some load) none).id ≡ w.id
unfolding Worker.heartbeat Worker.transition Worker.sync_busy
heartbeat-id w at load = ground arith

Step-IsKeyed : {r s : Registry} → Step r s → IsKeyed r → IsKeyed s
unfolding Registry.register Registry.heartbeat update Registry.deregister reap_stale copy_worker
Step-IsKeyed (registered r w) good = put-IsKeyed w.id (copy_worker w) r refl refl good
Step-IsKeyed (beaten r worker_id load at) good = elim (Option-cases (get_value worker_id r)) [
  | inl e ↦ rw (Registry.heartbeat, e) good
  | inr (w, e) ↦
      rw (Registry.heartbeat, e)
        (put-IsKeyed worker_id (copy_worker (Worker.heartbeat w at none (some load) none)) r
          (heartbeat-id w at load ∙ (IsKeyed-get r worker_id w good e).0) refl good)
]
Step-IsKeyed (updated r w) good = elim (Bool-cases (has w.id r)) [
  | inl e ↦ rw e (put-IsKeyed w.id (copy_worker w) r refl refl good)
  | inr e ↦ rw e good
]
Step-IsKeyed (deregistered r worker_id) good = pop-IsKeyed worker_id r good
Step-IsKeyed (swept r now heartbeat_timeout) good =
    reap_all-IsKeyed now heartbeat_timeout r [] (sorted_workers r) good

-- Whatever operations made a registry, from an empty one on, every worker stands in it under its
-- own identifier, once, and without events.
pub Reachable-IsKeyed : {r : Registry} → Reachable r → IsKeyed r
Reachable-IsKeyed fresh = nothing
Reachable-IsKeyed (after reached step) = Step-IsKeyed step (Reachable-IsKeyed reached)

-- A worker that is not registered stays so: neither a heartbeat nor an update brings it back, and
-- the heartbeat answers false.
pub absent-stays :
    (r : Registry) (w : Worker) (load : WorkerLoad) (at : ℕ)
    → get_value w.id r ≡ none
    → (update r w ≡ r) × (Registry.heartbeat r w.id load at ≡ (r, false))
unfolding update Registry.heartbeat
absent-stays r w load at h = ground arith
