-- ===== src/Queue/Stopping.antt =====
-- Cancelling the jobs of a run in `InMemoryJobQueue` (src/infrastructure/queue/in_memory.py).
use agentic_gpu_platform.Shared.{
  Has, Has-cons, List, Option-cases, [], arith, by, get, get-put, inl, inr, none, some, sorted,
  sorted-Has, subst, sym, true, ℕ, ◌∷◌, ◌≡◌,
}
use agentic_gpu_platform.Enums.{job_is_terminal}
use agentic_gpu_platform.Job.{Job}
use agentic_gpu_platform.Queue.{Entry, Queue, members, waiting}
use agentic_gpu_platform.Queue.Recovery.{cancel_each, cancel_one, cancel_run_jobs, cancelled}

-- The queue has no unfinished job under this id.
abbrev pub IsOver : Queue → ℕ → Type 0
IsOver q k = (j : Job) → get k q.jobs ≡ some j → job_is_terminal j.status ≡ true

cancel_one-stops : (q : Queue) (k : ℕ) → IsOver (cancel_one q k).0 k
unfolding cancel_one
cancel_one-stops q k j h = elim (Option-cases (get k q.jobs)) [
  | inl n ↦ ground arith
  | inr (i, e) ↦ ground (arith, get-put k k (cancelled i) q.jobs)
]

cancel_one-keeps : (q : Queue) (k i : ℕ) → IsOver q i → IsOver (cancel_one q k).0 i
unfolding cancel_one
cancel_one-keeps q k i o j h = elim (Option-cases (get k q.jobs)) [
  | inl n ↦ ground (arith, o j)
  | inr (x, e) ↦ ground (arith, get-put k i (cancelled x) q.jobs, o j)
]

cancel_each-keeps : (q : Queue) (ks : List ℕ) (i : ℕ) → IsOver q i → IsOver (cancel_each q ks).0 i
unfolding cancel_each
cancel_each-keeps q [] i o = o
cancel_each-keeps q (k ∷ ks) i o =
    cancel_each-keeps (cancel_one q k).0 ks i (cancel_one-keeps q k i o)

cancel_each-stops : (q : Queue) (ks : List ℕ) (k : ℕ) → Has k ks → IsOver (cancel_each q ks).0 k
unfolding cancel_each
cancel_each-stops q [] k m = elim m [ ]
cancel_each-stops q (i ∷ ks) k m = elim (Has-cons ks m) [
  | inl e ↦
      cancel_each-keeps (cancel_one q i).0 ks k
        (subst (IsOver (cancel_one q i).0) e (cancel_one-stops q i))
  | inr r ↦ cancel_each-stops (cancel_one q i).0 ks k r
]

idle : (q : Queue) (e : Entry) → IsOver q e.id → waiting q e ≡ none
unfolding waiting
idle q e o = elim (Option-cases (get e.id q.jobs)) [
  | inl n ↦ ground arith
  | inr (j, h) ↦ ground (arith, o j h)
]

-- After the jobs of a run were cancelled, no job that the queue counts to that run is unfinished, and
-- none of them waits to be claimed.
pub cancel_run_jobs-stops :
    (q : Queue) (run_id k : ℕ)
    → Has k (members run_id q.runs)
    → let p = (cancel_run_jobs q run_id).0 in
      IsOver p k × ((e : Entry) → e.id ≡ k → waiting p e ≡ none)
unfolding cancel_run_jobs
cancel_run_jobs-stops q run_id k m =
    let ids = members run_id q.runs in
    let over = cancel_each-stops q (sorted (by λ i. i) ids) k (sorted-Has (by λ i. i) ids m) in
    (
      over,
      λ e same.
          idle (cancel_each q (sorted (by λ i. i) ids)).0 e
            (subst (IsOver (cancel_each q (sorted (by λ i. i) ids)).0) (sym same) over),
    )
