-- ===== src/Orchestrator/Publishing.antt =====
-- What the publication of jobs leaves in the queue (`_publish_jobs` of
-- src/application/orchestration/orchestrator.py, with `enqueue` of
-- src/infrastructure/queue/in_memory.py).
use agentic_gpu_platform.Shared.{
  All, Bool, Bool-cases, List, [], arith, false, get, get-put, inl, inr, none, refl, some, ℕ, ℤ,
  ◌==◌, ◌||◌, ◌∷◌, ◌≡◌,
}
use agentic_gpu_platform.Enums.{JobStatus, JobType, is_in_flight}
use agentic_gpu_platform.Job.{Job}
use agentic_gpu_platform.Queue.{Queue}
use agentic_gpu_platform.Queue
use agentic_gpu_platform.Queue.Reports.{enqueue_lem}
use agentic_gpu_platform.Orchestrator.{publish_jobs}

-- The queue has a job in flight under the identifier, or has acknowledged one.
unfoldable pub is_taken : Queue → (id : ℕ) → Bool
is_taken q id =
    Queue.contains id q.acknowledged
    || (elim (get id q.jobs) [ none ↦ false | some stored ↦ is_in_flight stored.status ])

-- The queue holds a job of the run under the identifier, which waits, and which a claim for its type
-- can find.
pub record IsPublished (run_id : ℕ) (q : Queue) (j : Job) : Type 0 where
  pub stored :
      (k : Job) × (get j.id q.jobs ≡ some k) × (k.run_id ≡ run_id) × (k.status ≡ JobStatus.queued)
  pub ready : (score : ℤ) × (get j.id (q.ready j.type) ≡ some score)

free-is_redelivery :
    (q : Queue) (j : Job) → is_taken q j.id ≡ false → Queue.is_redelivery q j ≡ false
unfolding is_taken Queue.is_redelivery
free-is_redelivery q j h = ground (arith, h)

is_taken-enqueue :
    (q : Queue) (j : Job) (id : ℕ) → is_taken q id ≡ false → is_taken (Queue.enqueue q j) id ≡ false
unfolding is_taken Queue.enqueue
is_taken-enqueue q j id h =
    ground (arith, get-put j.id id (record (Queue.rebuild j) { status = JobStatus.queued }) q.jobs)

enqueue-IsPublished :
    (run_id : ℕ) (q : Queue) (j : Job)
    → j.run_id ≡ run_id
    → is_taken q j.id ≡ false
    → IsPublished run_id (Queue.enqueue q j) j
enqueue-IsPublished run_id q j same free = elim (enqueue_lem q j) [
  | inl (taken, _) ↦ absurd (ground (arith, taken, free-is_redelivery q j free))
  | inr (_, stored, ready, _, _) ↦ record {
    stored = (record (Queue.rebuild j) { status = JobStatus.queued }, stored, same, refl);
    ready = (Queue.queue_score j.priority j.created_at, ready);
  }
]

get-add_ready :
    (r : Queue.Ready) (t u : JobType) (k i : ℕ) (s old : ℤ)
    → get i (r u) ≡ some old
    → (score : ℤ) × (get i (Queue.add_ready t k s r u) ≡ some score)
unfolding Queue.add_ready
get-add_ready r t u k i s old h = elim (Bool-cases (Queue.same_type u t)) [
  | inl e ↦ elim (Bool-cases (k == i)) [
    | inl same ↦ (s, rw (e, get-put k i s (r u), same) refl)
    | inr other ↦ (old, rw (e, get-put k i s (r u), other) h)
  ]
  | inr e ↦ (old, rw (e) h)
]

IsPublished-enqueue :
    (run_id : ℕ) (q : Queue) (i j : Job)
    → j.run_id ≡ run_id
    → IsPublished run_id q i
    → IsPublished run_id (Queue.enqueue q j) i
unfolding Queue.enqueue
IsPublished-enqueue run_id q i j same p = elim (Bool-cases (Queue.is_redelivery q j)) [
  | inl e ↦ rw (e) p
  | inr e ↦
      let waiting : Job = record (Queue.rebuild j) { status = JobStatus.queued } in
      let (k, found, own, queued) = p.stored in
      let (old, listed) = p.ready in
      let score = Queue.queue_score j.priority j.created_at in
      rw (e) (record {
        stored = elim (Bool-cases (j.id == i.id)) [
          | inl s ↦ (waiting, rw (get-put j.id i.id waiting q.jobs, s) refl, same, refl)
          | inr s ↦ (k, rw (get-put j.id i.id waiting q.jobs, s) found, own, queued)
        ];
        ready = get-add_ready q.ready j.type i.type j.id i.id score old listed;
      })
]

publish_jobs-keeps :
    (run_id : ℕ) (q : Queue) (i : Job) (js : List Job)
    → All (λ (j : Job). j.run_id ≡ run_id) js
    → IsPublished run_id q i
    → IsPublished run_id (publish_jobs q js) i
unfolding publish_jobs
publish_jobs-keeps run_id q i [] w p = p
publish_jobs-keeps run_id q i (j ∷ js) (same, w) p =
    publish_jobs-keeps run_id (Queue.enqueue q j) i js w (IsPublished-enqueue run_id q i j same p)

All-free :
    (q : Queue) (j : Job) (js : List Job)
    → All (λ (k : Job). is_taken q k.id ≡ false) js
    → All (λ (k : Job). is_taken (Queue.enqueue q j) k.id ≡ false) js
All-free q j [] h = tt
All-free q j (k ∷ js) (free, h) = (is_taken-enqueue q j k.id free, All-free q j js h)

-- Jobs of a run whose identifiers the queue has not taken are all in the queue after their publication.
pub publish_jobs-IsPublished :
    (run_id : ℕ) (q : Queue) (js : List Job)
    → All (λ (j : Job). j.run_id ≡ run_id) js
    → All (λ (j : Job). is_taken q j.id ≡ false) js
    → All (IsPublished run_id (publish_jobs q js)) js
unfolding publish_jobs
publish_jobs-IsPublished run_id q [] w h = tt
publish_jobs-IsPublished run_id q (j ∷ js) (same, w) (free, h) = (
  publish_jobs-keeps run_id (Queue.enqueue q j) j js w (enqueue-IsPublished run_id q j same free),
  publish_jobs-IsPublished run_id (Queue.enqueue q j) js w (All-free q j js h),
)
