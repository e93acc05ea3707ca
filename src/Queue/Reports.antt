-- ===== src/Queue/Reports.antt =====
-- Publications and reports to `InMemoryJobQueue` (src/infrastructure/queue/in_memory.py), and what
-- takes a job back from a worker that went silent.
use agentic_gpu_platform.Shared.{
  ==_iff, Bool, Bool-cases, Map, arith, false, get, get-pop, get-put, inl, inr, ltb, none, pop, put,
  refl, some, true, ℕ, ℤ, ◌<◌, ◌∙◌, ◌≡◌, ◌≢◌, ◌≤◌, ◌⊎◌,
}
use agentic_gpu_platform.Enums.{JobStatus, JobType}
use agentic_gpu_platform.Errors.{is_ok, ok}
use agentic_gpu_platform.Lease.{Lease}
use agentic_gpu_platform.Queue.{
  Queue, Ready, acknowledge, add_ready, enqueue, holds, is_redelivery, make_ready, queue_score,
  rebuild, release, renew, type_number,
}
use agentic_gpu_platform.Queue.Recovery.{reclaim_one, requeue_stored}
use agentic_gpu_platform.Job.{
  Job, assert_lease, attempts_remaining, expire_lease, renew_lease, requeue,
}

-- A report on a job under a token that its lease does not carry, or on a job without a lease, leaves
-- the queue as it was: the late `acknowledge` and `release` are ignored, and the late `renew` raises.
pub reports_ignored :
    (q : Queue) (j : Job) (id token d now : ℕ) (again : Bool)
    → get id q.jobs ≡ some j
    → holds j token ≡ false
    → (acknowledge q id token ≡ q)
      × (release q id token again ≡ (q, ok tt))
      × ((renew q id token d now).0 ≡ q)
      × (is_ok (renew q id token d now).1 ≡ false)
unfolding acknowledge release renew renew_lease assert_lease
reports_ignored q j id token d now again s h = ground arith

pub put_here {ℓ} : {V : Type ℓ} (k : ℕ) (v : V) (m : Map V) → get k (put k v m) ≡ some v
put_here k v m = get-put k k v m ∙ ground arith

put_else {ℓ} : {V : Type ℓ} (k i : ℕ) (v : V) (m : Map V) → k ≢ i → get i (put k v m) ≡ get i m
put_else k i v m n = get-put k i v m ∙ ground arith

add_ready_here : (r : Ready) (t : JobType) (k : ℕ) (s : ℤ) → get k (add_ready t k s r t) ≡ some s
unfolding add_ready
add_ready_here r t k s = rw ((==_iff (type_number t) (type_number t)).1 refl) (put_here k s (r t))

-- A publication that is a redelivery of a job in flight or acknowledged is dropped. Any other leaves
-- the job waiting, and ready under the score of its priority and age, and changes no other job.
pub enqueue_lem :
    (q : Queue) (j : Job)
    → (is_redelivery q j ≡ true) × (enqueue q j ≡ q)
      ⊎ (is_redelivery q j ≡ false)
        × (get j.id (enqueue q j).jobs ≡ some (record (rebuild j) { status = JobStatus.queued }))
        × (get j.id ((enqueue q j).ready j.type) ≡ some (queue_score j.priority j.created_at))
        × (get j.id (enqueue q j).scores ≡ some (queue_score j.priority j.created_at))
        × ((i : ℕ) → j.id ≢ i → get i (enqueue q j).jobs ≡ get i q.jobs)
unfolding enqueue
enqueue_lem q j = elim (Bool-cases (is_redelivery q j)) [
  | inl e ↦ inl (e, rw e refl)
  | inr e ↦
      let score = queue_score j.priority j.created_at in
      inr (
        e,
        rw e (put_here j.id (record (rebuild j) { status = JobStatus.queued }) q.jobs),
        rw e (add_ready_here q.ready j.type j.id score),
        rw e (put_here j.id score q.scores),
        λ i n. rw e (put_else j.id i (record (rebuild j) { status = JobStatus.queued }) q.jobs n),
      )
]

pop_here {ℓ} : {V : Type ℓ} (k : ℕ) (m : Map V) → get k (pop k m) ≡ none
pop_here k m = get-pop k k m ∙ ground arith

-- A job whose lease has lapsed is taken back: its lease is gone from the queue and from the job. With
-- an attempt left it waits again and is ready under its score; with none it is dead. Nothing raises as
-- long as the job has a score, as every published job has.
pub reclaim_one-recovers :
    (q : Queue) (j : Job) (l : Lease) (id now : ℕ) (score : ℤ)
    → get id q.jobs ≡ some j
    → j.lease ≡ some l
    → l.expires_at ≤ now
    → get id q.scores ≡ some score
    → let (p, answer) = reclaim_one q id now in
      (answer ≡ ok true)
      × (get id p.leases ≡ none)
      × ((k : Job) × (get id p.jobs ≡ some k)
          × (k.lease ≡ none)
          × (k.attempt ≡ j.attempt)
          × ((j.attempt < j.max_attempts)
                × (k.status ≡ JobStatus.queued)
                × (get id (p.ready j.type) ≡ some score)
              ⊎ (j.max_attempts ≤ j.attempt) × (k.status ≡ JobStatus.dead)))
unfolding reclaim_one requeue_stored make_ready expire_lease requeue
reclaim_one-recovers q j l id now score s h e c =
    let freed = (expire_lease j now).0 in
    let again = (requeue freed now "lease expired").0 in
    let gone = pop_here id q.leases in
    elim (Bool-cases (ltb 0 (attempts_remaining j))) [
      | inl b ↦
          let kept = put_here id (rebuild again) (put id again q.jobs) in
          let entered = add_ready_here q.ready j.type id score in
          (
            ground arith,
            ground (arith, gone),
            (
              rebuild again,
              ground (arith, kept),
              ground arith,
              ground arith,
              inl (ground arith, ground arith, ground (arith, entered)),
            ),
          )
      | inr b ↦
          let kept = put_here id (rebuild freed) q.jobs in
          (
            ground arith,
            ground (arith, gone),
            (
              rebuild freed,
              ground (arith, kept),
              ground arith,
              ground arith,
              inr (ground arith, ground arith),
            ),
          )
    ]
