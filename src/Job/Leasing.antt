-- ===== src/Job/Leasing.antt =====
-- Who may report on a leased job, and what happens to a lease that runs out
-- (src/domain/entities/job.py).
use agentic_gpu_platform.Shared.{
  Bool-cases, Option, Option-cases, String, arith, false, inl, inr, none, refl, some, true, ℕ, ◌+◌,
  ◌<◌, ◌≡◌, ◌≤◌, ◌⊎◌,
}
use agentic_gpu_platform.Enums.{JobStatus, is_in_flight}
use agentic_gpu_platform.Errors.{invalid_job_transition, is_ok, ok, raise}
use agentic_gpu_platform.Lease.{Lease}
use agentic_gpu_platform.Job.{
  Job, assert_lease, complete, expire_lease, fail, lease_to, mark_running, renew_lease, requeue,
}
use agentic_gpu_platform.Job.History.{
  Call, after, cancels, completes, enqueues, expires, fails, leases, marks_running, renews,
  requeues,
}
use agentic_gpu_platform.Job.Validity.{IsValid}

-- The calls that report on a job under a token.
abbrev pub ReportsUnder : Call → ℕ → Type 0
ReportsUnder (marks_running t now) u = t ≡ u
ReportsUnder (renews t now d) u = t ≡ u
ReportsUnder (completes t now r) u = t ≡ some u
ReportsUnder (fails t now k why retryable) u = t ≡ some u
ReportsUnder _ u = ⊥

-- Whether the lease that a job holds, if any, has this token and still runs at `now`.
abbrev pub Holds : Job → (token now : ℕ) → Type 0
Holds j token now = (l : Lease) × (j.lease ≡ some l) × (l.token ≡ token) × (now < l.expires_at)

abbrev pub time_of : Call → ℕ
time_of (enqueues now) = now
time_of (leases w now d t g) = now
time_of (marks_running t now) = now
time_of (renews t now d) = now
time_of (completes t now r) = now
time_of (fails t now k why retryable) = now
time_of (expires now) = now
time_of (requeues now why) = now
time_of (cancels now) = now

assert_lease-Holds : (j : Job) (u now : ℕ) → is_ok (assert_lease j u now) ≡ true → Holds j u now
unfolding assert_lease
assert_lease-Holds j u now h = held j.lease refl
  where
    held : (o : Option Lease) → j.lease ≡ o → Holds j u now
    held none e = ground arith
    held (some l) e = (l, e, ground arith, ground arith)

refused : (j : Job) (u now : ℕ) → ¬ Holds j u now → is_ok (assert_lease j u now) ≡ false
refused j u now n = elim (Bool-cases (is_ok (assert_lease j u now))) [
  | inl y ↦ absurd (n (assert_lease-Holds j u now y))
  | inr e ↦ e
]

-- A report under a token that the job's running lease does not carry changes nothing.
pub report_rejected :
    (j : Job) (c : Call) (token : ℕ)
    → ReportsUnder c token
    → ¬ Holds j token (time_of c)
    → after j c ≡ j
unfolding after mark_running renew_lease complete fail
report_rejected j (enqueues now) u h n = elim h [ ]
report_rejected j (leases w now d t g) u h n = elim h [ ]
report_rejected j (marks_running t now) u h n = ground (arith, refused j u now n)
report_rejected j (renews t now d) u h n = ground (arith, refused j u now n)
report_rejected j (completes t now r) u h n = ground (arith, refused j u now n)
report_rejected j (fails t now k why retryable) u h n = ground (arith, refused j u now n)
report_rejected j (expires now) u h n = elim h [ ]
report_rejected j (requeues now why) u h n = elim h [ ]
report_rejected j (cancels now) u h n = elim h [ ]

-- A valid job in flight whose lease has run out is taken back by `expire_lease`: its lease is gone
-- and its attempts are as they were. Either attempts remain, the answer is true, and `requeue` makes
-- the job claimable again; or none remain, the answer is false, and the job is dead.
pub expire_lease-recovers :
    (j : Job) (now : ℕ) (why : String)
    → IsValid j
    → is_in_flight j.status ≡ true
    → ((l : Lease) → j.lease ≡ some l → l.expires_at ≤ now)
    → let (freed, again) = expire_lease j now in
      (freed.lease ≡ none)
      × (freed.attempt ≡ j.attempt)
      × ((again ≡ true)
            × (j.attempt < j.max_attempts)
            × ((requeue freed now why).1 ≡ ok tt)
            × ((requeue freed now why).0.status ≡ JobStatus.queued)
          ⊎ (again ≡ false) × (j.max_attempts ≤ j.attempt) × (freed.status ≡ JobStatus.dead))
unfolding expire_lease requeue
expire_lease-recovers j now why v h out = elim (Option-cases j.lease) [
  | inl e ↦ absurd (ground (arith, v.leased_in_flight))
  | inr (l, e) ↦ ground (arith, out l)
]

-- A lease that still runs keeps the job: `expire_lease` changes nothing and answers false.
pub expire_lease-keeps :
    (j : Job) (now : ℕ)
    → ((l : Lease) → j.lease ≡ some l → now < l.expires_at)
    → expire_lease j now ≡ (j, false)
unfolding expire_lease
expire_lease-keeps j now runs = elim (Option-cases j.lease) [
  | inl e ↦ ground arith
  | inr (l, e) ↦ ground (arith, runs l)
]

-- Asking a lease for no time at all raises after the job was marked: the attempt is spent, and the
-- job is in flight with no lease, so no later `expire_lease` ever takes it back.
pub lease_to-stuck :
    (j : Job) (worker_id now generated later : ℕ) (token : Option ℕ)
    → j.status ≡ JobStatus.queued
    → j.lease ≡ none
    → let stuck = (lease_to j worker_id now 0 token generated).0 in
      (is_ok (lease_to j worker_id now 0 token generated).1 ≡ false)
      × (stuck.attempt ≡ j.attempt + 1)
      × (stuck.status ≡ JobStatus.leased)
      × (expire_lease stuck later ≡ (stuck, false))
unfolding lease_to expire_lease
lease_to-stuck j w now g later t q n = ground arith

-- Once a job is claimed, it is not claimed again before it is given back: a second `lease_to` raises
-- and changes nothing.
pub lease_to-exclusive :
    (j : Job) (w now d g w' now' d' g' : ℕ) (t t' : Option ℕ)
    → is_ok (lease_to j w now d t g).1 ≡ true
    → lease_to (lease_to j w now d t g).0 w' now' d' t' g' ≡ (
      (lease_to j w now d t g).0,
      raise (invalid_job_transition JobStatus.leased JobStatus.leased),
    )
unfolding lease_to
lease_to-exclusive j w now d g w' now' d' g' t t' h = ground arith

-- The worker that was granted the lease holds it until it runs out, under the token it was given.
pub lease_to-Holds :
    (j : Job) (w now d t g later : ℕ)
    → j.status ≡ JobStatus.queued
    → now ≤ later
    → later < now + d
    → Holds (lease_to j w now d (some t) g).0 t later
unfolding lease_to
lease_to-Holds j w now d t g later q h k = (
  record { job_id = j.id; holder = w; token = t; acquired_at = now; expires_at = now + d },
  ground arith,
  refl,
  k,
)
