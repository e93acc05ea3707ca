-- ===== src/Queue.antt =====
-- The job queue of one process: `InMemoryJobQueue` of src/infrastructure/queue/in_memory.py, with the
-- score of src/infrastructure/redis/codecs.py. Every operation runs under one lock, so it is a function
-- from the queue to the queue. The milliseconds of the score are exact arithmetic of microseconds. A
-- set is a list without repetition, and what iterates over one sorts it first.
pub mod Recovery
pub mod Entries
pub mod Claim
pub mod Reports
pub mod Stopping
mod Samples
use agentic_gpu_platform.Shared.{
  Bool, List, Map, Option, [], any, false, get, if◌then◌else◌, length, ltb, ltb_ℤ, none, not, pop,
  put, select, some, sub_ℕ, suc, zero, ℕ, ℤ, ◌&&◌, ◌*◌, ◌++◌, ◌/◌, ◌==◌, ◌or◌, ◌||◌, ◌∷◌,
}
use agentic_gpu_platform.Enums.{JobStatus, JobType, Priority, is_in_flight, is_queued, rank}
use agentic_gpu_platform.Errors.{Outcome, job_lease_expired, key_error, ok, raise}
use agentic_gpu_platform.Lease.{Lease}
use agentic_gpu_platform.Job.{Job, lease_to, renew_lease, requeue}

abbrev pub type_number : JobType → ℕ
type_number t = elim t [
  | JobType.plan ↦ 0
  | JobType.code ↦ 1
  | JobType.review ↦ 2
  | JobType.llm_inference ↦ 3
  | JobType.build ↦ 4
  | JobType.test ↦ 5
  | JobType.static_analysis ↦ 6
  | JobType.patch_apply ↦ 7
]

abbrev pub same_type : JobType → JobType → Bool
same_type a b = type_number a == type_number b

unfoldable pub priority_band : ℕ
priority_band = 10_000_000_000_000

-- `queue_score`
unfoldable pub queue_score : Priority → (created_at : ℕ) → ℤ
unfolding rank priority_band sub_ℕ
queue_score p created_at = sub_ℕ (created_at / 1000) (rank p * priority_band)

-- `_ready` maps a type that it has not seen to nothing.
pub record Queue : Type 0 where
  pub jobs : Map Job
  pub ready : JobType → Map ℤ
  pub scores : Map ℤ
  pub leases : Map ℕ
  pub runs : Map (List ℕ)
  pub acknowledged : List ℕ

abbrev pub empty_queue : Queue
empty_queue = record {
  jobs = [];
  ready = λ t. [];
  scores = [];
  leases = [];
  runs = [];
  acknowledged = [];
}

-- `_rebuild`: the stored copy has no events.
abbrev pub rebuild : Job → Job
rebuild j = record j { events = [] }

abbrev pub Ready : Type 0
Ready = JobType → Map ℤ

unfoldable pub add_ready : JobType → (job_id : ℕ) → ℤ → Ready → Ready
add_ready t k s r u = if same_type u t then put k s (r u) else r u

unfoldable pub drop_ready : JobType → (job_id : ℕ) → Ready → Ready
drop_ready t k r u = if same_type u t then pop k (r u) else r u

abbrev pub contains : ℕ → List ℕ → Bool
contains k xs = any (◌==◌ k) xs

-- `set.add` and `set.discard`
abbrev pub add_to : ℕ → List ℕ → List ℕ
add_to k xs = if contains k xs then xs else k ∷ xs

abbrev pub discard : ℕ → List ℕ → List ℕ
discard k xs = select (λ x. not (x == k)) xs

abbrev pub members : ℕ → Map (List ℕ) → List ℕ
members k m = get k m or []

-- The publication that loses: someone holds the job, or it is finished.
unfoldable pub is_redelivery : Queue → Job → Bool
is_redelivery q j = elim (get j.id q.jobs) [
  | none ↦ false
  | some stored ↦ is_in_flight stored.status || contains j.id q.acknowledged
]

unfoldable pub enqueue : Queue → Job → Queue
enqueue q j =
    let score = queue_score j.priority j.created_at in
    if is_redelivery q j then q else record q {
      jobs = put j.id (record (rebuild j) { status = JobStatus.queued }) q.jobs;
      scores = put j.id score q.scores;
      ready = add_ready j.type j.id score q.ready;
      runs = put j.run_id (add_to j.id (members j.run_id q.runs)) q.runs;
    }

pub record Entry : Type 0 where
  pub type : JobType
  pub id : ℕ
  pub score : ℤ

-- The entries that `_next_ready` looks at, in its order.
unfoldable pub entries_of : JobType → Map ℤ → List Entry
entries_of t [] = []
entries_of t ((i, s) ∷ m) = record { type = t; id = i; score = s } ∷ entries_of t m

unfoldable pub entries : List JobType → Ready → List Entry
entries [] r = []
entries (t ∷ ts) r = entries_of t (r t) ++ entries ts r

-- The comparison of the tuples `(score, str(job_id))`.
abbrev pub earlier : Entry → Entry → Bool
earlier a b = ltb_ℤ a.score b.score || not (ltb_ℤ b.score a.score) && ltb a.id b.id

unfoldable pub lowest : Option Entry → List Entry → Option Entry
lowest best [] = best
lowest none (e ∷ es) = lowest (some e) es
lowest (some b) (e ∷ es) = let next = if earlier e b then e else b in lowest (some next) es

unfoldable pub next_ready : List JobType → Queue → Option Entry
next_ready wanted q = lowest none (entries wanted q.ready)

abbrev pub without : Entry → Queue → Queue
without e q = record q { ready = drop_ready e.type e.id q.ready }

-- The stored job of an entry, where it is still waiting.
unfoldable pub waiting : Queue → Entry → Option Job
waiting q e = elim (get e.id q.jobs) [
  | none ↦ none
  | some stored ↦ if is_queued stored.status then some stored else none
]

-- The end of an iteration that takes a job: the copy kept has no events, the one returned has.
unfoldable pub hand_out :
    Queue
    → Entry
    → Job
    → (consumer duration now generated : ℕ) → Outcome Queue (Option (Job × Lease))
hand_out q e stored consumer duration now generated =
    let (claimed, answer) =
      lease_to (rebuild stored) consumer now duration (some generated) generated in
    elim answer [
      | raise error ↦ (q, raise error)
      | ok l ↦ (
        record q {
          jobs = put e.id (rebuild claimed) q.jobs;
          leases = put e.id l.expires_at q.leases;
        },
        ok (some (claimed, l)),
      )
    ]

-- The loop of `claim`. Each iteration takes one entry out.
unfoldable pub claim_loop :
    (fuel : ℕ)
    → List JobType
    → Queue
    → (consumer duration now generated : ℕ) → Outcome Queue (Option (Job × Lease))
claim_loop zero wanted q consumer duration now generated = (q, ok none)
claim_loop (suc n) wanted q consumer duration now generated = elim (next_ready wanted q) [
  | none ↦ (q, ok none)
  | some e ↦ elim (waiting q e) [
    | none ↦ claim_loop n wanted (without e q) consumer duration now generated
    | some stored ↦ hand_out (without e q) e stored consumer duration now generated
  ]
]

-- `dict.fromkeys`: the types without repetition.
unfoldable pub distinct : List JobType → List JobType
distinct [] = []
distinct (t ∷ ts) = t ∷ select (λ u. not (same_type u t)) (distinct ts)

unfoldable pub claim :
    Queue
    → (consumer : ℕ) → List JobType
    → (duration now generated : ℕ) → Outcome Queue (Option (Job × Lease))
claim q consumer job_types duration now generated =
    claim_loop (length (entries (distinct job_types) q.ready)) (distinct job_types) q consumer
      duration now generated

unfoldable pub renew : Queue → (job_id token duration now : ℕ) → Outcome Queue Lease
renew q job_id token duration now = elim (get job_id q.jobs) [
  | none ↦ (q, raise (job_lease_expired job_id none))
  | some j ↦
      let (k, answer) = renew_lease j token now duration in
      elim answer [
        | raise error ↦ (q, raise error)
        | ok l ↦ (
          record q {
            jobs = put job_id (rebuild k) q.jobs;
            leases = put job_id l.expires_at q.leases;
          },
          ok l,
        )
      ]
]

-- `_holds`
abbrev pub holds : Job → (token : ℕ) → Bool
holds j token = elim j.lease [ none ↦ false | some l ↦ l.token == token ]

unfoldable pub acknowledge : Queue → (job_id token : ℕ) → Queue
acknowledge q job_id token = elim (get job_id q.jobs) [
  | none ↦ q
  | some j ↦ if not (holds j token) then q else record q {
    leases = pop job_id q.leases;
    runs = elim (get j.run_id q.runs) [
      | none ↦ q.runs
      | some ids ↦ put j.run_id (discard job_id ids) q.runs
    ];
    acknowledged = add_to job_id q.acknowledged;
    jobs = put job_id (record (rebuild j) { lease = none; assigned_worker_id = none }) q.jobs;
  }
]

-- `self._ready.setdefault(type, {})[job_id] = self._scores[job_id]`
unfoldable pub make_ready : Queue → JobType → (job_id : ℕ) → Outcome Queue (Unit {0})
make_ready q t job_id = elim (get job_id q.scores) [
  | none ↦ (q, raise (key_error job_id))
  | some s ↦ (record q { ready = add_ready t job_id s q.ready }, ok tt)
]

unfoldable pub release : Queue → (job_id token : ℕ) (requeue : Bool) → Outcome Queue (Unit {0})
unfolding make_ready
release q job_id token again = elim (get job_id q.jobs) [
  | none ↦ (q, ok tt)
  | some j ↦
      let freed = record q {
        leases = pop job_id q.leases;
        jobs =
            put job_id
              (record (rebuild j) {
                status = if again then JobStatus.queued else JobStatus.pending;
                lease = none;
                assigned_worker_id = none;
              })
              q.jobs;
      } in
      if not (holds j token)
      then (q, ok tt)
      else if again
      then make_ready freed j.type job_id
      else (freed, ok tt)
]
