-- ===== src/Database/Jobs.antt =====
-- The row of a job (`JobModel` of src/infrastructure/database/models.py) and its translation in
-- src/infrastructure/database/mappers.py. The lease is flattened into four columns; its token is opaque.
use agentic_gpu_platform.Shared.{
  Fields, Option, String, [], ap, bool, end, false, field, none, refl, some, text, true, ℕ, ◌≡◌,
}
use agentic_gpu_platform.Enums.{kind_value}
use agentic_gpu_platform.Errors.{Result, ok, ◌>>=◌}
use agentic_gpu_platform.Lease.{Lease, check}
use agentic_gpu_platform.Requirements.{JobRequirements}
use agentic_gpu_platform.Job.{Job, check_job}
use agentic_gpu_platform.Database.Codes.{
  dump_optional, job_status_value, job_type_value, priority_value, read_job_status,
  read_job_status-job_status_value, read_job_type, read_job_type-job_type_value, read_kind,
  read_kinds, read_optional, read_priority, read_priority-priority_value, read_role,
  read_role-role_value, read_roles, role_value,
}
use agentic_gpu_platform.Database.Columns.{
  as_flag, as_nat, as_optional, as_optional-of_optional, as_text, at, need, of_nat, of_optional,
}
use agentic_gpu_platform.Database.Runs.{check_key}

pub record JobModel : Type 0 where
  pub id : ℕ
  pub run_id : ℕ
  pub project_id : ℕ
  pub type : String
  pub role : Option String
  pub candidate_id : Option ℕ
  pub priority : String
  pub status : String
  pub attempt : ℕ
  pub max_attempts : ℕ
  pub payload : Fields
  pub requirements : Option Fields
  pub idempotency_key : Option String
  pub lease_token : Option ℕ
  pub lease_holder_id : Option ℕ
  pub lease_acquired_at : Option ℕ
  pub lease_expires_at : Option ℕ
  pub assigned_worker_id : Option ℕ
  pub created_at : ℕ
  pub started_at : Option ℕ
  pub completed_at : Option ℕ
  pub result : Option Fields
  pub failure_kind : Option String
  pub failure_reason : Option String

-- `_dump_requirements`
unfoldable pub dump_requirements : Option JobRequirements → Option Fields
unfolding role_value
dump_requirements none = none
dump_requirements (some r) = some (
    field "role" (text (role_value r.role)) (
      field "model_id" (of_optional r.model_id) (
        field "estimated_prompt_tokens" (of_nat r.estimated_prompt_tokens) (
          field "requires_tools" (bool r.requires_tools)
            (field "requires_json_schema" (bool r.requires_json_schema) end)))))

-- `_load_requirements`: an empty object counts as missing.
unfoldable pub load_requirements : Option Fields → Result (Option JobRequirements)
unfolding at need as_text as_optional as_nat as_flag read_role
load_requirements none = ok none
load_requirements (some end) = ok none
load_requirements (some (field k v fs)) =
    let raw = field k v fs in
    need as_text "role" raw >>= read_role >>= λ role.
    at as_optional none "model_id" raw >>= λ model.
    at as_nat 0 "estimated_prompt_tokens" raw >>= λ tokens.
    at as_flag false "requires_tools" raw >>= λ tools.
    at as_flag true "requires_json_schema" raw >>= λ schema. ok (
      some (record {
        role = role;
        model_id = model;
        estimated_prompt_tokens = tokens;
        requires_tools = tools;
        requires_json_schema = schema;
      }))

abbrev pub on_lease : (Lease → ℕ) → Option Lease → Option ℕ
on_lease column none = none
on_lease column (some l) = some (column l)

-- `_load_lease`: all four columns, or no lease.
unfoldable pub load_lease : JobModel → Result (Option Lease)
unfolding check
load_lease m = elim m.lease_token [
  | none ↦ ok none
  | some token ↦ elim m.lease_holder_id [
    | none ↦ ok none
    | some holder ↦ elim m.lease_acquired_at [
      | none ↦ ok none
      | some acquired ↦ elim m.lease_expires_at [
        | none ↦ ok none
        | some expires ↦
            check (record {
              job_id = m.id;
              holder = holder;
              token = token;
              acquired_at = acquired;
              expires_at = expires;
            })
            >>= λ l. ok (some l)
      ]
    ]
  ]
]

-- `apply_job`
unfoldable pub apply_job : JobModel → Job → JobModel
unfolding role_value priority_value job_status_value kind_value dump_requirements
apply_job m j = record m {
  role = dump_optional role_value j.role;
  candidate_id = j.candidate_id;
  priority = priority_value j.priority;
  status = job_status_value j.status;
  attempt = j.attempt;
  max_attempts = j.max_attempts;
  payload = j.payload;
  requirements = dump_requirements j.requirements;
  idempotency_key = j.idempotency_key;
  lease_token = on_lease (λ l. l.token) j.lease;
  lease_holder_id = on_lease (λ l. l.holder) j.lease;
  lease_acquired_at = on_lease (λ l. l.acquired_at) j.lease;
  lease_expires_at = on_lease (λ l. l.expires_at) j.lease;
  assigned_worker_id = j.assigned_worker_id;
  started_at = j.started_at;
  completed_at = j.completed_at;
  result = j.result;
  failure_kind = dump_optional kind_value j.failure_kind;
  failure_reason = j.failure_reason;
}

-- The row that a new job starts with: the defaults of the table, where `apply_job` sets the column anyway.
abbrev pub new_job_row : Job → JobModel
new_job_row j = record {
  id = j.id;
  run_id = j.run_id;
  project_id = j.project_id;
  type = job_type_value j.type;
  role = none;
  candidate_id = none;
  priority = priority_value j.priority;
  status = job_status_value j.status;
  attempt = 0;
  max_attempts = 3;
  payload = end;
  requirements = none;
  idempotency_key = none;
  lease_token = none;
  lease_holder_id = none;
  lease_acquired_at = none;
  lease_expires_at = none;
  assigned_worker_id = none;
  created_at = j.created_at;
  started_at = none;
  completed_at = none;
  result = none;
  failure_kind = none;
  failure_reason = none;
}

-- `job_to_model`
unfoldable pub job_to_model : Job → JobModel
unfolding apply_job job_type_value
job_to_model j = apply_job (new_job_row j) j

-- `job_to_domain`
unfoldable pub job_to_domain : JobModel → Result Job
unfolding read_job_type read_role read_priority read_job_status read_kind read_optional
    load_requirements check_key load_lease check_job
job_to_domain m = read_job_type m.type >>= λ type. read_optional read_role m.role >>= λ role.
    read_priority m.priority >>= λ priority. read_job_status m.status >>= λ status.
    load_requirements m.requirements >>= λ requirements.
    read_optional check_key m.idempotency_key >>= λ key. load_lease m >>= λ lease.
    read_optional read_kind m.failure_kind >>= λ kind. check_job (record {
      id = m.id;
      run_id = m.run_id;
      project_id = m.project_id;
      type = type;
      role = role;
      candidate_id = m.candidate_id;
      priority = priority;
      status = status;
      attempt = m.attempt;
      max_attempts = m.max_attempts;
      payload = m.payload;
      requirements = requirements;
      idempotency_key = key;
      lease = lease;
      assigned_worker_id = m.assigned_worker_id;
      created_at = m.created_at;
      started_at = m.started_at;
      completed_at = m.completed_at;
      result = m.result;
      failure_kind = kind;
      failure_reason = m.failure_reason;
      events = [];
    })

-- The row of the same job.
pub record IsRowOf (m : JobModel) (j : Job) : Type 0 where
  pub id : m.id ≡ j.id
  pub run : m.run_id ≡ j.run_id
  pub project : m.project_id ≡ j.project_id
  pub type : m.type ≡ job_type_value j.type
  pub created : m.created_at ≡ j.created_at

-- A lease on this job with a positive term, where there is one.
abbrev pub IsLeaseOf : ℕ → Option Lease → Type 0
IsLeaseOf id none = Unit
IsLeaseOf id (some l) = (l.job_id ≡ id) × (check l ≡ ok l)

-- What the constructors and the lifecycle make sure of.
pub record IsStorable (j : Job) : Type 0 where
  pub made : check_job (record j { events = [] }) ≡ ok (record j { events = [] })
  pub keyed : read_optional check_key j.idempotency_key ≡ ok j.idempotency_key
  pub leased : IsLeaseOf j.id j.lease

requirements-restored :
    (r : Option JobRequirements) → load_requirements (dump_requirements r) ≡ ok r
unfolding load_requirements dump_requirements
requirements-restored none = refl
requirements-restored (some r) =
    rw (read_role-role_value r.role, as_optional-of_optional r.model_id) refl

lease-restored :
    (m : JobModel) (j : Job) (o : Option Lease)
    → j.lease ≡ o
    → m.id ≡ j.id
    → IsLeaseOf j.id o
    → load_lease (apply_job m j) ≡ ok o
unfolding load_lease apply_job
lease-restored m j none q e v = rw (load_lease, apply_job, q) refl
lease-restored m j (some l) q e v =
    rw (load_lease, apply_job, q, apply_job, q, apply_job, q, apply_job, q, apply_job, e, ← v.0)
      (ap (λ (r : Result Lease). r >>= λ x. ok (some x)) v.1)

-- A job that is stored over a row of the same job, and read back, is the job, less the events that
-- were already published: the lease, the requirements and the failure come back from their columns.
pub job_to_domain-apply_job :
    (m : JobModel) (j : Job)
    → IsRowOf m j
    → IsStorable j
    → job_to_domain (apply_job m j) ≡ ok (record j { events = [] })
unfolding job_to_domain apply_job
job_to_domain-apply_job m j s v =
    rw
      (
        job_to_domain,
        lease-restored m j j.lease refl s.id v.leased,
        apply_job,
        s.type,
        read_job_type-job_type_value j.type,
        read_roles j.role,
        read_priority-priority_value j.priority,
        read_job_status-job_status_value j.status,
        requirements-restored j.requirements,
        v.keyed,
        read_kinds j.failure_kind,
        s.id,
        s.run,
        s.project,
        s.created,
      )
      v.made

-- A new row of a job, read back, is the job, less the events that were already published.
pub job_to_domain-job_to_model :
    (j : Job) → IsStorable j → job_to_domain (job_to_model j) ≡ ok (record j { events = [] })
unfolding job_to_model
job_to_domain-job_to_model j v =
    job_to_domain-apply_job (new_job_row j) j
      (record { id = refl; run = refl; project = refl; type = refl; created = refl }) v
