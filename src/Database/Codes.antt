-- ===== src/Database/Codes.antt =====
-- The texts that the enumerations of src/domain/enums.py are stored as, and the JSON columns of
-- src/infrastructure/database/mappers.py.
use agentic_gpu_platform.Shared.{
  List, Option, String, [], if◌then◌else◌, is_empty_text, none, refl, some, str_eq, ◌∷◌, ◌≡◌,
}
use agentic_gpu_platform.Enums.{
  AgentRole, FailureKind, JobStatus, JobType, Priority, RunStatus, kind_value,
}
use agentic_gpu_platform.Errors.{Result, ok, raise, value_error, ◌>>=◌}

-- `Enum(value)`: the member with that value.
unfoldable pub read_code :
    {A : Type 0} → (value : A → String) → (members : List A) → String → Result A
read_code value [] s = raise (value_error "not a valid value")
read_code value (x ∷ xs) s =
    let rest = read_code value xs s in if str_eq (value x) s then ok x else rest

-- `Enum(column) if column else None`
unfoldable pub read_optional :
    {A : Type 0} → (String → Result A) → Option String → Result (Option A)
unfolding is_empty_text
read_optional read none = ok none
read_optional read (some s) = if is_empty_text s then ok none else (read s >>= λ a. ok (some a))

-- `member.value if member else None`
abbrev pub dump_optional : {A : Type 0} → (value : A → String) → Option A → Option String
dump_optional value none = none
dump_optional value (some a) = some (value a)

unfoldable pub run_status_value : RunStatus → String
run_status_value RunStatus.created = "CREATED"
run_status_value RunStatus.planning = "PLANNING"
run_status_value RunStatus.plan_ready = "PLAN_READY"
run_status_value RunStatus.coding = "CODING"
run_status_value RunStatus.validating = "VALIDATING"
run_status_value RunStatus.reviewing = "REVIEWING"
run_status_value RunStatus.repairing = "REPAIRING"
run_status_value RunStatus.completed = "COMPLETED"
run_status_value RunStatus.failed = "FAILED"
run_status_value RunStatus.cancelling = "CANCELLING"
run_status_value RunStatus.cancelled = "CANCELLED"

unfoldable pub read_run_status : String → Result RunStatus
unfolding read_code run_status_value
read_run_status = read_code run_status_value (
    RunStatus.created ∷ RunStatus.planning ∷ RunStatus.plan_ready ∷ RunStatus.coding
    ∷ RunStatus.validating ∷ RunStatus.reviewing ∷ RunStatus.repairing ∷ RunStatus.completed
    ∷ RunStatus.failed ∷ RunStatus.cancelling ∷ RunStatus.cancelled ∷ [])

pub read_run_status-run_status_value : (s : RunStatus) → read_run_status (run_status_value s) ≡ ok s
unfolding read_run_status
read_run_status-run_status_value RunStatus.created = refl
read_run_status-run_status_value RunStatus.planning = refl
read_run_status-run_status_value RunStatus.plan_ready = refl
read_run_status-run_status_value RunStatus.coding = refl
read_run_status-run_status_value RunStatus.validating = refl
read_run_status-run_status_value RunStatus.reviewing = refl
read_run_status-run_status_value RunStatus.repairing = refl
read_run_status-run_status_value RunStatus.completed = refl
read_run_status-run_status_value RunStatus.failed = refl
read_run_status-run_status_value RunStatus.cancelling = refl
read_run_status-run_status_value RunStatus.cancelled = refl

unfoldable pub job_status_value : JobStatus → String
job_status_value JobStatus.pending = "PENDING"
job_status_value JobStatus.queued = "QUEUED"
job_status_value JobStatus.leased = "LEASED"
job_status_value JobStatus.running = "RUNNING"
job_status_value JobStatus.succeeded = "SUCCEEDED"
job_status_value JobStatus.failed = "FAILED"
job_status_value JobStatus.dead = "DEAD"
job_status_value JobStatus.cancelled = "CANCELLED"

unfoldable pub read_job_status : String → Result JobStatus
unfolding read_code job_status_value
read_job_status = read_code job_status_value (
    JobStatus.pending ∷ JobStatus.queued ∷ JobStatus.leased ∷ JobStatus.running
    ∷ JobStatus.succeeded ∷ JobStatus.failed ∷ JobStatus.dead ∷ JobStatus.cancelled ∷ [])

pub read_job_status-job_status_value : (s : JobStatus) → read_job_status (job_status_value s) ≡ ok s
unfolding read_job_status
read_job_status-job_status_value JobStatus.pending = refl
read_job_status-job_status_value JobStatus.queued = refl
read_job_status-job_status_value JobStatus.leased = refl
read_job_status-job_status_value JobStatus.running = refl
read_job_status-job_status_value JobStatus.succeeded = refl
read_job_status-job_status_value JobStatus.failed = refl
read_job_status-job_status_value JobStatus.dead = refl
read_job_status-job_status_value JobStatus.cancelled = refl

unfoldable pub job_type_value : JobType → String
job_type_value JobType.plan = "PLAN"
job_type_value JobType.code = "CODE"
job_type_value JobType.review = "REVIEW"
job_type_value JobType.llm_inference = "LLM_INFERENCE"
job_type_value JobType.build = "BUILD"
job_type_value JobType.test = "TEST"
job_type_value JobType.static_analysis = "STATIC_ANALYSIS"
job_type_value JobType.patch_apply = "PATCH_APPLY"

unfoldable pub read_job_type : String → Result JobType
unfolding read_code job_type_value
read_job_type = read_code job_type_value (
    JobType.plan ∷ JobType.code ∷ JobType.review ∷ JobType.llm_inference ∷ JobType.build
    ∷ JobType.test ∷ JobType.static_analysis ∷ JobType.patch_apply ∷ [])

pub read_job_type-job_type_value : (t : JobType) → read_job_type (job_type_value t) ≡ ok t
unfolding read_job_type
read_job_type-job_type_value JobType.plan = refl
read_job_type-job_type_value JobType.code = refl
read_job_type-job_type_value JobType.review = refl
read_job_type-job_type_value JobType.llm_inference = refl
read_job_type-job_type_value JobType.build = refl
read_job_type-job_type_value JobType.test = refl
read_job_type-job_type_value JobType.static_analysis = refl
read_job_type-job_type_value JobType.patch_apply = refl

unfoldable pub role_value : AgentRole → String
role_value AgentRole.planner = "PLANNER"
role_value AgentRole.coder = "CODER"
role_value AgentRole.reviewer = "REVIEWER"

unfoldable pub read_role : String → Result AgentRole
unfolding read_code role_value
read_role = read_code role_value (AgentRole.planner ∷ AgentRole.coder ∷ AgentRole.reviewer ∷ [])

pub read_role-role_value : (r : AgentRole) → read_role (role_value r) ≡ ok r
unfolding read_role
read_role-role_value AgentRole.planner = refl
read_role-role_value AgentRole.coder = refl
read_role-role_value AgentRole.reviewer = refl

pub read_roles :
    (r : Option AgentRole) → read_optional read_role (dump_optional role_value r) ≡ ok r
unfolding read_optional read_role
read_roles none = refl
read_roles (some AgentRole.planner) = refl
read_roles (some AgentRole.coder) = refl
read_roles (some AgentRole.reviewer) = refl

unfoldable pub priority_value : Priority → String
priority_value Priority.low = "LOW"
priority_value Priority.normal = "NORMAL"
priority_value Priority.high = "HIGH"
priority_value Priority.critical = "CRITICAL"

unfoldable pub read_priority : String → Result Priority
unfolding read_code priority_value
read_priority =
    read_code priority_value
      (Priority.low ∷ Priority.normal ∷ Priority.high ∷ Priority.critical ∷ [])

pub read_priority-priority_value : (p : Priority) → read_priority (priority_value p) ≡ ok p
unfolding read_priority
read_priority-priority_value Priority.low = refl
read_priority-priority_value Priority.normal = refl
read_priority-priority_value Priority.high = refl
read_priority-priority_value Priority.critical = refl

unfoldable pub read_kind : String → Result FailureKind
unfolding read_code kind_value
read_kind = read_code kind_value (
    FailureKind.infrastructure ∷ FailureKind.inference ∷ FailureKind.invalid_structured_output
    ∷ FailureKind.tool ∷ FailureKind.compilation ∷ FailureKind.test ∷ FailureKind.review
    ∷ FailureKind.cancelled ∷ [])

pub read_kinds :
    (k : Option FailureKind) → read_optional read_kind (dump_optional kind_value k) ≡ ok k
unfolding read_optional read_kind
read_kinds none = refl
read_kinds (some FailureKind.infrastructure) = refl
read_kinds (some FailureKind.inference) = refl
read_kinds (some FailureKind.invalid_structured_output) = refl
read_kinds (some FailureKind.tool) = refl
read_kinds (some FailureKind.compilation) = refl
read_kinds (some FailureKind.test) = refl
read_kinds (some FailureKind.review) = refl
read_kinds (some FailureKind.cancelled) = refl
