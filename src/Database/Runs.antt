-- ===== src/Database/Runs.antt =====
-- The row of a run (`RunModel` of src/infrastructure/database/models.py) and its translation in
-- src/infrastructure/database/mappers.py. A row that is read back is the run that was stored.
use agentic_gpu_platform.Shared.{
  Fields, Option, String, [], arith, end, false, field, if◌then◌else◌, is_blank, is_empty_text, ltb,
  none, refl, strip, suc, ℕ, ◌||◌, ◌≡◌, ◌≤◌,
}
use agentic_gpu_platform.Enums.{kind_value}
use agentic_gpu_platform.Errors.{Result, ok, raise, value_error, ◌>>=◌}
use agentic_gpu_platform.Limits.{RunLimits, check_limits, default_limits}
use agentic_gpu_platform.Run.{Run}
use agentic_gpu_platform.Database.Codes.{
  dump_optional, read_kind, read_kinds, read_optional, read_run_status,
  read_run_status-run_status_value, run_status_value,
}
use agentic_gpu_platform.Database.Columns.{as_nat, at, of_nat}

pub record RunModel : Type 0 where
  pub id : ℕ
  pub project_id : ℕ
  pub objective : String
  pub status : String
  pub candidate_count : ℕ
  pub limits : Fields
  pub plan_id : Option ℕ
  pub plan_revisions : ℕ
  pub repair_iterations : ℕ
  pub review_iterations : ℕ
  pub selected_candidate_id : Option ℕ
  pub input_tokens : ℕ
  pub output_tokens : ℕ
  pub idempotency_key : Option String
  pub meta : Fields
  pub created_at : ℕ
  pub started_at : Option ℕ
  pub completed_at : Option ℕ
  pub updated_at : ℕ
  pub failure_kind : Option String
  pub failure_reason : Option String

-- `_dump_limits`
unfoldable pub dump_limits : RunLimits → Fields
dump_limits l = field "max_plan_revisions" (of_nat l.max_plan_revisions) (
    field "max_coder_iterations" (of_nat l.max_coder_iterations) (
      field "max_repair_iterations" (of_nat l.max_repair_iterations) (
        field "max_worker_retries" (of_nat l.max_worker_retries)
          (field "max_parallel_candidates" (of_nat l.max_parallel_candidates) end))))

-- `_load_limits`: what the row does not hold is the default.
unfoldable pub load_limits : Fields → Result RunLimits
unfolding at as_nat check_limits
load_limits raw = at as_nat default_limits.max_plan_revisions "max_plan_revisions" raw >>= λ plans.
    at as_nat default_limits.max_coder_iterations "max_coder_iterations" raw >>= λ coders.
    at as_nat default_limits.max_repair_iterations "max_repair_iterations" raw >>= λ repairs.
    at as_nat default_limits.max_worker_retries "max_worker_retries" raw >>= λ retries.
    at as_nat default_limits.max_parallel_candidates "max_parallel_candidates" raw >>= λ parallel.
    check_limits (record {
      max_plan_revisions = plans;
      max_coder_iterations = coders;
      max_repair_iterations = repairs;
      max_worker_retries = retries;
      max_parallel_candidates = parallel;
    })

unfoldable pub text_length : String → ℕ
text_length String.[] = 0
text_length (String.◌∷◌ c s) = suc (text_length s)

-- `IdempotencyKey.__post_init__`
unfoldable pub check_key : String → Result String
unfolding is_empty_text is_blank text_length
check_key s =
    if is_empty_text s || is_blank s
    then raise (value_error "idempotency key must not be blank")
    else if ltb 255 (text_length s)
    then raise (value_error "idempotency key must be at most 255 characters")
    else ok s

-- `Run.__init__`: its checks, and the objective without the blanks around it.
unfoldable pub init_run : Run → Result Run
unfolding is_blank strip
init_run r =
    if is_blank r.objective
    then raise (value_error "a run needs a non-empty objective")
    else if ltb r.candidate_count 1
    then raise (value_error "candidate_count must be at least 1")
    else if ltb r.limits.max_parallel_candidates r.candidate_count
    then raise (value_error "candidate_count exceeds the configured maximum")
    else ok (record r { objective = strip r.objective })

-- `apply_run`
unfoldable pub apply_run : RunModel → Run → RunModel
unfolding dump_limits run_status_value kind_value
apply_run m r = record m {
  status = run_status_value r.status;
  candidate_count = r.candidate_count;
  limits = dump_limits r.limits;
  plan_id = r.plan_id;
  plan_revisions = r.plan_revisions;
  repair_iterations = r.repair_iterations;
  review_iterations = r.review_iterations;
  selected_candidate_id = r.selected_candidate_id;
  input_tokens = r.token_usage.input_tokens;
  output_tokens = r.token_usage.output_tokens;
  idempotency_key = r.idempotency_key;
  meta = r.metadata;
  started_at = r.started_at;
  completed_at = r.completed_at;
  updated_at = r.updated_at;
  failure_kind = dump_optional kind_value r.failure_kind;
  failure_reason = r.failure_reason;
}

-- The row that a new run starts with: the defaults of the table, where `apply_run` sets the column anyway.
abbrev pub new_run_row : Run → RunModel
new_run_row r = record {
  id = r.id;
  project_id = r.project_id;
  objective = r.objective;
  status = run_status_value r.status;
  candidate_count = r.candidate_count;
  limits = end;
  plan_id = none;
  plan_revisions = 0;
  repair_iterations = 0;
  review_iterations = 0;
  selected_candidate_id = none;
  input_tokens = 0;
  output_tokens = 0;
  idempotency_key = none;
  meta = end;
  created_at = r.created_at;
  started_at = none;
  completed_at = none;
  updated_at = r.updated_at;
  failure_kind = none;
  failure_reason = none;
}

-- `run_to_model`
unfoldable pub run_to_model : Run → RunModel
unfolding apply_run
run_to_model r = apply_run (new_run_row r) r

-- `run_to_domain`
unfoldable pub run_to_domain : RunModel → Result Run
unfolding load_limits read_run_status read_optional read_kind check_key init_run
run_to_domain m = load_limits m.limits >>= λ limits. read_run_status m.status >>= λ status.
    read_optional check_key m.idempotency_key >>= λ key.
    read_optional read_kind m.failure_kind >>= λ kind. init_run (record {
      id = m.id;
      project_id = m.project_id;
      objective = m.objective;
      candidate_count = m.candidate_count;
      limits = limits;
      status = status;
      plan_id = m.plan_id;
      plan_revisions = m.plan_revisions;
      repair_iterations = m.repair_iterations;
      review_iterations = m.review_iterations;
      selected_candidate_id = m.selected_candidate_id;
      token_usage = record { input_tokens = m.input_tokens; output_tokens = m.output_tokens };
      idempotency_key = key;
      metadata = m.meta;
      created_at = m.created_at;
      started_at = m.started_at;
      completed_at = m.completed_at;
      updated_at = m.updated_at;
      failure_kind = kind;
      failure_reason = m.failure_reason;
      events = [];
    })

-- What the constructors make sure of.
pub record IsStorable (r : Run) : Type 0 where
  pub worded : is_blank r.objective ≡ false
  pub trimmed : strip r.objective ≡ r.objective
  pub counted : 1 ≤ r.candidate_count
  pub capped : r.candidate_count ≤ r.limits.max_parallel_candidates
  pub limited : check_limits r.limits ≡ ok r.limits
  pub keyed : read_optional check_key r.idempotency_key ≡ ok r.idempotency_key

-- The row of the same run.
pub record IsRowOf (m : RunModel) (r : Run) : Type 0 where
  pub id : m.id ≡ r.id
  pub project : m.project_id ≡ r.project_id
  pub objective : m.objective ≡ r.objective
  pub created : m.created_at ≡ r.created_at

limits-restored : (l : RunLimits) → check_limits l ≡ ok l → load_limits (dump_limits l) ≡ ok l
unfolding load_limits dump_limits
limits-restored l h = h

init_run-made : (r : Run) → IsStorable r → init_run r ≡ ok r
unfolding init_run
init_run-made r v =
    let one = v.counted in let most = v.capped in rw (init_run, v.worded, v.trimmed) (ground arith)

-- A run that is stored over a row of the same run, and read back, is the run, less the events that
-- were already published.
pub run_to_domain-apply_run :
    (m : RunModel) (r : Run)
    → IsRowOf m r
    → IsStorable r
    → run_to_domain (apply_run m r) ≡ ok (record r { events = [] })
unfolding run_to_domain apply_run
run_to_domain-apply_run m r s v =
    let bare : Run = record r { events = [] } in
    rw
      (
        run_to_domain,
        apply_run,
        limits-restored r.limits v.limited,
        read_run_status-run_status_value r.status,
        v.keyed,
        read_kinds r.failure_kind,
        s.id,
        s.project,
        s.objective,
        s.created,
      )
      (init_run-made bare (record {
        worded = v.worded;
        trimmed = v.trimmed;
        counted = v.counted;
        capped = v.capped;
        limited = v.limited;
        keyed = v.keyed;
      }))

-- A new row of a run, read back, is the run, less the events that were already published.
pub run_to_domain-run_to_model :
    (r : Run) → IsStorable r → run_to_domain (run_to_model r) ≡ ok (record r { events = [] })
unfolding run_to_model
run_to_domain-run_to_model r v =
    run_to_domain-apply_run (new_run_row r) r
      (record { id = refl; project = refl; objective = refl; created = refl }) v
