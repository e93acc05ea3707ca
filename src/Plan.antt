-- ===== src/Plan.antt =====
-- The planner's result: src/domain/entities/plan.py. A dictionary of tasks by key is the list of its
-- values, in order of insertion, and a set of keys is a list that only membership reads.
pub mod Layers
pub mod Order
pub mod Cycle
pub mod Accepted
mod Samples
use agentic_gpu_platform.Shared.{
  Bool, Fields, List, String, [], all, any, end, false, if◌then◌else◌, is_blank, is_empty, length,
  ltb, max, not, select, str_eq, suc, zero, ℕ, ◌||◌, ◌∷◌,
}
use agentic_gpu_platform.Errors.{Result, ok, plan_validation_error, raise, value_error, ◌>>=◌}

pub record PlanTask : Type 0 where
  pub id : ℕ
  pub key : String
  pub title : String
  pub description : String
  pub target_paths : List String
  pub depends_on : List String
  pub validation : List String

-- `key in keys`
abbrev pub is_among : List String → String → Bool
is_among keys key = any (λ k. str_eq k key) keys

-- `PlanTask.__post_init__`
unfoldable pub check_task : PlanTask → Result PlanTask
check_task t =
    if is_blank t.key
    then raise (value_error "task key must not be blank")
    else if is_blank t.title
    then raise (value_error "task title must not be blank")
    else if is_among t.depends_on t.key
    then raise (plan_validation_error "a task cannot depend on itself")
    else ok t

pub record Plan : Type 0 where
  pub id : ℕ
  pub run_id : ℕ
  pub revision : ℕ
  pub objective : String
  pub created_at : ℕ
  pub tasks : List PlanTask
  pub assumptions : List String
  pub constraints : List String
  pub risk_areas : List String
  pub validation_requirements : List String
  pub prompt_version : String
  pub metadata : Fields

-- `{t.key: t for t in tasks}`: a later task takes the place of an earlier one with its key.
unfoldable pub put_task : PlanTask → List PlanTask → List PlanTask
put_task t [] = t ∷ []
put_task t (u ∷ us) = let rest = put_task t us in if str_eq u.key t.key then t ∷ us else u ∷ rest

unfoldable pub by_key : List PlanTask → List PlanTask → List PlanTask
unfolding put_task
by_key [] found = found
by_key (t ∷ ts) found = by_key ts (put_task t found)

-- Whether every dependency is satisfied.
abbrev pub is_ready : List String → PlanTask → Bool
is_ready satisfied t = all (is_among satisfied) t.depends_on

-- `del remaining[key]`
abbrev pub remove : String → List PlanTask → List PlanTask
remove key remaining = select (λ t. not (str_eq t.key key)) remaining

-- The inner loop: each ready task leaves `remaining`, and its key becomes satisfied.
unfoldable pub remove_all : List PlanTask → List PlanTask → List PlanTask
remove_all [] remaining = remaining
remove_all (t ∷ ts) remaining = remove_all ts (remove t.key remaining)

unfoldable pub satisfy_all : List PlanTask → List String → List String
satisfy_all [] satisfied = satisfied
satisfy_all (t ∷ ts) satisfied = satisfy_all ts (t.key ∷ satisfied)

abbrev pub cycle_found {ℓ} : {A : Type ℓ} → Result A
cycle_found = raise (plan_validation_error "plan dependency graph contains a cycle")

-- The loop of `execution_layers`. A round takes out a task at least, so the number of tasks is fuel
-- enough; without fuel the layers found so far are the answer.
unfoldable pub layers_from :
    (fuel : ℕ) → List PlanTask → List String → Result (List (List PlanTask))
unfolding remove_all satisfy_all
layers_from zero remaining satisfied = ok []
layers_from (suc n) remaining satisfied =
    let ready = select (is_ready satisfied) remaining in
    let later = layers_from n (remove_all ready remaining) (satisfy_all ready satisfied) in
    if is_empty remaining
    then ok []
    else if is_empty ready
    then cycle_found
    else (later >>= λ layers. ok (ready ∷ layers))

unfoldable pub execution_layers : List PlanTask → Result (List (List PlanTask))
unfolding by_key layers_from
execution_layers tasks =
    let remaining = by_key tasks [] in layers_from (length remaining) remaining []

unfoldable pub keys_of : List PlanTask → List String
keys_of [] = []
keys_of (t ∷ ts) = t.key ∷ keys_of ts

-- `keys.count(k) > 1` for some key.
unfoldable pub has_duplicates : List String → Bool
has_duplicates [] = false
has_duplicates (k ∷ ks) = is_among ks k || has_duplicates ks

abbrev pub is_dangling : List String → PlanTask → Bool
is_dangling known t = any (λ d. not (is_among known d)) t.depends_on

-- `_validate_graph`
unfoldable pub validate_graph : List PlanTask → Result (Unit {0})
unfolding keys_of has_duplicates execution_layers
validate_graph tasks =
    let known = keys_of tasks in
    if has_duplicates known
    then raise (plan_validation_error "duplicate task keys")
    else if any (is_dangling known) tasks
    then raise (plan_validation_error "task depends on unknown tasks")
    else (execution_layers tasks >>= λ _. ok tt)

-- `Plan.__post_init__`
unfoldable pub check_plan : Plan → Result Plan
unfolding validate_graph
check_plan p =
    if ltb p.revision 1
    then raise (value_error "plan revisions are 1-based")
    else if is_empty p.tasks
    then raise (plan_validation_error "a plan must contain at least one task")
    else (validate_graph p.tasks >>= λ _. ok p)

-- `Plan.task`
unfoldable pub task : List PlanTask → (key : String) → Result PlanTask
task [] key = raise (plan_validation_error "unknown task")
task (t ∷ ts) key = let rest = task ts key in if str_eq t.key key then ok t else rest

-- The size of the widest layer.
unfoldable pub widest : List (List PlanTask) → ℕ
widest [] = 0
widest (layer ∷ layers) = max (length layer) (widest layers)

unfoldable pub max_parallelism : List PlanTask → Result ℕ
unfolding execution_layers widest
max_parallelism tasks = execution_layers tasks >>= λ layers. ok (widest layers)

-- `with_revision`: `replace` runs the checks again.
unfoldable pub with_revision : Plan → (revision : ℕ) → Result Plan
unfolding check_plan
with_revision p revision = check_plan (record p { revision = revision })

-- What a caller of `Plan.create` supplies.
pub record PlanSpec : Type 0 where
  pub plan_id : ℕ
  pub run_id : ℕ
  pub revision : ℕ
  pub objective : String
  pub tasks : List PlanTask
  pub assumptions : List String
  pub constraints : List String
  pub risk_areas : List String
  pub validation_requirements : List String
  pub prompt_version : String

unfoldable pub create : PlanSpec → (now : ℕ) → Result Plan
unfolding check_plan
create s now = check_plan (record {
  id = s.plan_id;
  run_id = s.run_id;
  revision = s.revision;
  objective = s.objective;
  created_at = now;
  tasks = s.tasks;
  assumptions = s.assumptions;
  constraints = s.constraints;
  risk_areas = s.risk_areas;
  validation_requirements = s.validation_requirements;
  prompt_version = s.prompt_version;
  metadata = end;
})
