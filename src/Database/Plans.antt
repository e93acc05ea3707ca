-- ===== src/Database/Plans.antt =====
-- The rows of a plan and of a review, each with a table of its own for its parts (`PlanModel`,
-- `PlanTaskModel`, `ReviewModel` and `ReviewFindingModel` of src/infrastructure/database/models.py): the
-- translation in src/infrastructure/database/mappers.py. Parts keep their order by a position, and may
-- come back in any order.
use agentic_gpu_platform.Shared.{
  All, Bool, Fields, List, String, [], arith, false, insert, ltb, refl, sorted, suc, ℕ, ◌∷◌, ◌≡◌,
  ◌≤◌,
}
use agentic_gpu_platform.Errors.{Result, ok, ◌>>=◌}
use agentic_gpu_platform.Plan.{Plan, PlanTask, check_plan, check_task}

pub record PlanTaskModel : Type 0 where
  pub id : ℕ
  pub plan_id : ℕ
  pub position : ℕ
  pub key : String
  pub title : String
  pub description : String
  pub target_paths : List String
  pub depends_on : List String
  pub validation : List String

pub record PlanModel : Type 0 where
  pub id : ℕ
  pub run_id : ℕ
  pub revision : ℕ
  pub objective : String
  pub created_at : ℕ
  pub assumptions : List String
  pub constraints : List String
  pub risk_areas : List String
  pub validation_requirements : List String
  pub prompt_version : String
  pub meta : Fields
  pub tasks : List PlanTaskModel

abbrev pub task_row : (plan_id position : ℕ) → PlanTask → PlanTaskModel
task_row plan_id position t = record {
  id = t.id;
  plan_id = plan_id;
  position = position;
  key = t.key;
  title = t.title;
  description = t.description;
  target_paths = t.target_paths;
  depends_on = t.depends_on;
  validation = t.validation;
}

-- The parts with their positions: `enumerate`.
unfoldable pub number_from {ℓ κ} : {A : Type ℓ} {B : Type κ} → (ℕ → A → B) → ℕ → List A → List B
number_from row n [] = []
number_from row n (x ∷ xs) = row n x ∷ number_from row (suc n) xs

-- `plan_to_model`
unfoldable pub plan_to_model : Plan → PlanModel
unfolding number_from
plan_to_model p = record {
  id = p.id;
  run_id = p.run_id;
  revision = p.revision;
  objective = p.objective;
  created_at = p.created_at;
  assumptions = p.assumptions;
  constraints = p.constraints;
  risk_areas = p.risk_areas;
  validation_requirements = p.validation_requirements;
  prompt_version = p.prompt_version;
  meta = p.metadata;
  tasks = number_from (task_row p.id) 0 p.tasks;
}

abbrev pub by_position {ℓ} : {A : Type ℓ} → (A → ℕ) → A → A → Bool
by_position position a b = ltb (position a) (position b)

-- The objects of a list of rows.
unfoldable pub load_all : {A B : Type 0} → (A → Result B) → List A → Result (List B)
load_all load [] = ok []
load_all load (a ∷ rest) =
    let later = load_all load rest in load a >>= λ b. later >>= λ bs. ok (b ∷ bs)

unfoldable pub load_task : PlanTaskModel → Result PlanTask
unfolding check_task
load_task m = check_task (record {
  id = m.id;
  key = m.key;
  title = m.title;
  description = m.description;
  target_paths = m.target_paths;
  depends_on = m.depends_on;
  validation = m.validation;
})

-- `plan_to_domain`
unfoldable pub plan_to_domain : PlanModel → Result Plan
unfolding load_all load_task sorted check_plan
plan_to_domain m =
    load_all load_task (sorted (by_position λ (t : PlanTaskModel). t.position) m.tasks) >>= λ tasks.
    check_plan (record {
      id = m.id;
      run_id = m.run_id;
      revision = m.revision;
      objective = m.objective;
      created_at = m.created_at;
      tasks = tasks;
      assumptions = m.assumptions;
      constraints = m.constraints;
      risk_areas = m.risk_areas;
      validation_requirements = m.validation_requirements;
      prompt_version = m.prompt_version;
      metadata = m.meta;
    })

-- Parts that are numbered in order are sorted.
module _ {A B : Type 0} (row : ℕ → A → B) (position : B → ℕ)
    (h : (n : ℕ) (a : A) → position (row n a) ≡ n) where
  stays_first :
      (n m : ℕ) (x : A) (xs : List A)
      → n ≤ m
      → insert (by_position position) (row n x) (number_from row m xs)
        ≡ row n x ∷ number_from row m xs
  unfolding insert number_from
  stays_first n m x [] l = refl
  stays_first n m x (y ∷ ys) l =
      let later : ltb (position (row m y)) (position (row n x)) ≡ false =
        rw (h m y, h n x) (ground arith) in
      rw (insert, number_from, later) refl

  pub numbered_stay :
      (n : ℕ) (xs : List A)
      → sorted (by_position position) (number_from row n xs) ≡ number_from row n xs
  unfolding sorted number_from
  numbered_stay n [] = refl
  numbered_stay n (x ∷ xs) =
      rw (sorted, number_from, numbered_stay (suc n) xs) (stays_first n (suc n) x xs (omega arith))

  pub numbered_load :
      (load : B → Result A) (n : ℕ) (xs : List A)
      → All (λ a. (m : ℕ) → load (row m a) ≡ ok a) xs
      → load_all load (number_from row n xs) ≡ ok xs
  unfolding load_all number_from
  numbered_load load n [] a = refl
  numbered_load load n (x ∷ xs) (e, a) = rw (e n, numbered_load load (suc n) xs a) refl

tasks-restored :
    (p : ℕ) (ts : List PlanTask)
    → All (λ t. check_task t ≡ ok t) ts
    → All (λ t. (m : ℕ) → load_task (task_row p m t) ≡ ok t) ts
unfolding load_task
tasks-restored p [] a = tt
tasks-restored p (t ∷ ts) (e, a) = (λ m. e, tasks-restored p ts a)

-- A plan that its checks accept comes back from its rows as it was, its tasks in their order.
pub plan_to_domain-plan_to_model :
    (p : Plan)
    → All (λ t. check_task t ≡ ok t) p.tasks
    → check_plan p ≡ ok p
    → plan_to_domain (plan_to_model p) ≡ ok p
unfolding plan_to_domain plan_to_model
plan_to_domain-plan_to_model p a e =
    let row = task_row p.id in
    let position = λ (t : PlanTaskModel). t.position in
    rw
      (
        plan_to_domain,
        plan_to_model,
        numbered_stay row position (λ n t. refl) 0 p.tasks,
        numbered_load row position (λ n t. refl) load_task 0 p.tasks
            (tasks-restored p.id p.tasks a),
      )
      e
