-- ===== src/Plan/Samples.antt =====
-- Plans to try the code on, and the theorems about plans at concrete inputs.
use agentic_gpu_platform.Shared.{
  Has, List, String, [], all, any, end, false, refl, select, ℕ, ◌↔◌, ◌∷◌, ◌≡◌,
}
use agentic_gpu_platform.Errors.{is_ok, ok}
use agentic_gpu_platform.Plan.{
  Plan, PlanTask, by_key, check_plan, execution_layers, has_duplicates, keys_of, layers_from,
  put_task, remove_all, satisfy_all, validate_graph,
}
use agentic_gpu_platform.Plan.Order.{AreOrdered, flatten}
use agentic_gpu_platform.Plan.Cycle.{AreDistinct, AreKnown, IsKnot, execution_layers-IsKnot}
use agentic_gpu_platform.Plan.Accepted.{
  check_plan-AreOrdered, has_duplicates-AreDistinct, is_dangling-AreKnown,
}

abbrev part : (id : ℕ) (key : String) (depends_on : List String) → PlanTask
part id key depends_on = record {
  id = id;
  key = key;
  title = key;
  description = "";
  target_paths = [];
  depends_on = depends_on;
  validation = [];
}

abbrev two_steps : Plan
two_steps = record {
  id = 1;
  run_id = 1;
  revision = 1;
  objective = "add a parser";
  created_at = 3;
  tasks = part 2 "parse" ("lex" ∷ []) ∷ part 1 "lex" [] ∷ [];
  assumptions = [];
  constraints = [];
  risk_areas = [];
  validation_requirements = [];
  prompt_version = "v1";
  metadata = end;
}

accepted : check_plan two_steps ≡ ok two_steps
unfolding check_plan validate_graph execution_layers layers_from by_key put_task remove_all
    satisfy_all keys_of has_duplicates any all select
accepted = refl

check_plan-AreOrdered_example :
    (two_steps ≡ two_steps)
    × ((layers : List (List PlanTask)) × (execution_layers two_steps.tasks ≡ ok layers)
        × AreOrdered [] layers
        × ((t : PlanTask) → Has t (flatten layers) ↔ Has t two_steps.tasks))
check_plan-AreOrdered_example = check_plan-AreOrdered two_steps two_steps accepted

-- Two tasks that wait for each other.
abbrev circle : List PlanTask
circle = part 1 "lex" ("parse" ∷ []) ∷ part 2 "parse" ("lex" ∷ []) ∷ []

distinct : AreDistinct circle
unfolding keys_of has_duplicates any
distinct = has_duplicates-AreDistinct circle refl

known : AreKnown circle
unfolding keys_of any
known = is_dangling-AreKnown circle refl

execution_layers-IsKnot_example :
    (is_ok (execution_layers circle) ≡ false) ↔ ((knot : List PlanTask) × IsKnot circle knot)
execution_layers-IsKnot_example = execution_layers-IsKnot circle distinct known
