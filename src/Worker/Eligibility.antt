-- ===== src/Worker/Eligibility.antt =====
-- Which worker may take a job (src/domain/entities/worker.py).
use agentic_gpu_platform.Shared.{
  Bool-cases, Has, List, Option-cases, [], any, arith, here, inl, inr, is_none, none, some,
  str_eq_iff, there, true, ◌<◌, ◌↔◌, ◌∷◌, ◌≡◌, ◌≤◌, ◌⊎◌,
}
use agentic_gpu_platform.Enums.{AgentRole, WorkerStatus, role_eq}
use agentic_gpu_platform.Requirements.{JobRequirements}
use agentic_gpu_platform.Worker.{Worker, can_accept, rejection_reason}

-- A job's requirements are met by a worker, read as a statement.
pub record Meets (w : Worker) (r : JobRequirements) : Type 0 where
  pub at_work : (w.status ≡ WorkerStatus.ready) ⊎ (w.status ≡ WorkerStatus.busy)
  pub has_slot : w.load.active_jobs < w.capabilities.max_concurrency
  pub has_role : Has r.role w.capabilities.supported_roles
  pub serves_model : (r.model_id ≡ none) ⊎ (r.model_id ≡ some w.capabilities.model_id)
  pub has_tools : r.requires_tools ≡ true → w.capabilities.supports_tools ≡ true
  pub has_schema : r.requires_json_schema ≡ true → w.capabilities.supports_json_schema ≡ true
  pub has_room : r.estimated_prompt_tokens ≤ w.capabilities.context_length

role_eq_iff : (a b : AgentRole) → (role_eq a b ≡ true) ↔ (b ≡ a)
role_eq_iff a b = ground arith

any-Has : (r : AgentRole) (xs : List AgentRole) → any (role_eq r) xs ≡ true → Has r xs
unfolding any
any-Has r [] h = absurd (ground arith)
any-Has r (x ∷ xs) h = elim (Bool-cases (role_eq r x)) [
  | inl e ↦ here ((role_eq_iff r x).0 e)
  | inr e ↦ there (any-Has r xs (ground arith))
]

Has-any : (r : AgentRole) (xs : List AgentRole) → Has r xs → any (role_eq r) xs ≡ true
unfolding any
Has-any r [] m = elim m [ ]
Has-any r (x ∷ xs) (here q) = ground (arith, (role_eq_iff r x).1 q)
Has-any r (x ∷ xs) (there m) = ground (arith, Has-any r xs m)

pub can_accept-Meets : (w : Worker) (r : JobRequirements) → can_accept w r ≡ true → Meets w r
unfolding can_accept
can_accept-Meets w r h = elim (Option-cases r.model_id) [
  | inl n ↦ record {
    at_work = ground arith;
    has_slot = ground arith;
    has_role = any-Has r.role w.capabilities.supported_roles (ground arith);
    serves_model = inl n;
    has_tools = ground arith;
    has_schema = ground arith;
    has_room = ground arith;
  }
  | inr (m, e) ↦ record {
    at_work = ground arith;
    has_slot = ground arith;
    has_role = any-Has r.role w.capabilities.supported_roles (ground arith);
    serves_model = ground (arith, str_eq_iff m w.capabilities.model_id);
    has_tools = ground arith;
    has_schema = ground arith;
    has_room = ground arith;
  }
]

Meets-can_accept : (w : Worker) (r : JobRequirements) → Meets w r → can_accept w r ≡ true
unfolding can_accept
Meets-can_accept w r m = ground (
  arith,
  Has-any r.role w.capabilities.supported_roles m.has_role,
  str_eq_iff w.capabilities.model_id w.capabilities.model_id,
)

-- `can_accept` says yes exactly when every requirement is met.
pub can_accept_iff : (w : Worker) (r : JobRequirements) → (can_accept w r ≡ true) ↔ Meets w r
can_accept_iff w r = (can_accept-Meets w r, Meets-can_accept w r)

-- `rejection_reason` has a reason exactly when `can_accept` says no.
pub rejection_reason-can_accept :
    (w : Worker) (r : JobRequirements) → is_none (rejection_reason w r) ≡ can_accept w r
unfolding rejection_reason can_accept
rejection_reason-can_accept w r = ground arith
