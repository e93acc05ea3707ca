-- ===== src/Errors.antt =====
-- src/domain/exceptions.py: the errors that the modelled code raises, with Python's ValueError,
-- KeyError and TypeError, and the outcome of a method that may raise: the object as the method leaves it, and
-- the result.
-- Identifiers are UUIDs, read as numbers (src/domain/value_objects/identifiers.py): `str` of a UUID
-- has a fixed length and lower-case hex digits, so its text order is the order of the numbers.
use agentic_gpu_platform.Shared.{Bool, Option, String, false, refl, true, ℕ, ◌≡◌}
use agentic_gpu_platform.Enums.{CandidateStatus, JobStatus, RunStatus, WorkerStatus}

pub data DomainError : Type 0 where
  value_error : (message : String) → DomainError
  invalid_run_transition : (current requested : RunStatus) → DomainError
  invalid_job_transition : (current requested : JobStatus) → DomainError
  invalid_worker_transition : (current requested : WorkerStatus) → DomainError
  invalid_candidate_transition : (current requested : CandidateStatus) → DomainError
  worker_unavailable : (worker_id : ℕ) (status : WorkerStatus) → DomainError
  plan_validation_error : (message : String) → DomainError
  job_lease_expired : (job_id : ℕ) (holder : Option ℕ) → DomainError
  candidate_error : (message : String) → DomainError
  key_error : (key : ℕ) → DomainError
  run_not_modifiable : (run_id : ℕ) (status : RunStatus) → DomainError
  entity_not_found : (entity : String) (identifier : ℕ) → DomainError
  no_compatible_worker : (message : String) → DomainError
  inference_error : (message : String) → DomainError
  llm_timeout : (message : String) → DomainError
  structured_output_error : (message : String) → DomainError
  tool_execution_error : (message : String) → DomainError
  workspace_error : (message : String) → DomainError
  domain_error : (message : String) → DomainError
  type_error : (message : String) → DomainError
  missing_key : (key : String) → DomainError

pub data Result {ℓ} (A : Type ℓ) : Type ℓ where
  ok : A → Result A
  raise : DomainError → Result A

abbrev pub Outcome : Type 0 → Type 0 → Type 0
Outcome S A = S × Result A

-- What is done with the result, where the call did not raise.
infixl 5 ◌>>=◌
abbrev pub ◌>>=◌ {ℓ κ} :
    {A : Type ℓ} {B : Type κ} (answer : Result A) (then_do : A → Result B) → Result B
ok a >>= then_do = then_do a
raise error >>= then_do = raise error

-- One call after another.
infixl 5 ◌>>◌
abbrev pub ◌>>◌ {ℓ} : {B : Type ℓ} (check : Result (Unit {0})) (rest : Result B) → Result B
check >> rest = check >>= λ _. rest

-- `if not test: raise e`
abbrev pub require : Bool → DomainError → Result (Unit {0})
require true e = ok tt
require false e = raise e

-- What a caller goes on with, where the method did not raise.
unfoldable pub settled : {S A : Type 0} → Outcome S A → Result S
settled (s, answer) = elim answer [ ok _ ↦ ok s | raise e ↦ raise e ]

abbrev pub is_ok {ℓ} : {A : Type ℓ} → Result A → Bool
is_ok (ok a) = true
is_ok (raise e) = false

pub ok-injective {ℓ} : {A : Type ℓ} {a b : A} → ok a ≡ ok b → a ≡ b
ok-injective h = cc

-- The code returns, and what it returns has the property.
abbrev pub Yields {ℓ} : {A : Type ℓ} → (A → Type 0) → Result A → Type 0
Yields P (ok a) = P a
Yields P (raise e) = ⊥

pub is_ok-Yields {ℓ} : {A : Type ℓ} (m : Result A) → is_ok m ≡ true → Yields (λ (a : A). Unit {0}) m
is_ok-Yields (ok a) h = tt
is_ok-Yields (raise e) h = cc

pub Yields-value {ℓ} :
    {A : Type ℓ} {P : A → Type 0} (m : Result A) → Yields P m → (a : A) × (m ≡ ok a) × P a
Yields-value (ok a) h = (a, refl, h)
Yields-value (raise e) h = absurd h

pub Yields-map {ℓ} :
    {A : Type ℓ} (P : A → Type 0) {Q : A → Type 0} (m : Result A)
    → Yields P m
    → ((a : A) → P a → Q a)
    → Yields Q m
Yields-map P (ok a) h k = k a h
Yields-map P (raise e) h k = absurd h
