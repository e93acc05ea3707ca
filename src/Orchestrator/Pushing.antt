-- ===== src/Orchestrator/Pushing.antt =====
-- The loop of `_advance_candidates` (src/application/orchestration/orchestrator.py): which stages it asks
-- for, and which candidates are judged after it.
use agentic_gpu_platform.Shared.{
  All, Bool, Bool-cases, List, Option-cases, [], any, arith, false, inl, inr, is_empty, is_none,
  none, not, refl, some, subst, suc, true, ℕ, ◌&&◌, ◌||◌, ◌∷◌, ◌≡◌, ◌≢◌, ◌≤◌, ◌⊎◌,
}
use agentic_gpu_platform.Enums.{JobStatus, JobType, Priority, requires_inference}
use agentic_gpu_platform.Errors.{Yields, Yields-value, settled}
use agentic_gpu_platform.Project.{Project, ToolchainConfig}
use agentic_gpu_platform.Job.{Job}
use agentic_gpu_platform.Run.{Run}
use agentic_gpu_platform.Candidate.{Candidate}
use agentic_gpu_platform.Candidate
use agentic_gpu_platform.Validation.{ValidationReport}
use agentic_gpu_platform.Orchestrator.{
  OrchestratorConfig, Ports, is_validated, is_validating, new_job, next_of, next_stage,
  push_candidates, stage_is_configured, validation_stages, verdict_of,
}
use agentic_gpu_platform.Orchestrator.Opening.{IsWaiting, new_job-IsWaiting}

-- The candidates that the coder has handed over.
abbrev pub is_open : Candidate → Bool
is_open c = is_validating c.status || is_validated c.status

abbrev pub is_judged : Candidate → Bool
is_judged c = is_validated c.status

-- Jobs of the run, not published yet.
abbrev pub AreWaiting : (run_id : ℕ) → List Job → Type 0
AreWaiting run_id jobs =
    All (λ (j : Job). (j.run_id ≡ run_id) × (j.status ≡ JobStatus.pending)) jobs

-- A candidate that the coder has handed over and that waits for a stage.
abbrev pub is_stage_left : Project → Candidate → Bool
is_stage_left p c = is_validating c.status && not (is_none (next_stage p c.validation))

-- The first stage that is left: it is configured and has no result; no stage before it failed, and each
-- of those has a result or is not configured.
pub data IsFirstLeft (t : ToolchainConfig) (v : ValidationReport)
    : List JobType → JobType → Type 0 where
  at_once :
      {s : JobType} {ss : List JobType}
      → verdict_of v s ≡ none
      → stage_is_configured t s ≡ true
      → IsFirstLeft t v (s ∷ ss) s
  further :
      {s u : JobType} {ss : List JobType}
      → verdict_of v s ≢ some false
      → (verdict_of v s ≢ none) ⊎ (stage_is_configured t s ≡ false)
      → IsFirstLeft t v ss u
      → IsFirstLeft t v (s ∷ ss) u

-- The candidate waits for a stage.
abbrev pub HasStage : Project → Candidate → Type 0
HasStage p c =
    (is_validating c.status ≡ true)
    × ((s : JobType) × IsFirstLeft p.toolchain c.validation validation_stages s)

-- The candidates with the jobs asked for: each candidate with a stage left has one job, for that stage,
-- in the order of the candidates, and no other has one.
pub data AreAsked (p : Project) (run_id : ℕ) : List Candidate → List Job → Type 0 where
  nothing_asked : AreAsked p run_id [] []
  asked :
      {c : Candidate} {stage : JobType} {j : Job} {cs : List Candidate} {js : List Job}
      → is_validating c.status ≡ true
      → next_stage p c.validation ≡ some stage
      → IsFirstLeft p.toolchain c.validation validation_stages stage
      → IsWaiting run_id stage (some c.id) j
      → AreAsked p run_id cs js
      → AreAsked p run_id (c ∷ cs) (j ∷ js)
  passed_over :
      {c : Candidate} {cs : List Candidate} {js : List Job}
      → is_stage_left p c ≡ false
      → ¬ HasStage p c
      → AreAsked p run_id cs js
      → AreAsked p run_id (c ∷ cs) js

-- The candidates with what a decision makes of them: what was handed over and has no stage left is
-- judged, with its patch and its evidence kept, and every other one stays as it is.
pub data AreRecorded (p : Project) : List Candidate → List Candidate → Type 0 where
  nothing_recorded : AreRecorded p [] []
  now_judged :
      {c d : Candidate} {cs ds : List Candidate}
      → is_validating c.status ≡ true
      → is_stage_left p c ≡ false
      → is_judged d ≡ true
      → d.id ≡ c.id
      → d.patch ≡ c.patch
      → d.validation.results ≡ c.validation.results
      → AreRecorded p cs ds
      → AreRecorded p (c ∷ cs) (d ∷ ds)
  left_as_is :
      {c : Candidate} {cs ds : List Candidate}
      → (is_validating c.status && not (is_stage_left p c)) ≡ false
      → AreRecorded p cs ds
      → AreRecorded p (c ∷ cs) (c ∷ ds)

-- What the loop over the candidates leaves: a job for each stage that is left, and where there is none,
-- a candidate that can be judged.
pub record IsPushed (p : Project) (run_id : ℕ) (cs : List Candidate)
    (q : List Candidate × List Job × ℕ) : Type 0 where
  pub asked : AreAsked p run_id cs q.1
  pub recorded : AreRecorded p cs q.0
  pub judged : any is_open cs ≡ true → is_empty q.1 ≡ true → any is_judged q.0 ≡ true

pub AreAsked-AreWaiting :
    {p : Project} {run_id : ℕ} {cs : List Candidate} {js : List Job}
    → AreAsked p run_id cs js
    → AreWaiting run_id js
AreAsked-AreWaiting nothing_asked = tt
AreAsked-AreWaiting (asked v s f w rest) = ((w.0, w.3), AreAsked-AreWaiting rest)
AreAsked-AreWaiting (passed_over n m rest) = AreAsked-AreWaiting rest

-- Where no job was asked for, none was due.
pub AreAsked-none :
    {p : Project} {run_id : ℕ} {cs : List Candidate} (js : List Job)
    → is_empty js ≡ true
    → AreAsked p run_id cs js
    → AreAsked p run_id cs []
AreAsked-none [] e k = k
AreAsked-none (j ∷ js) e k = absurd (ground (arith, e))

-- Jobs are asked for exactly where a stage is left.
pub AreAsked-any :
    {p : Project} {run_id : ℕ} {cs : List Candidate} {js : List Job}
    → AreAsked p run_id cs js
    → any (is_stage_left p) cs ≡ not (is_empty js)
unfolding any
AreAsked-any nothing_asked = refl
AreAsked-any (asked v s f w rest) = rw (v, s) refl
AreAsked-any (passed_over n m rest) = rw (n) (AreAsked-any rest)

-- A stage of the validation runs a tool, not a model.
next_stage-offline :
    (p : Project) (v : ValidationReport) (s : JobType)
    → next_stage p v ≡ some s
    → requires_inference s ≡ false
unfolding next_stage next_of
next_stage-offline p v s h = ground arith

record_validation-is_judged :
    (c : Candidate) (now : ℕ) (blocking : Bool)
    → is_validating c.status ≡ true
    → Yields
        (λ (d : Candidate).
          (is_judged d ≡ true)
          × (d.id ≡ c.id)
          × (d.patch ≡ c.patch)
          × (d.validation.results ≡ c.validation.results))
        (settled (Candidate.record_validation c now none blocking))
unfolding settled Candidate.record_validation
record_validation-is_judged c now blocking e = rw (e) (refl, refl, refl, refl)

next_of-IsFirstLeft :
    (t : ToolchainConfig) (v : ValidationReport) (ss : List JobType) (u : JobType)
    → next_of t v ss ≡ some u
    → IsFirstLeft t v ss u
unfolding next_of
next_of-IsFirstLeft t v [] u h = absurd (ground (arith, h))
next_of-IsFirstLeft t v (s ∷ ss) u h = elim (Option-cases (verdict_of v s)) [
  | inl e ↦ elim (Bool-cases (stage_is_configured t s)) [
    | inl k ↦
        let same : some s ≡ some u = rw (e, k) at h in
        subst (IsFirstLeft t v (s ∷ ss)) (cc same) (at_once e k)
    | inr k ↦
        further (λ f. absurd (ground (arith, e, f))) (inr k)
          (next_of-IsFirstLeft t v ss u (rw (e, k) at h))
  ]
  | inr (true, e) ↦
      further (λ f. absurd (ground (arith, e, f))) (inl (λ f. absurd (ground (arith, e, f))))
        (next_of-IsFirstLeft t v ss u (rw (e) at h))
  | inr (false, e) ↦ absurd (ground (arith, rw (e) at h))
]

next_stage-IsFirstLeft :
    (p : Project) (v : ValidationReport) (s : JobType)
    → next_stage p v ≡ some s
    → IsFirstLeft p.toolchain v validation_stages s
unfolding next_stage
next_stage-IsFirstLeft p v s h = next_of-IsFirstLeft p.toolchain v validation_stages s h

IsFirstLeft-next_of :
    (t : ToolchainConfig) (v : ValidationReport) (ss : List JobType) (u : JobType)
    → IsFirstLeft t v ss u
    → next_of t v ss ≡ some u
unfolding next_of
IsFirstLeft-next_of t v [] u x = elim x [ ]
IsFirstLeft-next_of t v (s ∷ ss) u (at_once e k) = rw (next_of, e, k) refl
IsFirstLeft-next_of t v (s ∷ ss) u (further f g x) =
    let rest = IsFirstLeft-next_of t v ss u x in
    elim (Option-cases (verdict_of v s)) [
      | inl e ↦ elim g [ inl n ↦ absurd (n e) | inr n ↦ rw (next_of, e, n) rest ]
      | inr (true, e) ↦ rw (next_of, e) rest
      | inr (false, e) ↦ absurd (f e)
    ]

stageless : (p : Project) (c : Candidate) → next_stage p c.validation ≡ none → ¬ HasStage p c
unfolding next_stage
stageless p c n (w, (s, x)) =
    let found = IsFirstLeft-next_of p.toolchain c.validation validation_stages s x in
    absurd (ground (arith, n, found))

module _ (ports : Ports) (cfg : OrchestratorConfig) (now : ℕ) where
  pub push_candidates-IsPushed :
      (p : Project) (r : Run) (cs : List Candidate) (drawn : ℕ)
      → 1 ≤ cfg.job_max_attempts
      → Yields (IsPushed p r.id cs) (push_candidates ports cfg now p r cs drawn)
  unfolding push_candidates any
  push_candidates-IsPushed p r [] drawn h = record {
    asked = nothing_asked;
    recorded = nothing_recorded;
    judged = λ a b. a;
  }
  push_candidates-IsPushed p r (c ∷ cs) drawn h = elim (Bool-cases (is_validating c.status)) [
    | inl e ↦ elim (Option-cases (next_stage p c.validation)) [
      | inl n ↦
          let (d, done, (judged, same, same_patch, same_results)) =
            Yields-value
              (settled (Candidate.record_validation c now none cfg.static_analysis_is_blocking))
              (record_validation-is_judged c now cfg.static_analysis_is_blocking e) in
          let (q, later, k) =
            Yields-value (push_candidates ports cfg now p r cs drawn)
              (push_candidates-IsPushed p r cs drawn h) in
          let over : is_stage_left p c ≡ false = rw (e, n) refl in
          rw (push_candidates, e, n, done, later)
            (record {
              asked = passed_over over (stageless p c n) k.asked;
              recorded = now_judged e over judged same same_patch same_results k.recorded;
              judged = λ a b. rw (judged) refl;
            })
      | inr (stage, s) ↦
          let (j, sent, waiting) =
            Yields-value
              (new_job cfg r stage none (some c.id) Priority.high (ports.fresh_id drawn) now)
              (new_job-IsWaiting cfg r stage none (some c.id) Priority.high (ports.fresh_id drawn)
                now h (rw (next_stage-offline p c.validation stage s) refl)) in
          let (q, later, k) =
            Yields-value (push_candidates ports cfg now p r cs (suc drawn))
              (push_candidates-IsPushed p r cs (suc drawn) h) in
          rw (push_candidates, e, s, sent, later)
            (record {
              asked = asked e s (next_stage-IsFirstLeft p c.validation stage s) waiting k.asked;
              recorded = left_as_is (rw (e, s) refl) k.recorded;
              judged = λ a b. cc;
            })
    ]
    | inr e ↦
        let (q, later, k) =
          Yields-value (push_candidates ports cfg now p r cs drawn)
            (push_candidates-IsPushed p r cs drawn h) in
        rw (push_candidates, e, later)
          (record {
            asked = passed_over (rw (e) refl) (λ h. absurd (ground (arith, e, h.0))) k.asked;
            recorded = left_as_is (rw (e) refl) k.recorded;
            judged = λ a b. ground (arith, k.judged);
          })
  ]
