-- ===== src/Orchestrator/Opening.antt =====
-- How a run is opened (src/application/orchestration/orchestrator.py): its candidates and their jobs.
use agentic_gpu_platform.Shared.{
  Bool-cases, List, Option, String, [], ap, arith, false, inl, inr, is_none, length, none, refl,
  some, subst, suc, true, zero, ℕ, ◌&&◌, ◌*◌, ◌++◌, ◌+◌, ◌∙◌, ◌∷◌, ◌≡◌, ◌≤◌,
}
use agentic_gpu_platform.Enums.{
  AgentRole, CandidateStatus, FailureKind, JobStatus, JobType, Priority, RunStatus,
  requires_inference, run_is_terminal,
}
use agentic_gpu_platform.Errors.{Yields, Yields-value, is_ok, is_ok-Yields, settled}
use agentic_gpu_platform.Job.{Job}
use agentic_gpu_platform.Job
use agentic_gpu_platform.Run.{Run}
use agentic_gpu_platform.Run
use agentic_gpu_platform.RunMachine.{allowed_from, can, ensure, transitions}
use agentic_gpu_platform.Candidate.{Candidate}
use agentic_gpu_platform.Candidate
use agentic_gpu_platform.Orchestrator.{
  OrchestratorConfig, Ports, Step, new_job, open_candidates, open_first_stage, open_from,
  requires_plan,
}

-- The external services answer.
pub record IsServing (ports : Ports) : Type 0 where
  pub opens : (c : ℕ) → is_ok (ports.create_workspace c) ≡ true
  pub integrates : (r w : ℕ) → is_ok (ports.integrate r w) ≡ true
  pub releases : (r : ℕ) → is_ok (ports.release_run r) ≡ true

-- A waiting job of the run, for a candidate where it names one.
abbrev pub IsWaiting : (run_id : ℕ) → JobType → Option ℕ → Job → Type 0
IsWaiting run_id t candidate j =
    (j.run_id ≡ run_id)
    × (j.type ≡ t)
    × (j.candidate_id ≡ candidate)
    × (j.status ≡ JobStatus.pending)

-- Each candidate is coding, stands at its index, and has a job that names it.
pub data AreOpened (run_id : ℕ) : ℕ → List Candidate → List Job → Type 0 where
  none_left : {index : ℕ} → AreOpened run_id index [] []
  opened :
      {index : ℕ} {c : Candidate} {j : Job} {cs : List Candidate} {js : List Job}
      → c.run_id ≡ run_id
      → c.index ≡ index
      → c.status ≡ CandidateStatus.coding
      → IsWaiting run_id JobType.code (some c.id) j
      → AreOpened run_id (suc index) cs js
      → AreOpened run_id index (c ∷ cs) (j ∷ js)

pub new_job-IsWaiting :
    (cfg : OrchestratorConfig) (r : Run) (t : JobType) (role : Option AgentRole)
    (candidate : Option ℕ) (priority : Priority) (id now : ℕ)
    → 1 ≤ cfg.job_max_attempts
    → (requires_inference t && is_none role) ≡ false
    → Yields (IsWaiting r.id t candidate) (new_job cfg r t role candidate priority id now)
unfolding new_job Job.create Job.check_job
new_job-IsWaiting cfg r t role candidate priority id now h k = ground arith

-- Where a move of the run leads: the status changes, the run stays itself.
pub record IsMoved (r : Run) (target : RunStatus) (s : Run) : Type 0 where
  pub status : s.status ≡ target
  pub same : s.id ≡ r.id
  pub count : s.candidate_count ≡ r.candidate_count
  pub repairs : s.repair_iterations ≡ r.repair_iterations
  pub limits : s.limits ≡ r.limits
  pub selected : s.selected_candidate_id ≡ r.selected_candidate_id

module _ (r : Run) (now : ℕ) where
  pub start_planning-IsMoved :
      can r.status RunStatus.planning ≡ true
      → Yields (IsMoved r RunStatus.planning) (settled (Run.start_planning r now))
  unfolding settled Run.start_planning Run.transition ensure
  start_planning-IsMoved h = rw (h) (record {
    status = refl;
    same = refl;
    count = refl;
    repairs = refl;
    limits = refl;
    selected = refl;
  })

  pub start_coding-IsMoved :
      can r.status RunStatus.coding ≡ true
      → Yields (IsMoved r RunStatus.coding) (settled (Run.start_coding r now))
  unfolding settled Run.start_coding Run.transition ensure
  start_coding-IsMoved h = rw (h) (record {
    status = refl;
    same = refl;
    count = refl;
    repairs = refl;
    limits = refl;
    selected = refl;
  })

  pub start_validating-IsMoved :
      can r.status RunStatus.validating ≡ true
      → Yields (IsMoved r RunStatus.validating) (settled (Run.start_validating r now))
  unfolding settled Run.start_validating Run.transition ensure
  start_validating-IsMoved h = rw (h) (record {
    status = refl;
    same = refl;
    count = refl;
    repairs = refl;
    limits = refl;
    selected = refl;
  })

  pub start_reviewing-IsMoved :
      (candidate_id : ℕ)
      → can r.status RunStatus.reviewing ≡ true
      → Yields (IsMoved r RunStatus.reviewing) (settled (Run.start_reviewing r candidate_id now))
  unfolding settled Run.start_reviewing Run.transition ensure
  start_reviewing-IsMoved candidate_id h = rw (h) (record {
    status = refl;
    same = refl;
    count = refl;
    repairs = refl;
    limits = refl;
    selected = refl;
  })

  pub fail-IsMoved :
      (kind : FailureKind) (reason : String)
      → run_is_terminal r.status ≡ false
      → Yields (IsMoved r RunStatus.failed) (settled (Run.fail r now kind reason))
  unfolding settled Run.fail Run.transition ensure can allowed_from transitions
  fail-IsMoved kind reason h = ground arith

  pub complete-IsMoved :
      (winner : ℕ)
      → can r.status RunStatus.completed ≡ true
      → Yields
          (λ s. (s.status ≡ RunStatus.completed) × (s.selected_candidate_id ≡ some winner))
          (settled (Run.complete r now (some winner)))
  unfolding settled Run.complete Run.transition ensure
  complete-IsMoved winner h = rw (h) (refl, refl)

-- The follow-ups open every candidate that the run asks for, behind those that it had.
abbrev pub IsOpened : Step → Step → Type 0
IsOpened st d =
    (cs : List Candidate) × (d.candidates ≡ st.candidates ++ cs)
    × AreOpened st.run.id 0 cs d.follow_ups
    × (length d.follow_ups ≡ st.run.candidate_count)
    × (d.run ≡ st.run)

-- What the first decision on a run leads to: the planner's job, or the candidates' jobs.
pub data IsStarted (st : Step) (d : Step) : Type 0 where
  planned :
      {j : Job}
      → requires_plan st.run ≡ true
      → d.run.status ≡ RunStatus.planning
      → d.follow_ups ≡ j ∷ []
      → IsWaiting st.run.id JobType.plan none j
      → IsStarted st d
  coded :
      (cs : List Candidate)
      → requires_plan st.run ≡ false
      → d.run.status ≡ RunStatus.coding
      → d.candidates ≡ st.candidates ++ cs
      → AreOpened st.run.id 0 cs d.follow_ups
      → length d.follow_ups ≡ st.run.candidate_count
      → IsStarted st d

module _ (ports : Ports) (cfg : OrchestratorConfig) (now : ℕ) where
  open_from-AreOpened :
      (left index : ℕ) (r : Run) (drawn : ℕ)
      → IsServing ports
      → 1 ≤ cfg.job_max_attempts
      → Yields
          (λ p. AreOpened r.id index p.0 p.1 × (length p.1 ≡ left) × (p.2 ≡ drawn + 2 * left))
          (open_from ports cfg now left index r drawn)
  unfolding open_from settled Candidate.create Candidate.attach_workspace Candidate.start_coding
  open_from-AreOpened zero index r drawn v h = (none_left, refl, omega arith)
  open_from-AreOpened (suc left) index r drawn v h =
      let candidate = ports.fresh_id drawn in
      let (w, made, _) =
        Yields-value (ports.create_workspace candidate)
          (is_ok-Yields (ports.create_workspace candidate) (v.opens candidate)) in
      let (j, asked, waiting) =
        Yields-value
          (new_job cfg r JobType.code (some AgentRole.coder) (some candidate) Priority.normal
            (ports.fresh_id (suc drawn)) now)
          (new_job-IsWaiting cfg r JobType.code (some AgentRole.coder) (some candidate)
            Priority.normal (ports.fresh_id (suc drawn)) now h refl) in
      let (p, later, (ordered, counted, spent)) =
        Yields-value (open_from ports cfg now left (suc index) r (suc (suc drawn)))
          (open_from-AreOpened left (suc index) r (suc (suc drawn)) v h) in
      rw (made, asked, later)
        (opened refl refl refl waiting ordered, ap suc counted, omega (arith, spent))

  pub open_candidates-IsOpened :
      (st : Step)
      → IsServing ports
      → 1 ≤ cfg.job_max_attempts
      → Yields (IsOpened st) (open_candidates ports cfg now st)
  unfolding open_candidates
  open_candidates-IsOpened st v h =
      let count = st.run.candidate_count in
      let (p, later, (ordered, counted, spent)) =
        Yields-value (open_from ports cfg now count 0 st.run st.drawn)
          (open_from-AreOpened count 0 st.run st.drawn v h) in
      rw (later) (p.0, refl, ordered, counted, refl)

  -- A run that was just created starts: where its metadata asks for a plan, with one job for the
  -- planner; otherwise with as many candidates as it asks for, each coding and each with a job of its own.
  -- The workspaces have to be served, and the configuration has to allow an attempt.
  pub open_first_stage-IsStarted :
      (st : Step)
      → st.run.status ≡ RunStatus.created
      → IsServing ports
      → 1 ≤ cfg.job_max_attempts
      → Yields (IsStarted st) (open_first_stage ports cfg now st)
  unfolding open_first_stage can
  open_first_stage-IsStarted st e v h = elim (Bool-cases (requires_plan st.run)) [
    | inl p ↦
        let (r, planned_run, moved) =
          Yields-value (settled (Run.start_planning st.run now))
            (start_planning-IsMoved st.run now (rw (e) refl)) in
        let (j, asked, waiting) =
          Yields-value
            (new_job cfg r JobType.plan (some AgentRole.planner) none Priority.normal
              (ports.fresh_id st.drawn) now)
            (new_job-IsWaiting cfg r JobType.plan (some AgentRole.planner) none Priority.normal
              (ports.fresh_id st.drawn) now h refl) in
        rw (p, planned_run, asked)
          (planned p moved.status refl
            (subst (λ i. IsWaiting i JobType.plan none j) moved.same waiting))
    | inr p ↦
        let (r, coding_run, moved) =
          Yields-value (settled (Run.start_coding st.run now))
            (start_coding-IsMoved st.run now (rw (e) refl)) in
        let (d, opened_all, (cs, behind, ordered, counted, same)) =
          Yields-value (open_candidates ports cfg now (record st { run = r }))
            (open_candidates-IsOpened (record st { run = r }) v h) in
        rw (p, coding_run, opened_all)
          (coded cs p (ap (λ (x : Run). x.status) same ∙ moved.status) behind
            (subst (λ i. AreOpened i 0 cs d.follow_ups) moved.same ordered) (counted ∙ moved.count))
  ]
