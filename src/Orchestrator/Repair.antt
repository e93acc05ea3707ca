-- ===== src/Orchestrator/Repair.antt =====
-- The repair loop's decision: `_repair_or_fail` of src/application/orchestration/orchestrator.py.
use agentic_gpu_platform.Shared.{
  Bool-cases, List, String, [], arith, false, first, inl, inr, refl, some, subst, suc, text_append,
  true, ℕ, ◌∙◌, ◌∷◌, ◌≡◌, ◌≤◌,
}
use agentic_gpu_platform.Enums.{
  AgentRole, FailureKind, JobType, Priority, RunStatus, candidate_is_terminal, run_is_terminal,
}
use agentic_gpu_platform.Errors.{Yields, Yields-value, is_ok-Yields, ok, settled}
use agentic_gpu_platform.Job.{Job}
use agentic_gpu_platform.Run.{Run}
use agentic_gpu_platform.Run
use agentic_gpu_platform.RunMachine.{can, ensure}
use agentic_gpu_platform.Candidate.{Candidate}
use agentic_gpu_platform.Candidate
use agentic_gpu_platform.Orchestrator.{
  OrchestratorConfig, Ports, Step, ask_for, give_up, new_job, repair_or_fail, send_back,
}
use agentic_gpu_platform.Orchestrator.Opening.{
  IsServing, IsWaiting, fail-IsMoved, new_job-IsWaiting, start_coding-IsMoved,
}

-- A repair is ordered while the budget lasts; the run fails once it is spent.
pub data IsRepaired (c : Candidate) (st : Step) (d : Step) : Type 0 where
  ordered :
      {j : Job}
      → d.run.status ≡ RunStatus.coding
      → d.follow_ups ≡ j ∷ []
      → IsWaiting st.run.id JobType.code (some c.id) j
      → d.run.repair_iterations ≡ suc st.run.repair_iterations
      → suc st.run.repair_iterations ≤ st.run.limits.max_repair_iterations
      → IsRepaired c st d
  exhausted :
      d.run.status ≡ RunStatus.failed
      → d.follow_ups ≡ []
      → Run.can_repair st.run ≡ false
      → IsRepaired c st d

module _ (ports : Ports) (cfg : OrchestratorConfig) (now : ℕ) where
  -- One more repair is asked for, within the budget.
  asks_repair :
      (r : Run) (candidate : ℕ) (why : String)
      → Run.can_repair r ≡ true
      → can r.status RunStatus.repairing ≡ true
      → ((Run.request_repair r candidate why now).1 ≡ ok true)
        × ((Run.request_repair r candidate why now).0.status ≡ RunStatus.repairing)
        × ((Run.request_repair r candidate why now).0.id ≡ r.id)
        × ((Run.request_repair r candidate why now).0.repair_iterations ≡ suc r.repair_iterations)
  unfolding Run.request_repair Run.transition ensure
  asks_repair r candidate why h k = rw (h, k) (refl, refl, refl, omega arith)

  no_repair :
      (r : Run) (candidate : ℕ) (why : String)
      → Run.can_repair r ≡ false
      → ((Run.request_repair r candidate why now).1 ≡ ok false)
        × ((Run.request_repair r candidate why now).0 ≡ r)
  unfolding Run.request_repair
  no_repair r candidate why h = rw (h) (refl, refl)

  give_up-fails :
      (why : String) (st : Step)
      → IsServing ports
      → run_is_terminal st.run.status ≡ false
      → Yields
          (λ (d : Step). (d.run.status ≡ RunStatus.failed) × (d.follow_ups ≡ []))
          (give_up ports cfg now why st)
  unfolding give_up
  give_up-fails why st v e =
      let reason = text_append why "; repair budget exhausted" in
      let (r, failed, moved) =
        Yields-value (settled (Run.fail st.run now FailureKind.review reason))
          (fail-IsMoved st.run now FailureKind.review reason e) in
      let (_, released, _) =
        Yields-value (ports.release_run r.id)
          (is_ok-Yields (ports.release_run r.id) (v.releases r.id)) in
      rw (failed, released) (moved.status, refl)

  -- The candidate goes back to its coder.
  abbrev IsSentBack : Candidate → Step → Step → Type 0
  IsSentBack c st d =
      (j : Job) × (d.run.status ≡ RunStatus.coding)
      × (d.follow_ups ≡ j ∷ [])
      × IsWaiting st.run.id JobType.code (some c.id) j
      × (d.run.repair_iterations ≡ st.run.repair_iterations)

  restarted :
      (c : Candidate)
      → candidate_is_terminal c.status ≡ false
      → Yields (λ (d : Candidate). d.id ≡ c.id) (settled (Candidate.start_repair c now))
  unfolding settled Candidate.start_repair
  restarted c e = rw (e) refl

  send_back-IsSentBack :
      (c : Candidate) (st : Step)
      → 1 ≤ cfg.job_max_attempts
      → candidate_is_terminal c.status ≡ false
      → can st.run.status RunStatus.coding ≡ true
      → Yields (IsSentBack c st) (send_back ports cfg now c st)
  unfolding send_back ask_for
  send_back-IsSentBack c st h e k =
      let (d, again, _) = Yields-value (settled (Candidate.start_repair c now)) (restarted c e) in
      let (r, coding_run, moved) =
        Yields-value (settled (Run.start_coding st.run now)) (start_coding-IsMoved st.run now k) in
      let (j, asked, waiting) =
        Yields-value
          (new_job cfg r JobType.code (some AgentRole.coder) (some c.id) Priority.high
            (ports.fresh_id st.drawn) now)
          (new_job-IsWaiting cfg r JobType.code (some AgentRole.coder) (some c.id) Priority.high
            (ports.fresh_id st.drawn) now h refl) in
      rw (again, coding_run, asked)
        (
          j,
          moved.status,
          refl,
          subst (λ i. IsWaiting i JobType.code (some c.id) j) moved.same waiting,
          moved.repairs,
        )

  pub repair_or_fail-IsRepaired :
      (c : Candidate) (cs : List Candidate) (why : String) (st : Step)
      → first cs ≡ some c
      → IsServing ports
      → 1 ≤ cfg.job_max_attempts
      → candidate_is_terminal c.status ≡ false
      → can st.run.status RunStatus.repairing ≡ true
      → run_is_terminal st.run.status ≡ false
      → Yields (IsRepaired c st) (repair_or_fail ports cfg now cs why st)
  unfolding repair_or_fail can
  repair_or_fail-IsRepaired c cs why st first_one v h e k alive =
      elim (Bool-cases (Run.can_repair st.run)) [
        | inl budget ↦
            let s = (Run.request_repair st.run c.id why now).0 in
            let (asked, there_now, same, spent) = asks_repair st.run c.id why budget k in
            let (d, back, (j, coding, one, waiting, kept)) =
              Yields-value (send_back ports cfg now c (record st { run = s }))
                (send_back-IsSentBack c (record st { run = s }) h e (rw (there_now) refl)) in
            rw (repair_or_fail, first_one, asked, back)
              (ordered coding one (subst (λ i. IsWaiting i JobType.code (some c.id) j) same waiting)
                (kept ∙ spent) (ground arith))
        | inr budget ↦
            let s = (Run.request_repair st.run c.id why now).0 in
            let (refused, same) = no_repair st.run c.id why budget in
            let (d, gone, (failed, empty)) =
              Yields-value (give_up ports cfg now why (record st { run = s }))
                (give_up-fails why (record st { run = s }) v (rw (same) alive)) in
            rw (repair_or_fail, first_one, refused, gone) (exhausted failed empty budget)
      ]
