-- ===== src/Orchestrator/Verdict.antt =====
-- What the decision over the reviews leads to (`_advance_review` of
-- src/application/orchestration/orchestrator.py).
use agentic_gpu_platform.Shared.{
  All, All-Has, Bool-cases, Has, Has-select, List, Option-cases, String, [], any, any-first, arith,
  false, filled-first, first, first-Has, if◌then◌else◌, inl, inr, is_empty, is_some, none-first,
  refl, select, some, subst, suc, true, ℕ, ◌==◌, ◌or◌, ◌∷◌, ◌≡◌, ◌≤◌,
}
use agentic_gpu_platform.Enums.{CandidateStatus, JobType, RunStatus, candidate_is_terminal}
use agentic_gpu_platform.Errors.{Yields, Yields-value, is_ok-Yields, ok, settled}
use agentic_gpu_platform.Selection.{select_candidate}
use agentic_gpu_platform.Selection.Best.{select_candidate-Has}
use agentic_gpu_platform.Job.{Job}
use agentic_gpu_platform.Run.{Run}
use agentic_gpu_platform.Run
use agentic_gpu_platform.RunMachine.{can}
use agentic_gpu_platform.Candidate.{Candidate}
use agentic_gpu_platform.Candidate
use agentic_gpu_platform.Orchestrator.{
  OrchestratorConfig, Ports, Step, advance_review, finish_with, has_failed, has_passed, integrate,
  reject_others, repair_or_fail, replace,
}
use agentic_gpu_platform.Orchestrator.Opening.{IsServing, IsWaiting, complete-IsMoved}
use agentic_gpu_platform.Orchestrator.Repair.{exhausted, ordered, repair_or_fail-IsRepaired}

-- A candidate that can still be chosen and integrated.
pub record IsAlive (c : Candidate) : Type 0 where
  pub alive : candidate_is_terminal c.status ≡ false
  pub owner : is_some c.workspace_id ≡ true

-- The winner is selected, all the others are rejected.
abbrev pub AreClosed : (winner : ℕ) → List Candidate → Type 0
AreClosed winner cs =
    All
      (λ (c : Candidate).
        c.status ≡ (if c.id == winner then CandidateStatus.selected else CandidateStatus.rejected))
      cs

pub data IsConcluded (st : Step) (d : Step) : Type 0 where
  completes :
      (winner : Candidate)
      → Has winner st.candidates
      → has_passed winner ≡ true
      → d.run.status ≡ RunStatus.completed
      → d.run.selected_candidate_id ≡ some winner.id
      → AreClosed winner.id d.candidates
      → d.follow_ups ≡ []
      → IsConcluded st d
  repairs :
      (c : Candidate) {j : Job}
      → Has c st.candidates
      → any has_passed st.candidates ≡ false
      → d.run.status ≡ RunStatus.coding
      → d.follow_ups ≡ j ∷ []
      → IsWaiting st.run.id JobType.code (some c.id) j
      → d.run.repair_iterations ≡ suc st.run.repair_iterations
      → suc st.run.repair_iterations ≤ st.run.limits.max_repair_iterations
      → IsConcluded st d
  fails :
      any has_passed st.candidates ≡ false
      → d.run.status ≡ RunStatus.failed
      → d.follow_ups ≡ []
      → Run.can_repair st.run ≡ false
      → IsConcluded st d

module _ (ports : Ports) (cfg : OrchestratorConfig) (now : ℕ) where
  chosen :
      (c : Candidate)
      → candidate_is_terminal c.status ≡ false
      → Yields
          (λ (d : Candidate). (d.status ≡ CandidateStatus.selected) × (d.id ≡ c.id))
          (settled (Candidate.choose c now))
  unfolding settled Candidate.choose Candidate.finish
  chosen c v = ground arith

  closed :
      (c : Candidate) (cs : List Candidate)
      → c.status ≡ CandidateStatus.selected
      → All IsAlive cs
      → AreClosed c.id (replace c (reject_others ports cfg now c.id cs))
  unfolding replace reject_others Candidate.reject Candidate.finish
  closed c [] s a = tt
  closed c (d ∷ ds) s a =
      let alive = a.0.alive in let later = closed c ds s a.1 in ground (arith, later)

  integrated :
      (r : Run) (c : Candidate)
      → IsServing ports
      → is_some c.workspace_id ≡ true
      → Yields
          (λ (x : Unit {0}). Unit {0})
          (if cfg.integrate_on_success then integrate ports cfg now r c else ok tt)
  unfolding integrate
  integrated r c v h = elim (Bool-cases cfg.integrate_on_success) [
    | inl e ↦ elim (Option-cases c.workspace_id) [
      | inl n ↦ absurd (ground arith)
      | inr (w, s) ↦ rw (e, s) (is_ok-Yields (ports.integrate r.id w) (v.integrates r.id w))
    ]
    | inr e ↦ rw (e) tt
  ]

  finish_with-completes :
      (winner : Candidate) (why : String) (st : Step)
      → IsServing ports
      → All IsAlive st.candidates
      → IsAlive winner
      → st.run.status ≡ RunStatus.reviewing
      → Yields
          (λ (d : Step).
            (d.run.status ≡ RunStatus.completed)
            × (d.run.selected_candidate_id ≡ some winner.id)
            × AreClosed winner.id d.candidates
            × (d.follow_ups ≡ []))
          (finish_with ports cfg now winner why st)
  unfolding finish_with Run.select_candidate can
  finish_with-completes winner why st v all_alive w e =
      let named = Run.select_candidate st.run winner.id why now in
      let (_, done, _) =
        Yields-value
          (if cfg.integrate_on_success then integrate ports cfg now st.run winner else ok tt)
          (integrated st.run winner v w.owner) in
      let (c, taken, (marked, same)) =
        Yields-value (settled (Candidate.choose winner now)) (chosen winner w.alive) in
      let (r, completed, (ended, kept)) =
        Yields-value (settled (Run.complete named now (some winner.id)))
          (complete-IsMoved named now winner.id (rw (e) refl)) in
      let (_, released, _) =
        Yields-value (ports.release_run r.id)
          (is_ok-Yields (ports.release_run r.id) (v.releases r.id)) in
      rw (done, taken, completed, released)
        (
          ended,
          kept,
          subst (λ i. AreClosed i (replace c (reject_others ports cfg now i st.candidates))) same
              (closed c st.candidates marked all_alive),
          refl,
        )

  -- The winner of the policy, or the first where it names none.
  winner-Has :
      (cs : List Candidate) (c : Candidate)
      → first cs ≡ some c
      → Has ((select_candidate ports.str_of cs).winner or c) cs
  winner-Has cs c one = elim (Option-cases (select_candidate ports.str_of cs).winner) [
    | inl n ↦ rw (n) (first-Has cs one)
    | inr (w, e) ↦ rw (e) (select_candidate-Has ports.str_of cs w e)
  ]

  repaired :
      (c : Candidate) (cs : List Candidate) (st : Step)
      → first cs ≡ some c
      → IsServing ports
      → 1 ≤ cfg.job_max_attempts
      → All IsAlive st.candidates
      → Has c st.candidates
      → st.run.status ≡ RunStatus.reviewing
      → any has_passed st.candidates ≡ false
      → Yields
          (IsConcluded st)
          (repair_or_fail ports cfg now cs "the reviewer rejected every candidate" st)
  unfolding can
  repaired c cs st one v h all_alive m e nobody =
      let why : String = "the reviewer rejected every candidate" in
      let (d, done, how) = Yields-value (repair_or_fail ports cfg now cs why st) (
        repair_or_fail-IsRepaired ports cfg now c cs why st one v h
          (All-Has IsAlive st.candidates all_alive m).alive (rw (e) refl) (rw (e) refl)) in
      rw (done) (elim how [
        | ordered a b x y z ↦ repairs c m nobody a b x y z
        | exhausted a b x ↦ fails nobody a b x
      ])

  pub advance_review-IsConcluded :
      (st : Step)
      → IsServing ports
      → 1 ≤ cfg.job_max_attempts
      → All IsAlive st.candidates
      → is_empty st.candidates ≡ false
      → st.run.status ≡ RunStatus.reviewing
      → Yields (IsConcluded st) (advance_review ports cfg now st)
  unfolding advance_review
  advance_review-IsConcluded st v h all_alive filled e =
      elim (Bool-cases (any has_passed st.candidates)) [
        | inl somebody ↦
            let (c, one) = any-first has_passed st.candidates somebody in
            let passed = select has_passed st.candidates in
            let choice = select_candidate ports.str_of passed in
            let (m, good) = Has-select has_passed st.candidates (winner-Has passed c one) in
            let (d, done, (ended, kept, closed_all, empty)) =
              Yields-value (finish_with ports cfg now (choice.winner or c) choice.rationale st) (
                finish_with-completes (choice.winner or c) choice.rationale st v all_alive
                  (All-Has IsAlive st.candidates all_alive m) e) in
            rw (advance_review, one, done)
              (completes (choice.winner or c) m good ended kept closed_all empty)
        | inr nobody ↦
            let gone = none-first has_passed st.candidates nobody in
            elim (Option-cases (first (select has_failed st.candidates))) [
              | inl n ↦
                  let (c, one) = filled-first st.candidates filled in
                  rw (advance_review, gone, n)
                    (repaired c st.candidates st one v h all_alive (first-Has st.candidates one) e
                      nobody)
              | inr (c, one) ↦
                  let (m, _) =
                    Has-select has_failed st.candidates
                      (first-Has (select has_failed st.candidates) one) in
                  rw (advance_review, gone, one)
                    (repaired c (c ∷ []) st refl v h all_alive m e nobody)
            ]
      ]
