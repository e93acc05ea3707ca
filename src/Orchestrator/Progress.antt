-- ===== src/Orchestrator/Progress.antt =====
-- What a decision over candidates leads to (`_advance_candidates`, `_repair_or_fail` of
-- src/application/orchestration/orchestrator.py).
use agentic_gpu_platform.Shared.{
  Bool, Bool-cases, Has, Has-select, List, Option-cases, [], any, any-first, arith, false, first,
  first-Has, first-filled, first-none, inl, inr, is_empty, not, refl, select, some, subst, suc,
  true, ℕ, ◌&&◌, ◌||◌, ◌∙◌, ◌∷◌, ◌≡◌, ◌≤◌,
}
use agentic_gpu_platform.Enums.{
  AgentRole, JobType, Priority, RunStatus, candidate_is_terminal, run_is_terminal,
}
use agentic_gpu_platform.Errors.{Yields, Yields-value, settled}
use agentic_gpu_platform.Project.{Project}
use agentic_gpu_platform.Selection.{is_usable, viable}
use agentic_gpu_platform.Selection.Best.{select_candidate-best, select_candidate-total}
use agentic_gpu_platform.Job.{Job}
use agentic_gpu_platform.Run.{Run}
use agentic_gpu_platform.Run
use agentic_gpu_platform.RunMachine.{allowed_from, can, status_eq, transitions}
use agentic_gpu_platform.Candidate.{Candidate, is_viable}
use agentic_gpu_platform.Orchestrator.{
  OrchestratorConfig, Ports, Step, advance_candidates, ask_for, enter_validating, judge, new_job,
  open_review, push_candidates, repair_or_fail, settled_candidates,
}
use agentic_gpu_platform.Orchestrator.Repair.{exhausted, ordered, repair_or_fail-IsRepaired}
use agentic_gpu_platform.Orchestrator.Opening.{
  IsServing, IsWaiting, new_job-IsWaiting, start_reviewing-IsMoved,
}
use agentic_gpu_platform.Orchestrator.Pushing.{
  AreAsked, AreAsked-any, AreAsked-none, AreRecorded, is_judged, is_open, is_stage_left,
  push_candidates-IsPushed,
}

-- None of the candidates that are judged is viable.
abbrev pub AreHopeless : List Candidate → Type 0
AreHopeless cs = any (λ (c : Candidate). is_judged c && is_viable c) cs ≡ false

-- What follows where candidates were judged: the review of a viable one; else, where none is viable, a
-- repair of the first of them within the budget, or the end of the run with the budget spent.
pub data IsJudged (r : Run) (judged : List Candidate) (d : Step) : Type 0 where
  reviews :
      (c : Candidate) {j : Job}
      → d.run.status ≡ RunStatus.reviewing
      → d.follow_ups ≡ j ∷ []
      → IsWaiting r.id JobType.review (some c.id) j
      → d.candidates ≡ judged
      → Has c judged
      → is_judged c ≡ true
      → is_viable c ≡ true
      → IsJudged r judged d
  repairs :
      (c : Candidate) {j : Job}
      → AreHopeless judged
      → first (select is_judged judged) ≡ some c
      → d.run.status ≡ RunStatus.coding
      → d.follow_ups ≡ j ∷ []
      → IsWaiting r.id JobType.code (some c.id) j
      → d.run.repair_iterations ≡ suc r.repair_iterations
      → suc r.repair_iterations ≤ r.limits.max_repair_iterations
      → IsJudged r judged d
  fails :
      AreHopeless judged
      → d.run.status ≡ RunStatus.failed
      → d.follow_ups ≡ []
      → Run.can_repair r ≡ false
      → IsJudged r judged d

-- What a decision over the candidates may lead to: jobs for the stages that are left; where none is
-- left, a decision over the candidates that are judged.
pub data IsAdvanced (p : Project) (st : Step) (d : Step) : Type 0 where
  validates :
      d.run.status ≡ RunStatus.validating
      → any (is_stage_left p) st.candidates ≡ true
      → is_empty d.follow_ups ≡ false
      → AreAsked p st.run.id st.candidates d.follow_ups
      → IsAdvanced p st d
  judges :
      (judged : List Candidate)
      → any (is_stage_left p) st.candidates ≡ false
      → AreAsked p st.run.id st.candidates []
      → AreRecorded p st.candidates judged
      → IsJudged st.run judged d
      → IsAdvanced p st d

hopeless : (cs : List Candidate) → is_empty (viable (select is_judged cs)) ≡ true → AreHopeless cs
unfolding viable select any
hopeless [] h = refl
hopeless (c ∷ cs) h = elim (Bool-cases (is_judged c)) [
  | inl e ↦ elim (Bool-cases (is_viable c)) [
    | inl v ↦ absurd (ground (arith, e, v, h))
    | inr v ↦ rw (e, v) (hopeless cs (rw (e, v) at h))
  ]
  | inr e ↦ rw (e) (hopeless cs (rw (e) at h))
]

reviewable :
    (s : RunStatus)
    → can s RunStatus.reviewing ≡ true
    → (run_is_terminal s ≡ false) × (status_eq s RunStatus.reviewing ≡ false)
unfolding can allowed_from transitions any
reviewable s h = ground arith

fit-is_usable : (c : Candidate) → is_viable c ≡ true → is_usable c ≡ true
fit-is_usable c h = rw (h) (or_true (not (candidate_is_terminal c.status)))
  where
    or_true : (b : Bool) → (b || true) ≡ true
    or_true b = ground arith

judged-alive : (c : Candidate) → is_judged c ≡ true → candidate_is_terminal c.status ≡ false
judged-alive c h = ground arith

module _ (ports : Ports) (cfg : OrchestratorConfig) (now : ℕ) where
  open_review-opens :
      (c : Candidate) (st : Step)
      → 1 ≤ cfg.job_max_attempts
      → can st.run.status RunStatus.reviewing ≡ true
      → status_eq st.run.status RunStatus.reviewing ≡ false
      → Yields
          (λ (d : Step).
            (j : Job) × (d.run.status ≡ RunStatus.reviewing)
            × (d.follow_ups ≡ j ∷ [])
            × IsWaiting st.run.id JobType.review (some c.id) j
            × (d.candidates ≡ st.candidates))
          (open_review ports cfg now c st)
  unfolding ask_for open_review
  open_review-opens c st h k e =
      let (r, reviewing_run, moved) =
        Yields-value (settled (Run.start_reviewing st.run c.id now))
          (start_reviewing-IsMoved st.run now c.id k) in
      let (j, sent, waiting) =
        Yields-value
          (new_job cfg r JobType.review (some AgentRole.reviewer) (some c.id) Priority.normal
            (ports.fresh_id st.drawn) now)
          (new_job-IsWaiting cfg r JobType.review (some AgentRole.reviewer) (some c.id)
            Priority.normal (ports.fresh_id st.drawn) now h refl) in
      rw (open_review, e, reviewing_run, sent)
        (
          j,
          moved.status,
          refl,
          subst (λ i. IsWaiting i JobType.review (some c.id) j) moved.same waiting,
          refl,
        )

  -- The candidates that are judged: the winner among the viable ones is reviewed; where none is viable,
  -- the first is repaired within the budget.
  pub judge-IsJudged :
      (st : Step)
      → IsServing ports
      → 1 ≤ cfg.job_max_attempts
      → any is_judged st.candidates ≡ true
      → can st.run.status RunStatus.reviewing ≡ true
      → (is_empty (viable (settled_candidates st)) ≡ true
          → can st.run.status RunStatus.repairing ≡ true)
      → Yields (IsJudged st.run st.candidates) (judge ports cfg now st)
  unfolding viable judge
  judge-IsJudged st v h some_judged review repair =
      let judged = settled_candidates st in
      let (c, one) = any-first is_judged st.candidates some_judged in
      let (alive, other) = reviewable st.run.status review in
      elim (Option-cases (first (viable judged))) [
        | inl gone ↦
            let nothing = hopeless st.candidates (first-none (viable judged) gone) in
            let (d, done, how) =
              Yields-value
                (repair_or_fail ports cfg now judged
                  "no candidate survived deterministic validation" st)
                (repair_or_fail-IsRepaired ports cfg now c judged
                  "no candidate survived deterministic validation" st one v h
                  (judged-alive c (Has-select is_judged st.candidates (first-Has judged one)).1)
                  (repair (first-none (viable judged) gone)) alive) in
            rw (judge, first-filled judged one, gone, done)
              (elim how [
                | ordered a b x y z ↦ repairs c nothing one a b x y z
                | exhausted a b x ↦ fails nothing a b x
              ])
        | inr (b, found) ↦
            let (in_judged, fit) = Has-select is_viable judged (first-Has (viable judged) found) in
            let (w, won, m) = select_candidate-total ports.str_of judged b in_judged fit in
            let (_, good, _) =
              select_candidate-best ports.str_of (viable judged) w b won
                (first-Has (viable judged) found) (fit-is_usable b fit) in
            let (member, marked) = Has-select is_judged st.candidates m in
            let (d, done, (j, reviewing, one_job, waiting, same)) =
              Yields-value (open_review ports cfg now w st)
                (open_review-opens w st h review other) in
            rw (judge, first-filled judged one, found, won, done)
              (reviews w reviewing one_job waiting same member marked good)
      ]

  pub advance_candidates-IsAdvanced :
      (p : Project) (st : Step)
      → IsServing ports
      → 1 ≤ cfg.job_max_attempts
      → any is_open st.candidates ≡ true
      → st.run.status ≡ RunStatus.validating
      → Yields (IsAdvanced p st) (advance_candidates ports cfg now p st)
  unfolding advance_candidates enter_validating can
  advance_candidates-IsAdvanced p st v h some_open e =
      let (q, pushed, k) =
        Yields-value (push_candidates ports cfg now p st.run st.candidates st.drawn)
          (push_candidates-IsPushed ports cfg now p st.run st.candidates st.drawn h) in
      elim (Bool-cases (is_empty q.1)) [
        | inl nothing ↦
            let st2 : Step = record {
              run = st.run;
              candidates = q.0;
              drawn = q.2;
              follow_ups = q.1;
            } in
            let (d, done, how) = Yields-value (judge ports cfg now st2) (
              judge-IsJudged st2 v h (k.judged some_open nothing) (rw (e) refl) λ x. rw (e) refl) in
            rw (advance_candidates, pushed, nothing, done)
              (judges q.0 (AreAsked-any k.asked ∙ rw (nothing) refl)
                (AreAsked-none q.1 nothing k.asked) k.recorded how)
        | inr some_left ↦
            let stays : status_eq st.run.status RunStatus.validating ≡ true = rw (e) refl in
            rw (advance_candidates, pushed, some_left, stays)
              (validates e (AreAsked-any k.asked ∙ rw (some_left) refl) some_left k.asked)
      ]
