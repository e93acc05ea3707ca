-- ===== src/Candidate/Lifecycle.antt =====
-- What a candidate (src/domain/entities/candidate.py) keeps through every sequence of calls.
use agentic_gpu_platform.Shared.{List, [], ap, arith, is_some, refl, true, ℕ, ◌∙◌, ◌∷◌, ◌≡◌, ◌≤◌}
use agentic_gpu_platform.Enums.{candidate_is_terminal}
use agentic_gpu_platform.Candidate.{
  Candidate, append_validation, attach_workspace, cancel, choose, create, fail, finish,
  record_review, record_validation, record_worker, reject, start_coding, start_repair,
  start_validation, submit_patch,
}
use agentic_gpu_platform.Candidate.History.{
  Call, after, appends, attaches, closes, fails, is_cancelled, is_chosen, is_rejected,
  records_review, records_worker, run, starts_coding, starts_repair, starts_validation, submits,
}

calls : Unit {0}
unfolding after attach_workspace start_coding record_worker submit_patch start_validation
    append_validation record_validation record_review start_repair finish choose reject fail cancel
calls = tt

pub record IsValid (c : Candidate) : Type 0 where
  pub completed : is_some c.completed_at ≡ candidate_is_terminal c.status
  pub counted : c.repair_iterations ≤ c.coder_iterations

after-IsValid : (c : Candidate) (k : Call) → IsValid c → IsValid (after c k)
unfolding calls
after-IsValid c (attaches w) v = ground arith
after-IsValid c (starts_coding now job) v = ground arith
after-IsValid c (records_worker w) v = ground arith
after-IsValid c (submits p s u) v = ground arith
after-IsValid c (starts_validation now) v = ground arith
after-IsValid c (appends rs) v = ground arith
after-IsValid c (closes now report blocking) v = ground arith
after-IsValid c (records_review r) v = ground arith
after-IsValid c (starts_repair now) v = ground arith
after-IsValid c (is_chosen now) v = ground arith
after-IsValid c (is_rejected now why) v = ground arith
after-IsValid c (fails now kind why) v = ground arith
after-IsValid c (is_cancelled now) v = ground arith

run-IsValid : (c : Candidate) (ks : List Call) → IsValid c → IsValid (run c ks)
unfolding run
run-IsValid c [] v = v
run-IsValid c (k ∷ ks) v = run-IsValid (after c k) ks (after-IsValid c k v)

-- After any calls on a new candidate, it has a time of completion exactly when its status is
-- terminal, and it was repaired at most as often as it was coded.
pub life-IsValid :
    (id run_id index now : ℕ) (ks : List Call) → IsValid (run (create id run_id index now) ks)
unfolding create
life-IsValid id run_id index now ks =
    run-IsValid (create id run_id index now) ks (record { completed = refl; counted = omega arith })

-- What a finished candidate keeps.
abbrev pub IsSettledAs : Candidate → Candidate → Type 0
IsSettledAs c d =
    (d.status ≡ c.status)
    × (d.completed_at ≡ c.completed_at)
    × (d.patch ≡ c.patch)
    × (d.validation ≡ c.validation)
    × (d.coder_iterations ≡ c.coder_iterations)
    × (d.failure_kind ≡ c.failure_kind)
    × (d.events ≡ c.events)

after-settled :
    (c : Candidate) (k : Call) → candidate_is_terminal c.status ≡ true → IsSettledAs c (after c k)
unfolding calls
after-settled c (attaches w) h = ground arith
after-settled c (starts_coding now job) h = ground arith
after-settled c (records_worker w) h = ground arith
after-settled c (submits p s u) h = ground arith
after-settled c (starts_validation now) h = ground arith
after-settled c (appends rs) h = ground arith
after-settled c (closes now report blocking) h = ground arith
after-settled c (records_review r) h = ground arith
after-settled c (starts_repair now) h = ground arith
after-settled c (is_chosen now) h = ground arith
after-settled c (is_rejected now why) h = ground arith
after-settled c (fails now kind why) h = ground arith
after-settled c (is_cancelled now) h = ground arith

-- No call on a finished candidate changes its status, its time of completion, its patch, its
-- evidence, its count of codings, its failure or its events.
pub finished_absorbs :
    (c : Candidate) (ks : List Call)
    → candidate_is_terminal c.status ≡ true
    → IsSettledAs c (run c ks)
unfolding run
finished_absorbs c [] h = (refl, refl, refl, refl, refl, refl, refl)
finished_absorbs c (k ∷ ks) h =
    let (s, t, p, v, n, f, e) = after-settled c k h in
    let (s', t', p', v', n', f', e') =
      finished_absorbs (after c k) ks (ap candidate_is_terminal s ∙ h) in
    (s' ∙ s, t' ∙ t, p' ∙ p, v' ∙ v, n' ∙ n, f' ∙ f, e' ∙ e)
