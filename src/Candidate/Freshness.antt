-- ===== src/Candidate/Freshness.antt =====
-- The evidence in a candidate (src/domain/entities/candidate.py) is about the patch that it holds.
use agentic_gpu_platform.Shared.{
  Bool, List, String, [], arith, false, is_empty, refl, some, true, ℕ, ◌∷◌, ◌≡◌, ◌⊎◌,
}
use agentic_gpu_platform.Enums.{CandidateStatus}
use agentic_gpu_platform.Errors.{is_ok, ok}
use agentic_gpu_platform.Candidate.{
  Candidate, Patch, append_validation, attach_workspace, cancel, choose, create, fail, finish,
  record_review, record_validation, record_worker, reject, start_coding, start_repair,
  start_validation, submit_patch,
}
use agentic_gpu_platform.Candidate.History.{
  Call, after, appends, attaches, closes, fails, is_cancelled, is_chosen, is_rejected,
  records_review, records_worker, run, starts_coding, starts_repair, starts_validation, submits,
}

calls : Unit {0}
unfolding after attach_workspace start_coding record_worker submit_patch start_validation
    append_validation record_validation record_review start_repair finish choose reject fail cancel
calls = tt

abbrev is_created : CandidateStatus → Bool
is_created s = elim s [ CandidateStatus.created ↦ true | _ ↦ false ]

-- The stages that precede the first result on the present code.
abbrev is_unproven : CandidateStatus → Bool
is_unproven s = elim s [
  | CandidateStatus.created ↦ true
  | CandidateStatus.coding ↦ true
  | _ ↦ false
]

-- What the orchestrator keeps to (src/application/orchestration/orchestrator.py): `start_coding` is
-- called on a new candidate only, and later rounds go through `start_repair`.
abbrev pub Fits : Candidate → Call → Type 0
Fits c k = elim k [ starts_coding now job ↦ is_created c.status ≡ true | _ ↦ Unit ]

abbrev pub IsOrderly : Candidate → List Call → Type 0
IsOrderly c [] = Unit
IsOrderly c (k ∷ ks) = Fits c k × IsOrderly (after c k) ks

abbrev IsFresh : Candidate → Type 0
IsFresh c = is_unproven c.status ≡ true → is_empty c.validation.results ≡ true

after-IsFresh : (c : Candidate) (k : Call) → Fits c k → IsFresh c → IsFresh (after c k)
unfolding calls
after-IsFresh c (attaches w) o f = ground arith
after-IsFresh c (starts_coding now job) o f = ground arith
after-IsFresh c (records_worker w) o f = ground arith
after-IsFresh c (submits p s u) o f = ground arith
after-IsFresh c (starts_validation now) o f = ground arith
after-IsFresh c (appends rs) o f = ground arith
after-IsFresh c (closes now report blocking) o f = ground arith
after-IsFresh c (records_review r) o f = ground arith
after-IsFresh c (starts_repair now) o f = ground arith
after-IsFresh c (is_chosen now) o f = ground arith
after-IsFresh c (is_rejected now why) o f = ground arith
after-IsFresh c (fails now kind why) o f = ground arith
after-IsFresh c (is_cancelled now) o f = ground arith

run-IsFresh : (c : Candidate) (ks : List Call) → IsOrderly c ks → IsFresh c → IsFresh (run c ks)
unfolding run
run-IsFresh c [] o f = f
run-IsFresh c (k ∷ ks) o f = run-IsFresh (after c k) ks o.1 (after-IsFresh c k o.0 f)

-- Whatever orderly calls came before, a patch is accepted only while the report holds no result, and
-- it is then the candidate's patch: no result of an older patch counts for a newer one.
pub submit_patch-fresh :
    (id run_id index now : ℕ) (ks : List Call) (p : Patch) (s : String) (u : List String)
    → let c = create id run_id index now in
      IsOrderly c ks
      → let (d, answer) = submit_patch (run c ks) p s u in
        (answer ≡ ok tt) × (d.patch ≡ some p) × (is_empty d.validation.results ≡ true)
        ⊎ is_ok answer ≡ false × (d ≡ run c ks)
unfolding create submit_patch
submit_patch-fresh id run_id index now ks p s u o =
    let fresh = run-IsFresh (create id run_id index now) ks o (λ _. refl) in ground (arith, fresh)
