-- ===== src/Selection/Samples.antt =====
-- Candidates to try the code on, and the theorems about reports, candidates and their selection at
-- concrete inputs.
use agentic_gpu_platform.Shared.{
  List, String, [], all, end, false, here, insert, is_blank, is_empty, is_empty_text, is_space,
  negsuc, none, pos, refl, select, some, sorted, strip, true, ℕ, ℤ, ◌+◌, ◌∷◌, ◌≡◌, ◌⊎◌,
}
use agentic_gpu_platform.Enums.{rank}
use agentic_gpu_platform.Errors.{is_ok, ok}
use agentic_gpu_platform.Candidate.{
  Candidate, Patch, append_validation, choose, create, finish, record_validation, start_coding,
  start_repair, start_validation, submit_patch,
}
use agentic_gpu_platform.Candidate.History.{
  Call, after, appends, closes, run, starts_coding, starts_repair, starts_validation, submits,
}
use agentic_gpu_platform.Candidate.Freshness.{submit_patch-fresh}
use agentic_gpu_platform.Validation.{
  ToolKind, ToolResult, ValidationReport, all_passed, extended_with, report_is_viable,
}
use agentic_gpu_platform.Selection.{outranks, pick, select_candidate, viable}
use agentic_gpu_platform.Selection.Best.{select_candidate-best}

abbrev ran : ToolKind → ℤ → ToolResult
ran kind code = record {
  tool = "make";
  kind = kind;
  command = "make";
  exit_code = code;
  stdout = "";
  stderr = "";
  duration_ms = 12;
  truncated = false;
  artifacts = [];
  metadata = end;
}

-- The build passed, and the tests died of a signal.
abbrev broken : ValidationReport
broken = record {
  results = ran ToolKind.build (pos 0) ∷ ran ToolKind.test (negsuc 8) ∷ [];
  static_analysis_is_blocking = false;
}

broken_fails : report_is_viable broken ≡ false
unfolding report_is_viable all_passed all select
broken_fails = refl

abbrev fix : Patch
fix = record {
  diff = "diff --git a/m.py b/m.py";
  base_revision = none;
  files = record { path = "m.py"; added_lines = 2; removed_lines = 1 } ∷ [];
}

-- A round that fails its tests, and the repair of it.
abbrev one_round : List Call
one_round =
    starts_coding 10 (some 4)
    ∷ submits fix "first" []
    ∷ starts_validation 20
    ∷ appends broken.results
    ∷ closes 30 none false
    ∷ starts_repair 40
    ∷ []

machine : Unit {0}
unfolding create run after start_coding submit_patch start_validation append_validation
    record_validation extended_with start_repair choose finish
machine = tt

submit_patch-fresh_example :
    let (d, answer) = submit_patch (run (create 3 1 0 5) one_round) fix "second" [] in
    (answer ≡ ok tt) × (d.patch ≡ some fix) × (is_empty d.validation.results ≡ true)
    ⊎ (is_ok answer ≡ false) × (d ≡ run (create 3 1 0 5) one_round)
unfolding machine
submit_patch-fresh_example =
    submit_patch-fresh 3 1 0 5 one_round fix "second" [] (refl, (tt, (tt, (tt, (tt, (tt, tt))))))

abbrev finished : Candidate
finished = (choose (create 3 1 0 5) 50).0

-- The first round without the failure, for the candidate with the index given.
abbrev good : ℕ → Candidate
good i = run (create (10 + i) 1 i 5) (
    starts_coding 10 none
    ∷ submits fix "done" []
    ∷ starts_validation 20
    ∷ appends (ran ToolKind.test (pos 0) ∷ [])
    ∷ closes 30 none false
    ∷ [])

bench : Unit {0}
unfolding machine select_candidate rank pick report_is_viable all_passed all select sorted insert
    viable is_blank strip is_space is_empty_text
bench = tt

abbrev no_text : ℕ → String
no_text n = ""

good_wins : (select_candidate no_text (good 1 ∷ good 0 ∷ [])).winner ≡ some (good 0)
unfolding bench
good_wins = refl

select_candidate-best_example : (good 0 ≡ good 1) ⊎ (outranks (good 1) (good 0) ≡ false)
unfolding bench
select_candidate-best_example =
    (select_candidate-best no_text (good 1 ∷ good 0 ∷ []) (good 0) (good 1) good_wins (here refl)
      refl).2
