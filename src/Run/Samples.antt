-- ===== src/Run/Samples.antt =====
-- A run to try the code on, and the theorems about runs at concrete inputs.
use agentic_gpu_platform.Shared.{List, [], is_blank, none, refl, some, strip, true, ◌∷◌, ◌≡◌, ◌≤◌}
use agentic_gpu_platform.Enums.{RunStatus}
use agentic_gpu_platform.Errors.{ok}
use agentic_gpu_platform.RunMachine.{can, ensure}
use agentic_gpu_platform.Run.{
  Run, RunSpec, complete, create, fresh, plan_ready, request_cancellation, request_repair,
  start_coding, start_planning, start_reviewing, start_validating, transition,
}
use agentic_gpu_platform.Run.History.{
  Call, after, completes, plan_arrives, requests_repair, run, starts_coding, starts_planning,
  starts_reviewing, starts_validating,
}
use agentic_gpu_platform.Run.Lifecycle.{replay, replay-run}
use agentic_gpu_platform.Run.Termination.{moves, moves_bounded}
use agentic_gpu_platform.Run.Stopping.{is_stopping, request_cancellation-stops}

abbrev parser_spec : RunSpec
parser_spec = record {
  run_id = 1;
  project_id = 2;
  objective = " add a parser ";
  candidate_count = 2;
  limits = none;
  idempotency_key = none;
  metadata = none;
}

parser_run : Run
unfolding fresh
parser_run = fresh parser_spec 50

parser_created : create parser_spec 50 ≡ ok parser_run
unfolding create parser_run is_blank
parser_created = refl

objective_stripped : parser_run.objective ≡ "add a parser"
unfolding parser_run strip
objective_stripped = refl

abbrev with_repair : List Call
with_repair =
    starts_planning 60
    ∷ plan_arrives 9 3 70
    ∷ starts_coding 80
    ∷ starts_validating 90
    ∷ starts_reviewing 4 100
    ∷ requests_repair 4 "the reviewer rejected every candidate" 110
    ∷ starts_coding 120
    ∷ starts_reviewing 4 130
    ∷ completes 140 (some 4)
    ∷ []

machine : Unit {0}
unfolding run after start_planning plan_ready start_coding start_validating start_reviewing
    request_repair complete request_cancellation transition ensure can parser_run
machine = tt

with_repair_completes : (run parser_run with_repair).status ≡ RunStatus.completed
unfolding machine
with_repair_completes = refl

replay-run_example :
    replay RunStatus.created (run parser_run with_repair).events
    ≡ some (run parser_run with_repair).status
replay-run_example = replay-run parser_spec 50 parser_run with_repair parser_created

moves_bounded_example : moves (run parser_run with_repair).events ≤ 31
unfolding parser_run
moves_bounded_example =
    moves_bounded parser_spec 50 parser_run with_repair parser_created
      (refl, (tt, (tt, (tt, (tt, (tt, (tt, (tt, (tt, tt)))))))))

request_cancellation-stops_example :
    is_stopping (run (request_cancellation parser_run 60 none).0 with_repair).status ≡ true
unfolding machine
request_cancellation-stops_example =
    (request_cancellation-stops parser_run 60 70 none none with_repair refl (λ e. cc)).1
