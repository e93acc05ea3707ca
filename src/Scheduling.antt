-- ===== src/Scheduling.antt =====
-- src/domain/services/scheduling.py: which worker gets a job. `utilization` is a quotient of counters,
-- compared by cross-multiplication, which agrees with the comparison of the floats as long as the
-- counters stay below 2^26.
mod Samples
pub mod LeastLoaded
pub mod RoundRobin
use agentic_gpu_platform.Shared.{
  Bool, List, Option, [], by, by_descending, get_elem?, if◌then◌else◌, is_empty, length, lex, ltb,
  none, select, some, sorted, ℕ, ◌%◌, ◌*◌, ◌+◌, ◌∷◌,
}
use agentic_gpu_platform.Requirements.{JobRequirements}
use agentic_gpu_platform.Worker.{Worker, available_slots, can_accept}

unfoldable pub eligible_workers : List Worker → JobRequirements → List Worker
eligible_workers workers r = select (λ w. can_accept w r) workers

-- The first key of the ranking: one utilization is below another.
abbrev pub less_utilized : Worker → Worker → Bool
less_utilized v w =
    ltb (v.load.active_jobs * w.capabilities.max_concurrency)
      (w.load.active_jobs * v.capabilities.max_concurrency)

-- The tuple `(utilization, -available_slots, -context_length, str(id))`.
abbrev pub better : Worker → Worker → Bool
better = lex less_utilized (
    lex (by_descending available_slots)
      (lex (by_descending λ w. w.capabilities.context_length) (by λ w. w.id)))

unfoldable pub rank : List Worker → JobRequirements → List Worker
unfolding eligible_workers
rank candidates r = sorted better (eligible_workers candidates r)

abbrev pub head_of {ℓ} : {A : Type ℓ} → List A → Option A
head_of [] = none
head_of (x ∷ xs) = some x

-- `LeastLoadedCompatibleScheduler.select`
unfoldable pub select_least_loaded : List Worker → JobRequirements → Option Worker
unfolding rank
select_least_loaded candidates r = head_of (rank candidates r)

-- `RoundRobinScheduler.rank`
unfoldable pub rank_by_id : List Worker → JobRequirements → List Worker
unfolding eligible_workers
rank_by_id candidates r = sorted (by λ w. w.id) (eligible_workers candidates r)

-- `RoundRobinScheduler.select` on a ranked list: the choice, and the cursor for the next call.
unfoldable pub choose : (cursor : ℕ) → List Worker → Option Worker × ℕ
choose cursor ranked =
    if is_empty ranked
    then (none, cursor)
    else (get_elem? ranked (cursor % length ranked), (cursor + 1) % length ranked)

unfoldable pub select_round_robin : (cursor : ℕ) → List Worker → JobRequirements → Option Worker × ℕ
unfolding choose rank_by_id
select_round_robin cursor candidates r = choose cursor (rank_by_id candidates r)
