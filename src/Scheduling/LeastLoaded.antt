-- ===== src/Scheduling/LeastLoaded.antt =====
-- The default policy of src/domain/services/scheduling.py picks an eligible worker than which no
-- eligible worker is better.
use native.Mathlib.Nat.{mul-le-mul_right, le_of_mul-le-mul_right}
use agentic_gpu_platform.Shared.{
  All, Bool, Bool-cases, Has, Has-select, Has-sorted, IsOrder, List, [], arith, by-IsOrder,
  by_descending-IsOrder, false, here, inl, inr, lex-IsOrder, none, refl, select, select-Has, some,
  sorted, sorted-Has, sorted-head_least, subst, sym, true, ℕ, ◌*◌, ◌<◌, ◌↔◌, ◌∷◌, ◌≡◌, ◌≤◌, ◌⊎◌,
}
use agentic_gpu_platform.Requirements.{JobRequirements}
use agentic_gpu_platform.Worker.{Worker, available_slots, can_accept}
use agentic_gpu_platform.Scheduling.{better, head_of, less_utilized, rank, select_least_loaded}

-- What `WorkerCapabilities.__post_init__` guarantees of a worker's ceiling.
abbrev pub HasCeiling : Worker → Type 0
HasCeiling w = 0 < w.capabilities.max_concurrency

-- a/A ≤ b/B and b/B ≤ c/C give a/A ≤ c/C.
ratio_trans : (a A b B c C : ℕ) → 0 < B → a * B ≤ b * A → b * C ≤ c * B → a * C ≤ c * A
ratio_trans a A b B c C p h k =
    let first : a * B * C ≤ b * A * C = mul-le-mul_right C h in
    let second : b * C * A ≤ c * B * A = mul-le-mul_right A k in
    le_of_mul-le-mul_right {k = B} (omega (arith, first, second)) p

less_utilized-IsOrder : IsOrder less_utilized HasCeiling
less_utilized-IsOrder = record {
  asym = λ v w h. ground arith;
  cotrans = λ u v w pu pv pw h k. ground (
    arith,
    ratio_trans u.load.active_jobs u.capabilities.max_concurrency v.load.active_jobs
        v.capabilities.max_concurrency w.load.active_jobs w.capabilities.max_concurrency pv,
  );
}

better-IsOrder : IsOrder better HasCeiling
better-IsOrder = lex-IsOrder HasCeiling less_utilized _ less_utilized-IsOrder (
    lex-IsOrder HasCeiling _ _ (by_descending-IsOrder HasCeiling available_slots) (
      lex-IsOrder HasCeiling _ _
        (by_descending-IsOrder HasCeiling (λ w. w.capabilities.context_length))
        (by-IsOrder HasCeiling (λ w. w.id))))

All-select {ℓ κ} :
    {A : Type ℓ} (P : A → Type κ) (p : A → Bool) (xs : List A) → All P xs → All P (select p xs)
unfolding select
All-select P p [] h = tt
All-select P p (x ∷ xs) h = elim (Bool-cases (p x)) [
  | inl e ↦ rw e (h.0, All-select P p xs h.1)
  | inr e ↦ rw e (All-select P p xs h.1)
]

head_of-cons {ℓ} :
    {A : Type ℓ} (xs : List A) {x : A} → head_of xs ≡ some x → (rest : List A) × (xs ≡ x ∷ rest)
head_of-cons [] h = absurd (ground arith)
head_of-cons (y ∷ ys) h = (ys, ground arith)

-- The worker that is chosen is one of the candidates and may take the job, and no candidate that may
-- take the job is better by utilization, then free slots, then context length, then id. The ceiling
-- of each candidate is positive.
pub select_least_loaded-best :
    (candidates : List Worker) (r : JobRequirements) (w v : Worker)
    → All HasCeiling candidates
    → select_least_loaded candidates r ≡ some w
    → Has v candidates
    → can_accept v r ≡ true
    → Has w candidates × (can_accept w r ≡ true) × ((w ≡ v) ⊎ (better v w ≡ false))
unfolding select_least_loaded rank
select_least_loaded-best candidates r w v c e m a =
    let p = λ (u : Worker). can_accept u r in
    let (rest, split) = head_of-cons (rank candidates r) e in
    let found =
      Has-select p candidates
        (Has-sorted better (select p candidates) (subst (Has w) (sym split) (here refl))) in
    (
      found.0,
      found.1,
      sorted-head_least better HasCeiling better-IsOrder (select p candidates) rest
          (All-select HasCeiling p candidates c) split (select-Has p candidates m a),
    )

-- No worker is chosen exactly when no candidate may take the job.
pub select_least_loaded-none :
    (candidates : List Worker) (r : JobRequirements)
    → (select_least_loaded candidates r ≡ none)
      ↔ ((v : Worker) → Has v candidates → can_accept v r ≡ false)
unfolding select_least_loaded rank
select_least_loaded-none candidates r = (nobody, nothing)
  where
    p : Worker → Bool
    p u = can_accept u r

    nobody :
        head_of (rank candidates r) ≡ none
        → (v : Worker) → Has v candidates
        → can_accept v r ≡ false
    nobody e v m = elim (Bool-cases (can_accept v r)) [
      | inl a ↦ absurd (
          empty (sorted better (select p candidates)) e
            (sorted-Has better (select p candidates) (select-Has p candidates m a)))
      | inr a ↦ a
    ]
      where
        empty : (xs : List Worker) → head_of xs ≡ none → Has v xs → ⊥
        empty [] h k = elim k [ ]
        empty (x ∷ xs) h k = cc

    nothing :
        ((v : Worker) → Has v candidates → can_accept v r ≡ false)
        → head_of (rank candidates r) ≡ none
    nothing refuses = none_of (sorted better (select p candidates)) λ v k.
        let f = Has-select p candidates (Has-sorted better (select p candidates) k) in
        cc (refuses v f.0, f.1)
      where
        none_of : (xs : List Worker) → ((v : Worker) → Has v xs → ⊥) → head_of xs ≡ none
        none_of [] n = refl
        none_of (x ∷ xs) n = absurd (n x (here refl))
