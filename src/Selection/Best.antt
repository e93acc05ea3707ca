-- ===== src/Selection/Best.antt =====
-- The candidate that src/domain/services/candidate_selection.py picks is the best on the evidence.
use agentic_gpu_platform.Shared.{
  All, Bool-cases, Has, Has-select, Has-sorted, IsOrder, List, String, [], arith, by-IsOrder,
  by_descending-IsOrder, false, here, inl, inr, lex-IsOrder, refl, select, select-Has, some,
  sorted-Has, sorted-head_least, subst, sym, there, true, ℕ, ◌∷◌, ◌≡◌, ◌⊎◌,
}
use agentic_gpu_platform.Candidate.{Candidate, has_patch, is_viable}
use agentic_gpu_platform.Validation.{build_passed, is_truthy, tests_passed}
use agentic_gpu_platform.Selection.{
  as_number, churn_of_patch, is_usable, outranks, passed_review, pick, rank, select_candidate,
  viable,
}

-- Ranking asks nothing of the candidates.
Any : Candidate → Type 0
Any c = Unit

everything : (cs : List Candidate) → All Any cs
unfolding Any
everything [] = tt
everything (c ∷ cs) = (tt, everything cs)

outranks-IsOrder : IsOrder outranks Any
outranks-IsOrder =
    lex-IsOrder Any _ _ (by_descending-IsOrder Any λ c. as_number (passed_review c)) (
      lex-IsOrder Any _ _
        (by_descending-IsOrder Any λ c. as_number (is_truthy (tests_passed c.validation)))
        (lex-IsOrder Any _ _
          (by_descending-IsOrder Any λ c. as_number (is_truthy (build_passed c.validation)))
          (lex-IsOrder Any _ _ (by_descending-IsOrder Any λ c. as_number (has_patch c))
            (lex-IsOrder Any _ _ (by-IsOrder Any churn_of_patch) (by-IsOrder Any λ c. c.index)))))

picked :
    (str_of : ℕ → String) (cs : List Candidate) {w : Candidate}
    → (pick str_of cs).winner ≡ some w
    → (rest : List Candidate) × (cs ≡ w ∷ rest)
      × (is_viable w ≡ true)
      × ((pick str_of cs).rejected ≡ rest)
unfolding pick
picked str_of [] h = absurd (ground arith)
picked str_of (c ∷ cs) {w} h = elim (Bool-cases (is_viable c)) [
  | inl e ↦ (cs, ground arith, ground arith, ground arith)
  | inr e ↦ absurd (ground arith)
]

-- A winner is one of the candidates, is viable, and no usable candidate outranks it: by a review that
-- passed, then tests that passed, then a build that passed, then a patch, then less churn, then a
-- lower index.
pub select_candidate-best :
    (str_of : ℕ → String) (cs : List Candidate) (w v : Candidate)
    → (select_candidate str_of cs).winner ≡ some w
    → Has v cs
    → is_usable v ≡ true
    → Has w cs × (is_viable w ≡ true) × ((w ≡ v) ⊎ (outranks v w ≡ false))
unfolding select_candidate rank
select_candidate-best str_of cs w v e m u =
    let (rest, split, good, _) = picked str_of (rank cs) e in
    let found =
      Has-select is_usable cs
        (Has-sorted outranks (select is_usable cs) (subst (Has w) (sym split) (here refl))) in
    (
      found.0,
      good,
      sorted-head_least outranks Any outranks-IsOrder (select is_usable cs) rest
          (everything (select is_usable cs)) split (select-Has is_usable cs m u),
    )

pub select_candidate-Has :
    (str_of : ℕ → String) (cs : List Candidate) (w : Candidate)
    → (select_candidate str_of cs).winner ≡ some w
    → Has w cs
unfolding select_candidate rank
select_candidate-Has str_of cs w e =
    let (rest, split, _, _) = picked str_of (rank cs) e in
    (Has-select is_usable cs
      (Has-sorted outranks (select is_usable cs) (subst (Has w) (sym split) (here refl)))).0

first_wins :
    (str_of : ℕ → String) (cs : List Candidate) {v : Candidate}
    → Has v cs
    → All (λ c. is_viable c ≡ true) cs
    → (w : Candidate) × ((pick str_of cs).winner ≡ some w)
unfolding pick
first_wins str_of [] m a = elim m [ ]
first_wins str_of (c ∷ cs) m a = (c, ground arith)

-- Asked about viable candidates only, as the orchestrator asks, the policy always has a winner as
-- soon as there is a candidate.
pub select_candidate-total :
    (str_of : ℕ → String) (cs : List Candidate) (v : Candidate)
    → Has v cs
    → is_viable v ≡ true
    → (w : Candidate) × ((select_candidate str_of (viable cs)).winner ≡ some w) × Has w cs
unfolding select_candidate rank viable
select_candidate-total str_of cs v m e =
    let vs = select is_viable cs in
    let (w, won) =
      first_wins str_of (rank vs)
        (sorted-Has outranks (select is_usable vs)
          (select-Has is_usable vs (select-Has is_viable cs m e) (ground arith)))
        (All-of (rank vs) λ c k.
          (Has-select is_viable cs
            (Has-select is_usable vs (Has-sorted outranks (select is_usable vs) k)).0).1) in
    let (rest, split, _, _) = picked str_of (rank vs) won in
    (
      w,
      won,
      (Has-select is_viable cs
          (Has-select is_usable vs (
            Has-sorted outranks (select is_usable vs)
              (subst (Has w) (sym split) (here refl)))).0).0,
    )
  where
    All-of :
        (xs : List Candidate)
        → ((c : Candidate) → Has c xs → is_viable c ≡ true)
        → All (λ c. is_viable c ≡ true) xs
    All-of [] h = tt
    All-of (x ∷ xs) h = (h x (here refl), All-of xs λ c k. h c (there k))
