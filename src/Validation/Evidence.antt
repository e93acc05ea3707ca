-- ===== src/Validation/Evidence.antt =====
-- What a report of src/domain/value_objects/validation.py says of the results in it.
use agentic_gpu_platform.Shared.{
  Bool, Bool-cases, Has, Has-append_left, Has-select, List, [], all, arith, false, here, inl, inr,
  is_none, refl, select-Has, some, subst, sym, there, true, ◌↔◌, ◌∷◌, ◌≡◌, ◌⊎◌,
}
use agentic_gpu_platform.Enums.{FailureKind, is_code_defect}
use agentic_gpu_platform.Validation.{
  ToolKind, ToolResult, ValidationReport, all_passed, build_passed, extended_with, failure_kind,
  is_false, kind_is, of_kind, report_is_viable, static_analysis_passed, succeeded, tests_passed,
}

-- A result that speaks against a candidate: a failed build or test, or a failed analysis that blocks.
abbrev pub Disqualifies : Bool → ToolResult → Type 0
Disqualifies blocking r =
    (succeeded r ≡ false)
    × ((r.kind ≡ ToolKind.build)
        ⊎ (r.kind ≡ ToolKind.test)
        ⊎ (r.kind ≡ ToolKind.static_analysis) × (blocking ≡ true))

kind_is_iff : (a b : ToolKind) → (kind_is a b ≡ true) ↔ (a ≡ b)
kind_is_iff a b = ground arith

failed_one :
    (xs : List ToolResult)
    → all succeeded xs ≡ false
    → (r : ToolResult) × Has r xs × (succeeded r ≡ false)
unfolding all
failed_one [] h = absurd (ground arith)
failed_one (x ∷ xs) h = elim (Bool-cases (succeeded x)) [
  | inl e ↦ let (r, m, f) = failed_one xs (ground arith) in (r, there m, f)
  | inr e ↦ (x, here refl, e)
]

failed_any :
    (xs : List ToolResult) (r : ToolResult)
    → Has r xs
    → succeeded r ≡ false
    → all succeeded xs ≡ false
unfolding all
failed_any [] r m h = elim m [ ]
failed_any (x ∷ xs) r (here q) h = rw (subst (λ y. succeeded y ≡ false) (sym q) h) refl
failed_any (x ∷ xs) r (there m) h = ground (arith, failed_any xs r m h)

seen :
    (xs : List ToolResult)
    → is_false (all_passed xs) ≡ true
    → (r : ToolResult) × Has r xs × (succeeded r ≡ false)
unfolding all_passed
seen [] h = absurd (ground arith)
seen (x ∷ xs) h = failed_one (x ∷ xs) (ground arith)

shown :
    (xs : List ToolResult) (r : ToolResult)
    → Has r xs
    → succeeded r ≡ false
    → is_false (all_passed xs) ≡ true
unfolding all_passed
shown [] r m h = elim m [ ]
shown (x ∷ xs) r m h = rw (failed_any (x ∷ xs) r m h) refl

-- A stage failed exactly when one of its results did.
stage_failed :
    (k : ToolKind) (v : ValidationReport)
    → (is_false (all_passed (of_kind k v)) ≡ true)
      ↔ ((r : ToolResult) × Has r v.results × (r.kind ≡ k) × (succeeded r ≡ false))
stage_failed k v = (there_is, fails)
  where
    p : ToolResult → Bool
    p r = kind_is r.kind k

    there_is :
        is_false (all_passed (of_kind k v)) ≡ true
        → (r : ToolResult) × Has r v.results × (r.kind ≡ k) × (succeeded r ≡ false)
    there_is h =
        let (r, m, f) = seen (of_kind k v) h in
        let (n, e) = Has-select p v.results m in (r, n, (kind_is_iff r.kind k).0 e, f)

    fails :
        (r : ToolResult) × Has r v.results × (r.kind ≡ k) × (succeeded r ≡ false)
        → is_false (all_passed (of_kind k v)) ≡ true
    fails (r, m, e, f) =
        shown (of_kind k v) r (select-Has p v.results m ((kind_is_iff r.kind k).1 e)) f

-- A candidate is not viable exactly when a result in its report speaks against it: a failed build,
-- a failed test or, where the analysis blocks, a failed analysis.
pub report_is_viable_iff :
    (v : ValidationReport)
    → (report_is_viable v ≡ false)
      ↔ ((r : ToolResult) × Has r v.results × Disqualifies v.static_analysis_is_blocking r)
unfolding report_is_viable
report_is_viable_iff v = (found, refuted)
  where
    found :
        report_is_viable v ≡ false
        → (r : ToolResult) × Has r v.results × Disqualifies v.static_analysis_is_blocking r
    found h = elim (Bool-cases (is_false (build_passed v))) [
      | inl b ↦ let (r, m, e, f) = (stage_failed ToolKind.build v).0 b in (r, m, (f, inl e))
      | inr b ↦ elim (Bool-cases (is_false (tests_passed v))) [
        | inl t ↦ let (r, m, e, f) = (stage_failed ToolKind.test v).0 t in (r, m, (f, inr (inl e)))
        | inr t ↦
            let s : is_false (static_analysis_passed v) ≡ true = ground arith in
            let (r, m, e, f) = (stage_failed ToolKind.static_analysis v).0 s in
            (r, m, (f, inr (inr (e, ground arith))))
      ]
    ]

    refuted :
        (r : ToolResult) × Has r v.results × Disqualifies v.static_analysis_is_blocking r
        → report_is_viable v ≡ false
    refuted (r, m, (f, inl e)) = rw ((stage_failed ToolKind.build v).1 (r, m, e, f)) refl
    refuted (r, m, (f, inr (inl e))) =
        let t = (stage_failed ToolKind.test v).1 (r, m, e, f) in ground arith
    refuted (r, m, (f, inr (inr (e, b)))) =
        let s = (stage_failed ToolKind.static_analysis v).1 (r, m, e, f) in ground arith

-- The report names a kind of failure exactly when the candidate is not viable, and the kind is a
-- defect of the code, never a failure of the machinery.
pub failure_kind_iff :
    (v : ValidationReport)
    → (is_none (failure_kind v) ≡ report_is_viable v)
      × ((k : FailureKind) → failure_kind v ≡ some k → is_code_defect k ≡ true)
unfolding failure_kind report_is_viable
failure_kind_iff v = (ground arith, λ k h. ground arith)

-- More results never make a report that speaks against a candidate a good one.
pub report_is_viable-extended_with :
    (v : ValidationReport) (rs : List ToolResult)
    → report_is_viable v ≡ false
    → report_is_viable (extended_with v rs) ≡ false
unfolding extended_with
report_is_viable-extended_with v rs h =
    let (r, m, d) = (report_is_viable_iff v).0 h in
    (report_is_viable_iff (extended_with v rs)).1 (r, Has-append_left rs m, d)
