-- ===== src/Plan/Accepted.antt =====
-- What a plan that passes its checks (src/domain/entities/plan.py) is good for.
use agentic_gpu_platform.Shared.{
  Bool, Has, Has-cons, List, String, [], any, ap, arith, false, here, inl, inr, not, refl, subst,
  sym, there, true, ◌↔◌, ◌∙◌, ◌∷◌, ◌≡◌,
}
use agentic_gpu_platform.Errors.{Result, is_ok, ok, raise}
use agentic_gpu_platform.Plan.{
  Plan, PlanTask, check_plan, execution_layers, has_duplicates, is_among, is_dangling, keys_of,
  validate_graph,
}
use agentic_gpu_platform.Plan.Layers.{is_among_iff}
use agentic_gpu_platform.Plan.Order.{AreOrdered, flatten}
use agentic_gpu_platform.Plan.Cycle.{AreDistinct, AreKnown, execution_layers-AreLayers}

keys_of-Has : (tasks : List PlanTask) {t : PlanTask} → Has t tasks → Has t.key (keys_of tasks)
unfolding keys_of
keys_of-Has [] m = elim m [ ]
keys_of-Has (x ∷ xs) (here q) = here (ap (λ (t : PlanTask). t.key) q)
keys_of-Has (x ∷ xs) (there m) = there (keys_of-Has xs m)

Has-keys_of :
    (tasks : List PlanTask) {k : String}
    → Has k (keys_of tasks)
    → (t : PlanTask) × Has t tasks × (t.key ≡ k)
unfolding keys_of
Has-keys_of [] m = elim m [ ]
Has-keys_of (x ∷ xs) (here q) = (x, here refl, q)
Has-keys_of (x ∷ xs) (there m) = let (t, n, e) = Has-keys_of xs m in (t, there n, e)

-- The test for duplicates finds them.
pub has_duplicates-AreDistinct :
    (tasks : List PlanTask) → has_duplicates (keys_of tasks) ≡ false → AreDistinct tasks
has_duplicates-AreDistinct [] h t u m n e = elim m [ ]
has_duplicates-AreDistinct (x ∷ xs) h t u m n e = elim (Has-cons xs m) [
  | inl p ↦ elim (Has-cons xs n) [
    | inl q ↦ sym p ∙ q
    | inr q ↦ absurd (alone u q (ap (λ (v : PlanTask). v.key) p ∙ e))
  ]
  | inr p ↦ elim (Has-cons xs n) [
    | inl q ↦ absurd (alone t p (ap (λ (v : PlanTask). v.key) q ∙ sym e))
    | inr q ↦ has_duplicates-AreDistinct xs (tail_free h) t u p q e
  ]
]
  where
    tail_free : has_duplicates (keys_of (x ∷ xs)) ≡ false → has_duplicates (keys_of xs) ≡ false
    tail_free q = unfold has_duplicates keys_of in ground arith

    alone : (v : PlanTask) → Has v xs → x.key ≡ v.key → ⊥
    alone v k q =
        let found : is_among (keys_of xs) x.key ≡ true =
          (is_among_iff (keys_of xs) x.key).1
            (subst (λ y. Has y (keys_of xs)) (sym q) (keys_of-Has xs k)) in
        unfold has_duplicates keys_of in ground arith

any-Has {ℓ} :
    {A : Type ℓ} (p : A → Bool) (xs : List A) {a : A} → any p xs ≡ false → Has a xs → p a ≡ false
unfolding any
any-Has p [] h m = elim m [ ]
any-Has p (x ∷ xs) h (here q) = subst (λ y. p y ≡ false) q (ground arith)
any-Has p (x ∷ xs) h (there m) = any-Has p xs (ground arith) m

-- The test for dangling dependencies finds them.
pub is_dangling-AreKnown :
    (tasks : List PlanTask) → any (is_dangling (keys_of tasks)) tasks ≡ false → AreKnown tasks
is_dangling-AreKnown tasks h t d m n =
    let fine : is_dangling (keys_of tasks) t ≡ false =
      any-Has (is_dangling (keys_of tasks)) tasks h m in
    let known : not (is_among (keys_of tasks) d) ≡ false =
      any-Has (λ k. not (is_among (keys_of tasks) k)) t.depends_on fine n in
    Has-keys_of tasks ((is_among_iff (keys_of tasks) d).0 (ground arith))

-- A plan that is accepted has layers: every task stands in exactly one, behind all that it depends on,
-- and no layer is empty. So the orchestrator is never left with tasks that wait for one another.
pub check_plan-AreOrdered :
    (p q : Plan)
    → check_plan p ≡ ok q
    → (q ≡ p)
      × ((layers : List (List PlanTask)) × (execution_layers p.tasks ≡ ok layers)
          × AreOrdered [] layers
          × ((t : PlanTask) → Has t (flatten layers) ↔ Has t p.tasks))
unfolding check_plan validate_graph
check_plan-AreOrdered p q h =
    let (layers, e) = layered (execution_layers p.tasks) (ground arith) in
    let (ordered, everything) =
      execution_layers-AreLayers p.tasks layers e
        (has_duplicates-AreDistinct p.tasks (ground arith)) in
    (ground arith, (layers, e, ordered, everything))
  where
    layered :
        (m : Result (List (List PlanTask)))
        → is_ok m ≡ true
        → (layers : List (List PlanTask)) × (m ≡ ok layers)
    layered (ok a) k = (a, refl)
    layered (raise e) k = absurd (ground arith)
