-- ===== src/Plan/Cycle.antt =====
-- A plan (src/domain/entities/plan.py) is refused for a cycle exactly where there is one, and a plan
-- that is accepted never deadlocks.
use agentic_gpu_platform.Shared.{
  Bool-cases, Has, Has-append_left, Has-append_right, Has-cons, Has-split, List, String, [], ap,
  arith, false, here, inl, inr, is_empty, length, refl, select, select-Has, str_eq, str_eq_iff,
  subst, suc, sym, there, zero, ℕ, ◌↔◌, ◌∙◌, ◌∷◌, ◌≡◌, ◌≤◌, ◌⊎◌,
}
use agentic_gpu_platform.Errors.{DomainError, Result, is_ok, ok, raise, ◌>>=◌}
use agentic_gpu_platform.Plan.{
  PlanTask, by_key, execution_layers, is_ready, layers_from, put_task, remove_all, satisfy_all,
}
use agentic_gpu_platform.Plan.Layers.{
  Has-remove_all, Has-satisfy_all, fewer, goes_on, remove_all-Has, satisfy_all-Has,
  satisfy_all-keeps, unready-Has,
}
use agentic_gpu_platform.Plan.Order.{AreOrdered, flatten, layers_from-AreLayers, no_member}

-- Tasks of the plan each of which waits for another of them.
pub record IsKnot (tasks : List PlanTask) (knot : List PlanTask) : Type 0 where
  pub inhabited : is_empty knot ≡ false
  pub inside : (t : PlanTask) → Has t knot → Has t tasks
  pub waits : (t : PlanTask) → Has t knot → (u : PlanTask) × Has u knot × Has u.key t.depends_on

-- Tasks with the same key are the same.
abbrev pub AreDistinct : List PlanTask → Type 0
AreDistinct tasks = (t u : PlanTask) → Has t tasks → Has u tasks → t.key ≡ u.key → t ≡ u

-- Every dependency is the key of a task.
abbrev pub AreKnown : List PlanTask → Type 0
AreKnown tasks =
    (t : PlanTask) (d : String)
    → Has t tasks
    → Has d t.depends_on
    → (u : PlanTask) × Has u tasks × (u.key ≡ d)

-- The state in which the loop gives up.
record IsStuck (remaining : List PlanTask) (satisfied : List String) (left : List PlanTask)
    : Type 0 where
  done : List String
  tasks_left : is_empty left ≡ false
  still : (t : PlanTask) → Has t left → Has t remaining
  covers : (t : PlanTask) → Has t remaining → Has t left ⊎ Has t.key done
  keeps : (k : String) → Has k satisfied → Has k done
  blocked : (t : PlanTask) → Has t left → (d : String) × Has d t.depends_on × ¬ Has d done

layers_from-IsStuck :
    (n : ℕ) (remaining : List PlanTask) (satisfied : List String) {e : DomainError}
    → length remaining ≤ n
    → layers_from n remaining satisfied ≡ raise e
    → (left : List PlanTask) × IsStuck remaining satisfied left
layers_from-IsStuck zero remaining satisfied h e = absurd (unfold layers_from in ground arith)
layers_from-IsStuck (suc n) [] satisfied h e = absurd (unfold layers_from in ground arith)
layers_from-IsStuck (suc n) (x ∷ xs) satisfied h e =
    let remaining = x ∷ xs in
    let ready = select (is_ready satisfied) remaining in
    elim (Bool-cases (is_empty ready)) [
      | inl b ↦ (
        remaining,
        record {
          done = satisfied;
          tasks_left = refl;
          still = λ t m. m;
          covers = λ t m. inl m;
          keeps = λ k m. m;
          blocked = λ t m. elim (Bool-cases (is_ready satisfied t)) [
            | inl r ↦ absurd (no_member ready b t (select-Has (is_ready satisfied) remaining m r))
            | inr r ↦ unready-Has satisfied t.depends_on r
          ];
        },
      )
      | inr b ↦
          let (left, s) =
            layers_from-IsStuck n (remove_all ready remaining) (satisfy_all ready satisfied)
              (fewer n remaining satisfied h b)
              (>>=-raise _ _ (sym (goes_on n remaining satisfied refl b) ∙ e)) in
          (
            left,
            record {
              done = s.done;
              tasks_left = s.tasks_left;
              still = λ t m. Has-remove_all ready remaining (s.still t m);
              covers = λ t m. elim (remove_all-Has ready remaining m) [
                | inl k ↦ s.covers t k
                | inr (r, k, q) ↦ inr (
                    subst (λ y. Has y s.done) q (s.keeps r.key (satisfy_all-Has ready satisfied k)))
              ];
              keeps = λ k m. s.keeps k (satisfy_all-keeps ready satisfied m);
              blocked = s.blocked;
            },
          )
    ]
  where
    >>=-raise :
        (m : Result (List (List PlanTask))) (layer : List PlanTask) {f : DomainError}
        → (m >>= λ layers. ok (layer ∷ layers)) ≡ raise f
        → m ≡ raise f
    >>=-raise (ok a) layer q = absurd (ground arith)
    >>=-raise (raise g) layer q = cc

-- The dictionary of the tasks.
Has-put_task :
    (t : PlanTask) (us : List PlanTask) {v : PlanTask} → Has v (put_task t us) → (t ≡ v) ⊎ Has v us
unfolding put_task
Has-put_task t [] m = Has-cons [] m
Has-put_task t (u ∷ us) m = elim (Bool-cases (str_eq u.key t.key)) [
  | inl e ↦ elim (Has-cons us (rw e at m)) [ inl q ↦ inl q | inr k ↦ inr (there k) ]
  | inr e ↦ elim (Has-cons (put_task t us) (rw e at m)) [
    | inl q ↦ inr (here q)
    | inr k ↦ elim (Has-put_task t us k) [ inl q ↦ inl q | inr o ↦ inr (there o) ]
  ]
]

put_task-Has : (t : PlanTask) (us : List PlanTask) → Has t (put_task t us)
unfolding put_task
put_task-Has t [] = here refl
put_task-Has t (u ∷ us) = elim (Bool-cases (str_eq u.key t.key)) [
  | inl e ↦ rw e (here refl)
  | inr e ↦ rw e (there (put_task-Has t us))
]

put_task-keeps :
    (t : PlanTask) (us : List PlanTask) {v : PlanTask}
    → Has v us
    → Has v (put_task t us) ⊎ (v.key ≡ t.key)
unfolding put_task
put_task-keeps t [] m = elim m [ ]
put_task-keeps t (u ∷ us) {v} m = elim (Bool-cases (str_eq u.key t.key)) [
  | inl e ↦ elim (Has-cons us m) [
    | inl q ↦ inr (sym (ap (λ (x : PlanTask). x.key) q) ∙ (str_eq_iff u.key t.key).0 e)
    | inr k ↦ inl (rw e (there k))
  ]
  | inr e ↦ elim (Has-cons us m) [
    | inl q ↦ inl (rw e (here q))
    | inr k ↦ elim (put_task-keeps t us k) [ inl o ↦ inl (rw e (there o)) | inr q ↦ inr q ]
  ]
]

Has-by_key :
    (ts found : List PlanTask) {v : PlanTask} → Has v (by_key ts found) → Has v ts ⊎ Has v found
unfolding by_key
Has-by_key [] found m = inr m
Has-by_key (t ∷ ts) found m = elim (Has-by_key ts (put_task t found) m) [
  | inl k ↦ inl (there k)
  | inr k ↦ elim (Has-put_task t found k) [ inl q ↦ inl (here q) | inr o ↦ inr o ]
]

by_key-Has :
    (ts found : List PlanTask) (v : PlanTask)
    → Has v ts ⊎ Has v found
    → (u : PlanTask) × Has u (by_key ts found) × (u.key ≡ v.key)
unfolding by_key
by_key-Has [] found v (inl m) = elim m [ ]
by_key-Has [] found v (inr m) = (v, m, refl)
by_key-Has (t ∷ ts) found v (inl (here q)) =
    let (u, m, e) = by_key-Has ts (put_task t found) t (inr (put_task-Has t found)) in
    (u, m, e ∙ ap (λ (x : PlanTask). x.key) q)
by_key-Has (t ∷ ts) found v (inl (there m)) = by_key-Has ts (put_task t found) v (inl m)
by_key-Has (t ∷ ts) found v (inr m) = elim (put_task-keeps t found m) [
  | inl k ↦ by_key-Has ts (put_task t found) v (inr k)
  | inr q ↦
      let (u, k, e) = by_key-Has ts (put_task t found) t (inr (put_task-Has t found)) in
      (u, k, e ∙ sym q)
]

-- With distinct keys the dictionary holds exactly the tasks.
pub by_key_iff :
    (tasks : List PlanTask) (t : PlanTask)
    → AreDistinct tasks
    → Has t (by_key tasks []) ↔ Has t tasks
by_key_iff tasks t d = (back, forth)
  where
    back : {u : PlanTask} → Has u (by_key tasks []) → Has u tasks
    back m = elim (Has-by_key tasks [] m) [ inl k ↦ k | inr k ↦ elim k [ ] ]

    forth : Has t tasks → Has t (by_key tasks [])
    forth m =
        let (u, k, e) = by_key-Has tasks [] t (inl m) in
        subst (λ y. Has y (by_key tasks [])) (d u t (back k) m e) k

-- What `execution_layers` gives for distinct keys: every task in one layer, after those it needs.
pub execution_layers-AreLayers :
    (tasks : List PlanTask) (layers : List (List PlanTask))
    → execution_layers tasks ≡ ok layers
    → AreDistinct tasks
    → AreOrdered [] layers × ((t : PlanTask) → Has t (flatten layers) ↔ Has t tasks)
unfolding execution_layers
execution_layers-AreLayers tasks layers e d =
    let remaining = by_key tasks [] in
    let l =
      layers_from-AreLayers (length remaining) remaining [] layers (omega arith)
        (λ t m s. elim s [ ]) e in
    (
      l.ordered,
      λ t. (
        λ m. (by_key_iff tasks t d).0 (l.sound t m),
        λ m.
            let (u, k, q) = l.complete t ((by_key_iff tasks t d).1 m) in
            subst (λ y. Has y (flatten layers)) (d u t ((by_key_iff tasks u d).0 (l.sound u k)) m q)
              k,
      ),
    )

-- No task of a knot ever enters a layer.
never_enters :
    (tasks knot : List PlanTask) (layers : List (List PlanTask)) (earlier : List String)
    → AreDistinct tasks
    → IsKnot tasks knot
    → AreOrdered earlier layers
    → ((t : PlanTask) → Has t (flatten layers) → Has t tasks)
    → ((t : PlanTask) → Has t knot → ¬ Has t.key earlier)
    → (t : PlanTask) → Has t knot
    → ¬ Has t (flatten layers)
never_enters tasks knot [] earlier d k o sound out t m h = elim h [ ]
never_enters tasks knot (layer ∷ layers) earlier d k o sound out t m h = elim (Has-split layer h) [
  | inl r ↦ absent t m r
  | inr r ↦
      never_enters tasks knot layers (satisfy_all layer earlier) d k o.2
        (λ u n. sound u (Has-append_right layer n)) later t m r
]
  where
    absent : (u : PlanTask) → Has u knot → ¬ Has u layer
    absent u n r = let (v, w, q) = k.waits u n in out v w ((o.1 u r).1 v.key q)

    later : (u : PlanTask) → Has u knot → ¬ Has u.key (satisfy_all layer earlier)
    later u n r = elim (Has-satisfy_all layer earlier r) [
      | inl s ↦ out u n s
      | inr (v, s, q) ↦ absent u n (
          subst (λ y. Has y layer)
            (d v u (sound v (Has-append_left (flatten layers) s)) (k.inside u n) q) s)
    ]

-- Where keys are distinct and dependencies known, the layers are refused exactly where some tasks wait
-- for one another; otherwise they are found.
pub execution_layers-IsKnot :
    (tasks : List PlanTask)
    → AreDistinct tasks
    → AreKnown tasks
    → (is_ok (execution_layers tasks) ≡ false) ↔ ((knot : List PlanTask) × IsKnot tasks knot)
execution_layers-IsKnot tasks d known = (refused, refuses)
  where
    knotted : (left : List PlanTask) → IsStuck (by_key tasks []) [] left → IsKnot tasks left
    knotted left s = record {
      inhabited = s.tasks_left;
      inside = λ t m. (by_key_iff tasks t d).0 (s.still t m);
      waits = λ t m.
          let (k, n, blocked) = s.blocked t m in
          let (u, h, e) = known t k ((by_key_iff tasks t d).0 (s.still t m)) n in
          elim (s.covers u ((by_key_iff tasks u d).1 h)) [
            | inl left_too ↦ (u, left_too, subst (λ y. Has y t.depends_on) (sym e) n)
            | inr over ↦ absurd (blocked (subst (λ y. Has y s.done) e over))
          ];
    }

    refused : is_ok (execution_layers tasks) ≡ false → (knot : List PlanTask) × IsKnot tasks knot
    refused h =
        let (e, r) = raised (execution_layers tasks) h in
        let (left, s) =
          layers_from-IsStuck (length (by_key tasks [])) (by_key tasks []) [] {e = e} (omega arith)
            (unfold execution_layers in r) in
        (left, knotted left s)
      where
        raised :
            (m : Result (List (List PlanTask)))
            → is_ok m ≡ false
            → (e : DomainError) × (m ≡ raise e)
        raised (ok a) q = absurd (ground arith)
        raised (raise e) q = (e, refl)

    refuses : (knot : List PlanTask) × IsKnot tasks knot → is_ok (execution_layers tasks) ≡ false
    refuses (knot, k) = elim (Result-cases (execution_layers tasks)) [
      | inl (layers, e) ↦ absurd (inside_it knot k layers e)
      | inr (f, e) ↦ rw e refl
    ]
      where
        Result-cases :
            (m : Result (List (List PlanTask)))
            → ((a : List (List PlanTask)) × (m ≡ ok a)) ⊎ ((e : DomainError) × (m ≡ raise e))
        Result-cases (ok a) = inl (a, refl)
        Result-cases (raise e) = inr (e, refl)

        one_of : (ks : List PlanTask) → is_empty ks ≡ false → (t : PlanTask) × Has t ks
        one_of [] q = absurd (ground arith)
        one_of (x ∷ xs) q = (x, here refl)

        inside_it :
            (ks : List PlanTask)
            → IsKnot tasks ks
            → (layers : List (List PlanTask)) → execution_layers tasks ≡ ok layers
            → ⊥
        inside_it ks kn layers e =
            let (o, all_there) = execution_layers-AreLayers tasks layers e d in
            let (t, m) = one_of ks kn.inhabited in
            never_enters tasks ks layers [] d kn o (λ u n. (all_there u).0 n) (λ u n s. elim s [ ])
              t m ((all_there t).1 (kn.inside t m))
