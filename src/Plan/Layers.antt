-- ===== src/Plan/Layers.antt =====
-- One round of the loop of `Plan.execution_layers` (src/domain/entities/plan.py).
use agentic_gpu_platform.Shared.{
  Bool, Bool-cases, Has, Has-cons, Has-select, List, String, [], all, any, ap, arith, false, here,
  inl, inr, is_empty, length, length-select-le, not, refl, select, select-Has, str_eq, str_eq_iff,
  subst, suc, sym, there, true, ℕ, ◌<◌, ◌↔◌, ◌∙◌, ◌∷◌, ◌≡◌, ◌≤◌, ◌⊎◌,
}
use agentic_gpu_platform.Errors.{ok, ◌>>=◌}
use agentic_gpu_platform.Plan.{
  PlanTask, cycle_found, is_among, is_ready, layers_from, remove, remove_all, satisfy_all,
}

pub is_among_iff : (keys : List String) (k : String) → (is_among keys k ≡ true) ↔ Has k keys
unfolding any
is_among_iff keys k = (found keys, known keys)
  where
    found : (ks : List String) → is_among ks k ≡ true → Has k ks
    found [] h = absurd (ground arith)
    found (x ∷ xs) h = elim (Bool-cases (str_eq x k)) [
      | inl e ↦ here ((str_eq_iff x k).0 e)
      | inr e ↦ there (found xs (ground arith))
    ]

    known : (ks : List String) → Has k ks → is_among ks k ≡ true
    known [] m = elim m [ ]
    known (x ∷ xs) (here q) = rw ((str_eq_iff x k).1 q) refl
    known (x ∷ xs) (there m) = let r = known xs m in ground arith

-- What is left after a round is what was there and has no ready task's key.
pub Has-remove_all :
    (ready remaining : List PlanTask) {t : PlanTask}
    → Has t (remove_all ready remaining)
    → Has t remaining
unfolding remove_all
Has-remove_all [] remaining m = m
Has-remove_all (r ∷ rs) remaining m =
    (Has-select _ remaining (Has-remove_all rs (remove r.key remaining) m)).0

-- A task leaves only where a ready task has its key.
pub remove_all-Has :
    (ready remaining : List PlanTask) {t : PlanTask}
    → Has t remaining
    → Has t (remove_all ready remaining) ⊎ ((r : PlanTask) × Has r ready × (r.key ≡ t.key))
unfolding remove_all
remove_all-Has [] remaining m = inl m
remove_all-Has (r ∷ rs) remaining {t} m = elim (Bool-cases (str_eq t.key r.key)) [
  | inl e ↦ inr (r, here refl, sym ((str_eq_iff t.key r.key).0 e))
  | inr e ↦
      elim (remove_all-Has rs (remove r.key remaining)
        (select-Has (λ (u : PlanTask). not (str_eq u.key r.key)) remaining m (rw e refl))) [
          | inl k ↦ inl k
          | inr (u, k, q) ↦ inr (u, there k, q)
        ]
]

pub satisfy_all-keeps :
    (ready : List PlanTask) (satisfied : List String) {k : String}
    → Has k satisfied
    → Has k (satisfy_all ready satisfied)
unfolding satisfy_all
satisfy_all-keeps [] satisfied m = m
satisfy_all-keeps (r ∷ rs) satisfied m = satisfy_all-keeps rs (r.key ∷ satisfied) (there m)

pub satisfy_all-Has :
    (ready : List PlanTask) (satisfied : List String) {r : PlanTask}
    → Has r ready
    → Has r.key (satisfy_all ready satisfied)
unfolding satisfy_all
satisfy_all-Has [] satisfied m = elim m [ ]
satisfy_all-Has (x ∷ xs) satisfied {r} (here q) =
    satisfy_all-keeps xs (x.key ∷ satisfied) (here (ap (λ (t : PlanTask). t.key) q))
satisfy_all-Has (x ∷ xs) satisfied (there m) = satisfy_all-Has xs (x.key ∷ satisfied) m

-- A key is satisfied after a round only if it was, or is a ready task's.
pub Has-satisfy_all :
    (ready : List PlanTask) (satisfied : List String) {k : String}
    → Has k (satisfy_all ready satisfied)
    → Has k satisfied ⊎ ((r : PlanTask) × Has r ready × (r.key ≡ k))
unfolding satisfy_all
Has-satisfy_all [] satisfied m = inl m
Has-satisfy_all (x ∷ xs) satisfied m = elim (Has-satisfy_all xs (x.key ∷ satisfied) m) [
  | inl s ↦ elim (Has-cons satisfied s) [ inl e ↦ inr (x, here refl, e) | inr o ↦ inl o ]
  | inr (r, n, e) ↦ inr (r, there n, e)
]

length-remove_all-le :
    (ready remaining : List PlanTask) → length (remove_all ready remaining) ≤ length remaining
unfolding remove_all
length-remove_all-le [] remaining = omega arith
length-remove_all-le (r ∷ rs) remaining = omega (
  arith,
  length-remove_all-le rs (remove r.key remaining),
  length-select-le (λ (t : PlanTask). not (str_eq t.key r.key)) remaining,
)

length-select-lt :
    (p : PlanTask → Bool) (ts : List PlanTask) {t : PlanTask}
    → Has t ts
    → p t ≡ false
    → length (select p ts) < length ts
unfolding select
length-select-lt p [] m h = elim m [ ]
length-select-lt p (x ∷ xs) (here q) h =
    rw (subst (λ y. p y ≡ false) (sym q) h) (omega (arith, length-select-le p xs))
length-select-lt p (x ∷ xs) (there m) h = elim (Bool-cases (p x)) [
  | inl e ↦ rw e (omega (arith, length-select-lt p xs m h))
  | inr e ↦ rw e (omega (arith, length-select-le p xs))
]

-- A round with a ready task leaves fewer tasks.
pub length-remove_all-lt :
    (rs remaining : List PlanTask) {r : PlanTask}
    → Has r remaining
    → length (remove_all (r ∷ rs) remaining) < length remaining
unfolding remove_all
length-remove_all-lt rs remaining {r} m = omega (
  arith,
  length-remove_all-le rs (remove r.key remaining),
  length-select-lt (λ (t : PlanTask). not (str_eq t.key r.key)) remaining m
      (rw ((str_eq_iff r.key r.key).1 refl) refl),
)

-- The dependencies of a ready task are satisfied.
pub is_ready-Has :
    (satisfied : List String) (ds : List String) {d : String}
    → all (is_among satisfied) ds ≡ true
    → Has d ds
    → Has d satisfied
unfolding all
is_ready-Has satisfied [] h m = elim m [ ]
is_ready-Has satisfied (x ∷ xs) h (here q) =
    subst (λ y. Has y satisfied) q ((is_among_iff satisfied x).0 (ground arith))
is_ready-Has satisfied (x ∷ xs) h (there m) = is_ready-Has satisfied xs (ground arith) m

-- A task that is not ready has a dependency that is not satisfied.
pub unready-Has :
    (satisfied : List String) (ds : List String)
    → all (is_among satisfied) ds ≡ false
    → (d : String) × Has d ds × ¬ Has d satisfied
unfolding all
unready-Has satisfied [] h = absurd (ground arith)
unready-Has satisfied (x ∷ xs) h = elim (Bool-cases (is_among satisfied x)) [
  | inl e ↦ let (d, m, n) = unready-Has satisfied xs (ground arith) in (d, there m, n)
  | inr e ↦ (x, here refl, λ m. cc ((is_among_iff satisfied x).1 m, e))
]

-- No key that a round takes is left.
pub remove_all-removes :
    (ready remaining : List PlanTask) {r t : PlanTask}
    → Has r ready
    → r.key ≡ t.key
    → ¬ Has t (remove_all ready remaining)
unfolding remove_all
remove_all-removes [] remaining m e k = elim m [ ]
remove_all-removes (x ∷ xs) remaining {r} {t} (here q) e k =
    let (_, kept) =
      Has-select (λ (u : PlanTask). not (str_eq u.key x.key)) remaining
        (Has-remove_all xs (remove x.key remaining) k) in
    let same : str_eq t.key x.key ≡ true =
      (str_eq_iff t.key x.key).1 (sym (ap (λ (u : PlanTask). u.key) q ∙ e)) in
    ground arith
remove_all-removes (x ∷ xs) remaining (there m) e k =
    remove_all-removes xs (remove x.key remaining) m e k

-- The loop stops where tasks are left and none is ready.
pub stuck_raises :
    (n : ℕ) (remaining : List PlanTask) (satisfied : List String)
    → is_empty remaining ≡ false
    → is_empty (select (is_ready satisfied) remaining) ≡ true
    → layers_from (suc n) remaining satisfied ≡ cycle_found
unfolding layers_from
stuck_raises n remaining satisfied h k = rw (layers_from, h, k) refl

-- Otherwise it goes on with what the round leaves.
pub goes_on :
    (n : ℕ) (remaining : List PlanTask) (satisfied : List String)
    → is_empty remaining ≡ false
    → is_empty (select (is_ready satisfied) remaining) ≡ false
    → let ready = select (is_ready satisfied) remaining in
      layers_from (suc n) remaining satisfied ≡ (
        layers_from n (remove_all ready remaining) (satisfy_all ready satisfied) >>= λ layers.
        ok (ready ∷ layers))
unfolding layers_from
goes_on n remaining satisfied h k = rw (layers_from, h, k) refl

-- The fuel of a round covers the rounds that follow.
pub fewer :
    (n : ℕ) (remaining : List PlanTask) (satisfied : List String)
    → length remaining ≤ suc n
    → is_empty (select (is_ready satisfied) remaining) ≡ false
    → length (remove_all (select (is_ready satisfied) remaining) remaining) ≤ n
fewer n remaining satisfied h k =
    of (select (is_ready satisfied) remaining) k
      λ t m. (Has-select (is_ready satisfied) remaining m).0
  where
    of :
        (ready : List PlanTask)
        → is_empty ready ≡ false
        → ((t : PlanTask) → Has t ready → Has t remaining)
        → length (remove_all ready remaining) ≤ n
    of [] e inside = absurd (ground arith)
    of (r ∷ rs) e inside = omega (arith, length-remove_all-lt rs remaining (inside r (here refl)))
