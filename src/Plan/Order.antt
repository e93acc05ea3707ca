-- ===== src/Plan/Order.antt =====
-- The layers of a plan (src/domain/entities/plan.py) hold every task, each after what it depends on.
use agentic_gpu_platform.Shared.{
  Bool-cases, Has, Has-append_left, Has-append_right, Has-select, Has-split, List, String, [],
  arith, false, inl, inr, is_empty, length, refl, select, subst, suc, sym, true, zero, ℕ, ◌++◌, ◌∙◌,
  ◌∷◌, ◌≡◌, ◌≤◌,
}
use agentic_gpu_platform.Errors.{Result, ok, ok-injective, raise, ◌>>=◌}
use agentic_gpu_platform.Plan.{PlanTask, is_ready, layers_from, remove_all, satisfy_all}
use agentic_gpu_platform.Plan.Layers.{
  Has-remove_all, Has-satisfy_all, fewer, goes_on, is_ready-Has, remove_all-Has, remove_all-removes,
  stuck_raises,
}

abbrev pub flatten : List (List PlanTask) → List PlanTask
flatten [] = []
flatten (layer ∷ layers) = layer ++ flatten layers

-- A task of a layer is new, and all that it depends on stands in an earlier layer.
abbrev pub MayRun : List String → PlanTask → Type 0
MayRun earlier t = (¬ Has t.key earlier) × ((d : String) → Has d t.depends_on → Has d earlier)

-- `earlier` are the keys of the layers in front. No layer is empty.
abbrev pub AreOrdered : List String → List (List PlanTask) → Type 0
AreOrdered earlier [] = Unit
AreOrdered earlier (layer ∷ layers) =
    (is_empty layer ≡ false)
    × ((t : PlanTask) → Has t layer → MayRun earlier t)
    × AreOrdered (satisfy_all layer earlier) layers

-- What the loop promises of what is left to do.
pub record AreLayers (remaining : List PlanTask) (satisfied : List String)
    (layers : List (List PlanTask)) : Type 0 where
  pub ordered : AreOrdered satisfied layers
  pub sound : (t : PlanTask) → Has t (flatten layers) → Has t remaining
  pub complete :
      (t : PlanTask) → Has t remaining → (u : PlanTask) × Has u (flatten layers) × (u.key ≡ t.key)

-- No key that is left is satisfied.
abbrev pub AreNew : List PlanTask → List String → Type 0
AreNew remaining satisfied = (t : PlanTask) → Has t remaining → ¬ Has t.key satisfied

pub no_member : (ts : List PlanTask) → is_empty ts ≡ true → (t : PlanTask) → ¬ Has t ts
no_member [] h t m = elim m [ ]
no_member (x ∷ xs) h t m = cc

-- What is ready leaves `remaining`, and nothing else does.
still_new :
    (satisfied : List String) (remaining : List PlanTask)
    → AreNew remaining satisfied
    → let ready = select (is_ready satisfied) remaining in
      AreNew (remove_all ready remaining) (satisfy_all ready satisfied)
still_new satisfied remaining n t m s =
    let ready = select (is_ready satisfied) remaining in
    elim (Has-satisfy_all ready satisfied s) [
      | inl old ↦ n t (Has-remove_all ready remaining m) old
      | inr (r, k, e) ↦ remove_all-removes ready remaining k e m
    ]

round :
    (satisfied : List String) (remaining : List PlanTask) (layers : List (List PlanTask))
    → is_empty (select (is_ready satisfied) remaining) ≡ false
    → AreNew remaining satisfied
    → let ready = select (is_ready satisfied) remaining in
      AreLayers (remove_all ready remaining) (satisfy_all ready satisfied) layers
      → AreLayers remaining satisfied (ready ∷ layers)
round satisfied remaining layers some_ready n l =
    let ready = select (is_ready satisfied) remaining in
    record {
      ordered = (
        some_ready,
        (λ t m.
            let (left, ok_deps) = Has-select (is_ready satisfied) remaining m in
            (n t left, λ d k. is_ready-Has satisfied t.depends_on ok_deps k)),
        l.ordered,
      );
      sound = λ t m. elim (Has-split ready m) [
        | inl k ↦ (Has-select (is_ready satisfied) remaining k).0
        | inr k ↦ Has-remove_all ready remaining (l.sound t k)
      ];
      complete = λ t m. elim (remove_all-Has ready remaining m) [
        | inl k ↦ let (u, h, e) = l.complete t k in (u, Has-append_right ready h, e)
        | inr (r, k, e) ↦ (r, Has-append_left (flatten layers) k, e)
      ];
    }

-- A layer was put in front of the later ones.
put_in_front :
    (later : Result (List (List PlanTask))) (layer : List PlanTask) {layers : List (List PlanTask)}
    → (later >>= λ found. ok (layer ∷ found)) ≡ ok layers
    → (found : List (List PlanTask)) × (later ≡ ok found) × (layer ∷ found ≡ layers)
put_in_front (ok found) layer h = (found, refl, ok-injective h)
put_in_front (raise error) layer h = absurd (ground arith)

-- The loop's layers, from any state that it can be in.
pub layers_from-AreLayers :
    (n : ℕ) (remaining : List PlanTask) (satisfied : List String) (layers : List (List PlanTask))
    → length remaining ≤ n
    → AreNew remaining satisfied
    → layers_from n remaining satisfied ≡ ok layers
    → AreLayers remaining satisfied layers
layers_from-AreLayers n [] satisfied layers h a e =
    let none_left : layers ≡ [] = nothing n e in
    subst (AreLayers [] satisfied) (sym none_left)
      (record { ordered = tt; sound = λ t m. elim m [ ]; complete = λ t m. elim m [ ] })
  where
    nothing : (k : ℕ) → layers_from k [] satisfied ≡ ok layers → layers ≡ []
    nothing zero q = unfold layers_from in ground arith
    nothing (suc k) q = unfold layers_from in ground arith
layers_from-AreLayers zero (x ∷ xs) satisfied layers h a e = absurd (omega arith)
layers_from-AreLayers (suc n) (x ∷ xs) satisfied layers h a e =
    let remaining = x ∷ xs in
    let ready = select (is_ready satisfied) remaining in
    elim (Bool-cases (is_empty ready)) [
      | inl b ↦ absurd (cc (stuck_raises n remaining satisfied refl b, e))
      | inr b ↦
          let (later, found, made) =
            put_in_front _ _ (sym (goes_on n remaining satisfied refl b) ∙ e) in
          subst (AreLayers remaining satisfied) made (
            round satisfied remaining later b a (
              layers_from-AreLayers n (remove_all ready remaining) (satisfy_all ready satisfied)
                later (fewer n remaining satisfied h b) (still_new satisfied remaining a) found))
    ]
