-- ===== src/Shared/Lists.antt =====
-- Lists measured by native numbers, Boolean quantifiers and filters, and predicates by recursion.
use Prim.Native.Nat.{ℕ, zero, suc, ◌+◌, ◌≤◌}
use mathlib.Core.Path.{◌≡◌, refl, sym, subst}
use mathlib.Core.Bool.{Bool, true, false, ◌&&◌, ◌||◌}
use mathlib.Core.Option.{Option, none, some}
use mathlib.Core.List.{List, [], ◌∷◌, ◌++◌}
use mathlib.Core.Logic.{◌⊎◌, inl, inr}
use native.Mathlib.Omega.{arith}
use agentic_gpu_platform.Shared.Tests.{Bool-cases, if◌then◌else◌}

module _ {ℓ} {A : Type ℓ} where
  abbrev pub length : List A → ℕ
  length [] = 0
  length (x ∷ xs) = suc (length xs)

  pub length-append : (xs ys : List A) → length (xs ++ ys) ≡ length xs + length ys
  length-append [] ys = omega arith
  length-append (x ∷ xs) ys = omega (arith, length-append xs ys)

  abbrev pub is_empty : List A → Bool
  is_empty [] = true
  is_empty (x ∷ xs) = false

  unfoldable pub any : (A → Bool) → List A → Bool
  any p [] = false
  any p (x ∷ xs) = p x || any p xs

  unfoldable pub all : (A → Bool) → List A → Bool
  all p [] = true
  all p (x ∷ xs) = p x && all p xs

  -- `[x for x in xs if p(x)]`
  unfoldable pub select : (A → Bool) → List A → List A
  select p [] = []
  select p (x ∷ xs) = let rest = select p xs in if p x then x ∷ rest else rest

  abbrev pub take : ℕ → List A → List A
  take zero xs = []
  take (suc n) [] = []
  take (suc n) (x ∷ xs) = x ∷ take n xs

  abbrev pub drop : ℕ → List A → List A
  drop zero xs = xs
  drop (suc n) [] = []
  drop (suc n) (x ∷ xs) = drop n xs

  abbrev pub get_elem? : List A → ℕ → Option A
  get_elem? [] i = none
  get_elem? (x ∷ xs) zero = some x
  get_elem? (x ∷ xs) (suc i) = get_elem? xs i

  -- Membership as data, so that a proof can take it apart.
  pub data Has (a : A) : List A → Type ℓ where
    here : {x : A} {xs : List A} → x ≡ a → Has a (x ∷ xs)
    there : {x : A} {xs : List A} → Has a xs → Has a (x ∷ xs)

  pub length-select-le : (p : A → Bool) (xs : List A) → length (select p xs) ≤ length xs
  unfolding select
  length-select-le p [] = omega arith
  length-select-le p (x ∷ xs) = ground (arith, length-select-le p xs)

  pub Has-cons : {a x : A} (xs : List A) → Has a (x ∷ xs) → (x ≡ a) ⊎ Has a xs
  Has-cons xs (here q) = inl q
  Has-cons xs (there m) = inr m

  -- A filter keeps the members that pass, and no other.
  pub Has-select :
      (p : A → Bool) (xs : List A) {a : A} → Has a (select p xs) → Has a xs × (p a ≡ true)
  unfolding select
  Has-select p [] h = elim h [ ]
  Has-select p (x ∷ xs) {a} h = elim (Bool-cases (p x)) [
    | inl e ↦ elim (Has-cons (select p xs) (rw e at h)) [
      | inl q ↦ (here q, subst (λ y. p y ≡ true) q e)
      | inr m ↦ let r = Has-select p xs m in (there r.0, r.1)
    ]
    | inr e ↦ let r = Has-select p xs (rw e at h) in (there r.0, r.1)
  ]

  pub select-Has :
      (p : A → Bool) (xs : List A) {a : A} → Has a xs → p a ≡ true → Has a (select p xs)
  unfolding select
  select-Has p [] m e = elim m [ ]
  select-Has p (x ∷ xs) (here q) e = rw (subst (λ y. p y ≡ true) (sym q) e) (here q)
  select-Has p (x ∷ xs) (there m) e = elim (Bool-cases (p x)) [
    | inl k ↦ rw k (there (select-Has p xs m e))
    | inr k ↦ rw k (select-Has p xs m e)
  ]

  pub Has-append_left : {a : A} {xs : List A} (ys : List A) → Has a xs → Has a (xs ++ ys)
  Has-append_left ys (here q) = here q
  Has-append_left ys (there m) = there (Has-append_left ys m)

  pub Has-append_right : {a : A} (xs : List A) {ys : List A} → Has a ys → Has a (xs ++ ys)
  Has-append_right [] m = m
  Has-append_right (x ∷ xs) m = there (Has-append_right xs m)

  pub Has-split : {a : A} (xs : List A) {ys : List A} → Has a (xs ++ ys) → Has a xs ⊎ Has a ys
  Has-split [] m = inr m
  Has-split (x ∷ xs) (here q) = inl (here q)
  Has-split (x ∷ xs) (there m) = elim (Has-split xs m) [ inl l ↦ inl (there l) | inr r ↦ inr r ]

  -- `next(iter(items), None)`
  abbrev pub first : List A → Option A
  first [] = none
  first (x ∷ xs) = some x

  pub any-first :
      (p : A → Bool) (xs : List A) → any p xs ≡ true → (a : A) × (first (select p xs) ≡ some a)
  unfolding any select
  any-first p [] h = absurd (ground arith)
  any-first p (x ∷ xs) h = elim (Bool-cases (p x)) [
    | inl e ↦ (x, rw (e) refl)
    | inr e ↦ rw (e) (any-first p xs (rw e at h))
  ]

  pub none-first : (p : A → Bool) (xs : List A) → any p xs ≡ false → first (select p xs) ≡ none
  unfolding any select
  none-first p [] h = refl
  none-first p (x ∷ xs) h = elim (Bool-cases (p x)) [
    | inl e ↦ absurd (ground arith)
    | inr e ↦ rw (e) (none-first p xs (rw e at h))
  ]

  pub filled-first : (xs : List A) → is_empty xs ≡ false → (a : A) × (first xs ≡ some a)
  filled-first [] h = absurd (ground arith)
  filled-first (x ∷ xs) h = (x, refl)

  pub first-Has : (xs : List A) {a : A} → first xs ≡ some a → Has a xs
  first-Has [] h = absurd (ground arith)
  first-Has (x ∷ xs) h = here cc

  pub first-filled : (xs : List A) {a : A} → first xs ≡ some a → is_empty xs ≡ false
  first-filled [] h = absurd (ground arith)
  first-filled (x ∷ xs) h = refl

  pub first-none : (xs : List A) → first xs ≡ none → is_empty xs ≡ true
  first-none [] h = refl
  first-none (x ∷ xs) h = absurd (ground arith)

  -- A statement about every member, by recursion, so that tactics see its parts.
  abbrev pub All {κ} : (A → Type κ) → List A → Type κ
  All P [] = Unit
  All P (x ∷ xs) = P x × All P xs

  pub All-Has {κ} : (P : A → Type κ) {a : A} (xs : List A) → All P xs → Has a xs → P a
  All-Has P [] h m = elim m [ ]
  All-Has P (x ∷ xs) h (here q) = subst P q h.0
  All-Has P (x ∷ xs) h (there m) = All-Has P xs h.1 m

  pub All-append {κ} : (P : A → Type κ) (xs ys : List A) → All P xs → All P ys → All P (xs ++ ys)
  All-append P [] ys h k = k
  All-append P (x ∷ xs) ys h k = (h.0, All-append P xs ys h.1 k)
