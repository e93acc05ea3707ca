-- ===== src/Shared/Sort.antt =====
-- `sorted(xs, key=...)`: a stable sort by a strict comparison `before`. The proofs take the laws of
-- the comparison as a record.
use mathlib.Core.Path.{◌≡◌, subst}
use mathlib.Core.Bool.{Bool, true, false}
use mathlib.Core.Logic.{◌⊎◌, inl, inr}
use mathlib.Core.List.{List, [], ◌∷◌, Perm}
use mathlib.Core.List.Perm
use agentic_gpu_platform.Shared.Tests.{Bool-cases, if◌then◌else◌}
use agentic_gpu_platform.Shared.Lists.{All, All-Has, Has, Has-cons, here, there}

module _ {ℓ} {A : Type ℓ} (before : A → A → Bool) where
  -- `x` stands in front of every element that is not strictly before it.
  unfoldable pub insert : A → List A → List A
  insert x [] = x ∷ []
  insert x (y ∷ ys) = let rest = insert x ys in if before y x then y ∷ rest else x ∷ y ∷ ys

  unfoldable pub sorted : List A → List A
  unfolding insert
  sorted [] = []
  sorted (x ∷ xs) = insert x (sorted xs)

  pub insert-perm : (x : A) (ys : List A) → Perm (insert x ys) (x ∷ ys)
  unfolding insert
  insert-perm x [] = Perm.rfl
  insert-perm x (y ∷ ys) = elim (Bool-cases (before y x)) [
    | inl e ↦ rw e (Perm.trans (Perm.cons y (insert-perm x ys)) (Perm.swap x y ys))
    | inr e ↦ rw e Perm.rfl
  ]

  pub sorted-perm : (xs : List A) → Perm (sorted xs) xs
  unfolding sorted
  sorted-perm [] = Perm.nil
  sorted-perm (x ∷ xs) = Perm.trans (insert-perm x (sorted xs)) (Perm.cons x (sorted-perm xs))

  pub Has-insert : (x : A) (ys : List A) {a : A} → Has a (insert x ys) → (x ≡ a) ⊎ Has a ys
  unfolding insert
  Has-insert x [] m = Has-cons [] m
  Has-insert x (y ∷ ys) m = elim (Bool-cases (before y x)) [
    | inl e ↦ elim (Has-cons (insert x ys) (rw e at m)) [
      | inl q ↦ inr (here q)
      | inr k ↦ elim (Has-insert x ys k) [ inl q ↦ inl q | inr h ↦ inr (there h) ]
    ]
    | inr e ↦ Has-cons (y ∷ ys) (rw e at m)
  ]

  -- Every member of the sorted list is a member of the list.
  pub Has-sorted : (xs : List A) {a : A} → Has a (sorted xs) → Has a xs
  unfolding sorted
  Has-sorted [] m = m
  Has-sorted (x ∷ xs) m = elim (Has-insert x (sorted xs) m) [
    | inl q ↦ here q
    | inr k ↦ there (Has-sorted xs k)
  ]

  insert-Has : (x : A) (ys : List A) {a : A} → Has a (x ∷ ys) → Has a (insert x ys)
  unfolding insert
  insert-Has x [] m = m
  insert-Has x (y ∷ ys) m = elim (Bool-cases (before y x)) [
    | inl e ↦ rw e (elim (Has-cons (y ∷ ys) m) [
      | inl q ↦ there (insert-Has x ys (here q))
      | inr k ↦ elim (Has-cons ys k) [ inl q ↦ here q | inr h ↦ there (insert-Has x ys (there h)) ]
    ])
    | inr e ↦ rw e m
  ]

  -- Nothing is lost by sorting.
  pub sorted-Has : (xs : List A) {a : A} → Has a xs → Has a (sorted xs)
  unfolding sorted
  sorted-Has [] m = m
  sorted-Has (x ∷ xs) (here q) = insert-Has x (sorted xs) (here q)
  sorted-Has (x ∷ xs) (there m) = insert-Has x (sorted xs) (there (sorted-Has xs m))

  All-insert {κ} : (P : A → Type κ) (x : A) (ys : List A) → P x → All P ys → All P (insert x ys)
  unfolding insert
  All-insert P x [] p h = (p, tt)
  All-insert P x (y ∷ ys) p h = elim (Bool-cases (before y x)) [
    | inl e ↦ rw e (h.0, All-insert P x ys p h.1)
    | inr e ↦ rw e (p, h)
  ]

  -- What sorting asks of the comparison, a strict weak order, on the elements that satisfy `P`.
  pub record IsOrder {κ} (P : A → Type κ) : Type (ℓ ⊔ κ) where
    pub asym : (a b : A) → before a b ≡ true → before b a ≡ false
    pub cotrans :
        (a b c : A) → P a → P b → P c → before b a ≡ false → before c b ≡ false → before c a ≡ false

  -- No element is strictly before one that stands in front of it.
  abbrev pub IsSorted : List A → Type ℓ
  IsSorted [] = Unit
  IsSorted (x ∷ xs) = All (λ y. before y x ≡ false) xs × IsSorted xs

  All-cotrans {κ} :
      (P : A → Type κ)
      → IsOrder P
      → (x y : A) (ys : List A) → P x
      → P y
      → All P ys
      → before y x ≡ false
      → All (λ z. before z y ≡ false) ys
      → All (λ z. before z x ≡ false) ys
  All-cotrans P o x y [] px py p e h = tt
  All-cotrans P o x y (z ∷ zs) px py p e h =
      (o.cotrans x y z px py p.0 e h.0, All-cotrans P o x y zs px py p.1 e h.1)

  insert-IsSorted {κ} :
      (P : A → Type κ)
      → IsOrder P
      → (x : A) (ys : List A) → P x
      → All P ys
      → IsSorted ys
      → IsSorted (insert x ys)
  unfolding insert
  insert-IsSorted P o x [] px p h = (tt, tt)
  insert-IsSorted P o x (y ∷ ys) px p h = elim (Bool-cases (before y x)) [
    | inl e ↦ rw e (
      All-insert (λ z. before z y ≡ false) x ys (o.asym y x e) h.0,
      insert-IsSorted P o x ys px p.1 h.1,
    )
    | inr e ↦ rw e ((e, All-cotrans P o x y ys px p.0 p.1 e h.0), h)
  ]

  All-sorted {κ} : (P : A → Type κ) (xs : List A) → All P xs → All P (sorted xs)
  unfolding sorted
  All-sorted P [] p = tt
  All-sorted P (x ∷ xs) p = All-insert P x (sorted xs) p.0 (All-sorted P xs p.1)

  pub sorted-IsSorted {κ} :
      (P : A → Type κ) → IsOrder P → (xs : List A) → All P xs → IsSorted (sorted xs)
  unfolding sorted
  sorted-IsSorted P o [] p = tt
  sorted-IsSorted P o (x ∷ xs) p =
      insert-IsSorted P o x (sorted xs) p.0 (All-sorted P xs p.1) (sorted-IsSorted P o xs p.1)

  -- The head of a sorted list: nothing in the list is strictly before it.
  pub sorted-head_least {κ} :
      (P : A → Type κ)
      → IsOrder P
      → (xs : List A) {m a : A} (rest : List A) → All P xs
      → sorted xs ≡ m ∷ rest
      → Has a xs
      → (m ≡ a) ⊎ (before a m ≡ false)
  sorted-head_least P o xs {m} {a} rest p e h =
      elim (Has-cons rest (subst (Has a) e (sorted-Has xs h))) [
        | inl q ↦ inl q
        | inr k ↦ inr (
            All-Has (λ y. before y m ≡ false) rest (subst IsSorted e (sorted-IsSorted P o xs p)).0
              k)
      ]
