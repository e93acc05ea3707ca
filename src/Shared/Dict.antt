-- ===== src/Shared/Dict.antt =====
-- A dictionary with numeric keys, as an association list in insertion order (Python's `dict`).
-- `get` is `d.get(k)`, `put` is `d[k] = v`, `pop` is `d.pop(k, None)`.
use Prim.Native.Nat.{ℕ}
use mathlib.Core.Path.{◌≡◌, refl}
use mathlib.Core.Bool.{Bool}
use mathlib.Core.Option.{Option, none, some}
use mathlib.Core.List.{List, [], ◌∷◌}
use native.Mathlib.Omega.{arith}
use agentic_gpu_platform.Shared.Tests.{if◌then◌else◌, is_some, ◌==◌}

abbrev pub Map {ℓ} : Type ℓ → Type ℓ
Map V = List (ℕ × V)

module _ {ℓ} {V : Type ℓ} where
  unfoldable pub get : ℕ → Map V → Option V
  get k [] = none
  get k ((j, v) ∷ m) = if j == k then some v else get k m

  unfoldable pub put : ℕ → V → Map V → Map V
  put k v [] = (k, v) ∷ []
  put k v ((j, w) ∷ m) = if j == k then (k, v) ∷ m else (j, w) ∷ put k v m

  unfoldable pub pop : ℕ → Map V → Map V
  pop k [] = []
  pop k ((j, v) ∷ m) = let rest = pop k m in if j == k then rest else (j, v) ∷ rest

  abbrev pub has : ℕ → Map V → Bool
  has k m = is_some (get k m)

  pub get-put :
      (k j : ℕ) (v : V) (m : Map V) → get j (put k v m) ≡ (if k == j then some v else get j m)
  unfolding get put
  get-put k j v [] = refl
  get-put k j v ((i, w) ∷ m) = ground (arith, get-put k j v m)

  pub get-pop : (k j : ℕ) (m : Map V) → get j (pop k m) ≡ (if k == j then none else get j m)
  unfolding get pop
  get-pop k j [] = ground arith
  get-pop k j ((i, w) ∷ m) = ground (arith, get-pop k j m)
