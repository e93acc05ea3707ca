-- ===== src/Shared/Order.antt =====
-- Comparisons by keys, as `sorted` makes them: by one number, downwards, and lexicographically.
use Prim.Native.Nat.{ℕ}
use mathlib.Core.Bool.{Bool, ◌&&◌, ◌||◌, not}
use native.Mathlib.Omega.{arith}
use agentic_gpu_platform.Shared.Tests.{ltb}
use agentic_gpu_platform.Shared.Sort.{IsOrder}

module _ {ℓ} {A : Type ℓ} where
  abbrev pub by : (A → ℕ) → A → A → Bool
  by key a b = ltb (key a) (key b)

  abbrev pub by_descending : (A → ℕ) → A → A → Bool
  by_descending key a b = ltb (key b) (key a)

  -- A tuple of keys: the second decides where the first does not.
  abbrev pub lex : (A → A → Bool) → (A → A → Bool) → A → A → Bool
  lex f g a b = f a b || not (f b a) && g a b

  pub by-IsOrder {κ} : (P : A → Type κ) (key : A → ℕ) → IsOrder (by key) P
  by-IsOrder P key = record {
    asym = λ a b h. ground arith;
    cotrans = λ a b c _ _ _ h k. ground arith;
  }

  pub by_descending-IsOrder {κ} : (P : A → Type κ) (key : A → ℕ) → IsOrder (by_descending key) P
  by_descending-IsOrder P key = record {
    asym = λ a b h. ground arith;
    cotrans = λ a b c _ _ _ h k. ground arith;
  }

  pub lex-IsOrder {κ} :
      (P : A → Type κ) (f g : A → A → Bool) → IsOrder f P → IsOrder g P → IsOrder (lex f g) P
  lex-IsOrder P f g o q = record {
    asym = λ a b h. ground (arith, o.asym a b, q.asym a b);
    cotrans = λ a b c pa pb pc h k. ground (
      arith,
      o.cotrans a b c pa pb pc,
      o.cotrans b c a pb pc pa,
      o.cotrans c a b pc pa pb,
      q.cotrans a b c pa pb pc,
    );
  }
