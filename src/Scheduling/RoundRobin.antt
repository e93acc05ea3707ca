-- ===== src/Scheduling/RoundRobin.antt =====
-- The alternative policy of src/domain/services/scheduling.py serves every worker in turn.
use Prim.Native.Nat.add
use native.Mathlib.Nat.{mod_self, mod-eq_of_lt}
use native.Mathlib.Numerals.{add-one}
use mathlib.Core.Path.{ap₂}
use agentic_gpu_platform.Shared.{
  ==_iff, Bool-cases, List, Option, [], ap, arith, drop, get_elem?, if◌then◌else◌, inl, inr, length,
  map, refl, some, subst, suc, sym, take, zero, ℕ, ◌%◌, ◌++◌, ◌+◌, ◌-◌, ◌<◌, ◌==◌, ◌∙◌, ◌∷◌, ◌≡◌,
  ◌≤◌,
}
use agentic_gpu_platform.Worker.{Worker}
use agentic_gpu_platform.Scheduling.{choose}

-- The answers of `count` calls in a row on one ranked list, and the cursor that they leave.
pub choices : (count cursor : ℕ) → List Worker → List (Option Worker) × ℕ
choices zero cursor ranked = ([], cursor)
choices (suc n) cursor ranked =
    let (w, next) = choose cursor ranked in let (ws, last) = choices n next ranked in (w ∷ ws, last)

choices-append :
    (m n cursor : ℕ) (xs : List Worker)
    → let (ws, next) = choices m cursor xs in
      choices (m + n) cursor xs ≡ (ws ++ (choices n next xs).0, (choices n next xs).1)
unfolding choices
choices-append zero n cursor xs = rw (add.zero n)
choices-append (suc m) n cursor xs = rw (add.suc m n) (
    ap (λ (r : List (Option Worker) × ℕ). ((choose cursor xs).0 ∷ r.0, r.1))
      (choices-append m n (choose cursor xs).1 xs))

take_all : (k : ℕ) (xs : List Worker) → length xs ≤ k → take k xs ≡ xs
take_all zero [] h = refl
take_all zero (x ∷ xs) h = absurd (omega arith)
take_all (suc k) [] h = refl
take_all (suc k) (x ∷ xs) h = ap (◌∷◌ x) (take_all k xs (omega arith))

length-drop : (k : ℕ) (xs : List Worker) → length (drop k xs) ≡ length xs - k
length-drop zero xs = omega arith
length-drop (suc k) [] = omega arith
length-drop (suc k) (x ∷ xs) = omega (arith, length-drop k xs)

get-drop :
    (c : ℕ) (xs : List Worker)
    → c < length xs
    → (x : Worker) × (get_elem? xs c ≡ some x) × (drop c xs ≡ x ∷ drop (suc c) xs)
get-drop c [] h = absurd (omega arith)
get-drop zero (x ∷ xs) h = (x, refl, refl)
get-drop (suc c) (x ∷ xs) h = get-drop c xs (omega arith)

next_cursor : (c n : ℕ) → c < n → (c + 1) % n ≡ (if suc c == n then 0 else suc c)
next_cursor c n h = elim (Bool-cases (suc c == n)) [
  | inl e ↦
      rw e (ap₂ (λ (i j : ℕ). i % j) (add-one c) (sym ((==_iff (suc c) n).0 e)) ∙ mod_self (suc c))
  | inr e ↦ rw e (mod-eq_of_lt (ground arith) ∙ omega arith)
]

choose_lem :
    (c : ℕ) (xs : List Worker)
    → c < length xs
    → choose c xs ≡ (get_elem? xs c, (if suc c == length xs then 0 else suc c))
unfolding choose
choose_lem c [] h = absurd (omega arith)
choose_lem c (x ∷ xs) h =
    ap₂ (λ (i j : ℕ). let r : Option Worker × ℕ = (get_elem? (x ∷ xs) i, j) in r) (mod-eq_of_lt h)
      (next_cursor c (suc (length xs)) h)

choices-zero : (c : ℕ) (xs : List Worker) → choices zero c xs ≡ ([], c)
unfolding choices
choices-zero c xs = refl

choices-suc :
    (k c : ℕ) (xs : List Worker) {w : Option Worker} {next last : ℕ} {ws : List (Option Worker)}
    → choose c xs ≡ (w, next)
    → choices k next xs ≡ (ws, last)
    → choices (suc k) c xs ≡ (w ∷ ws, last)
unfolding choices
choices-suc k c xs e f = rw (e, f)

-- Calls that do not pass the end of the list take the next workers in order.
choices-take :
    (k c : ℕ) (xs : List Worker)
    → c + k ≤ length xs
    → c < length xs
    → choices k c xs ≡ (map some (take k (drop c xs)), (if c + k == length xs then 0 else c + k))
choices-take zero c xs h p = unfold choices in ground arith
choices-take (suc zero) c xs h p =
    let (x, got, split) = get-drop c xs p in
    choices-suc 0 c xs (choose_lem c xs p) (choices-zero _ xs) ∙ rw (got, split, add-one)
choices-take (suc (suc k)) c xs h p =
    let (x, got, split) = get-drop c xs p in
    let next : (if suc c == length xs then 0 else suc c) ≡ suc c = ground arith in
    let sums : suc c + suc k ≡ c + suc (suc k) = omega arith in
    choices-suc (suc k) c xs
      (choose_lem c xs p
        ∙ ap (λ (i : ℕ). let r : Option Worker × ℕ = (get_elem? xs c, i) in r) next)
      (choices-take (suc k) (suc c) xs (omega arith) (omega arith))
    ∙ rw (got, split, sums)

-- With n workers ranked, n calls in a row from any cursor give each worker once: those from the cursor
-- on, then those before it. The cursor is back where it was.
pub choices-full_turn :
    (c : ℕ) (xs : List Worker)
    → c < length xs
    → choices (length xs) c xs ≡ (map some (drop c xs) ++ map some (take c xs), c)
choices-full_turn c xs p =
    let n = length xs in
    let first : choices (n - c) c xs ≡ (map some (take (n - c) (drop c xs)), 0) =
      choices-take (n - c) c xs (omega arith) p ∙ ground arith in
    let second : choices c 0 xs ≡ (map some (take c xs), c) =
      choices-take c 0 xs (omega arith) (omega arith) ∙ ground arith in
    subst (λ (m : ℕ). choices m c xs ≡ (map some (drop c xs) ++ map some (take c xs), c))
      (omega arith)
      (choices-append (n - c) c c xs
        ∙ rw (first, second, take_all (n - c) (drop c xs) (omega (arith, length-drop c xs))))
