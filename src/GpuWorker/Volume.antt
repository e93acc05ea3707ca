-- ===== src/GpuWorker/Volume.antt =====
-- What gpu-worker/src/worker/model_state.py and filesystem.py see of the volume: the marker file as
-- the JSON value that it holds, the directories of the snapshots with the sizes of their files, and
-- the free bytes. Time and the calls of the hub client are counted. A file stands for the link in the
-- snapshot and the blob that it points to.
use agentic_gpu_platform.Shared.{
  All, Bool, Bool-cases, Json, List, Option, Option-cases, String, [], arith, false, if◌then◌else◌,
  inl, inr, is_empty, none, not, refl, some, str_eq, true, ℕ, ◌++◌, ◌+◌, ◌==◌, ◌or◌, ◌∷◌, ◌≡◌,
}

-- Sizes by name, in the order of the source's `dict`.
abbrev pub Sizes : Type 0
Sizes = List (String × ℕ)

-- `sizes.get(name)`
unfoldable pub size_of : String → Sizes → Option ℕ
size_of name [] = none
size_of name ((other, size) ∷ rest) =
    let more = size_of name rest in if str_eq other name then some size else more

-- `sizes[name] = size`
unfoldable pub put_size : String → ℕ → Sizes → Sizes
put_size name size [] = (name, size) ∷ []
put_size name size ((other, old) ∷ rest) =
    let more = put_size name size rest in
    if str_eq other name then (name, size) ∷ rest else (other, old) ∷ more

abbrev pub total : Sizes → ℕ
total [] = 0
total ((name, size) ∷ rest) = size + total rest

pub record Volume : Type 0 where
  pub marker : Option Json
  pub snapshots : String → Option Sizes
  pub free_bytes : ℕ
  pub fetches : ℕ
  pub slept : List ℕ

-- The size of a file under a snapshot, where `stat` finds it.
unfoldable pub stat_size : Volume → (snapshot name : String) → Option ℕ
unfolding size_of
stat_size v snapshot name = elim (v.snapshots snapshot) [
  | none ↦ none
  | some files ↦ size_of name files
]

-- Whether a file is there at the size.
abbrev pub is_size : Option ℕ → ℕ → Bool
is_size none expected = false
is_size (some actual) expected = actual == expected

-- `_mismatches`
unfoldable pub mismatches : Volume → (snapshot : String) → Sizes → List String
unfolding stat_size
mismatches v snapshot [] = []
mismatches v snapshot ((name, size) ∷ rest) =
    let more = mismatches v snapshot rest in
    if is_size (stat_size v snapshot name) size then more else name ∷ more

pub data Problem : Type 0 where
  no_directory : (snapshot : String) → Problem
  missing : (name : String) → Problem
  truncated : (name : String) (actual expected : ℕ) → Problem

-- One round of the loop of `verify_snapshot`.
abbrev problem_of : (name : String) (expected : ℕ) → Option ℕ → List Problem
problem_of name expected none = missing name ∷ []
problem_of name expected (some actual) =
    if not (actual == expected) then truncated name actual expected ∷ [] else []

unfoldable pub problems_of : Volume → (snapshot : String) → Sizes → List Problem
unfolding stat_size
problems_of v snapshot [] = []
problems_of v snapshot ((name, size) ∷ rest) =
    problem_of name size (stat_size v snapshot name) ++ problems_of v snapshot rest

-- `verify_snapshot`
unfoldable pub verify_snapshot : Volume → (snapshot : String) → Sizes → Bool × List Problem
verify_snapshot v snapshot files = elim (v.snapshots snapshot) [
  | none ↦ (false, no_directory snapshot ∷ [])
  | some _ ↦ let problems = problems_of v snapshot files in (is_empty problems, problems)
]

-- `snapshot_files`
unfoldable pub snapshot_files : Volume → (snapshot : String) → Sizes
snapshot_files v snapshot = v.snapshots snapshot or []

-- Every file of the list stands under the snapshot at its size.
abbrev pub Matches : Volume → (snapshot : String) → Sizes → Type 0
Matches v snapshot files = All (λ (f : String × ℕ). stat_size v snapshot f.0 ≡ some f.1) files

is_size_sound : (o : Option ℕ) (n : ℕ) → is_size o n ≡ true → o ≡ some n
is_size_sound none n h = cc
is_size_sound (some m) n h = ground arith

-- No mismatch is found exactly when every file stands at its size.
pub mismatches-Matches :
    (v : Volume) (snapshot : String) (files : Sizes)
    → mismatches v snapshot files ≡ []
    → Matches v snapshot files
unfolding mismatches
mismatches-Matches v snapshot [] h = tt
mismatches-Matches v snapshot ((name, size) ∷ rest) h =
    elim (Bool-cases (is_size (stat_size v snapshot name) size)) [
      | inl e ↦ (
        is_size_sound (stat_size v snapshot name) size e,
        mismatches-Matches v snapshot rest (rw (mismatches, e) at h),
      )
      | inr e ↦
          let no : ◌≡◌ {A = List String} (name ∷ mismatches v snapshot rest) [] =
            rw (mismatches, e) at h in
          absurd cc
    ]

problem_of-none :
    (name : String) (size : ℕ) (o : Option ℕ)
    → is_empty (problem_of name size o) ≡ true
    → o ≡ some size
problem_of-none name size none h = cc
problem_of-none name size (some m) h = ground arith

is_empty-append {ℓ} :
    {A : Type ℓ} (xs ys : List A)
    → is_empty (xs ++ ys) ≡ true
    → (is_empty xs ≡ true) × (is_empty ys ≡ true)
is_empty-append [] ys h = (refl, h)
is_empty-append (x ∷ xs) ys h = absurd cc

problems_of-Matches :
    (v : Volume) (snapshot : String) (files : Sizes)
    → is_empty (problems_of v snapshot files) ≡ true
    → Matches v snapshot files
unfolding problems_of
problems_of-Matches v snapshot [] h = tt
problems_of-Matches v snapshot ((name, size) ∷ rest) h =
    let parts =
      is_empty-append (problem_of name size (stat_size v snapshot name))
        (problems_of v snapshot rest) h in
    (
      problem_of-none name size (stat_size v snapshot name) parts.0,
      problems_of-Matches v snapshot rest parts.1,
    )

-- A snapshot that passes the verification has every recorded file at its recorded size.
pub verify_snapshot-Matches :
    (v : Volume) (snapshot : String) (files : Sizes)
    → (verify_snapshot v snapshot files).0 ≡ true
    → Matches v snapshot files
unfolding verify_snapshot
verify_snapshot-Matches v snapshot files h = elim (Option-cases (v.snapshots snapshot)) [
  | inl e ↦ absurd (ground arith)
  | inr (d, e) ↦ problems_of-Matches v snapshot files (rw (verify_snapshot, e) at h)
]
