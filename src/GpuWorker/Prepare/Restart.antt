-- ===== src/GpuWorker/Prepare/Restart.antt =====
-- A restart after a preparation that was verified.
use agentic_gpu_platform.Shared.{
  All, Option, Option-cases, String, [], ap, arith, false, inl, inr, is_empty, none, refl, some,
  str_eq_iff, subst, sym, true, ℕ, ◌==◌, ◌∙◌, ◌∷◌, ◌≡◌,
}
use agentic_gpu_platform.GpuWorker.Config.{WorkerConfig, good}
use agentic_gpu_platform.GpuWorker.Volume.{
  Matches, Sizes, Volume, problems_of, size_of, snapshot_files, stat_size, verify_snapshot,
}
use agentic_gpu_platform.GpuWorker.Marker.{ModelState, matches, read_marker, write_marker}
use agentic_gpu_platform.GpuWorker.Download.{download_with_retries}
use agentic_gpu_platform.GpuWorker.Prepare.{
  PreparationOutcome, Surroundings, already_prepared, finish, prepare_cold, prepare_model,
  repair_until_correct, reused, ◌onward◌,
}
use agentic_gpu_platform.GpuWorker.Prepare.Verified.{
  finish-verified, onward-good, prepare_cold-verified,
}

-- The names are different, as those of the files of a directory are.
abbrev pub HasDistinctNames : Sizes → Type 0
HasDistinctNames [] = Unit
HasDistinctNames ((name, size) ∷ rest) = (size_of name rest ≡ none) × HasDistinctNames rest

-- What a list says of each of its entries, read in a longer list that starts with another name.
size_of-later :
    (name : String) (size : ℕ) (rest files : Sizes)
    → size_of name rest ≡ none
    → All (λ (f : String × ℕ). size_of f.0 rest ≡ some f.1) files
    → All (λ (f : String × ℕ). size_of f.0 ((name, size) ∷ rest) ≡ some f.1) files
unfolding size_of
size_of-later name size rest [] absent h = tt
size_of-later name size rest (f ∷ files) absent (h, hs) =
    (ground (arith, str_eq_iff name f.0, h, absent), size_of-later name size rest files absent hs)

size_of_self :
    (files : Sizes)
    → HasDistinctNames files
    → All (λ (f : String × ℕ). size_of f.0 files ≡ some f.1) files
unfolding size_of
size_of_self [] h = tt
size_of_self ((name, size) ∷ rest) (absent, h) = (
  ground (arith, str_eq_iff name name),
  size_of-later name size rest rest absent (size_of_self rest h),
)

problems_of-nothing :
    (v : Volume) (snapshot : String) (files : Sizes)
    → All (λ (f : String × ℕ). stat_size v snapshot f.0 ≡ some f.1) files
    → is_empty (problems_of v snapshot files) ≡ true
unfolding problems_of
problems_of-nothing v snapshot [] h = refl
problems_of-nothing v snapshot ((name, size) ∷ rest) (h, hs) =
    let same : (size == size) ≡ true = ground arith in
    rw (problems_of, h, same) (problems_of-nothing v snapshot rest hs)

stat_size-All :
    (v : Volume) (snapshot : String) (files some_files : Sizes)
    → v.snapshots snapshot ≡ some files
    → All (λ (f : String × ℕ). size_of f.0 files ≡ some f.1) some_files
    → Matches v snapshot some_files
unfolding stat_size
stat_size-All v snapshot files [] e h = tt
stat_size-All v snapshot files (f ∷ rest) e (h, hs) =
    (rw (stat_size, e) h, stat_size-All v snapshot files rest e hs)

-- Files of a directory that is there, recorded with their sizes, are verified.
verify_snapshot-recorded :
    (v : Volume) (snapshot : String)
    → HasDistinctNames (snapshot_files v snapshot)
    → is_empty (snapshot_files v snapshot) ≡ false
    → (verify_snapshot v snapshot (snapshot_files v snapshot)).0 ≡ true
unfolding verify_snapshot
verify_snapshot-recorded v snapshot distinct filled = elim (Option-cases (v.snapshots snapshot)) [
  | inl e ↦ absurd (unfold snapshot_files in ground (arith, e, filled))
  | inr (files, e) ↦
      let same : snapshot_files v snapshot ≡ files = unfold snapshot_files in rw e refl in
      rw (verify_snapshot, e, same)
        (problems_of-nothing v snapshot files (
          stat_size-All v snapshot files files e
            (size_of_self files (subst HasDistinctNames same distinct))))
]

reusable-verified :
    (c : WorkerConfig) (v : Volume) (m : ModelState)
    → read_marker v ≡ some m
    → matches m c.model_id c.model_revision ≡ true
    → m.verified ≡ true
    → (verify_snapshot v m.snapshot_path m.files).0 ≡ true
    → already_prepared c v ≡ some m
unfolding already_prepared
reusable-verified c v m e asked proven sized = rw (already_prepared, e, asked, proven, sized) refl

write_marker-files :
    (v : Volume) (m : ModelState) (snapshot : String)
    → snapshot_files v snapshot ≡ snapshot_files (write_marker v m) snapshot
unfolding write_marker snapshot_files
write_marker-files v m snapshot = refl

recorded_files :
    (s : Surroundings) (c : WorkerConfig) (expected : Option Sizes) (v : Volume)
    (o : PreparationOutcome)
    → (prepare_cold s c expected v).1 ≡ good o
    → o.state.files ≡ snapshot_files (prepare_cold s c expected v).0 o.state.snapshot_path
unfolding prepare_cold
recorded_files s c expected v o h =
    let d = download_with_retries s.lower s.fetch c v in
    let r = d onward repair_until_correct s c expected in
    let (a, e1, q1) = onward-good r (finish s c) o h in
    let (proven, path, written, version, files) =
      finish-verified s c r.0 a o (ap (λ x. x.1) (sym q1) ∙ h) in
    let last = ap (λ x. x.0) q1 ∙ written in
    files
    ∙ ap (snapshot_files r.0) (sym path)
    ∙ write_marker-files r.0 o.state o.state.snapshot_path
    ∙ ap (λ w. snapshot_files w o.state.snapshot_path) (sym last)

-- After a preparation that downloaded and verified a model of the revision asked for, whose files
-- have distinct names and are at least one, a restart with the same configuration reuses it:
-- whatever the surroundings are then, nothing is downloaded and the volume stays as it is.
pub prepare_model-restart :
    (s later : Surroundings) (c : WorkerConfig) (expected : Option Sizes) (v : Volume)
    (o : PreparationOutcome)
    → (prepare_cold s c expected v).1 ≡ good o
    → o.state.verified ≡ true
    → matches o.state c.model_id c.model_revision ≡ true
    → HasDistinctNames o.state.files
    → is_empty o.state.files ≡ false
    → prepare_model later c (prepare_cold s c expected v).0
      ≡ ((prepare_cold s c expected v).0, good (reused o.state))
unfolding prepare_model
prepare_model-restart s later c expected v o h proven asked distinct filled =
    let w = (prepare_cold s c expected v).0 in
    let (sizes, _, _, kept) = prepare_cold-verified s c expected v o h proven in
    let files = recorded_files s c expected v o h in
    let sized =
      subst (λ x. (verify_snapshot w o.state.snapshot_path x).0 ≡ true) (sym files)
        (verify_snapshot-recorded w o.state.snapshot_path (subst HasDistinctNames files distinct)
          (subst (λ x. is_empty x ≡ false) files filled)) in
    rw (prepare_model, reusable-verified c w o.state kept asked proven sized) refl
