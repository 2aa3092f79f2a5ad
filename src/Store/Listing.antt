-- ===== src/Store/Listing.antt =====
-- internal/store/memory.go: the lists of datasets, event files and jobs, by time of creation.
-- `sort.Slice` may leave rows of the same time in any order; here it is the order of the map's entries.
use market_replay.Prelude.{
  String, List, [], ◌∷◌, none, some, if◌then◌else◌, ◌==◌, All, Bool-cases, inl, inr, arith, if-elim,
}
use market_replay.Prelude.Int.{ℤ, ltb_ℤ, ◌≤ℤ◌}
use market_replay.Prelude.Dict.{Dict, lookup}
use market_replay.Prelude.Result.{Result, ok, err}
use market_replay.Store.{Dataset, EventFile, ReplayJob, StoreError, not_found}
use market_replay.Store.Memory.{MemoryRepository}
use mathlib.Core.List.{Perm}
use mathlib.Core.List.Perm

abbrev pub values {ℓ} : {A : Type ℓ} → Dict A → List A
values [] = []
values ((key, value) ∷ rest) = value ∷ values rest

module _ {A : Type 0} (created : A → ℤ) where
  abbrev pub sorted_in : A → List A → List A
  sorted_in x [] = x ∷ []
  sorted_in x (y ∷ ys) =
      let rest = sorted_in x ys in if ltb_ℤ (created y) (created x) then y ∷ rest else x ∷ y ∷ ys

  -- `sort.Slice(items, func(i, j int) bool { return items[i].CreatedAt.Before(items[j].CreatedAt) })`
  abbrev pub sort_by_creation : List A → List A
  sort_by_creation [] = []
  sort_by_creation (x ∷ xs) = sorted_in x (sort_by_creation xs)

  -- No row was created before the row in front of it.
  abbrev pub IsByCreation : List A → Type 0
  IsByCreation [] = Unit
  IsByCreation (x ∷ xs) = All (λ y. created x ≤ℤ created y) xs × IsByCreation xs

  pub sorted_in-All :
      (P : A → Type 0) (x : A) (xs : List A) → P x → All P xs → All P (sorted_in x xs)
  sorted_in-All P x [] p all = (p, tt)
  sorted_in-All P x (y ∷ ys) p (q, all) =
      if-elim (All P) (ltb_ℤ (created y) (created x)) (q, sorted_in-All P x ys p all) (p, (q, all))

  All-above :
      (a b : ℤ) (xs : List A) → a ≤ℤ b → All (λ y. b ≤ℤ created y) xs → All (λ y. a ≤ℤ created y) xs
  All-above a b [] h all = tt
  All-above a b (x ∷ xs) h (p, all) = (omega (arith, h, p), All-above a b xs h all)

  sorted_in-IsByCreation : (x : A) (xs : List A) → IsByCreation xs → IsByCreation (sorted_in x xs)
  sorted_in-IsByCreation x [] s = (tt, tt)
  sorted_in-IsByCreation x (y ∷ ys) (below, s) = elim (Bool-cases (ltb_ℤ (created y) (created x))) [
    | inl before ↦ rw before (
      sorted_in-All (λ z. created y ≤ℤ created z) x ys (ground (arith, before)) below,
      sorted_in-IsByCreation x ys s,
    )
    | inr after ↦
        let first : created x ≤ℤ created y = ground (arith, after) in
        rw after ((first, All-above (created x) (created y) ys first below), (below, s))
  ]

  pub sort_by_creation-IsByCreation : (xs : List A) → IsByCreation (sort_by_creation xs)
  sort_by_creation-IsByCreation [] = tt
  sort_by_creation-IsByCreation (x ∷ xs) =
      sorted_in-IsByCreation x (sort_by_creation xs) (sort_by_creation-IsByCreation xs)

  pub sort_by_creation-All : (P : A → Type 0) (xs : List A) → All P xs → All P (sort_by_creation xs)
  sort_by_creation-All P [] all = tt
  sort_by_creation-All P (x ∷ xs) (p, all) =
      sorted_in-All P x (sort_by_creation xs) p (sort_by_creation-All P xs all)

  sorted_in-Perm : (x : A) (xs : List A) → Perm (sorted_in x xs) (x ∷ xs)
  sorted_in-Perm x [] = Perm.rfl
  sorted_in-Perm x (y ∷ ys) =
      if-elim (λ l. Perm l (x ∷ y ∷ ys)) (ltb_ℤ (created y) (created x))
        (Perm.trans (Perm.cons y (sorted_in-Perm x ys)) (Perm.swap x y ys)) Perm.rfl

  pub sort_by_creation-Perm : (xs : List A) → Perm (sort_by_creation xs) xs
  sort_by_creation-Perm [] = Perm.rfl
  sort_by_creation-Perm (x ∷ xs) =
      Perm.trans (sorted_in-Perm x (sort_by_creation xs)) (Perm.cons x (sort_by_creation-Perm xs))

unfoldable pub list_datasets : MemoryRepository → Result StoreError (List Dataset)
list_datasets r = ok (sort_by_creation (λ dataset. dataset.created_at) (values r.datasets))

abbrev pub files_of : String → List EventFile → List EventFile
files_of dataset_id [] = []
files_of dataset_id (file ∷ files) =
    let rest = files_of dataset_id files in
    if file.dataset_id == dataset_id then file ∷ rest else rest

unfoldable pub list_event_files : String → MemoryRepository → Result StoreError (List EventFile)
list_event_files dataset_id r = elim (lookup dataset_id r.datasets) [
  | none ↦ err not_found
  | some dataset ↦
      ok (sort_by_creation (λ file. file.created_at) (files_of dataset_id (values r.event_files)))
]

unfoldable pub list_replay_jobs : MemoryRepository → Result StoreError (List ReplayJob)
list_replay_jobs r = ok (sort_by_creation (λ job. job.created_at) (values r.jobs))
