-- ===== src/Store/FileListing.antt =====
-- internal/store/memory.go: ListEventFiles on a repository that calls have built.
use market_replay.Prelude.{
  String, List, [], ◌∷◌, Option, none, some, if◌then◌else◌, ◌==◌, ◌≡◌, ◌≢◌, refl, sym, All, inl,
  inr, ◌⊎◌, Option-elim, if-elim, arith, eq_iff, ◌∙◌,
}
use market_replay.Prelude.Int.{ℤ, ltb_ℤ}
use market_replay.Prelude.Dict.{Dict, lookup, Every}
use market_replay.Prelude.Result.{Result, ok, err}
use market_replay.Store.{EventFile, StoreError, not_found}
use market_replay.Store.Memory.{MemoryRepository, new_memory_repository}
use market_replay.Store.Calls.{Run}
use market_replay.Store.Integrity.{FileIsLinked, new_memory_repository-IsConsistent}
use market_replay.Store.Reachable.{run_on-IsConsistent}
use market_replay.Store.Distinct.{HasDistinctKeys, values-All}
use market_replay.Store.FileKeys.{run_files-HasDistinctKeys}
use market_replay.Store.Listing.{
  values, files_of, list_event_files, sorted_in, sort_by_creation, sorted_in-All,
  sort_by_creation-All, IsByCreation, sort_by_creation-IsByCreation,
}

-- The first row with the id.
abbrev pub row_of : String → List EventFile → Option EventFile
row_of id [] = none
row_of id (file ∷ files) = let rest = row_of id files in if file.id == id then some file else rest

-- No two rows have the same id.
abbrev pub IsDistinct : List EventFile → Type 0
IsDistinct [] = Unit
IsDistinct (x ∷ xs) = All (λ y. x.id ≢ y.id) xs × IsDistinct xs

abbrev made_at : EventFile → ℤ
made_at file = file.created_at

sorted_in-IsDistinct :
    (x : EventFile) (xs : List EventFile)
    → All (λ y. x.id ≢ y.id) xs
    → IsDistinct xs
    → IsDistinct (sorted_in made_at x xs)
sorted_in-IsDistinct x [] other d = (tt, tt)
sorted_in-IsDistinct x (y ∷ ys) (ne, other) (apart, d) =
    if-elim IsDistinct (ltb_ℤ y.created_at x.created_at)
      (
        sorted_in-All made_at (λ z. y.id ≢ z.id) x ys (λ e. ne (sym e)) apart,
        sorted_in-IsDistinct x ys other d,
      )
      ((ne, other), (apart, d))

sort-IsDistinct : (xs : List EventFile) → IsDistinct xs → IsDistinct (sort_by_creation made_at xs)
sort-IsDistinct [] d = tt
sort-IsDistinct (x ∷ xs) (other, d) =
    sorted_in-IsDistinct x (sort_by_creation made_at xs)
      (sort_by_creation-All made_at (λ y. x.id ≢ y.id) xs other) (sort-IsDistinct xs d)

row_of-sorted_in :
    (id : String) (x : EventFile) (xs : List EventFile)
    → All (λ y. x.id ≢ y.id) xs
    → row_of id (sorted_in made_at x xs) ≡ (if x.id == id then some x else row_of id xs)
row_of-sorted_in id x [] other = refl
row_of-sorted_in id x (y ∷ ys) (ne, other) =
    ground (arith, ne, row_of-sorted_in id x ys other, eq_iff x.id id, eq_iff y.id id)

row_of-sort :
    (id : String) (xs : List EventFile)
    → IsDistinct xs
    → row_of id (sort_by_creation made_at xs) ≡ row_of id xs
row_of-sort id [] d = refl
row_of-sort id (x ∷ xs) (other, d) =
    row_of-sorted_in id x (sort_by_creation made_at xs)
      (sort_by_creation-All made_at (λ y. x.id ≢ y.id) xs other)
    ∙ ground (arith, row_of-sort id xs d)

files_of-All :
    (P : EventFile → Type 0) (dataset_id : String) (xs : List EventFile)
    → All P xs
    → All P (files_of dataset_id xs)
files_of-All P dataset_id [] all = tt
files_of-All P dataset_id (x ∷ xs) (p, all) =
    if-elim (All P) (x.dataset_id == dataset_id) (p, files_of-All P dataset_id xs all)
      (files_of-All P dataset_id xs all)

module _ (dataset_id : String) where
  tail_named :
      (key : String) (value : EventFile) (m : Dict EventFile)
      → lookup key m ≡ none
      → Every (λ k (f : EventFile). f.id ≡ k) ((key, value) ∷ m)
      → Every (λ k (f : EventFile). f.id ≡ k) m
  unfolding lookup
  tail_named key value m alone named wanted file h =
      named wanted file (ground (arith, h, alone, eq_iff key wanted))

  head_named :
      (key : String) (value : EventFile) (m : Dict EventFile)
      → Every (λ k (f : EventFile). f.id ≡ k) ((key, value) ∷ m)
      → value.id ≡ key
  unfolding lookup
  head_named key value m named = named key value (ground (arith, eq_iff key key))

  -- The file that is stored, if it is one of the dataset.
  abbrev pub file_of_dataset : Option EventFile → Option EventFile
  file_of_dataset none = none
  file_of_dataset (some file) = if file.dataset_id == dataset_id then some file else none

  row_of-files_of :
      (id : String) (m : Dict EventFile)
      → HasDistinctKeys m
      → Every (λ k (f : EventFile). f.id ≡ k) m
      → row_of id (files_of dataset_id (values m)) ≡ file_of_dataset (lookup id m)
  unfolding lookup HasDistinctKeys
  row_of-files_of id [] d named = refl
  row_of-files_of id ((key, value) ∷ rest) (alone, d) named = ground (
    arith,
    alone,
    head_named key value rest named,
    row_of-files_of id rest d (tail_named key value rest alone named),
    eq_iff key id,
    eq_iff value.id id,
  )

  files_of-IsDistinct :
      (m : Dict EventFile)
      → HasDistinctKeys m
      → Every (λ k (f : EventFile). f.id ≡ k) m
      → IsDistinct (files_of dataset_id (values m))
  unfolding HasDistinctKeys
  files_of-IsDistinct [] d named = tt
  files_of-IsDistinct ((key, value) ∷ rest) (alone, d) named =
      let named' = tail_named key value rest alone named in
      let apart : All (λ y. value.id ≢ y.id) (values rest) =
        values-All (λ (y : EventFile). value.id ≢ y.id) rest d
          (λ wanted y h e.
            ground (arith, alone, h, e, named' wanted y h, head_named key value rest named)) in
      let d' = files_of-IsDistinct rest d named' in
      if-elim IsDistinct (value.dataset_id == dataset_id)
        (files_of-All (λ y. value.id ≢ y.id) dataset_id (values rest) apart, d') d'

  -- The rows are the files of the dataset, each once, and none was created before the one in front
  -- of it.
  abbrev pub IsFileList : MemoryRepository → List EventFile → Type 0
  IsFileList r rows =
      IsByCreation (λ (file : EventFile). file.created_at) rows
      × IsDistinct rows
      × ((id : String) → row_of id rows ≡ file_of_dataset (lookup id r.event_files))

  abbrev pub Listed : MemoryRepository → Result StoreError (List EventFile) → Type 0
  Listed r out =
      ((lookup dataset_id r.datasets ≡ none) × (out ≡ err not_found))
      ⊎ ((rows : List EventFile) × (out ≡ ok rows) × IsFileList r rows)

  -- On a repository that calls have built, listing the files of a dataset gives ErrNotFound without the
  -- dataset. Otherwise it gives rows with different ids, none created before the one in front of it,
  -- where the row with an id is the file stored under that id, if there is one and it belongs to the
  -- dataset, and there is no such row otherwise.
  pub list_event_files-Listed :
      {r : MemoryRepository}
      → Run new_memory_repository r
      → Listed r (list_event_files dataset_id r)
  unfolding list_event_files new_memory_repository HasDistinctKeys FileIsLinked
  list_event_files-Listed {r} run =
      let d : HasDistinctKeys r.event_files = run_files-HasDistinctKeys run tt in
      let c = run_on-IsConsistent run new_memory_repository-IsConsistent in
      let named : Every (λ k (f : EventFile). f.id ≡ k) r.event_files =
        λ key file h. (c.files_linked key file h).0 in
      let files = files_of dataset_id (values r.event_files) in
      let distinct = files_of-IsDistinct r.event_files d named in
      Option-elim (Listed r) (lookup dataset_id r.datasets) (λ missing. inl (missing, refl))
        (λ _ _. inr (
          sort_by_creation made_at files,
          refl,
          (
            sort_by_creation-IsByCreation made_at files,
            sort-IsDistinct files distinct,
            λ id. row_of-sort id files distinct ∙ row_of-files_of id r.event_files d named,
          ),
        ))
