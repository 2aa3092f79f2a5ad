-- ===== src/Store/ErrorSummary.antt =====
-- internal/store/reports.go: the sorted summaries of a job's errors, and of the errors of all jobs.
use text.Mathlib.Text.{is_lt}
use Prim.Native.String.{◌++◌, compare}
use market_replay.Prelude.{
  String, Bool, not, ◌||◌, List, [], ◌∷◌, Option, none, some, if◌then◌else◌, ◌==◌,
}
use market_replay.Prelude.Int.{ℤ, pos, ltb_ℤ, eqb_ℤ, add64}
use market_replay.Prelude.Dict.{Dict, lookup, insert}
use market_replay.Prelude.Result.{Result, ok, ◌>>=◌}
use market_replay.Store.{Dataset, EventFile, ReplayJob, ValidationError, StoreError}
use market_replay.Store.Memory.{
  MemoryRepository, get_dataset, get_event_file, list_validation_errors,
}
use market_replay.Store.Listing.{values, list_replay_jobs}
use market_replay.Store.Reports.{ValidationErrorSummary, summarize_validation_errors}

abbrev pub text_before : String → String → Bool
text_before a b = is_lt (compare a b)

module _ {A : Type 0} (before : A → A → Bool) where
  abbrev pub sorted_at : A → List A → List A
  sorted_at x [] = x ∷ []
  sorted_at x (y ∷ ys) = let rest = sorted_at x ys in if before y x then y ∷ rest else x ∷ y ∷ ys

  -- `sort.Slice(rows, before)`, in one of the orders that it may leave.
  abbrev pub sort_slice : List A → List A
  sort_slice [] = []
  sort_slice (x ∷ xs) = sorted_at x (sort_slice xs)

-- The order at the end of summarizeValidationErrors.
unfoldable pub report_before : ValidationErrorSummary → ValidationErrorSummary → Bool
report_before a b =
    if not (eqb_ℤ a.count b.count)
    then ltb_ℤ b.count a.count
    else if not (a.type == b.type)
    then text_before a.type b.type
    else text_before a.symbol b.symbol

-- The order at the end of BuildValidationErrorSummary.
unfoldable pub summary_before : ValidationErrorSummary → ValidationErrorSummary → Bool
summary_before a b =
    if not (eqb_ℤ a.count b.count)
    then ltb_ℤ b.count a.count
    else if not (a.type == b.type)
    then text_before a.type b.type
    else if not (a.file_path == b.file_path)
    then text_before a.file_path b.file_path
    else text_before a.symbol b.symbol

abbrev pub item_key : ValidationErrorSummary → String
item_key item =
    item.type ++ ("\0" ++ (item.symbol ++ ("\0" ++ (item.event_file_id ++ ("\0" ++ item.day)))))

-- From `existing.Count += item.Count` on.
unfoldable pub add_item : ValidationErrorSummary → ValidationErrorSummary → ValidationErrorSummary
add_item item s = record s {
  count = add64 s.count item.count;
  first_line =
      if ltb_ℤ item.first_line s.first_line || eqb_ℤ s.first_line (pos 0)
      then item.first_line
      else s.first_line;
  last_line = if ltb_ℤ s.last_line item.last_line then item.last_line else s.last_line;
  first_seen_at =
      if eqb_ℤ s.first_seen_at (pos 0) || ltb_ℤ item.first_seen_at s.first_seen_at
      then item.first_seen_at
      else s.first_seen_at;
  last_seen_at =
      if ltb_ℤ s.last_seen_at item.last_seen_at then item.last_seen_at else s.last_seen_at;
}

-- What is stored for an item, from what `summaries[key]` was.
unfoldable pub merged_item :
    ValidationErrorSummary → Option ValidationErrorSummary → ValidationErrorSummary
merged_item item none = item
merged_item item (some existing) =
    if eqb_ℤ existing.count (pos 0) then item else add_item item existing

unfoldable pub merge_items :
    List ValidationErrorSummary → Dict ValidationErrorSummary → Dict ValidationErrorSummary
merge_items [] m = m
merge_items (item ∷ items) m =
    merge_items items (insert (item_key item) (merged_item item (lookup (item_key item) m)) m)

module _ (day : ℤ → String) where
  -- The summaries of one job's errors.
  abbrev pub job_summaries :
      Dataset → EventFile → List ValidationError → List ValidationErrorSummary
  job_summaries = summarize_validation_errors day (sort_slice report_before)

  -- One round of the loop over the jobs.
  unfoldable pub add_job_errors :
      MemoryRepository
      → ReplayJob
      → Dict ValidationErrorSummary
      → Result StoreError (Dict ValidationErrorSummary)
  add_job_errors r job m = get_dataset job.dataset_id r >>= λ dataset.
      get_event_file job.event_file_id r >>= λ file. list_validation_errors job.id r >>= λ errs.
      ok (merge_items (job_summaries dataset file errs) m)

  unfoldable pub merge_jobs :
      MemoryRepository
      → List ReplayJob
      → Dict ValidationErrorSummary
      → Result StoreError (Dict ValidationErrorSummary)
  merge_jobs r [] m = ok m
  merge_jobs r (job ∷ jobs) m = add_job_errors r job m >>= λ merged. merge_jobs r jobs merged

  unfoldable pub build_validation_error_summary :
      MemoryRepository → Result StoreError (List ValidationErrorSummary)
  build_validation_error_summary r = list_replay_jobs r >>= λ jobs.
      merge_jobs r jobs [] >>= λ m. ok (sort_slice summary_before (values m))
