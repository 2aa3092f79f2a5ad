-- ===== src/Store/Summaries.antt =====
-- internal/store/reports.go: a summary counts each error once.
use market_replay.Prelude.{
  ℕ, ◌+◌, ◌<◌, ◌^◌, String, false, List, [], ◌∷◌, Option, none, some, ◌≡◌, refl, ap, ◌∙◌, subst,
  All, length, arith,
}
use market_replay.Prelude.Int.{pos-inc64, pos-add64, ℤ, pos, pos_part, ◌<ℤ◌, eqb_ℤ, negsuc}
use market_replay.Prelude.Dict.{Dict, lookup, insert, get_or, HasKey}
use market_replay.Prelude.Result.{ok, ok-injective}
use market_replay.Store.{Dataset, EventFile, ReplayJob, ValidationError}
use market_replay.Store.Memory.{
  MemoryRepository, get_dataset, get_event_file, list_validation_errors, new_memory_repository,
}
use market_replay.Store.Listing.{values, list_replay_jobs, sort_by_creation-All}
use market_replay.Store.Calls.{Run}
use market_replay.Store.Integrity.{JobIsLinked}
use market_replay.Store.Reachable.{Run-IsConsistent}
use market_replay.Store.Distinct.{Run-HasDistinctKeys, values-All}
use market_replay.Store.Reports.{
  ValidationErrorSummary, first_summary, add_error, current_summary, summary_key, summaries_of,
  summarize_validation_errors,
}
use market_replay.Store.ErrorSummary.{
  sort_slice, report_before, summary_before, item_key, add_item, merged_item, merge_items,
  job_summaries, add_job_errors, merge_jobs, build_validation_error_summary,
}
use market_replay.Store.Totals.{
  IsPositive, total_count, CountsTo, count_before, count_before-le, lookup-IsPositive,
  CountsTo-insert, sort_slice-CountsTo, CountsFall, sort_slice-CountsFall, summary_before-falls,
  summary_before-stays,
}

positive_lem : (z : ℤ) → pos 0 <ℤ z → z ≡ pos (pos_part z)
positive_lem (pos n) h = refl
positive_lem (negsuc n) h = ground (arith, h)

not_zero : (n : ℕ) → 0 < n → eqb_ℤ (pos n) (pos 0) ≡ false
not_zero n h = ground (arith, h)

-- How many errors are recorded for the jobs.
abbrev pub errors_in : MemoryRepository → List ReplayJob → ℕ
errors_in r [] = 0
errors_in r (job ∷ jobs) = length (get_or job.id [] r.errors) + errors_in r jobs

abbrev HasSources : MemoryRepository → ReplayJob → Type 0
HasSources r job = HasKey job.dataset_id r.datasets × HasKey job.event_file_id r.event_files

module _ (day : ℤ → String) where
  abbrev order : List ValidationErrorSummary → List ValidationErrorSummary
  order = sort_slice report_before

  new_count :
      (dataset : Dataset) (file : EventFile) (e : ValidationError)
      (o : Option ValidationErrorSummary)
      → count_before o + 1 < 2 ^ 63
      → ((s : ValidationErrorSummary) → o ≡ some s → IsPositive s)
      → (add_error day order e (current_summary day order dataset file e o)).count
        ≡ pos (count_before o + 1)
  unfolding add_error current_summary first_summary
  new_count dataset file e none small positive = pos-inc64 0 (ground arith)
  new_count dataset file e (some s) small positive =
      let is_pos = positive_lem s.count (positive s refl) in
      ground (
        arith,
        is_pos,
        pos-inc64 (pos_part s.count) small,
        not_zero (pos_part s.count),
        positive s refl,
      )

  summaries_of-CountsTo :
      (dataset : Dataset) (file : EventFile) (es : List ValidationError) (n : ℕ)
      (m : Dict ValidationErrorSummary)
      → CountsTo n (values m)
      → n + length es < 2 ^ 63
      → CountsTo (n + length es) (values (summaries_of day order dataset file es m))
  unfolding summaries_of
  summaries_of-CountsTo dataset file [] n m c small =
      subst (λ k. CountsTo k (values m)) (ground arith) c
  summaries_of-CountsTo dataset file (e ∷ es) n m c small =
      let key = summary_key day order e in
      let new = add_error day order e (current_summary day order dataset file e (lookup key m)) in
      let added =
        new_count dataset file e (lookup key m)
          (ground (arith, small, count_before-le key m, c.counted))
          (λ s h. lookup-IsPositive key m s c.all_positive h) in
      subst (λ k. CountsTo k (values (summaries_of day order dataset file es (insert key new m))))
        (ground arith)
        (summaries_of-CountsTo dataset file es (n + 1) (insert key new m)
          (CountsTo-insert n 1 key new m c (ground arith) added) (ground arith))

  job_summaries-CountsTo :
      (dataset : Dataset) (file : EventFile) (es : List ValidationError)
      → length es < 2 ^ 63
      → CountsTo (length es) (job_summaries day dataset file es)
  unfolding summarize_validation_errors
  job_summaries-CountsTo dataset file es small =
      sort_slice-CountsTo report_before (length es)
        (values (summaries_of day order dataset file es []))
        (subst (λ n. CountsTo n (values (summaries_of day order dataset file es []))) (ground arith)
          (summaries_of-CountsTo dataset file es 0 [] (record { all_positive = tt; counted = refl })
            (ground (arith, small))))

  merged_count :
      (item : ValidationErrorSummary) (o : Option ValidationErrorSummary)
      → IsPositive item
      → ((s : ValidationErrorSummary) → o ≡ some s → IsPositive s)
      → count_before o + pos_part item.count < 2 ^ 63
      → (merged_item item o).count ≡ pos (count_before o + pos_part item.count)
  unfolding merged_item add_item
  merged_count item none p q small = positive_lem item.count p ∙ ap pos (omega arith)
  merged_count item (some s) p q small = ground (
    arith,
    positive_lem s.count (q s refl),
    positive_lem item.count p,
    q s refl,
    pos-add64 (pos_part s.count) (pos_part item.count) small,
    not_zero (pos_part s.count),
  )

  merge_items-CountsTo :
      (items : List ValidationErrorSummary) (n : ℕ) (m : Dict ValidationErrorSummary)
      → All IsPositive items
      → CountsTo n (values m)
      → n + total_count items < 2 ^ 63
      → CountsTo (n + total_count items) (values (merge_items items m))
  unfolding merge_items
  merge_items-CountsTo [] n m all c small = subst (λ k. CountsTo k (values m)) (ground arith) c
  merge_items-CountsTo (item ∷ items) n m (p, all) c small =
      let key = item_key item in
      let new = merged_item item (lookup key m) in
      let added =
        merged_count item (lookup key m) p (λ s h. lookup-IsPositive key m s c.all_positive h)
          (ground (arith, small, count_before-le key m, c.counted)) in
      subst (λ k. CountsTo k (values (merge_items items (insert key new m)))) (ground arith)
        (merge_items-CountsTo items (n + pos_part item.count) (insert key new m) all
          (CountsTo-insert n (pos_part item.count) key new m c (ground (arith, p)) added)
          (ground (arith, small)))

  merge_jobs-CountsTo :
      (r : MemoryRepository) (jobs : List ReplayJob) (n : ℕ) (m : Dict ValidationErrorSummary)
      → All (HasSources r) jobs
      → CountsTo n (values m)
      → n + errors_in r jobs < 2 ^ 63
      → (merged : Dict ValidationErrorSummary) × (merge_jobs day r jobs m ≡ ok merged)
        × CountsTo (n + errors_in r jobs) (values merged)
  unfolding merge_jobs add_job_errors get_dataset get_event_file list_validation_errors HasKey
  merge_jobs-CountsTo r [] n m all c small =
      (m, refl, subst (λ k. CountsTo k (values m)) (ground arith) c)
  merge_jobs-CountsTo r (job ∷ jobs) n m (((dataset, d), (file, f)), all) c small =
      let es = get_or job.id [] r.errors in
      let items = job_summaries day dataset file es in
      let summed = job_summaries-CountsTo dataset file es (ground (arith, small)) in
      let added =
        merge_items-CountsTo items n m summed.all_positive c
          (ground (arith, small, summed.counted)) in
      let (merged, ran, counts) =
        merge_jobs-CountsTo r jobs (n + length es) (merge_items items m) all
          (subst (λ k. CountsTo (n + k) (values (merge_items items m))) summed.counted added)
          (ground (arith, small)) in
      (
        merged,
        ground (arith, d, f, ran),
        subst (λ k. CountsTo k (values merged)) (ground arith) counts,
      )

  -- The summary of the errors of all jobs, after any calls on a new repository: it succeeds, each row counts
  -- something, a row counts no more than the row in front of it, and all rows together count each error
  -- that is recorded for a job once, where there are less than 2 ^ 63 errors.
  pub build_validation_error_summary-total_count :
      (r : MemoryRepository) (jobs : List ReplayJob)
      → Run new_memory_repository r
      → list_replay_jobs r ≡ ok jobs
      → errors_in r jobs < 2 ^ 63
      → (rows : List ValidationErrorSummary) × (build_validation_error_summary day r ≡ ok rows)
        × All (λ row. pos 0 <ℤ row.count) rows
        × CountsFall rows
        × (total_count rows ≡ errors_in r jobs)
  unfolding build_validation_error_summary list_replay_jobs JobIsLinked
  build_validation_error_summary-total_count r jobs run listed small =
      let c = Run-IsConsistent r run in
      let sources : All (HasSources r) (values r.jobs) =
        values-All (HasSources r) r.jobs (Run-HasDistinctKeys run) (λ id job h.
          let (named, dataset, file, linked) = c.jobs_linked id job h in (dataset, file)) in
      let all : All (HasSources r) jobs =
        subst (All (HasSources r)) (ok-injective listed)
          (sort_by_creation-All (λ job. job.created_at) (HasSources r) (values r.jobs) sources) in
      let (merged, ran, counts) =
        merge_jobs-CountsTo r jobs 0 [] all (record { all_positive = tt; counted = refl })
          (ground (arith, small)) in
      let sorted =
        sort_slice-CountsTo summary_before (0 + errors_in r jobs) (values merged) counts in
      (
        sort_slice summary_before (values merged),
        ground (arith, listed, ran),
        sorted.all_positive,
        sort_slice-CountsFall summary_before summary_before-falls summary_before-stays
            (values merged),
        sorted.counted ∙ omega arith,
      )
