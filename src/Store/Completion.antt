-- ===== src/Store/Completion.antt =====
-- internal/store/memory.go: what CompleteReplayJob records, and that it keeps the maps consistent.
use market_replay.Prelude.{
  ℕ, suc, String, List, [], ◌∷◌, ◌++◌, some, if◌then◌else◌, ◌≡◌, refl, sym, ◌==◌, eq_iff, if-elim,
  Option-elim, arith, All, All-append, append_assoc, append-nil,
}
use market_replay.Prelude.Int.{ℤ}
use market_replay.Prelude.Dict.{
  Dict, lookup, insert, get_or, HasKey, Every, Every-insert, lookup-insert, lookup-insert_self,
}
use market_replay.Store.{ReplayJob, ReplayMetric, ValidationError, CompleteReplayJobParams}
use market_replay.Store.Memory.{
  MemoryRepository, Returns, complete_replay_job, stamped_metric, stamped_errors, append_errors,
  completed_job,
}
use market_replay.Store.Integrity.{
  IsConsistent, FileIsLinked, JobIsLinked, KeyIsLinked, MetricsAreLinked, ErrorsAreLinked,
  SameLinks, changed_job-IsConsistent,
}

stamped_errors-All :
    (new_id : ℕ → String) (k : ℕ) (id : String) (now : ℤ) (es : List ValidationError)
    → All (λ e. e.job_id ≡ id) (stamped_errors new_id k id now es)
unfolding stamped_errors
stamped_errors-All new_id k id now [] = tt
stamped_errors-All new_id k id now (e ∷ es) = (refl, stamped_errors-All new_id (suc k) id now es)

-- What is recorded under a key is the map's, or nothing.
get_or-All {ℓ κ} :
    {A : Type ℓ} (P : A → Type κ) (key : String) (m : Dict (List A))
    → ((xs : List A) → lookup key m ≡ some xs → All P xs)
    → All P (get_or key [] m)
get_or-All P key m all = Option-elim (All P) (lookup key m) (λ _. tt) (λ xs h. all xs h)

module _ (r : MemoryRepository) (id : String) (there : HasKey id r.jobs) where
  put_metric-IsConsistent :
      (m : ReplayMetric)
      → m.job_id ≡ id
      → IsConsistent r
      → IsConsistent
          (record r { metrics = insert id (get_or id [] r.metrics ++ (m ∷ [])) r.metrics })
  unfolding FileIsLinked JobIsLinked KeyIsLinked MetricsAreLinked ErrorsAreLinked
  put_metric-IsConsistent m of_job c = record {
    files_linked = c.files_linked;
    jobs_linked = c.jobs_linked;
    keys_linked = c.keys_linked;
    metrics_linked =
        Every-insert _ id _ r.metrics
          (
            there,
            All-append _ _ _
                (get_or-All (λ n. n.job_id ≡ id) id r.metrics
                  (λ ms h. (c.metrics_linked id ms h).1))
                (of_job, tt),
          )
          c.metrics_linked;
    errors_linked = c.errors_linked;
  }

  append_errors-Linked :
      (es : List ValidationError) (m : Dict (List ValidationError))
      → All (λ e. e.job_id ≡ id) es
      → Every (ErrorsAreLinked r) m
      → Every (ErrorsAreLinked r) (append_errors id es m)
  unfolding ErrorsAreLinked
  append_errors-Linked [] m of_job all = all
  append_errors-Linked (e ∷ es) m (first, rest) all = append_errors-Linked es _ rest (
      Every-insert _ id _ m
        (
          there,
          All-append _ _ _ (get_or-All (λ n. n.job_id ≡ id) id m (λ old h. (all id old h).1))
              (first, tt),
        )
        all)

  put_errors-IsConsistent :
      (es : List ValidationError)
      → All (λ e. e.job_id ≡ id) es
      → IsConsistent r
      → IsConsistent (record r { errors = append_errors id es r.errors })
  unfolding FileIsLinked JobIsLinked KeyIsLinked MetricsAreLinked ErrorsAreLinked
  put_errors-IsConsistent es of_job c = record {
    files_linked = c.files_linked;
    jobs_linked = c.jobs_linked;
    keys_linked = c.keys_linked;
    metrics_linked = c.metrics_linked;
    errors_linked = append_errors-Linked es r.errors of_job c.errors_linked;
  }

pub complete_replay_job-IsConsistent :
    (new_id : ℕ → String) (now : ℤ) (id : String) (params : CompleteReplayJobParams)
    (r : MemoryRepository)
    → IsConsistent r
    → IsConsistent (complete_replay_job new_id now id params r).0
unfolding complete_replay_job stamped_metric SameLinks HasKey
complete_replay_job-IsConsistent new_id now id params r c =
    Option-elim (λ (out : Returns ReplayJob). IsConsistent out.0) (lookup id r.jobs) (λ _. c)
      (λ job there.
        let r1 : MemoryRepository = record r { jobs = insert id (completed_job now job) r.jobs } in
        let found : HasKey id r1.jobs = (completed_job now job, lookup-insert_self id _ r.jobs) in
        let c1 : IsConsistent r1 =
          changed_job-IsConsistent r id job (completed_job now job) there (refl, refl, refl, refl)
            c in
        let metric = stamped_metric (new_id 0) id now params.metric in
        let r2 : MemoryRepository = record r1 {
          metrics = insert id (get_or id [] r1.metrics ++ (metric ∷ [])) r1.metrics;
        } in
        put_errors-IsConsistent r2 id found (stamped_errors new_id 1 id now params.errors)
          (stamped_errors-All new_id 1 id now params.errors)
          (put_metric-IsConsistent r1 id found metric refl c1))

-- What is recorded for a job is appended to, what is recorded for another job stays.
pub append_errors_lem :
    (id wanted : String) (es : List ValidationError) (m : Dict (List ValidationError))
    → get_or wanted [] (append_errors id es m)
      ≡ (if id == wanted then get_or wanted [] m ++ es else get_or wanted [] m)
append_errors_lem id wanted [] m =
    if-elim (λ x. get_or wanted [] m ≡ x) (id == wanted) (sym (append-nil (get_or wanted [] m)))
      refl
append_errors_lem id wanted (e ∷ es) m = ground (
  arith,
  append_errors_lem id wanted es (insert id (get_or id [] m ++ (e ∷ [])) m),
  eq_iff id wanted,
  lookup-insert id wanted (get_or id [] m ++ (e ∷ [])) m,
  append_assoc (get_or id [] m) (e ∷ []) es,
)
