-- ===== src/Store/History.antt =====
-- internal/store/memory.go: what a sequence of calls keeps of the repository that it starts from.
use market_replay.Prelude.{
  String, List, [], ◌++◌, none, some, ◌≡◌, refl, sym, ◌∙◌, subst, ◌==◌, eq_iff, arith, append_assoc,
  append-nil, Bool-cases, inl, inr,
}
use market_replay.Prelude.Int.{◌≤ℤ◌}
use market_replay.Prelude.Dict.{Dict, lookup, insert, get_or, lookup-insert}
use market_replay.Store.{ReplayJob}
use market_replay.Store.Memory.{MemoryRepository}

-- The later state of a job: its checkpoint does not fall, and what it was created with stays.
pub record IsLater (job job' : ReplayJob) : Type 0 where
  pub same_id : job'.id ≡ job.id
  pub same_dataset : job'.dataset_id ≡ job.dataset_id
  pub same_file : job'.event_file_id ≡ job.event_file_id
  pub same_key : job'.idempotency_key ≡ job.idempotency_key
  pub same_symbol : job'.symbol ≡ job.symbol
  pub same_speed : job'.speed ≡ job.speed
  pub same_created_at : job'.created_at ≡ job.created_at
  pub checkpoint_kept : job.checkpoint_line ≤ℤ job'.checkpoint_line

-- `ys` starts with `xs`.
abbrev pub StartsWith {ℓ} : {A : Type ℓ} → List A → List A → Type ℓ
StartsWith {A = A} xs ys = (more : List A) × (ys ≡ xs ++ more)

abbrev pub JobsGrow : Dict ReplayJob → Dict ReplayJob → Type 0
JobsGrow jobs jobs' =
    (id : String) (job : ReplayJob)
    → lookup id jobs ≡ some job
    → (job' : ReplayJob) × (lookup id jobs' ≡ some job') × IsLater job job'

-- Jobs and keys stay, and what is recorded for a job is only appended to.
pub record Grows (r s : MemoryRepository) : Type 0 where
  pub jobs_grow :
      (id : String) (job : ReplayJob)
      → lookup id r.jobs ≡ some job
      → (job' : ReplayJob) × (lookup id s.jobs ≡ some job') × IsLater job job'
  pub keys_kept :
      (key id : String)
      → lookup key r.idempotency_map ≡ some id
      → lookup key s.idempotency_map ≡ some id
  pub metrics_grow : (id : String) → StartsWith (get_or id [] r.metrics) (get_or id [] s.metrics)
  pub errors_grow : (id : String) → StartsWith (get_or id [] r.errors) (get_or id [] s.errors)

pub StartsWith-itself {ℓ} : {A : Type ℓ} (xs : List A) → StartsWith xs xs
StartsWith-itself xs = ([], sym (append-nil xs))

StartsWith-trans {ℓ} :
    {A : Type ℓ} (xs ys zs : List A) → StartsWith xs ys → StartsWith ys zs → StartsWith xs zs
StartsWith-trans xs ys zs (more, p) (rest, q) =
    (more ++ rest, ground (arith, p, q, append_assoc xs more rest))

pub IsLater-refl : (job : ReplayJob) → IsLater job job
IsLater-refl job = record {
  same_id = refl;
  same_dataset = refl;
  same_file = refl;
  same_key = refl;
  same_symbol = refl;
  same_speed = refl;
  same_created_at = refl;
  checkpoint_kept = omega arith;
}

pub IsLater-trans : (a b c : ReplayJob) → IsLater a b → IsLater b c → IsLater a c
IsLater-trans a b c p q = record {
  same_id = q.same_id ∙ p.same_id;
  same_dataset = q.same_dataset ∙ p.same_dataset;
  same_file = q.same_file ∙ p.same_file;
  same_key = q.same_key ∙ p.same_key;
  same_symbol = q.same_symbol ∙ p.same_symbol;
  same_speed = q.same_speed ∙ p.same_speed;
  same_created_at = q.same_created_at ∙ p.same_created_at;
  checkpoint_kept = omega (arith, p.checkpoint_kept, q.checkpoint_kept);
}

pub Grows-refl : (r : MemoryRepository) → Grows r r
Grows-refl r = record {
  jobs_grow = λ id job h. (job, h, IsLater-refl job);
  keys_kept = λ key id h. h;
  metrics_grow = λ id. StartsWith-itself (get_or id [] r.metrics);
  errors_grow = λ id. StartsWith-itself (get_or id [] r.errors);
}

pub Grows-trans : (r s t : MemoryRepository) → Grows r s → Grows s t → Grows r t
Grows-trans r s t p q = record {
  jobs_grow = λ id job h.
      let (job', h', later) = p.jobs_grow id job h in
      let (job'', h'', later') = q.jobs_grow id job' h' in
      (job'', h'', IsLater-trans job job' job'' later later');
  keys_kept = λ key id h. q.keys_kept key id (p.keys_kept key id h);
  metrics_grow = λ id. StartsWith-trans _ _ _ (p.metrics_grow id) (q.metrics_grow id);
  errors_grow = λ id. StartsWith-trans _ _ _ (p.errors_grow id) (q.errors_grow id);
}

pub changed_job-Grow :
    (jobs : Dict ReplayJob) (id : String) (job job' : ReplayJob)
    → lookup id jobs ≡ some job
    → IsLater job job'
    → JobsGrow jobs (insert id job' jobs)
changed_job-Grow jobs id job job' there later wanted old h = elim (Bool-cases (id == wanted)) [
  | inl hit ↦
      let same : job ≡ old = ground (arith, hit, there, h, eq_iff id wanted) in
      (
        job',
        ground (arith, hit, lookup-insert id wanted job' jobs),
        subst (λ j. IsLater j job') same later,
      )
  | inr miss ↦ (old, ground (arith, miss, h, lookup-insert id wanted job' jobs), IsLater-refl old)
]

pub new_job-Grow :
    (jobs : Dict ReplayJob) (id : String) (job : ReplayJob)
    → lookup id jobs ≡ none
    → JobsGrow jobs (insert id job jobs)
new_job-Grow jobs id job fresh wanted old h = (
  old,
  ground (arith, fresh, h, eq_iff id wanted, lookup-insert id wanted job jobs),
  IsLater-refl old,
)
