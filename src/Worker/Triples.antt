-- ===== src/Worker/Triples.antt =====
-- internal/worker/handler.go: what an action achieves when the handler has the repository for itself
-- and its context is never done.
use market_replay.Prelude.{ℕ, none, ◌≡◌, refl, sym, subst, arith}
use market_replay.Prelude.Result.{Result, ok, err}
use market_replay.Store.Memory.{MemoryRepository, Returns}
use market_replay.Worker.{Setting, Failure, store_failed, World, Work, ◌>>=◌, pure}
use market_replay.Worker.Actions.{perform, poll}

pub record IsQuiet (g : Setting) : Type 0 where
  pub alone : (k : ℕ) (r : MemoryRepository) → g.others k r ≡ r
  pub never_done : (k : ℕ) → g.ctx k ≡ none

-- From a repository with `P` the action gives a value, and that and the new repository have `Q`.
pub record Does {A : Type 0} (P : MemoryRepository → Type 0) (Q : A → MemoryRepository → Type 0)
    (m : Work A) : Type 0 where
  pub outcome : (w : World) → P w.repo → (a : A) × ((m w).1 ≡ ok a) × Q a (m w).0.repo

pub >>=-Does :
    {A B : Type 0} {P : MemoryRepository → Type 0} {Q : A → MemoryRepository → Type 0}
    {R : B → MemoryRepository → Type 0} (m : Work A) (f : A → Work B)
    → Does P Q m
    → ((a : A) → Does (Q a) R (f a))
    → Does P R (m >>= f)
unfolding ◌>>=◌
>>=-Does {A} {B} {P} {Q} {R} m f p q = record {
  outcome = λ w start.
      let (a, gives, after) = p.outcome w start in
      subst
        (λ (o : Result Failure A).
          let next : World × Result Failure B = elim o [
            | err e ↦ ((m w).0, err e)
            | ok x ↦ f x (m w).0
          ] in
          (b : B) × (next.1 ≡ ok b) × R b next.0.repo)
        (sym gives) ((q a).outcome (m w).0 after);
}

pub pure-Does :
    {A : Type 0} {P : MemoryRepository → Type 0} {Q : A → MemoryRepository → Type 0} (a : A)
    → ((r : MemoryRepository) → P r → Q a r)
    → Does P Q (pure a)
unfolding pure
pure-Does a h = record { outcome = λ w p. (a, refl, h w.repo p) }

-- What holds before may be more, and what holds after less.
pub Does-weaken :
    {A : Type 0} {P P' : MemoryRepository → Type 0} {Q Q' : A → MemoryRepository → Type 0}
    {m : Work A}
    → ((r : MemoryRepository) → P' r → P r)
    → ((a : A) (r : MemoryRepository) → Q a r → Q' a r)
    → Does P Q m
    → Does P' Q' m
Does-weaken before after d = record {
  outcome = λ w p. let (a, gives, q) = d.outcome w (before w.repo p) in (a, gives, after a _ q);
}

module _ (g : Setting) (quiet : IsQuiet g) where
  -- The call gives a value wherever `P` holds.
  pub perform-Does :
      {A : Type 0} {P : MemoryRepository → Type 0} {Q : A → MemoryRepository → Type 0}
      (call : ℕ → MemoryRepository → Returns A)
      → ((k : ℕ) (r : MemoryRepository) → P r → (a : A) × ((call k r).1 ≡ ok a) × Q a (call k r).0)
      → Does P Q (perform g call)
  unfolding perform
  perform-Does {A} {P} {Q} call h = record {
    outcome = λ w p.
        subst
          (λ r.
            (a : A) × (◌≡◌ {A = Result Failure A}
              (elim (call w.step r).1 [ ok x ↦ ok x | err e ↦ err (store_failed e) ]) (ok a))
            × Q a (call w.step r).0)
          (sym (quiet.alone w.step w.repo))
          (let (a, gives, q) = h w.step w.repo p in (a, ground (arith, gives), q));
  }

  pub poll-Does : {P : MemoryRepository → Type 0} → Does P (λ _ r. P r) (poll g)
  unfolding poll
  poll-Does = record { outcome = λ w p. (tt, ground (arith, quiet.never_done w.step), p) }

-- A continuation is only needed at the value that is known to come.
pub Does-at :
    {A B : Type 0} {P : MemoryRepository → Type 0} {R : B → MemoryRepository → Type 0}
    (f : A → Work B) (b : A)
    → Does P R (f b)
    → (a : A) → Does (λ r. (a ≡ b) × P r) R (f a)
Does-at {A} {B} {P} {R} f b d a = record {
  outcome = λ w p.
      subst (λ x. (c : B) × ((f x w).1 ≡ ok c) × R c (f x w).0.repo) (sym p.0) (d.outcome w p.1);
}
