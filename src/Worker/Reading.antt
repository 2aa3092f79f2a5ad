-- ===== src/Worker/Reading.antt =====
-- internal/worker/handler.go: what `processFile` makes of the records of a file.
use market_replay.Prelude.{
  true, false, List, [], ◌∷◌, ◌++◌, Option, none, some, if◌then◌else◌, ◌≡◌, refl, ap, ◌∙◌, subst,
  All, arith,
}
use market_replay.Prelude.Int.{ℤ, leb_ℤ, ◌≤ℤ◌, ◌<ℤ◌}
use market_replay.Prelude.Result.{Result, ok, err, Result-elim, err-injective}
use market_replay.Error.{Error}
use market_replay.Parser.Record.{Record}
use market_replay.Parser.Stream.{Stream}
use market_replay.Validate.{Validator, process, prime, process_all, prime_all}
use market_replay.Store
use market_replay.Store.{StoreError}
use market_replay.Worker.{
  Setting, Failure, store_failed, parser_failed, context_failed, ContextError, World, Work, ◌>>=◌,
}

-- The records up to the checkpoint are primed, the others processed.
unfoldable pub feed_all : ℤ → Validator → List Record → Validator
feed_all checkpoint v [] = v
feed_all checkpoint v (r ∷ rs) =
    feed_all checkpoint (if leb_ℤ r.line checkpoint then prime v r else process v r) rs

unfoldable pub last_line : ℤ → List Record → ℤ
last_line line [] = line
last_line line (r ∷ rs) = last_line r.line rs

pub feed_all_split :
    (checkpoint : ℤ) (v : Validator) (before after : List Record)
    → All (λ r. r.line ≤ℤ checkpoint) before
    → All (λ r. checkpoint <ℤ r.line) after
    → feed_all checkpoint v (before ++ after) ≡ process_all (prime_all v before) after
unfolding feed_all process_all prime_all
feed_all_split checkpoint v [] [] b a = refl
feed_all_split checkpoint v [] (r ∷ rs) b (late, a) =
    let no : leb_ℤ r.line checkpoint ≡ false = ground (arith, late) in
    ap (λ b. feed_all checkpoint (if b then prime v r else process v r) rs) no
    ∙ feed_all_split checkpoint (process v r) [] rs b a
feed_all_split checkpoint v (r ∷ rs) after (early, b) a =
    let yes : leb_ℤ r.line checkpoint ≡ true = ground (arith, early) in
    ap (λ b. feed_all checkpoint (if b then prime v r else process v r) (rs ++ after)) yes
    ∙ feed_all_split checkpoint (prime v r) rs after b a

-- The reasons for which a replay may stop before the end of its file.
pub data Stops (e : Option Error) : Failure → Type 0 where
  by_store : (f : StoreError) → Stops e (store_failed f)
  by_context : (f : ContextError) → Stops e (context_failed f)
  by_stream : {x : Error} → e ≡ some x → Stops e (parser_failed x)

-- Whatever the action meets: a value that it gives has `Q`, a failure of it `F`.
pub record Gives {A : Type 0} (Q : A → Type 0) (F : Failure → Type 0) (m : Work A) : Type 0 where
  pub good : (w : World) (a : A) → (m w).1 ≡ ok a → Q a
  pub bad : (w : World) (x : Failure) → (m w).1 ≡ err x → F x

pub >>=-Gives :
    {A B : Type 0} {Q : A → Type 0} {R : B → Type 0} {F : Failure → Type 0} (m : Work A)
    (f : A → Work B)
    → Gives Q F m
    → ((a : A) → Q a → Gives R F (f a))
    → Gives R F (m >>= f)
unfolding ◌>>=◌
>>=-Gives {A} {B} {Q} {R} {F} m f p q = record {
  good = λ w.
      Result-elim (λ (out : World × Result Failure B). (b : B) → out.1 ≡ ok b → R b) (m w).1
        (λ x _ b h. cc) (λ a h b. (q a (p.good w a h)).good (m w).0 b);
  bad = λ w.
      Result-elim (λ (out : World × Result Failure B). (x : Failure) → out.1 ≡ err x → F x) (m w).1
        (λ y h x h'. subst F (err-injective h') (p.bad w y h))
        (λ a h x. (q a (p.good w a h)).bad (m w).0 x);
}

abbrev Anything : {A : Type 0} → A → Type 0
Anything a = Unit

module _ (g : Setting) (e : Option Error) where
  -- The value that a stream which ends without an error leads to.
  abbrev pub Only : {A : Type 0} → A → A → Type 0
  Only a b = (b ≡ a) × (e ≡ none)
