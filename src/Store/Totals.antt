-- ===== src/Store/Totals.antt =====
-- internal/store/reports.go: what the rows of a summary count together, and how sorting leaves it.
use market_replay.Prelude.{
  ℕ, ◌+◌, ◌≤◌, ◌<◌, String, Bool, true, false, List, [], ◌∷◌, Option, none, some, ◌==◌, ◌≡◌, refl,
  ap, ◌∙◌, All, arith, if-elim, Bool-cases, inl, inr,
}
use market_replay.Prelude.Int.{ℤ, pos, pos_part, ◌<ℤ◌, ◌≤ℤ◌}
use market_replay.Prelude.Dict.{Dict, lookup, insert}
use market_replay.Store.Listing.{values}
use market_replay.Store.Reports.{ValidationErrorSummary}
use market_replay.Store.ErrorSummary.{sorted_at, sort_slice, summary_before}

abbrev pub IsPositive : ValidationErrorSummary → Type 0
IsPositive s = pos 0 <ℤ s.count

-- How many errors the rows count.
abbrev pub total_count : List ValidationErrorSummary → ℕ
total_count [] = 0
total_count (s ∷ rows) = pos_part s.count + total_count rows

-- Each row counts something, and all of them together `n`.
pub record CountsTo (n : ℕ) (rows : List ValidationErrorSummary) : Type 0 where
  pub all_positive : All IsPositive rows
  pub counted : total_count rows ≡ n

abbrev pub count_before : Option ValidationErrorSummary → ℕ
count_before none = 0
count_before (some s) = pos_part s.count

values-insert-All :
    (key : String) (new : ValidationErrorSummary) (m : Dict ValidationErrorSummary)
    → IsPositive new
    → All IsPositive (values m)
    → All IsPositive (values (insert key new m))
unfolding insert
values-insert-All key new [] p all = (p, tt)
values-insert-All key new ((old_key, old) ∷ rest) p (q, all) =
    if-elim (λ (m : Dict ValidationErrorSummary). All IsPositive (values m)) (old_key == key)
      (p, all) (q, values-insert-All key new rest p all)

pub total-insert :
    (key : String) (new : ValidationErrorSummary) (m : Dict ValidationErrorSummary)
    → total_count (values (insert key new m)) + count_before (lookup key m)
      ≡ total_count (values m) + pos_part new.count
unfolding insert lookup
total-insert key new [] = ground arith
total-insert key new ((old_key, old) ∷ rest) = ground (arith, total-insert key new rest)

pub count_before-le :
    (key : String) (m : Dict ValidationErrorSummary)
    → count_before (lookup key m) ≤ total_count (values m)
unfolding lookup
count_before-le key [] = ground arith
count_before-le key ((old_key, old) ∷ rest) = ground (arith, count_before-le key rest)

-- A summary that was found counts something.
pub lookup-IsPositive :
    (key : String) (m : Dict ValidationErrorSummary) (s : ValidationErrorSummary)
    → All IsPositive (values m)
    → lookup key m ≡ some s
    → IsPositive s
unfolding lookup
lookup-IsPositive key [] s all h = cc
lookup-IsPositive key ((old_key, old) ∷ rest) s (p, all) h =
    ground (arith, lookup-IsPositive key rest s all)

-- A round that adds `k` under a key.
pub CountsTo-insert :
    (n k : ℕ) (key : String) (new : ValidationErrorSummary) (m : Dict ValidationErrorSummary)
    → CountsTo n (values m)
    → 0 < k
    → new.count ≡ pos (count_before (lookup key m) + k)
    → CountsTo (n + k) (values (insert key new m))
CountsTo-insert n k key new m c some_more h = record {
  all_positive = values-insert-All key new m (ground (arith, some_more, h)) c.all_positive;
  counted = ground (arith, h, c.counted, total-insert key new m);
}

-- No row counts more than the row in front of it.
abbrev pub CountsFall : List ValidationErrorSummary → Type 0
CountsFall [] = Unit
CountsFall (x ∷ xs) = All (λ y. y.count ≤ℤ x.count) xs × CountsFall xs

All-below :
    (a b : ℤ) (xs : List ValidationErrorSummary)
    → a ≤ℤ b
    → All (λ y. y.count ≤ℤ a) xs
    → All (λ y. y.count ≤ℤ b) xs
All-below a b [] h all = tt
All-below a b (x ∷ xs) h (p, all) = (omega (arith, h, p), All-below a b xs h all)

module _ (before : ValidationErrorSummary → ValidationErrorSummary → Bool) where
  sorted_at-All :
      (P : ValidationErrorSummary → Type 0) (x : ValidationErrorSummary)
      (xs : List ValidationErrorSummary)
      → P x
      → All P xs
      → All P (sorted_at before x xs)
  sorted_at-All P x [] p all = (p, tt)
  sorted_at-All P x (y ∷ ys) p (q, all) =
      if-elim (All P) (before y x) (q, sorted_at-All P x ys p all) (p, (q, all))

  total-sorted_at :
      (x : ValidationErrorSummary) (xs : List ValidationErrorSummary)
      → total_count (sorted_at before x xs) ≡ pos_part x.count + total_count xs
  total-sorted_at x [] = refl
  total-sorted_at x (y ∷ ys) = ground (arith, total-sorted_at x ys)

  sort_slice-All :
      (xs : List ValidationErrorSummary) → All IsPositive xs → All IsPositive (sort_slice before xs)
  sort_slice-All [] all = tt
  sort_slice-All (x ∷ xs) (p, all) =
      sorted_at-All IsPositive x (sort_slice before xs) p (sort_slice-All xs all)

  total-sort_slice :
      (xs : List ValidationErrorSummary) → total_count (sort_slice before xs) ≡ total_count xs
  total-sort_slice [] = refl
  total-sort_slice (x ∷ xs) =
      total-sorted_at x (sort_slice before xs)
      ∙ ap (λ n. pos_part x.count + n) (total-sort_slice xs)

  pub sort_slice-CountsTo :
      (n : ℕ) (xs : List ValidationErrorSummary) → CountsTo n xs → CountsTo n (sort_slice before xs)
  sort_slice-CountsTo n xs c = record {
    all_positive = sort_slice-All xs c.all_positive;
    counted = total-sort_slice xs ∙ c.counted;
  }

module _ (before : ValidationErrorSummary → ValidationErrorSummary → Bool)
    (falls : (x y : ValidationErrorSummary) → before y x ≡ true → x.count ≤ℤ y.count)
    (stays : (x y : ValidationErrorSummary) → before y x ≡ false → y.count ≤ℤ x.count) where
  sorted_at-CountsFall :
      (x : ValidationErrorSummary) (xs : List ValidationErrorSummary)
      → CountsFall xs
      → CountsFall (sorted_at before x xs)
  sorted_at-CountsFall x [] s = (tt, tt)
  sorted_at-CountsFall x (y ∷ ys) (above, s) = elim (Bool-cases (before y x)) [
    | inl first ↦ rw first (
      sorted_at-All before (λ z. z.count ≤ℤ y.count) x ys (falls x y first) above,
      sorted_at-CountsFall x ys s,
    )
    | inr after ↦
        rw after
          ((stays x y after, All-below y.count x.count ys (stays x y after) above), (above, s))
  ]

  pub sort_slice-CountsFall : (xs : List ValidationErrorSummary) → CountsFall (sort_slice before xs)
  sort_slice-CountsFall [] = tt
  sort_slice-CountsFall (x ∷ xs) =
      sorted_at-CountsFall x (sort_slice before xs) (sort_slice-CountsFall xs)

pub summary_before-falls :
    (x y : ValidationErrorSummary) → summary_before y x ≡ true → x.count ≤ℤ y.count
unfolding summary_before
summary_before-falls x y h = ground arith

pub summary_before-stays :
    (x y : ValidationErrorSummary) → summary_before y x ≡ false → y.count ≤ℤ x.count
unfolding summary_before
summary_before-stays x y h = ground arith
