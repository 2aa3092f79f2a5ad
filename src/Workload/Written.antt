-- ===== src/Workload/Written.antt =====
-- internal/workload/generator.go: a list of written rows with one more row behind it.
use market_replay.Prelude.{
  ℕ, zero, suc, ◌+◌, Bool, true, false, List, [], ◌∷◌, ◌++◌, some, ◌≡◌, refl, ap, ◌⊎◌, inl, inr,
  arith, length, get_elem?,
}

module _ {A : Type 0} where
  pub get_elem?-append_length :
      (xs ys : List A) (y : A) → get_elem? (xs ++ (y ∷ ys)) (length xs) ≡ some y
  get_elem?-append_length [] ys y = refl
  get_elem?-append_length (x ∷ xs) ys y = get_elem?-append_length xs ys y

  -- An element of a list with one more at its end.
  pub get_elem?-snoc :
      (xs : List A) (y b : A) (k : ℕ)
      → get_elem? (xs ++ (y ∷ [])) k ≡ some b
      → (get_elem? xs k ≡ some b) ⊎ ((k ≡ length xs) × (b ≡ y))
  get_elem?-snoc [] y b zero h = inr (refl, ground (arith, h))
  get_elem?-snoc [] y b (suc k) h = let wrong : ◌≡◌ {A = Bool} true false = cc in cc
  get_elem?-snoc (x ∷ xs) y b zero h = inl h
  get_elem?-snoc (x ∷ xs) y b (suc k) h = elim (get_elem?-snoc xs y b k h) [
    | inl old ↦ inl old
    | inr (last, same) ↦ inr (ap suc last, same)
  ]

module _ {B : Type 0} (size : B → ℕ) where
  -- The bytes of what was written.
  abbrev pub total_size : List B → ℕ
  total_size [] = 0
  total_size (b ∷ written) = size b + total_size written

  pub total-snoc :
      (written : List B) (b : B) → total_size (written ++ (b ∷ [])) ≡ total_size written + size b
  total-snoc [] b = omega arith
  total-snoc (x ∷ written) b = ground (arith, total-snoc written b)
