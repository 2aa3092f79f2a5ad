-- ===== src/Prelude/Result.antt =====
-- A value or an error, as Go's `(T, error)`.
use market_replay.Prelude.Tests.{if◌then◌else◌}
use mathlib.Core.Bool.{Bool, true, false}
use mathlib.Core.Logic.{◌↔◌, ◌⊎◌, inl, inr}
use mathlib.Core.Path.{◌≡◌, refl}

pub data Result {ℓ κ} (E : Type ℓ) (A : Type κ) : Type (ℓ ⊔ κ) where
  err : E → Result E A
  ok : A → Result E A

module _ {ℓ κ μ} {E : Type ℓ} {A : Type κ} {B : Type μ} where
  infixl 5 ◌>>=◌
  -- `value, failure := first; if failure != nil { return failure }; next(value)`
  abbrev pub ◌>>=◌ : (first : Result E A) (next : A → Result E B) → Result E B
  first >>= next = elim first [ err failure ↦ err failure | ok value ↦ next value ]

  pub >>=-eq-ok :
      (first : Result E A) (next : A → Result E B) {final : B}
      → (first >>= next) ≡ ok final
      → (value : A) × (first ≡ ok value) × (next value ≡ ok final)
  >>=-eq-ok (err failure) next h = cc
  >>=-eq-ok (ok value) next h = (value, refl, h)

-- `if b { return err }` in front of `m`.
pub guarded_ok {ℓ κ} :
    {E : Type ℓ} {A : Type κ} (b : Bool) (e : E) (m : Result E A) (a : A)
    → ((if b then err e else m) ≡ ok a) ↔ ((b ≡ false) × (m ≡ ok a))
guarded_ok true e m a = (λ h. cc, λ h. let f = h.0 in cc)
guarded_ok false e m a = (λ h. (refl, h), λ h. h.1)

-- `if b { return m }; return err`
pub chosen_ok {ℓ κ} :
    {E : Type ℓ} {A : Type κ} (b : Bool) (e : E) (m : Result E A) (a : A)
    → (if b then m else err e) ≡ ok a
    → (b ≡ true) × (m ≡ ok a)
chosen_ok true e m a h = (refl, h)
chosen_ok false e m a h = cc

pub ok-injective {ℓ κ} :
    {E : Type ℓ} {A : Type κ} {a b : A} → ◌≡◌ {A = Result E A} (ok a) (ok b) → a ≡ b
ok-injective h = cc

-- The same for a result and its two branches.
pub Result-elim {ℓ κ μ ν} :
    {E : Type ℓ} {A : Type κ} {B : Type μ} (P : B → Type ν) (m : Result E A) {f : E → B} {g : A → B}
    → ((e : E) → m ≡ err e → P (f e))
    → ((a : A) → m ≡ ok a → P (g a))
    → P (elim m [ err e ↦ f e | ok a ↦ g a ])
Result-elim P (err e) p q = p e refl
Result-elim P (ok a) p q = q a refl

pub err-injective {ℓ κ} :
    {E : Type ℓ} {A : Type κ} {a b : E} → ◌≡◌ {A = Result E A} (err a) (err b) → a ≡ b
err-injective h = cc

pub Result-cases {ℓ κ} :
    {E : Type ℓ} {A : Type κ} (m : Result E A) → ((e : E) × (m ≡ err e)) ⊎ ((a : A) × (m ≡ ok a))
Result-cases (err e) = inl (e, refl)
Result-cases (ok a) = inr (a, refl)
