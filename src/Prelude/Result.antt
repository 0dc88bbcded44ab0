-- ===== src/Prelude/Result.antt =====
-- Rust's `Result`, with `?` as the bind.
use mathlib.Core.Path.{◌≡◌, refl}
use mathlib.Core.Logic.{◌⊎◌, inl, inr}
use mathlib.Core.Bool.{Bool, true, false}

pub data Result {ℓ} (A E : Type ℓ) : Type ℓ where
  ok : A → Result A E
  err : E → Result A E

infixl 5 ◌>>=◌ ◌>>◌
abbrev pub ◌>>=◌ {ℓ} : {A B E : Type ℓ} → Result A E → (A → Result B E) → Result B E
ok a >>= f = f a
err e >>= f = err e

abbrev pub ◌>>◌ : {A E : Type 0} → Result (Unit {0}) E → Result A E → Result A E
m >> k = m >>= λ _. k

-- `if !test { return Err(e) }`
abbrev pub ensure : {E : Type 0} → Bool → E → Result (Unit {0}) E
ensure true e = ok tt
ensure false e = err e

-- `if test { return Err(e) }`
abbrev pub refuse : {E : Type 0} → Bool → E → Result (Unit {0}) E
refuse true e = err e
refuse false e = ok tt

pub Result-cases {ℓ} :
    {A E : Type ℓ} (r : Result A E) → ((a : A) × (r ≡ ok a)) ⊎ ((e : E) × (r ≡ err e))
Result-cases (ok a) = inl (a, refl)
Result-cases (err e) = inr (e, refl)

-- What a bind that succeeds has gone through.
pub >>=-eq-ok {ℓ} :
    {A B E : Type ℓ} {result : B} (before : Result A E) (first : A → Result B E)
    → ◌≡◌ {A = Result B E} (before >>= first) (ok result)
    → (value : A) × (before ≡ ok value) × (first value ≡ ok result)
>>=-eq-ok (ok value) first eq = (value, refl, eq)
>>=-eq-ok (err e) first eq = cc
