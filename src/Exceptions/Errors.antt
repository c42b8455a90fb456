-- ===== src/Exceptions/Errors.antt =====
-- Which exceptions a call can raise.
use refactoring_pyjwt.Prelude.{Bool, true, false, ◌≡◌, inl, inr, Bool-cases, sym, refl}
use refactoring_pyjwt.Exceptions.{
  Exception, ExceptionClass, Result, ok, err, raised, raise_if, is_instance, catching, ◌>>=◌, ◌>>◌,
}

-- Every exception of the call is one of those.
abbrev pub Only {ℓ} : {A : Type ℓ} → (Exception → Type 0) → Result A → Type 0
Only P (ok a) = Unit
Only P (err e) = P e

-- What a call raises, it raises.
pub Only-self : {A : Type 0} (m : Result A) → Only (λ e. m ≡ err e) m
Only-self (ok a) = tt
Only-self (err e) = refl

pub Only-map {ℓ} :
    {A : Type ℓ} (P Q : Exception → Type 0) (m : Result A)
    → ((e : Exception) → P e → Q e)
    → Only P m
    → Only Q m
Only-map P Q (ok a) f h = tt
Only-map P Q (err e) f h = f e h

module _ (P : Exception → Type 0) where
  -- What follows may use what the call has returned.
  pub Only-then {ℓ κ} :
      {A : Type ℓ} {B : Type κ} (m : Result A) (f : A → Result B)
      → Only P m
      → ((a : A) → m ≡ ok a → Only P (f a))
      → Only P (m >>= f)
  Only-then (ok a) f h k = k a refl
  Only-then (err e) f h k = h

  pub Only->>= {ℓ κ} :
      {A : Type ℓ} {B : Type κ} (m : Result A) (f : A → Result B)
      → Only P m
      → ((a : A) → Only P (f a))
      → Only P (m >>= f)
  Only->>= (ok a) f h k = k a
  Only->>= (err e) f h k = h

  pub Only->> : (m k : Result (Unit {0})) → Only P m → Only P k → Only P (m >> k)
  Only->> (ok a) k h g = g
  Only->> (err e) k h g = h

  pub Only-raise_if : (b : Bool) (c : ExceptionClass) → P (raised c) → Only P (raise_if b c)
  Only-raise_if true c h = h
  Only-raise_if false c h = tt

  pub Only-eq-err {ℓ} : {A : Type ℓ} (m : Result A) {e : Exception} → Only P m → m ≡ err e → P e
  Only-eq-err (ok a) h k = cc
  Only-eq-err (err x) {e} h k = let same : x ≡ e = cc in rw (sym same) h

  -- An `except` clause renames its class, and lets the others through.
  pub Only-catching {ℓ} :
      {A : Type ℓ} (Q : Exception → Type 0) (c d : ExceptionClass) (m : Result A)
      → Only Q m
      → P (raised d)
      → ((e : Exception) → Q e → is_instance e c ≡ false → P e)
      → Only P (catching c d m)
  unfolding catching
  Only-catching Q c d (ok a) h new through = tt
  Only-catching Q c d (err e) h new through = elim (Bool-cases (is_instance e c)) [
    | inl caught ↦ rw caught new
    | inr missed ↦ rw missed (through e h missed)
  ]
