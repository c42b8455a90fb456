-- ===== src/Exceptions/Inversion.antt =====
-- How a call that succeeds came to its result.
use refactoring_pyjwt.Prelude.{
  ◌≡◌, ◌⊎◌, inl, inr, refl, Bool, true, false, Bool-cases, if◌then◌else◌,
}
use refactoring_pyjwt.Exceptions.{ExceptionClass, Result, ok, err, is_instance, handling, ◌>>=◌}

pub >>=_assoc {ℓ κ μ} :
    {A : Type ℓ} {B : Type κ} {C : Type μ} (m : Result A) (f : A → Result B) (g : B → Result C)
    → ((m >>= f) >>= g) ≡ (m >>= (λ a. f a >>= g))
>>=_assoc (err e) f g = refl
>>=_assoc (ok a) f g = refl

pub handling-eq-ok {ℓ} :
    {A : Type ℓ} (c : ExceptionClass) (handler m : Result A) {a : A}
    → handling c handler m ≡ ok a
    → (m ≡ ok a) ⊎ (handler ≡ ok a)
unfolding handling
handling-eq-ok c handler (ok b) h = inl h
handling-eq-ok c handler (err e) h = elim (Bool-cases (is_instance e c)) [
  | inl caught ↦ inr (rw (caught, handling) at h)
  | inr missed ↦ let h' = rw (missed, handling) at h in cc
]

pub if-eq-ok {ℓ} :
    {A : Type ℓ} (b : Bool) (m n : Result A) {a : A}
    → (if b then m else n) ≡ ok a
    → (m ≡ ok a) ⊎ (n ≡ ok a)
if-eq-ok true m n h = inl h
if-eq-ok false m n h = inr h
