-- ===== src/Exceptions/Warned.antt =====
-- jwt/warnings.py: a call that may raise and that issues warnings returns its result with the
-- warnings issued on the way, also when it raises. The module's `warnings.warn` calls are these.
use refactoring_pyjwt.Prelude.{◌≡◌, refl, String, List, [], ◌∷◌, ◌++◌}
use refactoring_pyjwt.Exceptions.{Result, ok, err, Exception}
use refactoring_pyjwt.Exceptions as Exceptions

pub data Warning : Type 0 where
  removed_in_pyjwt3_warning : List String → Warning
  deprecation_warning : Warning
  insecure_key_length_warning : Warning

abbrev pub Warned {ℓ} : Type ℓ → Type ℓ
Warned A = Result A × List Warning

abbrev pub lift {ℓ} : {A : Type ℓ} → Result A → Warned A
lift r = (r, [])

abbrev pub warn : Warning → Warned (Unit {0})
warn w = (ok tt, w ∷ [])

abbrev pub warnings_after {ℓ κ} :
    {A : Type ℓ} {B : Type κ} → Result A → (A → Warned B) → List Warning
warnings_after (ok a) f = (f a).1
warnings_after (err e) f = []

infixl 5 ◌>>=◌ ◌>>◌
abbrev pub ◌>>=◌ {ℓ κ} : {A : Type ℓ} {B : Type κ} → Warned A → (A → Warned B) → Warned B
m >>= f = (Exceptions.◌>>=◌ m.0 (λ a. (f a).0), m.1 ++ warnings_after m.0 f)

abbrev pub ◌>>◌ {ℓ} : {B : Type ℓ} → Warned (Unit {0}) → Warned B → Warned B
m >> k = m >>= λ _. k

-- `warn_removed_kwargs`: `kwargs` is the list of the names of the extra keyword arguments.
unfoldable pub warn_removed_kwargs : List String → Warned (Unit {0})
warn_removed_kwargs [] = lift (ok tt)
warn_removed_kwargs (k ∷ kwargs) = warn (removed_in_pyjwt3_warning (k ∷ kwargs))

pub warn_removed_kwargs-ok : (kwargs : List String) → (warn_removed_kwargs kwargs).0 ≡ ok tt
unfolding warn_removed_kwargs
warn_removed_kwargs-ok [] = refl
warn_removed_kwargs-ok (k ∷ kwargs) = refl
