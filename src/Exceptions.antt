-- ===== src/Exceptions.antt =====
-- jwt/exceptions.py: the exception classes, with the built-in and third-party ones that the code
-- raises, catches or lets through, and the results of calls that may raise.
-- An exception is its class; a MissingRequiredClaimError has its claim too. Messages are left out.
pub mod Errors
pub mod Warned
pub mod Inversion
use refactoring_pyjwt.Prelude.{
  ◌≡◌, ◌↔◌, ◌⊎◌, inl, inr, Bool-cases, refl, Bool, String, if◌then◌else◌,
}
use refactoring_pyjwt.Prelude.{ℕ, zero, suc, ◌==◌, ◌||◌, true, false, Option, none, some, arith}

-- The first group is Python's and the cryptography package's, the second jwt/exceptions.py's.
pub data ExceptionClass : Type 0 where
  exception type_error value_error lookup_error key_error attribute_error : ExceptionClass
  runtime_error not_implemented_error arithmetic_error overflow_error : ExceptionClass
  json_decode_error binascii_error unicode_error : ExceptionClass
  os_error url_error http_error timeout_error : ExceptionClass
  unsupported_algorithm invalid_signature : ExceptionClass
  py_jwt_error invalid_token_error decode_error invalid_signature_error : ExceptionClass
  expired_signature_error invalid_audience_error invalid_issuer_error : ExceptionClass
  invalid_issued_at_error immature_signature_error invalid_key_error : ExceptionClass
  invalid_algorithm_error missing_required_claim_error py_jwk_error : ExceptionClass
  missing_cryptography_error py_jwk_set_error py_jwk_client_error : ExceptionClass
  py_jwk_client_connection_error invalid_subject_error invalid_jti_error : ExceptionClass

-- The class that a class is declared under.
unfoldable pub base : ExceptionClass → Option ExceptionClass
base exception = none
base type_error = some exception
base value_error = some exception
base lookup_error = some exception
base key_error = some lookup_error
base attribute_error = some exception
base runtime_error = some exception
base not_implemented_error = some runtime_error
base arithmetic_error = some exception
base overflow_error = some arithmetic_error
base json_decode_error = some value_error
base binascii_error = some value_error
base unicode_error = some value_error
base os_error = some exception
base url_error = some os_error
base http_error = some url_error
base timeout_error = some os_error
base unsupported_algorithm = some exception
base invalid_signature = some exception
base py_jwt_error = some exception
base invalid_token_error = some py_jwt_error
base decode_error = some invalid_token_error
base invalid_signature_error = some decode_error
base expired_signature_error = some invalid_token_error
base invalid_audience_error = some invalid_token_error
base invalid_issuer_error = some invalid_token_error
base invalid_issued_at_error = some invalid_token_error
base immature_signature_error = some invalid_token_error
base invalid_key_error = some py_jwt_error
base invalid_algorithm_error = some invalid_token_error
base missing_required_claim_error = some invalid_token_error
base py_jwk_error = some py_jwt_error
base missing_cryptography_error = some py_jwk_error
base py_jwk_set_error = some py_jwt_error
base py_jwk_client_error = some py_jwt_error
base py_jwk_client_connection_error = some py_jwk_client_error
base invalid_subject_error = some invalid_token_error
base invalid_jti_error = some invalid_token_error

-- A number for each class, by which classes are compared.
abbrev tag : ExceptionClass → ℕ
tag exception = 0
tag type_error = 1
tag value_error = 2
tag lookup_error = 3
tag key_error = 4
tag attribute_error = 5
tag runtime_error = 6
tag not_implemented_error = 7
tag arithmetic_error = 8
tag overflow_error = 9
tag json_decode_error = 10
tag binascii_error = 11
tag unicode_error = 12
tag os_error = 13
tag url_error = 14
tag http_error = 15
tag timeout_error = 16
tag unsupported_algorithm = 17
tag invalid_signature = 18
tag py_jwt_error = 19
tag invalid_token_error = 20
tag decode_error = 21
tag invalid_signature_error = 22
tag expired_signature_error = 23
tag invalid_audience_error = 24
tag invalid_issuer_error = 25
tag invalid_issued_at_error = 26
tag immature_signature_error = 27
tag invalid_key_error = 28
tag invalid_algorithm_error = 29
tag missing_required_claim_error = 30
tag py_jwk_error = 31
tag missing_cryptography_error = 32
tag py_jwk_set_error = 33
tag py_jwk_client_error = 34
tag py_jwk_client_connection_error = 35
tag invalid_subject_error = 36
tag invalid_jti_error = 37

-- `issubclass(c, d)`; six steps up reach the top from every class.
climb : ℕ → ExceptionClass → ExceptionClass → Bool
climb zero c d = tag c == tag d
climb (suc n) c d = (tag c == tag d) || elim (base c) [ none ↦ false | some b ↦ climb n b d ]

unfoldable pub is_subclass : ExceptionClass → ExceptionClass → Bool
unfolding climb base
is_subclass c d = climb 6 c d

pub data Exception : Type 0 where
  raised : ExceptionClass → Exception
  missing_claim : String → Exception

abbrev pub class_of : Exception → ExceptionClass
class_of (raised c) = c
class_of (missing_claim claim) = missing_required_claim_error

-- `isinstance(e, c)`
abbrev pub is_instance : Exception → ExceptionClass → Bool
is_instance e c = is_subclass (class_of e) c

pub data Result {ℓ} (A : Type ℓ) : Type ℓ where
  ok : A → Result A
  err : Exception → Result A

abbrev pub raise {ℓ} : {A : Type ℓ} → ExceptionClass → Result A
raise c = err (raised c)

module _ {ℓ κ} {A : Type ℓ} {B : Type κ} where
  infixl 5 ◌>>=◌
  -- An exception ends the call.
  abbrev pub ◌>>=◌ : Result A → (A → Result B) → Result B
  err e >>= next = err e
  ok value >>= next = next value

  -- Inversion of a successful bind.
  pub >>=-eq-ok :
      (m : Result A) (next : A → Result B) {result : B}
      → (m >>= next) ≡ ok result
      → (value : A) × (m ≡ ok value) × (next value ≡ ok result)
  >>=-eq-ok (err e) next h = cc
  >>=-eq-ok (ok value) next h = (value, refl, h)

infixl 5 ◌>>◌
abbrev pub ◌>>◌ {κ} : {B : Type κ} → Result (Unit {0}) → Result B → Result B
check >> then_ = check >>= (λ done. then_)

-- `if test: raise c`
abbrev pub raise_if : Bool → ExceptionClass → Result (Unit {0})
raise_if true c = raise c
raise_if false c = ok tt

-- `try: m; except c: raise d`
unfoldable pub catching {ℓ} : {A : Type ℓ} → ExceptionClass → ExceptionClass → Result A → Result A
unfolding is_subclass
catching c d (ok a) = ok a
catching c d (err e) = if is_instance e c then raise d else err e

pub catching-eq-ok {ℓ} :
    {A : Type ℓ} (c d : ExceptionClass) (m : Result A) {a : A} → catching c d m ≡ ok a → m ≡ ok a
unfolding catching
catching-eq-ok c d (ok b) h = h
catching-eq-ok c d (err e) h = ground arith

-- `try: m; except c: handler`, where the handler may be right or raise in its turn.
unfoldable pub handling {ℓ} : {A : Type ℓ} → ExceptionClass → Result A → Result A → Result A
unfolding is_subclass
handling c handler (ok a) = ok a
handling c handler (err e) = if is_instance e c then handler else err e

pub ok-injective {ℓ} : {A : Type ℓ} {a b : A} → ok a ≡ ok b → a ≡ b
ok-injective h = cc

-- A check that passes.
pub raise_if_lem : (b : Bool) (c : ExceptionClass) → (raise_if b c ≡ ok tt) ↔ (b ≡ false)
raise_if_lem true c = (λ h. cc, λ h. cc)
raise_if_lem false c = (λ h. refl, λ h. refl)

pub >>_lem : (m k : Result (Unit {0})) → ((m >> k) ≡ ok tt) ↔ ((m ≡ ok tt) × (k ≡ ok tt))
>>_lem (ok tt) k = (λ h. (refl, h), λ (p, q). q)
>>_lem (err e) k = (λ h. cc, λ (p, q). cc)
