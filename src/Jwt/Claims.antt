-- ===== src/Jwt/Claims.antt =====
-- jwt/api_jwt.py: `_validate_claims` and the methods that it calls.
-- Times are integers of microseconds: `datetime.now().timestamp()` has that precision, and the sums
-- with a leeway are exact here where the code rounds to a double. A claim is in whole seconds.
pub mod Times
pub mod Names
pub mod Audiences
pub mod Accepted
pub mod Window
pub mod TimeErrors
pub mod Errors
use refactoring_pyjwt.Prelude.{
  ℕ, String, Bool, true, false, not, ◌&&◌, ◌||◌, Option, none, some, List, [], ◌∷◌, str_eq, elem,
  any, all, if◌then◌else◌,
}
use refactoring_pyjwt.Prelude.Int.{ℤ, pos, ◌+ℤ◌, ◌-ℤ◌, scale, ltb_ℤ, leb_ℤ}
use refactoring_pyjwt.Exceptions.{
  Exception, ExceptionClass, Result, ok, err, raise, raise_if, missing_claim, catching, type_error,
  value_error, decode_error, invalid_issued_at_error, immature_signature_error,
  expired_signature_error, invalid_issuer_error, invalid_audience_error, invalid_subject_error,
  invalid_jti_error, ◌>>=◌, ◌>>◌,
}
use refactoring_pyjwt.Values.{
  Value, null, str, list, Dict, elems, get, has, is_str, equals_str, truthy, or_null, int_of,
}
use refactoring_pyjwt.Algorithms.Keys.{Env}
use refactoring_pyjwt.Jwt.Options.{FullOptions}

-- The argument `audience`: a text, an iterable of texts, or an object of another type.
pub data Audience : Type 0 where
  one_audience : String → Audience
  audiences : List String → Audience
  bad_audience : Audience

-- The argument `issuer`: a text, a container of texts, or an object for which `in` is a TypeError.
pub data Issuer : Type 0 where
  one_issuer : String → Issuer
  issuers : List String → Issuer
  bad_issuer : Issuer

-- The argument `leeway`, in microseconds.
pub data Leeway : Type 0 where
  seconds : ℤ → Leeway
  timedelta : ℤ → Leeway

abbrev pub total_seconds : Leeway → ℤ
total_seconds (seconds n) = n
total_seconds (timedelta n) = n

-- A whole number of seconds, in microseconds.
abbrev pub micros : ℤ → ℤ
micros n = scale 1000000 n

abbrev is_none : Value → Bool
is_none null = true
is_none _ = false

unfoldable pub validate_required_claims : Dict → List String → Result (Unit {0})
validate_required_claims payload [] = ok tt
validate_required_claims payload (claim ∷ claims) = do
  if is_none (or_null (get claim payload)) then err (missing_claim claim) else ok tt
  validate_required_claims payload claims

-- The time claims that are coerced, with their error classes in `_INT_CLAIM_ERRORS`.
pub data TimeClaim : Type 0 where
  iat nbf exp : TimeClaim

abbrev pub claim_name : TimeClaim → String
claim_name iat = "iat"
claim_name nbf = "nbf"
claim_name exp = "exp"

abbrev pub int_claim_error : TimeClaim → ExceptionClass
int_claim_error iat = invalid_issued_at_error
int_claim_error nbf = decode_error
int_claim_error exp = decode_error

-- `payload[claim]`, which the callers have tested to be there
unfoldable pub coerce_int_claim : Env → Dict → TimeClaim → Result ℤ
coerce_int_claim env payload claim =
    catching value_error (int_claim_error claim)
      (int_of env.int_of_str (or_null (get (claim_name claim) payload)))

unfoldable pub validate_iat : Env → Dict → (now leeway : ℤ) → Result (Unit {0})
validate_iat env payload now leeway = do
  n ← coerce_int_claim env payload iat
  raise_if (ltb_ℤ (now +ℤ leeway) (micros n)) immature_signature_error

unfoldable pub validate_nbf : Env → Dict → (now leeway : ℤ) → Result (Unit {0})
validate_nbf env payload now leeway = do
  n ← coerce_int_claim env payload nbf
  raise_if (ltb_ℤ (now +ℤ leeway) (micros n)) immature_signature_error

unfoldable pub validate_exp : Env → Dict → (now leeway : ℤ) → Result (Unit {0})
validate_exp env payload now leeway = do
  n ← coerce_int_claim env payload exp
  raise_if (leb_ℤ (micros n) (now -ℤ leeway)) expired_signature_error

abbrev check_sub : Option String → Option Value → Result (Unit {0})
check_sub subject none = ok tt
check_sub none (some sub) = raise_if (not (is_str sub)) invalid_subject_error
check_sub (some subject) (some sub) = do
  raise_if (not (is_str sub)) invalid_subject_error
  raise_if (not (equals_str sub subject)) invalid_subject_error

unfoldable pub validate_sub : Dict → (subject : Option String) → Result (Unit {0})
validate_sub payload subject = check_sub subject (get "sub" payload)

abbrev check_jti : Option Value → Result (Unit {0})
check_jti none = ok tt
check_jti (some jti) = raise_if (not (is_str jti)) invalid_jti_error

unfoldable pub validate_jti : Dict → Result (Unit {0})
validate_jti payload = check_jti (get "jti" payload)

-- The strict mode: one text on each side, and the same.
check_strict : Audience → Value → Result (Unit {0})
check_strict (one_audience audience) (str claim) =
    raise_if (not (str_eq audience claim)) invalid_audience_error
check_strict (one_audience audience) _ = raise invalid_audience_error
check_strict _ _ = raise invalid_audience_error

texts : List Value → Result (List String)
texts [] = ok []
texts (str s ∷ vs) = do rest ← texts vs; ok (s ∷ rest)
texts (_ ∷ vs) = raise invalid_audience_error

unfoldable pub claimed_audiences : Value → Result (List String)
unfolding texts
claimed_audiences (str s) = ok (s ∷ [])
claimed_audiences (list vs) = texts (elems vs)
claimed_audiences _ = raise invalid_audience_error

-- `[audience]` for a text; an object that is no iterable has been refused before.
abbrev pub expected_audiences : Audience → List String
expected_audiences (one_audience audience) = audience ∷ []
expected_audiences (audiences names) = names
expected_audiences bad_audience = []

check_any : Audience → Value → Result (Unit {0})
check_any audience claim = do
  claimed ← claimed_audiences claim
  raise_if (all (λ aud. not (elem aud claimed)) (expected_audiences audience))
      invalid_audience_error

-- `"aud" not in payload or not payload["aud"]`
abbrev pub has_no_aud : Dict → Bool
has_no_aud payload = not (truthy (or_null (get "aud" payload)))

check_aud : (strict : Bool) → Dict → Option Audience → Result (Unit {0})
check_aud strict payload none = raise_if (not (has_no_aud payload)) invalid_audience_error
check_aud strict payload (some audience) =
    if has_no_aud payload
    then err (missing_claim "aud")
    else if strict
    then check_strict audience (or_null (get "aud" payload))
    else check_any audience (or_null (get "aud" payload))

unfoldable pub validate_aud :
    Dict → (audience : Option Audience) → (strict : Bool) → Result (Unit {0})
unfolding check_aud check_strict check_any
validate_aud payload audience strict = check_aud strict payload audience

check_iss : Issuer → Option Value → Result (Unit {0})
check_iss issuer none = err (missing_claim "iss")
check_iss (one_issuer issuer) (some (str iss)) =
    raise_if (not (str_eq iss issuer)) invalid_issuer_error
check_iss (issuers names) (some (str iss)) = raise_if (not (elem iss names)) invalid_issuer_error
check_iss _ (some _) = raise invalid_issuer_error

check_issuer : Option Issuer → Dict → Result (Unit {0})
unfolding check_iss
check_issuer none payload = ok tt
check_issuer (some issuer) payload = check_iss issuer (get "iss" payload)

unfoldable pub validate_iss : Dict → (issuer : Option Issuer) → Result (Unit {0})
unfolding check_issuer
validate_iss payload issuer = check_issuer issuer payload

abbrev pub is_bad : Option Audience → Bool
is_bad (some bad_audience) = true
is_bad _ = false

-- `if test: m`
abbrev pub when : Bool → Result (Unit {0}) → Result (Unit {0})
when true m = m
when false m = ok tt

-- What the caller passes to check the claims against.
pub record Expected : Type 0 where
  pub audience : Option Audience
  pub issuer : Option Issuer
  pub subject : Option String
  pub leeway : Leeway

-- `now` is the clock's answer.
unfoldable pub validate_claims :
    Env → (payload : Dict) → FullOptions → Expected → (now : ℤ) → Result (Unit {0})
validate_claims env payload options expected now = do
  let leeway = total_seconds expected.leeway
  raise_if (is_bad expected.audience) type_error
  validate_required_claims payload options.require
  when (has "iat" payload && options.verify_iat) (validate_iat env payload now leeway)
  when (has "nbf" payload && options.verify_nbf) (validate_nbf env payload now leeway)
  when (has "exp" payload && options.verify_exp) (validate_exp env payload now leeway)
  when options.verify_iss (validate_iss payload expected.issuer)
  when options.verify_aud (validate_aud payload expected.audience options.strict_aud)
  when options.verify_sub (validate_sub payload expected.subject)
  when options.verify_jti (validate_jti payload)
