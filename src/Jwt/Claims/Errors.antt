-- ===== src/Jwt/Claims/Errors.antt =====
-- The exceptions of `_validate_claims`.
use refactoring_pyjwt.Prelude.{
  String, Bool, true, false, not, ◌&&◌, List, [], ◌∷◌, Option, none, some, ◌≡◌, ◌⊎◌, inl, inr, refl,
  elem, str_eq, if◌then◌else◌,
}
use refactoring_pyjwt.Prelude.Int.{ℤ}
use refactoring_pyjwt.Exceptions.{
  Exception, Result, err, raised, is_instance, is_subclass, type_error, overflow_error,
  invalid_token_error, missing_claim, invalid_audience_error, invalid_issuer_error,
  invalid_subject_error, invalid_jti_error,
}
use refactoring_pyjwt.Exceptions.Errors.{Only, Only->>=, Only->>, Only-raise_if, Only-eq-err}
use refactoring_pyjwt.Values.{Value, str, list, Dict, elems, is_str, equals_str, get, has, or_null}
use refactoring_pyjwt.Algorithms.Keys.{Env}
use refactoring_pyjwt.Jwt.Options.{FullOptions}
use refactoring_pyjwt.Jwt.Claims.{
  Expected, validate_claims, validate_iss, validate_aud, validate_sub, validate_jti, total_seconds,
  when, check_iss, check_issuer, check_sub, check_jti, check_aud, check_strict, check_any,
  claimed_audiences, texts, Audience, Issuer, one_audience, one_issuer, issuers, bad_issuer,
  has_no_aud,
}
use refactoring_pyjwt.Jwt.Claims.TimeErrors.{
  IsClaimError, iat_errors, nbf_errors, exp_errors, required_errors,
}

aud_IsClaimError : IsClaimError (raised invalid_audience_error)
unfolding is_subclass
aud_IsClaimError = inl refl

missing_IsClaimError : (claim : String) → IsClaimError (missing_claim claim)
unfolding is_subclass
missing_IsClaimError claim = inl refl

texts_errors : (vs : List Value) → Only IsClaimError (texts vs)
unfolding texts
texts_errors [] = tt
texts_errors (str s ∷ vs) = Only->>= IsClaimError (texts vs) _ (texts_errors vs) (λ rest. tt)
texts_errors (_ ∷ vs) = aud_IsClaimError

claimed_errors : (v : Value) → Only IsClaimError (claimed_audiences v)
unfolding claimed_audiences
claimed_errors (str s) = tt
claimed_errors (list vs) = texts_errors (elems vs)
claimed_errors _ = aud_IsClaimError

strict_errors : (audience : Audience) (v : Value) → Only IsClaimError (check_strict audience v)
unfolding check_strict
strict_errors (one_audience a) (str s) =
    Only-raise_if IsClaimError (not (str_eq a s)) invalid_audience_error aud_IsClaimError
strict_errors (one_audience a) _ = aud_IsClaimError
strict_errors _ v = aud_IsClaimError

any_errors : (audience : Audience) (v : Value) → Only IsClaimError (check_any audience v)
unfolding check_any
any_errors audience v =
    Only->>= IsClaimError (claimed_audiences v) _ (claimed_errors v)
      (λ names. Only-raise_if IsClaimError _ invalid_audience_error aud_IsClaimError)

if_errors :
    (b : Bool) (m k : Result (Unit {0}))
    → Only IsClaimError m
    → Only IsClaimError k
    → Only IsClaimError (if b then m else k)
if_errors true m k h g = h
if_errors false m k h g = g

aud_errors :
    (payload : Dict) (audience : Option Audience) (strict : Bool)
    → Only IsClaimError (validate_aud payload audience strict)
unfolding validate_aud check_aud
aud_errors payload none strict =
    Only-raise_if IsClaimError (not (has_no_aud payload)) invalid_audience_error aud_IsClaimError
aud_errors payload (some audience) strict =
    let v = or_null (get "aud" payload) in
    if_errors (has_no_aud payload) (err (missing_claim "aud")) _ (missing_IsClaimError "aud") (
      if_errors strict (check_strict audience v) (check_any audience v) (strict_errors audience v)
        (any_errors audience v))

iss_IsClaimError : IsClaimError (raised invalid_issuer_error)
unfolding is_subclass
iss_IsClaimError = inl refl

check_iss_errors : (issuer : Issuer) (o : Option Value) → Only IsClaimError (check_iss issuer o)
unfolding check_iss
check_iss_errors issuer none = missing_IsClaimError "iss"
check_iss_errors (one_issuer i) (some (str iss)) =
    Only-raise_if IsClaimError (not (str_eq iss i)) invalid_issuer_error iss_IsClaimError
check_iss_errors (issuers names) (some (str iss)) =
    Only-raise_if IsClaimError (not (elem iss names)) invalid_issuer_error iss_IsClaimError
check_iss_errors bad_issuer (some (str iss)) = iss_IsClaimError
check_iss_errors issuer (some _) = iss_IsClaimError

iss_errors :
    (payload : Dict) (issuer : Option Issuer) → Only IsClaimError (validate_iss payload issuer)
unfolding validate_iss check_issuer
iss_errors payload none = tt
iss_errors payload (some issuer) = check_iss_errors issuer (get "iss" payload)

sub_IsClaimError : IsClaimError (raised invalid_subject_error)
unfolding is_subclass
sub_IsClaimError = inl refl

check_sub_errors :
    (subject : Option String) (o : Option Value) → Only IsClaimError (check_sub subject o)
check_sub_errors subject none = tt
check_sub_errors none (some v) =
    Only-raise_if IsClaimError (not (is_str v)) invalid_subject_error sub_IsClaimError
check_sub_errors (some s) (some v) =
    Only->> IsClaimError _ _
      (Only-raise_if IsClaimError (not (is_str v)) invalid_subject_error sub_IsClaimError)
      (Only-raise_if IsClaimError (not (equals_str v s)) invalid_subject_error sub_IsClaimError)

jti_IsClaimError : IsClaimError (raised invalid_jti_error)
unfolding is_subclass
jti_IsClaimError = inl refl

check_jti_errors : (o : Option Value) → Only IsClaimError (check_jti o)
check_jti_errors none = tt
check_jti_errors (some v) =
    Only-raise_if IsClaimError (not (is_str v)) invalid_jti_error jti_IsClaimError

when_errors :
    (b : Bool) (m : Result (Unit {0})) → Only IsClaimError m → Only IsClaimError (when b m)
when_errors true m h = h
when_errors false m h = tt

module _ (env : Env) (payload : Dict) (options : FullOptions) (expected : Expected) (now : ℤ) where
  claim_errors : Only IsClaimError (validate_claims env payload options expected now)
  unfolding validate_claims validate_sub validate_jti
  claim_errors =
      let leeway = total_seconds expected.leeway in
      let then_ = Only->> IsClaimError in
      then_ _ _ (Only-raise_if IsClaimError _ type_error (inr (inl refl))) (
        then_ _ _ (required_errors payload options.require) (
          then_ _ _
            (when_errors (has "iat" payload && options.verify_iat) _
              (iat_errors env payload now leeway))
            (then_ _ _
              (when_errors (has "nbf" payload && options.verify_nbf) _
                (nbf_errors env payload now leeway))
              (then_ _ _
                (when_errors (has "exp" payload && options.verify_exp) _
                  (exp_errors env payload now leeway))
                (then_ _ _ (when_errors options.verify_iss _ (iss_errors payload expected.issuer)) (
                  then_ _ _
                    (when_errors options.verify_aud _
                      (aud_errors payload expected.audience options.strict_aud))
                    (then_ _ _
                      (when_errors options.verify_sub _
                        (check_sub_errors expected.subject (get "sub" payload)))
                      (when_errors options.verify_jti _
                        (check_jti_errors (get "jti" payload))))))))))

  -- Whatever `_validate_claims` raises is an InvalidTokenError, or a TypeError, or the
  -- OverflowError of int().
  pub validate_claims_errors :
      {e : Exception}
      → validate_claims env payload options expected now ≡ err e
      → (is_instance e invalid_token_error ≡ true)
        ⊎ (e ≡ raised type_error)
        ⊎ (e ≡ raised overflow_error)
  validate_claims_errors h = Only-eq-err IsClaimError _ claim_errors h
