-- ===== src/Tests/Claims.antt =====
-- Claims and options.
use refactoring_pyjwt.Prelude.{true, false, none, some, [], ◌∷◌, ◌≡◌, ◌↔◌, ◌⊎◌, refl, arith}
use refactoring_pyjwt.Prelude.Int.{pos}
use refactoring_pyjwt.Exceptions.{
  ok, raised, is_instance, invalid_token_error, type_error, overflow_error, expired_signature_error,
  catching,
}
use refactoring_pyjwt.Values.{int, str, Dict, get, int_of, truthy}
use refactoring_pyjwt.Jws.Headers.{validate_headers}
use refactoring_pyjwt.Jws.Headers.Laws.{KidFits, CritFits, validate_headers_lem}
use refactoring_pyjwt.Jwt.Options.{no_options, default_options, merge_options}
use refactoring_pyjwt.Jwt.Options.Laws.{check_exp, is_on, merge_options_lem}
use refactoring_pyjwt.Jwt.Claims.{
  Expected, seconds, one_audience, one_issuer, validate_claims, validate_required_claims,
  validate_exp, validate_nbf, validate_iss, validate_aud, validate_sub, validate_jti,
  coerce_int_claim, claimed_audiences,
}
use refactoring_pyjwt.Jwt.Claims.Accepted.{IsAccepted, validate_claims_lem}
use refactoring_pyjwt.Jwt.Claims.Window.{accepted_between, leeway_mono}
use refactoring_pyjwt.Jwt.Claims.Errors.{validate_claims_errors}
use refactoring_pyjwt.Tests.{env}

-- Valid from second 10 to second 20.
abbrev claims : Dict
claims = ("nbf", int (pos 10)) ∷ ("exp", int (pos 20)) ∷ ("aud", str "a") ∷ ("iss", str "i") ∷ []

abbrev expected : Expected
expected = record {
  audience = some (one_audience "a");
  issuer = some (one_issuer "i");
  subject = none;
  leeway = seconds (pos 0);
}

validate_claims_lem_example :
    (validate_claims env claims default_options expected (pos 15000000) ≡ ok tt)
    ↔ IsAccepted env claims default_options expected (pos 15000000)
validate_claims_lem_example = validate_claims_lem env claims default_options expected (pos 15000000)

accepted_between_example :
    validate_claims env claims default_options expected (pos 15000000) ≡ ok tt
unfolding validate_claims default_options validate_required_claims get validate_nbf validate_exp
    validate_iss validate_aud validate_sub validate_jti coerce_int_claim int_of claimed_audiences
    catching truthy
accepted_between_example =
    accepted_between env claims default_options expected (pos 10000000) (pos 15000000)
      (pos 19999999) (omega arith) (omega arith) refl refl

leeway_mono_example :
    validate_claims env claims default_options
      (record expected { leeway = seconds (pos 5000000) })
      (pos 15000000)
    ≡ ok tt
unfolding validate_claims default_options validate_required_claims get validate_nbf validate_exp
    validate_iss validate_aud validate_sub validate_jti coerce_int_claim int_of claimed_audiences
    catching truthy
leeway_mono_example =
    leeway_mono env claims default_options expected (pos 15000000) (seconds (pos 5000000))
      (omega arith) refl

-- At second 20 the token has expired.
validate_claims_errors_example :
    (is_instance (raised expired_signature_error) invalid_token_error ≡ true)
    ⊎ (raised expired_signature_error ≡ raised type_error)
    ⊎ (raised expired_signature_error ≡ raised overflow_error)
unfolding validate_claims default_options validate_required_claims get validate_nbf validate_exp
    coerce_int_claim int_of catching
validate_claims_errors_example =
    validate_claims_errors env claims default_options expected (pos 20000000) refl

merge_options_lem_example :
    is_on check_exp
      (merge_options default_options (some (record no_options { verify_signature = some false })))
    ≡ false
merge_options_lem_example =
    merge_options_lem default_options (record no_options { verify_signature = some false })
      check_exp

validate_headers_lem_example :
    (validate_headers false (("alg", str "HS256") ∷ []) ≡ ok tt)
    ↔ (KidFits (("alg", str "HS256") ∷ []) × CritFits (("alg", str "HS256") ∷ []))
validate_headers_lem_example = validate_headers_lem (("alg", str "HS256") ∷ [])
