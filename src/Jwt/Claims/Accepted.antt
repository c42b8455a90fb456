-- ===== src/Jwt/Claims/Accepted.antt =====
-- `_validate_claims` as a whole: the payloads that it accepts.
use refactoring_pyjwt.Prelude.{Bool, true, false, ◌&&◌, ◌≡◌, ◌↔◌, refl, All}
use refactoring_pyjwt.Prelude.Int.{ℤ}
use refactoring_pyjwt.Exceptions.{Result, ok, raise_if_lem, >>_lem, type_error, ◌>>◌}
use refactoring_pyjwt.Values.{Dict, has}
use refactoring_pyjwt.Algorithms.Keys.{Env}
use refactoring_pyjwt.Jwt.Options.{FullOptions}
use refactoring_pyjwt.Jwt.Claims.{
  Expected, iat, nbf, exp, is_bad, when, total_seconds, validate_claims,
}
use refactoring_pyjwt.Jwt.Claims.Times.{
  IsPast, IsFuture, validate_iat_lem, validate_nbf_lem, validate_exp_lem,
}
use refactoring_pyjwt.Jwt.Claims.Names.{
  IsPresent, IssuerFits, SubjectFits, IsTextIfAny, validate_required_claims_lem, validate_iss_lem,
  validate_sub_lem, validate_jti_lem,
}
use refactoring_pyjwt.Jwt.Claims.Audiences.{AudienceFits, validate_aud_lem}

-- A condition that counts only where an option asks for it.
abbrev pub Asked : Bool → Type 0 → Type 0
Asked true P = P
Asked false P = Unit

-- The conditions on a payload, with no order among them.
pub record IsAccepted (env : Env) (payload : Dict) (options : FullOptions) (expected : Expected)
    (now : ℤ) : Type 0 where
  pub audience_type : is_bad expected.audience ≡ false
  pub required : All (IsPresent payload) options.require
  pub issued :
      Asked
        (has "iat" payload && options.verify_iat)
        (IsPast env payload now (total_seconds expected.leeway) iat)
  pub mature :
      Asked
        (has "nbf" payload && options.verify_nbf)
        (IsPast env payload now (total_seconds expected.leeway) nbf)
  pub alive :
      Asked
        (has "exp" payload && options.verify_exp)
        (IsFuture env payload now (total_seconds expected.leeway) exp)
  pub issuer : Asked options.verify_iss (IssuerFits expected.issuer payload)
  pub audience :
      Asked options.verify_aud (AudienceFits options.strict_aud expected.audience payload)
  pub subject : Asked options.verify_sub (SubjectFits expected.subject payload)
  pub jti : Asked options.verify_jti (IsTextIfAny "jti" payload)

when_lem :
    (b : Bool) (m : Result (Unit {0})) {P : Type 0}
    → (m ≡ ok tt) ↔ P
    → (when b m ≡ ok tt) ↔ Asked b P
when_lem true m same = same
when_lem false m same = (λ h. tt, λ h. refl)

then_lem :
    (m k : Result (Unit {0})) {P Q : Type 0}
    → (m ≡ ok tt) ↔ P
    → (k ≡ ok tt) ↔ Q
    → ((m >> k) ≡ ok tt) ↔ (P × Q)
then_lem m k (to, from) (to', from') =
    let (split, join) = >>_lem m k in
    (λ h. (to (split h).0, to' (split h).1), λ (p, q). join (from p, from' q))

module _ (env : Env) (payload : Dict) (options : FullOptions) (expected : Expected) (now : ℤ) where
  -- A payload passes `_validate_claims` exactly if it meets every condition that the options and the
  -- caller's values ask for.
  pub validate_claims_lem :
      (validate_claims env payload options expected now ≡ ok tt)
      ↔ IsAccepted env payload options expected now
  unfolding validate_claims
  validate_claims_lem =
      let leeway = total_seconds expected.leeway in
      let (to, from) = then_lem _ _ (raise_if_lem (is_bad expected.audience) type_error) (
        then_lem _ _ (validate_required_claims_lem payload options.require) (
          then_lem _ _
            (when_lem (has "iat" payload && options.verify_iat) _
              (validate_iat_lem env payload now leeway))
            (then_lem _ _
              (when_lem (has "nbf" payload && options.verify_nbf) _
                (validate_nbf_lem env payload now leeway))
              (then_lem _ _
                (when_lem (has "exp" payload && options.verify_exp) _
                  (validate_exp_lem env payload now leeway))
                (then_lem _ _
                  (when_lem options.verify_iss _ (validate_iss_lem payload expected.issuer))
                  (then_lem _ _
                    (when_lem options.verify_aud _
                      (validate_aud_lem payload expected.audience options.strict_aud))
                    (then_lem _ _
                      (when_lem options.verify_sub _ (validate_sub_lem payload expected.subject))
                      (when_lem options.verify_jti _ (validate_jti_lem payload))))))))) in
      (
        λ h.
            let (a, (b, (c, (d, (e, (f, (g, (i, j)))))))) = to h in
            record {
              audience_type = a;
              required = b;
              issued = c;
              mature = d;
              alive = e;
              issuer = f;
              audience = g;
              subject = i;
              jti = j;
            },
        λ r. from (
          r.audience_type,
          (
            r.required,
            (r.issued, (r.mature, (r.alive, (r.issuer, (r.audience, (r.subject, r.jti)))))),
          ),
        ),
      )
