-- ===== src/Jwt/Claims/Times.antt =====
-- The time claims: `_validate_iat`, `_validate_nbf` and `_validate_exp` against intervals.
use refactoring_pyjwt.Prelude.{Bool, false, ◌≡◌, ◌↔◌, refl}
use refactoring_pyjwt.Prelude.Int.{
  ℤ, ◌+ℤ◌, ◌-ℤ◌, ◌≤ℤ◌, ◌<ℤ◌, ltb_ℤ, leb_ℤ, ltb_ℤ-false, leb_ℤ-false,
}
use refactoring_pyjwt.Exceptions.{
  ExceptionClass, Result, ok, err, raise, raise_if, raise_if_lem, >>=-eq-ok, ok-injective,
  immature_signature_error, expired_signature_error,
}
use refactoring_pyjwt.Exceptions as Exceptions
use refactoring_pyjwt.Values.{Dict}
use refactoring_pyjwt.Algorithms.Keys.{Env}
use refactoring_pyjwt.Jwt.Claims.{
  TimeClaim, iat, nbf, exp, coerce_int_claim, validate_iat, validate_nbf, validate_exp, micros,
}

-- A coercion followed by a test.
coerced_lem :
    (m : Result ℤ) (test : ℤ → Bool) (c : ExceptionClass)
    → (Exceptions.◌>>=◌ m (λ n. raise_if (test n) c) ≡ ok tt)
      ↔ ((n : ℤ) × (m ≡ ok n) × (test n ≡ false))
coerced_lem (ok n) test c = (
  λ h. (n, refl, (raise_if_lem (test n) c).0 h),
  λ (k, e, h). let same : n ≡ k = ok-injective e in (raise_if_lem (test n) c).1 (rw same h),
)
coerced_lem (err e) test c = (λ h. cc, λ (k, e, h). cc)

-- The claim is read as a number of seconds that is not in the future, given the leeway.
pub record IsPast (env : Env) (payload : Dict) (now leeway : ℤ) (claim : TimeClaim) : Type 0 where
  pub time : ℤ
  pub is_time : coerce_int_claim env payload claim ≡ ok time
  pub in_time : micros time ≤ℤ now +ℤ leeway

-- The claim is read as a number of seconds that lies ahead, given the leeway.
pub record IsFuture (env : Env) (payload : Dict) (now leeway : ℤ) (claim : TimeClaim) : Type 0 where
  pub time : ℤ
  pub is_time : coerce_int_claim env payload claim ≡ ok time
  pub in_time : now -ℤ leeway <ℤ micros time

module _ (env : Env) (payload : Dict) (now leeway : ℤ) where
  not_early_lem :
      (claim : TimeClaim)
      → (Exceptions.◌>>=◌
            (coerce_int_claim env payload claim)
            (λ n. raise_if (ltb_ℤ (now +ℤ leeway) (micros n)) immature_signature_error)
          ≡ ok tt)
        ↔ IsPast env payload now leeway claim
  not_early_lem claim =
      let (to, from) =
        coerced_lem (coerce_int_claim env payload claim) (λ n. ltb_ℤ (now +ℤ leeway) (micros n))
          immature_signature_error in
      (
        λ h.
            let (n, e, k) = to h in
            record {
              time = n;
              is_time = e;
              in_time = (ltb_ℤ-false (now +ℤ leeway) (micros n)).0 k;
            },
        λ r. from (r.time, r.is_time, (ltb_ℤ-false (now +ℤ leeway) (micros r.time)).1 r.in_time),
      )

  pub validate_iat_lem :
      (validate_iat env payload now leeway ≡ ok tt) ↔ IsPast env payload now leeway iat
  unfolding validate_iat
  validate_iat_lem = not_early_lem iat

  pub validate_nbf_lem :
      (validate_nbf env payload now leeway ≡ ok tt) ↔ IsPast env payload now leeway nbf
  unfolding validate_nbf
  validate_nbf_lem = not_early_lem nbf

  pub validate_exp_lem :
      (validate_exp env payload now leeway ≡ ok tt) ↔ IsFuture env payload now leeway exp
  unfolding validate_exp
  validate_exp_lem =
      let (to, from) =
        coerced_lem (coerce_int_claim env payload exp) (λ n. leb_ℤ (micros n) (now -ℤ leeway))
          expired_signature_error in
      (
        λ h.
            let (n, e, k) = to h in
            record {
              time = n;
              is_time = e;
              in_time = (leb_ℤ-false (micros n) (now -ℤ leeway)).0 k;
            },
        λ r. from (r.time, r.is_time, (leb_ℤ-false (micros r.time) (now -ℤ leeway)).1 r.in_time),
      )
