-- ===== src/Jwt/Claims/TimeErrors.antt =====
-- The exceptions of the checks on times and on required claims.
use refactoring_pyjwt.Prelude.{
  String, true, false, List, [], ◌∷◌, Option, ◌≡◌, ◌⊎◌, inl, inr, refl, Option-cases, Bool-cases,
}
use refactoring_pyjwt.Prelude.Int.{ℤ}
use refactoring_pyjwt.Exceptions.{
  Exception, raised, is_instance, is_subclass, type_error, overflow_error, value_error,
  invalid_token_error, missing_claim, immature_signature_error, expired_signature_error,
}
use refactoring_pyjwt.Exceptions.Errors.{Only, Only->>=, Only-raise_if, Only-catching}
use refactoring_pyjwt.Values.{
  Value, bool, int, float, str, finite, infinity, nan, Dict, get, or_null, int_of,
}
use refactoring_pyjwt.Algorithms.Keys.{Env}
use refactoring_pyjwt.Jwt.Claims.{
  TimeClaim, iat, nbf, exp, validate_required_claims, validate_iat, validate_nbf, validate_exp,
  coerce_int_claim, claim_name, int_claim_error, is_none,
}

-- What int() may raise.
abbrev IsIntError : Exception → Type 0
IsIntError e = (e ≡ raised value_error) ⊎ (e ≡ raised type_error) ⊎ (e ≡ raised overflow_error)

int_of-IsIntError :
    (int_of_str : String → Option ℤ) (v : Value) → Only IsIntError (int_of int_of_str v)
unfolding int_of
int_of-IsIntError int_of_str (int n) = tt
int_of-IsIntError int_of_str (bool true) = tt
int_of-IsIntError int_of_str (bool false) = tt
int_of-IsIntError int_of_str (float (finite m k)) = tt
int_of-IsIntError int_of_str (float (infinity s)) = inr (inr refl)
int_of-IsIntError int_of_str (float nan) = inl refl
int_of-IsIntError int_of_str (str s) =
    let unread : IsIntError (raised value_error) = inl refl in
    elim (Option-cases (int_of_str s)) [
      | inl e ↦ rw (e, Only) unread
      | inr (n, e) ↦ rw (e, Only) tt
    ]
int_of-IsIntError int_of_str _ = inr (inl refl)

abbrev pub IsClaimError : Exception → Type 0
IsClaimError e =
    (is_instance e invalid_token_error ≡ true)
    ⊎ (e ≡ raised type_error)
    ⊎ (e ≡ raised overflow_error)

int_claim_error-IsClaimError : (claim : TimeClaim) → IsClaimError (raised (int_claim_error claim))
unfolding is_subclass
int_claim_error-IsClaimError iat = inl refl
int_claim_error-IsClaimError nbf = inl refl
int_claim_error-IsClaimError exp = inl refl

value_error_caught : is_instance (raised value_error) value_error ≡ true
unfolding is_subclass
value_error_caught = refl

value_error_only :
    (e : Exception) → IsIntError e → is_instance e value_error ≡ false → IsClaimError e
value_error_only e (inl p) n = let n' = rw p at n in let yes = value_error_caught in cc
value_error_only e (inr p) n = inr p

coerce_errors :
    (env : Env) (payload : Dict) (claim : TimeClaim)
    → Only IsClaimError (coerce_int_claim env payload claim)
unfolding coerce_int_claim
coerce_errors env payload claim =
    Only-catching IsClaimError IsIntError value_error (int_claim_error claim) _
      (int_of-IsIntError env.int_of_str (or_null (get (claim_name claim) payload)))
      (int_claim_error-IsClaimError claim) value_error_only

module _ (env : Env) (payload : Dict) (now leeway : ℤ) where
  early_IsClaimError : IsClaimError (raised immature_signature_error)
  unfolding is_subclass
  early_IsClaimError = inl refl

  late_IsClaimError : IsClaimError (raised expired_signature_error)
  unfolding is_subclass
  late_IsClaimError = inl refl

  pub iat_errors : Only IsClaimError (validate_iat env payload now leeway)
  unfolding validate_iat
  iat_errors =
      Only->>= IsClaimError (coerce_int_claim env payload iat) _ (coerce_errors env payload iat)
        (λ n. Only-raise_if IsClaimError _ immature_signature_error early_IsClaimError)

  pub nbf_errors : Only IsClaimError (validate_nbf env payload now leeway)
  unfolding validate_nbf
  nbf_errors =
      Only->>= IsClaimError (coerce_int_claim env payload nbf) _ (coerce_errors env payload nbf)
        (λ n. Only-raise_if IsClaimError _ immature_signature_error early_IsClaimError)

  pub exp_errors : Only IsClaimError (validate_exp env payload now leeway)
  unfolding validate_exp
  exp_errors =
      Only->>= IsClaimError (coerce_int_claim env payload exp) _ (coerce_errors env payload exp)
        (λ n. Only-raise_if IsClaimError _ expired_signature_error late_IsClaimError)

pub required_errors :
    (payload : Dict) (claims : List String)
    → Only IsClaimError (validate_required_claims payload claims)
unfolding validate_required_claims is_subclass
required_errors payload [] = tt
required_errors payload (claim ∷ claims) =
    let missing : IsClaimError (missing_claim claim) = inl refl in
    elim (Bool-cases (is_none (or_null (get claim payload)))) [
      | inl absent ↦ rw absent missing
      | inr there ↦ rw there (required_errors payload claims)
    ]
