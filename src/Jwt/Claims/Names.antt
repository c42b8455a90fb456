-- ===== src/Jwt/Claims/Names.antt =====
-- The claims that name the token: `_validate_required_claims`, `_validate_iss`, `_validate_sub` and
-- `_validate_jti`.
use mathlib.Core.Path.{subst}
use refactoring_pyjwt.Prelude.{
  String, Option, none, some, List, [], ◌∷◌, Memᴰ, elem_iff, eq_iff, All, ◌≡◌, ◌≢◌, ◌↔◌, ◌⊎◌, inl,
  inr, refl, arith, ◌∙◌, ap, if◌then◌else◌,
}
use refactoring_pyjwt.Exceptions.{ok, err, >>_lem, missing_claim}
use refactoring_pyjwt.Values.{Value, null, str, Dict, get, or_null}
use refactoring_pyjwt.Jwt.Claims.{
  Issuer, one_issuer, issuers, bad_issuer, validate_required_claims, validate_iss, validate_sub,
  validate_jti, is_none, check_iss, check_issuer, check_sub, check_jti,
}

-- The payload has the claim, and its value is not null.
abbrev pub IsPresent : Dict → String → Type 0
IsPresent payload claim = or_null (get claim payload) ≢ null

check_present :
    (v : Value) (claim : String)
    → ((if is_none v then err (missing_claim claim) else ok (tt {0})) ≡ ok tt) ↔ (v ≢ null)
check_present null claim = (λ h. cc, λ h. elim (h refl) [ ])
check_present _ claim = (λ h p. cc, λ h. refl)

pub validate_required_claims_lem :
    (payload : Dict) (claims : List String)
    → (validate_required_claims payload claims ≡ ok tt) ↔ All (IsPresent payload) claims
unfolding validate_required_claims
validate_required_claims_lem payload [] = (λ h. tt, λ h. refl)
validate_required_claims_lem payload (claim ∷ claims) =
    let (to, from) =
      >>_lem (if is_none (or_null (get claim payload)) then err (missing_claim claim) else ok tt)
        (validate_required_claims payload claims) in
    let here = check_present (or_null (get claim payload)) claim in
    let there = validate_required_claims_lem payload claims in
    (λ h. (here.0 (to h).0, there.0 (to h).1), λ (h, k). from (here.1 h, there.1 k))

-- The issuer of the token is the one that the caller expects, or one of them.
abbrev pub IssuerFits : Option Issuer → Dict → Type 0
IssuerFits none payload = Unit
IssuerFits (some (one_issuer issuer)) payload = get "iss" payload ≡ some (str issuer)
IssuerFits (some (issuers names)) payload =
    (iss : String) × (get "iss" payload ≡ some (str iss)) × Memᴰ iss names
IssuerFits (some bad_issuer) payload = ⊥

check_iss_lem :
    (issuer : Issuer) (payload : Dict) (o : Option Value)
    → get "iss" payload ≡ o
    → (check_iss issuer o ≡ ok tt) ↔ IssuerFits (some issuer) payload
unfolding check_iss
check_iss_lem (one_issuer i) payload none e = (λ h. cc, λ h. cc)
check_iss_lem (issuers names) payload none e = (λ h. cc, λ (i, h, m). cc)
check_iss_lem bad_issuer payload none e = (λ h. cc, λ h. elim h [ ])
check_iss_lem (one_issuer i) payload (some (str iss)) e =
    let (equal, test) = eq_iff iss i in
    (
      λ h. e ∙ ap (λ t. some (str t)) (equal (ground arith)),
      λ h. let same : iss ≡ i = cc in rw (test same),
    )
check_iss_lem (issuers names) payload (some (str iss)) e =
    let (member, test) = elem_iff iss names in
    (
      λ h. (iss, e, member (ground arith)),
      λ (i, h, m).
          let same : i ≡ iss = cc in
          let found = test (subst (λ t. Memᴰ t names) same m) in rw found,
    )
check_iss_lem (one_issuer i) payload (some _) e = (λ h. cc, λ h. cc)
check_iss_lem (issuers names) payload (some _) e = (λ h. cc, λ (i, h, m). cc)
check_iss_lem bad_issuer payload (some _) e = (λ h. cc, λ h. elim h [ ])

pub validate_iss_lem :
    (payload : Dict) (issuer : Option Issuer)
    → (validate_iss payload issuer ≡ ok tt) ↔ IssuerFits issuer payload
unfolding validate_iss check_issuer
validate_iss_lem payload none = (λ h. tt, λ h. refl)
validate_iss_lem payload (some issuer) = check_iss_lem issuer payload (get "iss" payload) refl

-- A claim that may be left out, and is a text otherwise.
abbrev pub IsTextIfAny : String → Dict → Type 0
IsTextIfAny claim payload =
    (get claim payload ≡ none) ⊎ ((s : String) × (get claim payload ≡ some (str s)))

check_jti_lem :
    (o : Option Value) → (check_jti o ≡ ok tt) ↔ ((o ≡ none) ⊎ ((s : String) × (o ≡ some (str s))))
check_jti_lem none = (λ h. inl refl, λ h. refl)
check_jti_lem (some (str s)) = (λ h. inr (s, refl), λ h. refl)
check_jti_lem (some _) = (λ h. cc, λ h. elim h [ inl e ↦ cc | inr (s, e) ↦ cc ])

check_sub_lem :
    (subject : String) (o : Option Value)
    → (check_sub (some subject) o ≡ ok tt) ↔ ((o ≡ none) ⊎ (o ≡ some (str subject)))
check_sub_lem subject none = (λ h. inl refl, λ h. refl)
check_sub_lem subject (some (str s)) =
    let (equal, test) = eq_iff s subject in
    (
      λ h. inr (ap (λ t. some (str t)) (equal (ground arith))),
      λ h. elim h [ inl e ↦ cc | inr e ↦ let same : s ≡ subject = cc in rw (test same) ],
    )
check_sub_lem subject (some _) = (λ h. cc, λ h. elim h [ inl e ↦ cc | inr e ↦ cc ])

check_any_sub_lem :
    (o : Option Value)
    → (check_sub none o ≡ ok tt) ↔ ((o ≡ none) ⊎ ((s : String) × (o ≡ some (str s))))
check_any_sub_lem none = (λ h. inl refl, λ h. refl)
check_any_sub_lem (some (str s)) = (λ h. inr (s, refl), λ h. refl)
check_any_sub_lem (some _) = (λ h. cc, λ h. elim h [ inl e ↦ cc | inr (s, e) ↦ cc ])

abbrev pub SubjectFits : Option String → Dict → Type 0
SubjectFits none payload = IsTextIfAny "sub" payload
SubjectFits (some subject) payload =
    (get "sub" payload ≡ none) ⊎ (get "sub" payload ≡ some (str subject))

pub validate_sub_lem :
    (payload : Dict) (subject : Option String)
    → (validate_sub payload subject ≡ ok tt) ↔ SubjectFits subject payload
unfolding validate_sub
validate_sub_lem payload none = check_any_sub_lem (get "sub" payload)
validate_sub_lem payload (some subject) = check_sub_lem subject (get "sub" payload)

pub validate_jti_lem : (payload : Dict) → (validate_jti payload ≡ ok tt) ↔ IsTextIfAny "jti" payload
unfolding validate_jti
validate_jti_lem payload = check_jti_lem (get "jti" payload)
