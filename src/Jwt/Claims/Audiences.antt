-- ===== src/Jwt/Claims/Audiences.antt =====
-- `_validate_aud`: the token's audiences against the caller's.
use mathlib.Core.Path.{subst}
use refactoring_pyjwt.Prelude.{
  String, Bool, true, false, not, Option, none, some, List, [], ◌∷◌, Memᴰ, elem, elem_iff, eq_iff,
  Bool-cases, all, ◌≡◌, ◌↔◌, inl, inr, refl, arith, sym, ap, if◌then◌else◌, map,
}
use refactoring_pyjwt.Exceptions.{
  Exception, ExceptionClass, Result, ok, err, raise, raise_if, raise_if_lem, >>=-eq-ok,
  ok-injective, invalid_audience_error, missing_claim,
}
use refactoring_pyjwt.Values.{Value, Items, str, list, Dict, get, or_null, elems}
use refactoring_pyjwt.Jwt.Claims.{
  Audience, one_audience, validate_aud, has_no_aud, expected_audiences, claimed_audiences, texts,
  check_strict, check_any, check_aud,
}

-- The audiences that the value of an "aud" claim names.
pub data Names : Value → List String → Type 0 where
  one_name : (s : String) → Names (str s) (s ∷ [])
  many_names : {vs : Items} {names : List String} → elems vs ≡ map str names → Names (list vs) names

-- What is asked of the "aud" claim: none where the caller expects none; in the strict mode one text,
-- the expected one; and else one of the expected audiences among those that it names.
abbrev pub AudienceFits : (strict : Bool) → Option Audience → Dict → Type 0
AudienceFits strict none payload = has_no_aud payload ≡ true
AudienceFits true (some (one_audience audience)) payload =
    (has_no_aud payload ≡ false) × (or_null (get "aud" payload) ≡ str audience)
AudienceFits true (some _) payload = ⊥
AudienceFits false (some audience) payload =
    (has_no_aud payload ≡ false)
    × ((names : List String) × Names (or_null (get "aud" payload)) names
        × ((name : String) × Memᴰ name names × Memᴰ name (expected_audiences audience)))

texts-map : (names : List String) → texts (map str names) ≡ ok names
unfolding texts
texts-map [] = refl
texts-map (s ∷ names) = rw (texts-map names)

texts_sound : (vs : List Value) (names : List String) → texts vs ≡ ok names → vs ≡ map str names
unfolding texts
texts_sound [] names h = let same : [] ≡ names = ok-injective h in rw (sym same)
texts_sound (str s ∷ vs) names h =
    let (rest, e, k) = >>=-eq-ok (texts vs) _ h in
    let same : (s ∷ rest) ≡ names = ok-injective k in rw (sym same, sym (texts_sound vs rest e))
texts_sound (_ ∷ vs) names h = cc

claimed_sound : (v : Value) (names : List String) → claimed_audiences v ≡ ok names → Names v names
unfolding claimed_audiences
claimed_sound (str s) names h = subst (Names (str s)) (ok-injective h) (one_name s)
claimed_sound (list vs) names h = many_names (texts_sound (elems vs) names h)
claimed_sound _ names h = cc

claimed_complete :
    (v : Value) (names : List String) → Names v names → claimed_audiences v ≡ ok names
unfolding claimed_audiences
claimed_complete _ _ (one_name s) = refl
claimed_complete _ names (many_names e) = rw e (texts-map names)

common_lem :
    (expected claimed : List String)
    → (all (λ aud. not (elem aud claimed)) expected ≡ false)
      ↔ ((name : String) × Memᴰ name claimed × Memᴰ name expected)
common_lem [] claimed = (λ h. cc, λ (n, m, k). elim k [ ])
common_lem (e ∷ expected) claimed =
    let (to, from) = common_lem expected claimed in
    let (member, test) = elem_iff e claimed in
    (
      λ h. elim (Bool-cases (elem e claimed)) [
        | inl found ↦ (e, member found, Memᴰ.head refl)
        | inr missing ↦ let (n, m, k) = to (ground arith) in (n, m, Memᴰ.tail k)
      ],
      λ (n, m, k). elim k [
        | Memᴰ.head same ↦ let found = test (subst (λ t. Memᴰ t claimed) same m) in rw found
        | Memᴰ.tail k ↦ let rest = from (n, m, k) in ground arith
      ],
    )

check_strict_lem :
    (audience : String) (v : Value)
    → (check_strict (one_audience audience) v ≡ ok tt) ↔ (v ≡ str audience)
unfolding check_strict
check_strict_lem audience (str s) =
    let (equal, test) = eq_iff audience s in
    (λ h. ap str (sym (equal (ground arith))), λ h. let same : audience ≡ s = cc in rw (test same))
check_strict_lem audience _ = (λ h. cc, λ h. cc)

check_any_lem :
    (audience : Audience) (v : Value)
    → (check_any audience v ≡ ok tt) ↔ (
        (names : List String) × Names v names
        × ((name : String) × Memᴰ name names × Memᴰ name (expected_audiences audience)))
unfolding check_any
check_any_lem audience v = (
  λ h.
      let (names, e, k) = >>=-eq-ok (claimed_audiences v) _ h in
      (
        names,
        claimed_sound v names e,
        (common_lem (expected_audiences audience) names).0
            ((raise_if_lem _ invalid_audience_error).0 k),
      ),
  λ (names, e, k).
      let claimed = claimed_complete v names e in
      rw claimed (
        (raise_if_lem _ invalid_audience_error).1
          ((common_lem (expected_audiences audience) names).1 k)),
)

guard_lem :
    (b : Bool) (e : Exception) (m : Result (Unit {0}))
    → ((if b then err e else m) ≡ ok tt) ↔ ((b ≡ false) × (m ≡ ok tt))
guard_lem true e m = (λ h. cc, λ (h, k). cc)
guard_lem false e m = (λ h. (refl, h), λ (h, k). k)

not_lem : (b : Bool) (c : ExceptionClass) → (raise_if (not b) c ≡ ok tt) ↔ (b ≡ true)
not_lem true c = (λ h. refl, λ h. refl)
not_lem false c = (λ h. cc, λ h. cc)

module _ (payload : Dict) where
  some_audience_lem :
      (audience : Audience) (strict : Bool) (m : Result (Unit {0})) {P : Type 0}
      → (m ≡ ok tt) ↔ P
      → ((if has_no_aud payload then err (missing_claim "aud") else m) ≡ ok tt)
        ↔ ((has_no_aud payload ≡ false) × P)
  some_audience_lem audience strict m (to, from) =
      let (out, back) = guard_lem (has_no_aud payload) (missing_claim "aud") m in
      (λ h. ((out h).0, to (out h).1), λ (h, p). back (h, from p))

  pub validate_aud_lem :
      (audience : Option Audience) (strict : Bool)
      → (validate_aud payload audience strict ≡ ok tt) ↔ AudienceFits strict audience payload
  unfolding validate_aud check_aud check_strict
  validate_aud_lem none strict = not_lem (has_no_aud payload) invalid_audience_error
  validate_aud_lem (some (one_audience a)) true =
      some_audience_lem (one_audience a) true
        (check_strict (one_audience a) (or_null (get "aud" payload)))
        (check_strict_lem a (or_null (get "aud" payload)))
  validate_aud_lem (some _) true = (
    λ h.
        let (out, back) =
          guard_lem (has_no_aud payload) (missing_claim "aud") (raise invalid_audience_error) in
        let refused = (out h).1 in cc,
    λ h. elim h [ ],
  )
  validate_aud_lem (some audience) false =
      some_audience_lem audience false (check_any audience (or_null (get "aud" payload)))
        (check_any_lem audience (or_null (get "aud" payload)))
