-- ===== src/Algorithms/Ec/Family.antt =====
-- Which keys ECAlgorithm.prepare_key lets through.
use refactoring_pyjwt.Prelude.{
  true, false, not, Option, none, some, Bytes, ◌≡◌, inl, inr, refl, sym, ap, ◌∙◌,
}
use refactoring_pyjwt.Exceptions.{
  Result, ok, raise_if_lem, >>=-eq-ok, ok-injective, value_error, invalid_key_error,
}
use refactoring_pyjwt.Exceptions.Inversion.{handling-eq-ok}
use refactoring_pyjwt.Utils.Base64.{force_bytes}
use refactoring_pyjwt.Algorithms.Keys.{
  Env, Algorithm, Curve, secp256r1, secp384r1, secp521r1, secp256k1, same_curve, CryptoKey,
  ec_public, ec_private, KeyObject, text, raw, crypto, str_or_bytes,
}
use refactoring_pyjwt.Algorithms.Base.{is_ec_key, crypto_key_types, check_crypto_key_type}
use refactoring_pyjwt.Algorithms.Base.Family.{check_crypto_key_type-eq-ok}
use refactoring_pyjwt.Algorithms.Ec.{
  curve_of, check_curve, validate_curve, checked, load_key, with_bytes, with_curve, prepare_key,
}

-- The expected curve, if there is one, is that of the key.
abbrev pub IsOnCurve : Option Curve → CryptoKey → Type 0
IsOnCurve none key = Unit
IsOnCurve (some expected) key = curve_of key ≡ some expected

abbrev pub IsEcKey : Option Curve → KeyObject → Type 0
IsEcKey expected key =
    (k : CryptoKey) × (key ≡ crypto k) × (is_ec_key k ≡ true) × IsOnCurve expected k

same_curve_sound : (c d : Curve) → not (same_curve c d) ≡ false → c ≡ d
same_curve_sound secp256r1 secp256r1 h = refl
same_curve_sound secp384r1 secp384r1 h = refl
same_curve_sound secp521r1 secp521r1 h = refl
same_curve_sound secp256k1 secp256k1 h = refl
same_curve_sound _ _ h = cc

check_curve-eq-ok :
    (expected found : Option Curve) (key : CryptoKey)
    → curve_of key ≡ found
    → check_curve expected found ≡ ok tt
    → IsOnCurve expected key
check_curve-eq-ok none found key e h = tt
check_curve-eq-ok (some expected) none key e h = cc
check_curve-eq-ok (some expected) (some c) key e h =
    e
    ∙ ap some (
        same_curve_sound c expected
          ((raise_if_lem (not (same_curve c expected)) invalid_key_error).0 h))

validate_curve-eq-ok :
    (expected : Option Curve) (key : CryptoKey)
    → validate_curve expected key ≡ ok tt
    → IsOnCurve expected key
unfolding validate_curve
validate_curve-eq-ok expected key h = check_curve-eq-ok expected (curve_of key) key refl h

module _ (env : Env) (alg : Algorithm) (expected : Option Curve) (k : KeyObject)
    (family : crypto_key_types alg ≡ some is_ec_key) where
  checked-IsEcKey :
      (loaded : Result CryptoKey) → checked env alg expected loaded ≡ ok k → IsEcKey expected k
  checked-IsEcKey loaded h =
      let (key, h1, h2) = >>=-eq-ok loaded _ h in
      let (done, h3, h4) = >>=-eq-ok (check_crypto_key_type env alg key) _ h2 in
      let (done2, h5, h6) = >>=-eq-ok (validate_curve expected key) _ h4 in
      (
        key,
        sym (ok-injective h6),
        check_crypto_key_type-eq-ok env alg is_ec_key key family h3,
        validate_curve-eq-ok expected key h5,
      )

  load_key-IsEcKey : (b : Bytes) → load_key env alg expected b ≡ ok k → IsEcKey expected k
  unfolding load_key
  load_key-IsEcKey b h = elim (handling-eq-ok value_error _ _ h) [
    | inl first ↦ checked-IsEcKey _ first
    | inr second ↦ checked-IsEcKey _ second
  ]

  with_bytes-IsEcKey :
      (key : KeyObject) → with_bytes env alg expected key ≡ ok k → IsEcKey expected k
  unfolding with_bytes
  with_bytes-IsEcKey key h =
      let (b, h1, h2) = >>=-eq-ok (force_bytes (str_or_bytes key)) _ h in load_key-IsEcKey b h2

  with_curve-IsEcKey :
      (key : CryptoKey) → is_ec_key key ≡ true → with_curve expected key ≡ ok k → IsEcKey expected k
  unfolding with_curve
  with_curve-IsEcKey key e h =
      let (done, h1, h2) = >>=-eq-ok (validate_curve expected key) _ h in
      (key, sym (ok-injective h2), e, validate_curve-eq-ok expected key h1)

  pub prepare_key-IsEcKey :
      (key : KeyObject) → prepare_key env alg expected key ≡ ok k → IsEcKey expected k
  unfolding prepare_key
  prepare_key-IsEcKey (crypto (ec_public n)) h = with_curve-IsEcKey (ec_public n) refl h
  prepare_key-IsEcKey (crypto (ec_private d n)) h = with_curve-IsEcKey (ec_private d n) refl h
  prepare_key-IsEcKey (text s) h = with_bytes-IsEcKey (text s) h
  prepare_key-IsEcKey (raw b) h = with_bytes-IsEcKey (raw b) h
  prepare_key-IsEcKey _ h = cc
