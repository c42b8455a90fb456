-- ===== src/Jws/Decode/Verified.antt =====
-- What a token that decode_complete accepted has been checked for.
use mathlib.Core.Path.{subst}
use refactoring_pyjwt.Prelude.{
  String, Bool, true, false, not, ◌&&◌, ◌||◌, Option, none, some, List, Bytes, ◌≡◌, refl, arith,
  ◌∙◌, ap,
}
use refactoring_pyjwt.Exceptions.{
  ok, raise_if, >>=-eq-ok, invalid_signature_error, invalid_algorithm_error, ExceptionClass,
  decode_error, ok-injective,
}
use refactoring_pyjwt.Exceptions.Warned.{warn_removed_kwargs}
use refactoring_pyjwt.Values.{Value, Dict, get, truthy}
use refactoring_pyjwt.Utils.Base64.{StrOrBytes}
use refactoring_pyjwt.Algorithms.Keys.{Env, Algorithm, KeyObject}
use refactoring_pyjwt.Algorithms.Registry
use refactoring_pyjwt.Jws.State.{PyJws, GivenSigOptions, merge}
use refactoring_pyjwt.Jws.Headers.{validate_headers}
use refactoring_pyjwt.Jws.Keys.{Key, is_jwk, prepare_signing_key}
use refactoring_pyjwt.Jws.Token.{Loaded, load}
use refactoring_pyjwt.Jws.Decode.{
  Decoded, allowed_algorithms, is_allowed, header_alg, algorithm_for, verify_signature, is_detached,
  detach, verify_if, decode_complete, none_given,
}

-- Each check of `_verify_signature` has passed.
pub record IsVerified (env : Env) (jws : PyJws) (signing_input : Bytes) (header : Dict)
    (signature : Bytes) (key : Key) (algorithms : Option (List String)) : Type 0 where
  pub alg : Value
  pub in_header : get "alg" header ≡ some alg
  pub nonempty : truthy alg ≡ true
  pub allowed : is_allowed alg (allowed_algorithms key algorithms) ≡ true
  pub algorithm : Algorithm
  pub by_name : algorithm_for jws key alg ≡ ok algorithm
  pub prepared : KeyObject
  pub by_algorithm : (prepare_signing_key env jws algorithm key).0 ≡ ok prepared
  pub accepts : Registry.verify env algorithm signing_input prepared signature ≡ ok true

raise_if-eq-ok : (b : Bool) (c : ExceptionClass) → raise_if b c ≡ ok tt → b ≡ false
raise_if-eq-ok true c h = cc
raise_if-eq-ok false c h = refl

not-eq-false : (b : Bool) → not b ≡ false → b ≡ true
not-eq-false true h = refl
not-eq-false false h = cc

no_missing_algorithms : (on a b : Bool) → on ≡ true → (on && a && b) ≡ false → (a && b) ≡ false
no_missing_algorithms true true b p h = h
no_missing_algorithms true false b p h = refl
no_missing_algorithms false a b p h = cc

verify_if-on :
    (on : Bool) (env : Env) (jws : PyJws) (input : Bytes) (l : Loaded) (key : Key)
    (algorithms : Option (List String))
    → on ≡ true
    → (verify_if on env jws input l key algorithms).0 ≡ ok tt
    → (verify_signature env jws input l.header l.signature key algorithms).0 ≡ ok tt
verify_if-on true env jws input l key algorithms p h = h
verify_if-on false env jws input l key algorithms p h = cc

header_alg-eq-ok : (o : Option Value) {v : Value} → header_alg o ≡ ok v → o ≡ some v
header_alg-eq-ok none h = cc
header_alg-eq-ok (some w) h = cc

module _ (env : Env) (jws : PyJws) (key : Key) (algorithms : Option (List String)) where
  pub verify_signature-IsVerified :
      (signing_input : Bytes) (header : Dict) (signature : Bytes)
      → (verify_signature env jws signing_input header signature key algorithms).0 ≡ ok tt
      → IsVerified env jws signing_input header signature key algorithms
  unfolding verify_signature
  verify_signature-IsVerified signing_input header signature h =
      let (alg, e1, h1) = >>=-eq-ok (header_alg (get "alg" header)) _ h in
      let (u, e2, h2) =
        >>=-eq-ok
          (raise_if (not (truthy alg) || not (is_allowed alg (allowed_algorithms key algorithms)))
            invalid_algorithm_error)
          _ h1 in
      let (algorithm, e3, h3) = >>=-eq-ok (algorithm_for jws key alg) _ h2 in
      let (prepared, e4, h4) = >>=-eq-ok (prepare_signing_key env jws algorithm key).0 _ h3 in
      let (verified, e5, h5) =
        >>=-eq-ok (Registry.verify env algorithm signing_input prepared signature) _ h4 in
      let refused = raise_if-eq-ok _ invalid_algorithm_error e2 in
      record {
        alg = alg;
        in_header = header_alg-eq-ok _ e1;
        nonempty = ground arith;
        allowed = ground arith;
        algorithm = algorithm;
        by_name = e3;
        prepared = prepared;
        by_algorithm = e4;
        accepts =
            e5 ∙ ap ok (not-eq-false _ (raise_if-eq-ok (not verified) invalid_signature_error h5));
      }

-- What decode_complete has checked when it returns `d` for a token with verification on.
pub record IsChecked (env : Env) (jws : PyJws) (token : StrOrBytes) (key : Key)
    (algorithms : Option (List String)) (detached_payload : Option Bytes) (d : Decoded)
    : Type 0 where
  pub loaded : Loaded
  pub from_token : load env token ≡ ok loaded
  pub same_header : d.header ≡ loaded.header
  pub same_signature : d.signature ≡ loaded.signature
  pub valid_headers : validate_headers false d.header ≡ ok tt
  pub algorithms_or_jwk : none_given algorithms && not (is_jwk key) ≡ false
  pub signing_input : Bytes
  pub signed_payload :
      detach (is_detached d.header) loaded detached_payload ≡ ok (d.payload, signing_input)
  pub verified : IsVerified env jws signing_input d.header d.signature key algorithms

module _ (env : Env) (jws : PyJws) (token : StrOrBytes) (key : Key)
    (algorithms : Option (List String)) (options : Option GivenSigOptions)
    (detached_payload : Option Bytes) (kwargs : List String) {d : Decoded} where
  -- Whatever decode_complete returns with verification on has a header that the header checks
  -- accept and an allowed, non-empty "alg", and the algorithm object that this selects, or
  -- the own one of a key that is a PyJWK, has verified the signature of the token over the signing input whose payload is returned.
  pub decode_complete-IsChecked :
      (merge jws.options options).verify_signature ≡ true
      → (decode_complete env jws token key algorithms options detached_payload kwargs).0 ≡ ok d
      → IsChecked env jws token key algorithms detached_payload d
  unfolding decode_complete
  decode_complete-IsChecked on h =
      let (u, e0, h0) = >>=-eq-ok (warn_removed_kwargs kwargs).0 _ h in
      let (u1, e1, h1) =
        >>=-eq-ok
          (raise_if
            ((merge jws.options options).verify_signature
              && none_given algorithms
              && not (is_jwk key))
            decode_error)
          _ h0 in
      let (l, e2, h2) = >>=-eq-ok (load env token) _ h1 in
      let (u3, e3, h3) = >>=-eq-ok (validate_headers false l.header) _ h2 in
      let (p, e4, h4) = >>=-eq-ok (detach (is_detached l.header) l detached_payload) _ h3 in
      let (u5, e5, h5) =
        >>=-eq-ok
          (verify_if (merge jws.options options).verify_signature env jws p.1 l key algorithms).0 _
          h4 in
      subst (λ c. IsChecked env jws token key algorithms detached_payload c) (ok-injective h5)
        (record {
          loaded = l;
          from_token = e2;
          same_header = refl;
          same_signature = refl;
          valid_headers = e3;
          algorithms_or_jwk =
              no_missing_algorithms _ (none_given algorithms) (not (is_jwk key)) on
                (raise_if-eq-ok _ decode_error e1);
          signing_input = p.1;
          signed_payload = e4;
          verified =
              verify_signature-IsVerified env jws key algorithms p.1 l.header l.signature
                (verify_if-on _ env jws p.1 l key algorithms on e5);
        })
