-- ===== src/Jwt/Decode/Verified.antt =====
-- What a token that PyJWT.decode_complete accepted has been checked for.
use mathlib.Core.Path.{subst}
use refactoring_pyjwt.Prelude.{
  String, Bool, true, false, Option, none, some, List, [], Bytes, ◌≡◌, refl,
}
use refactoring_pyjwt.Prelude.Int.{ℤ}
use refactoring_pyjwt.Exceptions.{ok, >>=-eq-ok, ok-injective}
use refactoring_pyjwt.Exceptions.Warned.{warn_removed_kwargs}
use refactoring_pyjwt.Utils.Base64.{StrOrBytes}
use refactoring_pyjwt.Algorithms.Keys.{Env}
use refactoring_pyjwt.Jws.State.{merge}
use refactoring_pyjwt.Jws.Keys.{Key}
use refactoring_pyjwt.Jws.Decode as JwsDecode
use refactoring_pyjwt.Jws.Decode.{Decoded}
use refactoring_pyjwt.Jws.Decode.Verified.{IsChecked, decode_complete-IsChecked}
use refactoring_pyjwt.Jwt.Options.{PyJwt, Options, requested, merge_options}
use refactoring_pyjwt.Jwt.Claims.{Expected, validate_claims}
use refactoring_pyjwt.Jwt.Claims.Accepted.{IsAccepted, validate_claims_lem}
use refactoring_pyjwt.Jwt.Decode.{
  DecodedToken, warn_legacy_verify_mismatch, decode_payload, signature_only, decode_complete,
}

-- The signature of the token, its payload and its claims have been checked.
pub record IsTrusted (env : Env) (jwt : PyJwt) (now : ℤ) (token : StrOrBytes) (key : Key)
    (algorithms : Option (List String)) (options : Option Options) (detached_payload : Option Bytes)
    (expected : Expected) (d : DecodedToken) : Type 0 where
  pub signed : Decoded
  pub checked : IsChecked env jwt.jws token key algorithms detached_payload signed
  pub same_header : d.header ≡ signed.header
  pub same_signature : d.signature ≡ signed.signature
  pub from_payload : decode_payload env signed.payload ≡ ok d.payload
  pub accepted : IsAccepted env d.payload (merge_options jwt.options options) expected now

merge-signature_only :
    (jwt : PyJwt) (b : Bool)
    → b ≡ true
    → (merge jwt.jws.options (some (signature_only b))).verify_signature ≡ true
unfolding merge
merge-signature_only jwt b h = h

warn_legacy-ok :
    (verify : Option Bool) (b : Bool) → (warn_legacy_verify_mismatch verify b).0 ≡ ok tt
unfolding warn_legacy_verify_mismatch
warn_legacy-ok none b = refl
warn_legacy-ok (some true) true = refl
warn_legacy-ok (some true) false = refl
warn_legacy-ok (some false) true = refl
warn_legacy-ok (some false) false = refl

module _ (env : Env) (jwt : PyJwt) (now : ℤ) (token : StrOrBytes) (key : Key)
    (algorithms : Option (List String)) (options : Option Options) (verify : Option Bool)
    (detached_payload : Option Bytes) (expected : Expected) (kwargs : List String)
    {d : DecodedToken} where
  -- Unless the call itself turns verification off, what decode_complete returns has a header whose "alg"
  -- the caller allows, a verified signature and accepted claims. The algorithm object that verified the
  -- signature is the one under that "alg", or the own one of a key that is a PyJWK, whichever allowed
  -- algorithm the header names. The options of the object do not matter for the signature, nor does the
  -- legacy argument `verify`.
  pub decode_complete-IsTrusted :
      requested options ≡ true
      → (decode_complete env jwt now token key algorithms options verify detached_payload expected
          kwargs).0
        ≡ ok d
      → IsTrusted env jwt now token key algorithms options detached_payload expected d
  unfolding decode_complete
  decode_complete-IsTrusted on h =
      let (u, e0, h0) = >>=-eq-ok (warn_removed_kwargs kwargs).0 _ h in
      let (u1, e1, h1) =
        >>=-eq-ok (warn_legacy_verify_mismatch verify (requested options)).0 _ h0 in
      let (s, e2, h2) =
        >>=-eq-ok
          (JwsDecode.decode_complete env jwt.jws token key algorithms
            (some (signature_only (requested options))) detached_payload []).0
          _ h1 in
      let (payload, e3, h3) = >>=-eq-ok (decode_payload env s.payload) _ h2 in
      let (u4, e4, h4) =
        >>=-eq-ok (validate_claims env payload (merge_options jwt.options options) expected now) _
          h3 in
      subst (λ c. IsTrusted env jwt now token key algorithms options detached_payload expected c)
        (ok-injective h4)
        (record {
          signed = s;
          checked =
              decode_complete-IsChecked env jwt.jws token key algorithms
                (some (signature_only (requested options))) detached_payload []
                (merge-signature_only jwt _ on) e2;
          same_header = refl;
          same_signature = refl;
          from_payload = e3;
          accepted =
              (validate_claims_lem env payload (merge_options jwt.options options) expected now).0
                e4;
        })
