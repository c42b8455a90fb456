-- ===== src/Jwt/RoundTrip/Unverified.antt =====
-- What PyJWT.encode returns, decoded without verification and without expectations.
use refactoring_pyjwt.Prelude.{
  String, Bool, true, false, ◌&&◌, Option, none, some, [], Bytes, ◌≡◌, refl,
}
use refactoring_pyjwt.Prelude.Int.{ℤ}
use refactoring_pyjwt.Exceptions.{Result, ok}
use refactoring_pyjwt.Exceptions.Warned.{warn_removed_kwargs}
use refactoring_pyjwt.Values.{Value, Dict, dict, fields, has}
use refactoring_pyjwt.Text.{encode_utf8}
use refactoring_pyjwt.Text.Octets.{encode_utf8-IsByte}
use refactoring_pyjwt.Utils.Base64.{StrOrBytes}
use refactoring_pyjwt.Algorithms.Keys.{Env, KeyObject}
use refactoring_pyjwt.Jws.Keys.{Key, object}
use refactoring_pyjwt.Jws.Encode.{Encoder, named, dumps_with}
use refactoring_pyjwt.Jws.RoundTrip.{Signs, ReadAs, signing_input, given_headers, token_header}
use refactoring_pyjwt.Jws.RoundTrip.Unverified.{unverified-encode}
use refactoring_pyjwt.Jwt.Options.{PyJwt, FullOptions, Options, no_options, merge_options, overlay}
use refactoring_pyjwt.Jwt.Globals.{no_expectation}
use refactoring_pyjwt.Jwt.Claims.{when, validate_claims, validate_required_claims}
use refactoring_pyjwt.Jwt.Encode.{prepare_payload_claims, encode_payload, encode}
use refactoring_pyjwt.Jwt.Decode.{warn_legacy_verify_mismatch, decode_complete}
use refactoring_pyjwt.Jwt.RoundTrip.{ReadsBack, decode_payload-ReadsBack}

-- {"verify_signature": False}
abbrev pub no_verification : Options
no_verification = record no_options { verify_signature = some false }

when-false : (b : Bool) (m : Result (Unit {0})) → when (b && false) m ≡ ok tt
when-false true m = refl
when-false false m = refl

-- Without required claims every payload passes.
unverified-valid :
    (env : Env) (options : FullOptions) (claims : Dict) (now : ℤ)
    → options.require ≡ []
    → validate_claims env claims (merge_options options (some no_verification)) no_expectation now
      ≡ ok tt
unfolding validate_claims merge_options overlay validate_required_claims
unverified-valid env options claims now h =
    rw (
      h,
      when-false (has "iat" claims),
      when-false (has "nbf" claims),
      when-false (has "exp" claims),
    )

module _ (env : Env) (jwt : PyJwt) (now : ℤ) (payload : Value) (claims : Dict) (key : KeyObject)
    (name : String) (kid : Option String) (encoder : Option Encoder) (sort : Bool)
    (json header_json : String) (header : Dict) (signature : Bytes) (other : Key) where
  -- The token is read without a key.
  pub unverified-decode-encode :
      jwt.options.require ≡ []
      → prepare_payload_claims payload ≡ ok claims
      → dumps_with env encoder false (dict (fields claims)) ≡ ok json
      → ReadsBack env json claims
      → dumps_with env encoder sort (dict (fields (token_header name kid))) ≡ ok header_json
      → ReadAs env header_json header (token_header name kid)
      → Signs env jwt.jws name key (signing_input header_json (encode_utf8 json)) signature
      → (token : String) × ((encode env jwt payload
            (object key)
            (named name)
            (given_headers kid)
            encoder
            sort).0
          ≡ ok token)
        × ((decode_complete env jwt now
              (StrOrBytes.str token)
              other
              none
              (some no_verification)
              none
              none
              no_expectation
              []).0
            ≡ ok (record { payload = claims; header = header; signature = signature }))
  unfolding encode encode_payload decode_complete warn_removed_kwargs warn_legacy_verify_mismatch
  unverified-decode-encode optional prepared dumped read header_dumped header_read signs =
      let (token, encoded, decoded) =
        unverified-encode env jwt.jws name kid key encoder sort (encode_utf8 json) signature
          header_json header other none none signs header_dumped header_read
          (encode_utf8-IsByte json) in
      (
        token,
        rw (prepared, dumped, encoded),
        rw (
          decoded,
          decode_payload-ReadsBack env json claims read,
          unverified-valid env jwt.options claims now optional,
        ),
      )
