-- ===== src/Jwt/RoundTrip/Published.antt =====
-- PyJWT.encode, and PyJWT.decode of what it returns with a PyJWK.
use refactoring_pyjwt.Prelude.{String, Bool, false, Option, none, some, [], Bytes, str_eq, ◌≡◌}
use refactoring_pyjwt.Prelude.Int.{ℤ}
use refactoring_pyjwt.Exceptions.{ok}
use refactoring_pyjwt.Exceptions.Warned.{warn_removed_kwargs}
use refactoring_pyjwt.Values.{Value, Dict, dict, fields}
use refactoring_pyjwt.Text.{encode_utf8}
use refactoring_pyjwt.Text.Octets.{encode_utf8-IsByte}
use refactoring_pyjwt.Utils.Base64.{StrOrBytes}
use refactoring_pyjwt.Algorithms.Keys.{Env, KeyObject}
use refactoring_pyjwt.Jwk.{PyJwk}
use refactoring_pyjwt.Jws.Keys.{object, jwk}
use refactoring_pyjwt.Jws.Encode.{Encoder, named, dumps_with}
use refactoring_pyjwt.Jws.RoundTrip.{Signs, ReadAs, signing_input, given_headers, token_header}
use refactoring_pyjwt.Jws.RoundTrip.Published.{Accepts, published-encode}
use refactoring_pyjwt.Jwt.Options.{PyJwt, Options, requested, merge_options}
use refactoring_pyjwt.Jwt.Claims.{Expected, validate_claims}
use refactoring_pyjwt.Jwt.Encode.{prepare_payload_claims, encode_payload, encode}
use refactoring_pyjwt.Jwt.Decode.{
  signature_only, warn_legacy_verify_mismatch, decode_complete, decode,
}
use refactoring_pyjwt.Jwt.RoundTrip.{ReadsBack, decode_payload-ReadsBack}

module _ (env : Env) (jwt : PyJwt) (now : ℤ) (payload : Value) (claims : Dict) (key : KeyObject)
    (name : String) (kid : Option String) (encoder : Option Encoder) (sort : Bool)
    (json header_json : String) (header : Dict) (signature : Bytes) (k : PyJwk)
    (options : Option Options) (expected : Expected) where
  -- The token is decoded with the key.
  pub published-decode-encode :
      prepare_payload_claims payload ≡ ok claims
      → dumps_with env encoder false (dict (fields claims)) ≡ ok json
      → ReadsBack env json claims
      → dumps_with env encoder sort (dict (fields (token_header name kid))) ≡ ok header_json
      → ReadAs env header_json header (token_header name kid)
      → Signs env jwt.jws name key (signing_input header_json (encode_utf8 json)) signature
      → Accepts env jwt.jws name k (signing_input header_json (encode_utf8 json)) signature
      → str_eq name "" ≡ false
      → validate_claims env claims (merge_options jwt.options options) expected now ≡ ok tt
      → (token : String) × ((encode env jwt payload
            (object key)
            (named name)
            (given_headers kid)
            encoder
            sort).0
          ≡ ok token)
        × ((decode env jwt now (StrOrBytes.str token) (jwk k) none options none none expected []).0
            ≡ ok claims)
  unfolding encode encode_payload decode decode_complete warn_removed_kwargs
      warn_legacy_verify_mismatch
  published-decode-encode prepared dumped read header_dumped header_read signs accepts nonempty
        valid =
      let (token, encoded, decoded) =
        published-encode env jwt.jws name kid key encoder sort (encode_utf8 json) signature
          header_json header k (some (signature_only (requested options))) signs accepts nonempty
          header_dumped header_read (encode_utf8-IsByte json) in
      (
        token,
        rw (prepared, dumped, encoded),
        rw (decoded, decode_payload-ReadsBack env json claims read, valid),
      )
