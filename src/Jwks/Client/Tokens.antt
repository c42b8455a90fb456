-- ===== src/Jwks/Client/Tokens.antt =====
-- The key for a token that PyJWT.encode has made.
use refactoring_pyjwt.Prelude.{
  String, Bool, false, Option, none, some, [], Bytes, str_eq, ◌≡◌, refl, sym, ◌∙◌,
}
use refactoring_pyjwt.Prelude.Int.{ℤ}
use refactoring_pyjwt.Exceptions.{ok, ok-injective}
use refactoring_pyjwt.Values.{Value, Dict, dict, fields, get}
use refactoring_pyjwt.Text.{encode_utf8}
use refactoring_pyjwt.Utils.Base64.{StrOrBytes}
use refactoring_pyjwt.Algorithms.Keys.{Env, KeyObject}
use refactoring_pyjwt.Jwk.{PyJwk}
use refactoring_pyjwt.Jws.Keys.{object, jwk}
use refactoring_pyjwt.Jws.RoundTrip.Published.{Accepts}
use refactoring_pyjwt.Jwt.RoundTrip.Published.{published-decode-encode}
use refactoring_pyjwt.Jwt.Claims.{Expected, validate_claims}
use refactoring_pyjwt.Jwt.Decode.{decode}
use refactoring_pyjwt.Jws.Encode.{Encoder, named, dumps_with}
use refactoring_pyjwt.Jws.RoundTrip.{Signs, ReadAs, signing_input, given_headers, token_header}
use refactoring_pyjwt.Jwt.Options.{PyJwt, Options, merge_options}
use refactoring_pyjwt.Jwt.Globals.{no_key_given}
use refactoring_pyjwt.Jwt.Encode.{prepare_payload_claims, encode}
use refactoring_pyjwt.Jwt.RoundTrip.{ReadsBack}
use refactoring_pyjwt.Jwt.RoundTrip.Unverified.{unverified-decode-encode}
use refactoring_pyjwt.Jwks.Calls.{Web, World}
use refactoring_pyjwt.Jwks.Client.{PyJwkClient}
use refactoring_pyjwt.Jwks.Client.Lookup.{kid_of, get_signing_key, get_signing_key_from_jwt}

module _ (env : Env) (web : Web) where
  kid_of-token_header :
      (name : String) (kid : Option String)
      → kid_of env web (get "kid" (token_header name kid)) ≡ kid
  unfolding get
  kid_of-token_header name none = refl
  kid_of-token_header name (some kid) = refl

  module _ (jwt : PyJwt) (time : ℤ) (payload : Value) (claims : Dict) (key : KeyObject)
      (name : String) (kid : Option String) (encoder : Option Encoder) (sort : Bool)
      (json header_json : String) (header : Dict) (signature : Bytes) (w : World PyJwkClient) where
    -- The token is read without a key, and whatever its claims are.
    get_signing_key_from_jwt-encode :
        jwt.options.require ≡ []
        → prepare_payload_claims payload ≡ ok claims
        → dumps_with env encoder false (dict (fields claims)) ≡ ok json
        → ReadsBack env json claims
        → dumps_with env encoder sort (dict (fields (token_header name kid))) ≡ ok header_json
        → ReadAs env header_json header (token_header name kid)
        → Signs env jwt.jws name key (signing_input header_json (encode_utf8 json)) signature
        → (token : String) × ((encode env jwt payload
              (object key)
              (named name)
              (given_headers kid)
              encoder
              sort).0
            ≡ ok token)
          × (get_signing_key_from_jwt env web jwt time (StrOrBytes.str token) w
              ≡ get_signing_key env web kid w)
    unfolding get_signing_key_from_jwt
    get_signing_key_from_jwt-encode optional prepared dumped read header_dumped header_read signs =
        let (token, encoded, decoded) =
          unverified-decode-encode env jwt time payload claims key name kid encoder sort json
            header_json header signature no_key_given optional prepared dumped read header_dumped
            header_read signs in
        (token, encoded, rw (decoded, header_read.same "kid", kid_of-token_header name kid))

    -- The way of a token from its issuer to a reader that knows the endpoint only. What PyJWT.encode
    -- makes with the given kid, or without one, and with a key with which the named algorithm signs, is a
    -- token for which get_signing_key_from_jwt returns what get_signing_key returns for the kid. If that
    -- is a key that is bound to the named algorithm and with which the algorithm accepts the signature,
    -- PyJWT.decode with this key and without a list of algorithms gives back the prepared claims, where
    -- they meet the conditions of the call. One PyJWT object makes and reads the token, it requires no
    -- claims, the JSON text of the claims is read as it was written, and that of the header, with its keys
    -- sorted or not, as a dict with the same items, in any order.
    pub decode-get_signing_key_from_jwt :
        (now : ℤ) (options : Option Options) (expected : Expected) (found : PyJwk)
        (v : World PyJwkClient)
        → jwt.options.require ≡ []
        → prepare_payload_claims payload ≡ ok claims
        → dumps_with env encoder false (dict (fields claims)) ≡ ok json
        → ReadsBack env json claims
        → dumps_with env encoder sort (dict (fields (token_header name kid))) ≡ ok header_json
        → ReadAs env header_json header (token_header name kid)
        → Signs env jwt.jws name key (signing_input header_json (encode_utf8 json)) signature
        → Accepts env jwt.jws name found (signing_input header_json (encode_utf8 json)) signature
        → str_eq name "" ≡ false
        → validate_claims env claims (merge_options jwt.options options) expected now ≡ ok tt
        → get_signing_key env web kid w ≡ (ok found, v)
        → (token : String) × ((encode env jwt payload
              (object key)
              (named name)
              (given_headers kid)
              encoder
              sort).0
            ≡ ok token)
          × (get_signing_key_from_jwt env web jwt time (StrOrBytes.str token) w ≡ (ok found, v))
          × ((decode env jwt now
                (StrOrBytes.str token)
                (jwk found)
                none
                options
                none
                none
                expected
                []).0
              ≡ ok claims)
    decode-get_signing_key_from_jwt now options expected found v optional prepared dumped read
          header_dumped header_read signs accepts nonempty valid got =
        let (token, encoded, key_found) =
          get_signing_key_from_jwt-encode optional prepared dumped read header_dumped header_read
            signs in
        let (again, encoded_again, decoded) =
          published-decode-encode env jwt now payload claims key name kid encoder sort json
            header_json header signature found options expected prepared dumped read header_dumped
            header_read signs accepts nonempty valid in
        let same : again ≡ token = ok-injective (sym encoded_again ∙ encoded) in
        (token, encoded, key_found ∙ got, rw (sym same) decoded)
